-- ===== src/Idt.antt =====
-- kernel/idt.c: the table of interrupt gates. The addresses of the assembly routines are an argument;
-- the printing of a page fault is left out.
pub mod Vectors
mod Examples
use notux_kernel.Base.{ℕ, ◌+◌, ◌-◌, ◌*◌, ◌/◌, ◌%◌, ◌^◌, ltb, ◌==◌, if◌then◌else◌, for_loop, update}

-- struct ientry
pub record Gate : Type 0 where
  pub base_low : ℕ
  pub sel : ℕ
  pub ist : ℕ
  pub flags : ℕ
  pub base_mid : ℕ
  pub base_high : ℕ
  pub reserved : ℕ

-- The table, and what `lidt` is given: the limit and the address of the table.
pub record Idt : Type 0 where
  pub idt : ℕ → Gate
  pub ip_limit : ℕ
  pub ip_base : ℕ

-- isr0 to isr31, timer_handler_asm, and irq1 to irq15.
pub record Routines : Type 0 where
  pub isr : ℕ → ℕ
  pub timer_handler_asm : ℕ
  pub irq : ℕ → ℕ

pub iset : Idt → (num base sel flags : ℕ) → Idt
iset t num base sel flags = record t {
  idt = update t.idt num (record {
    base_low = base % 2 ^ 16;
    sel = sel;
    ist = 0;
    flags = flags;
    base_mid = base / 2 ^ 16 % 2 ^ 16;
    base_high = base / 2 ^ 32 % 2 ^ 32;
    reserved = 0;
  });
}

-- The routine in the call of iset for a vector below 48.
abbrev pub routine : Routines → ℕ → ℕ
routine r v = if ltb v 32 then r.isr v else if v == 32 then r.timer_handler_asm else r.irq (v - 32)

-- The calls of iset for 0 to 47, in order; `at` is the address of the table.
pub iinit : Routines → (at : ℕ) → Idt → Idt
iinit r at t =
    for_loop (λ v t. iset t v (routine r v) 0x08 0x8E) 0 48
      (record t { ip_limit = 16 * 256 - 1; ip_base = at })
