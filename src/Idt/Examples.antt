-- ===== src/Idt/Examples.antt =====
-- The theorem on kernel/idt.c for routines at concrete addresses.
use notux_kernel.Base.{ℕ, ◌<◌, ◌≤◌, ◌≡◌, arith}
use notux_kernel.Idt.{Gate, Idt, Routines, routine, iinit}
use notux_kernel.Idt.Vectors.{LeadsTo, iinit-LeadsTo}

abbrev no_gate : Gate
no_gate = record {
  base_low = 0;
  sel = 0;
  ist = 0;
  flags = 0;
  base_mid = 0;
  base_high = 0;
  reserved = 0;
}

abbrev empty : Idt
empty = record { idt = λ v. no_gate; ip_limit = 0; ip_base = 0 }

abbrev routines : Routines
routines = record { isr = λ v. 0x10_0000; timer_handler_asm = 0x12_3456; irq = λ v. 0x20_0000 }

iinit-LeadsTo_example :
    ((v : ℕ) → v < 48 → LeadsTo (routine routines v) ((iinit routines 0x30_0000 empty).idt v))
    × ((v : ℕ) → 48 ≤ v → (iinit routines 0x30_0000 empty).idt v ≡ no_gate)
iinit-LeadsTo_example = iinit-LeadsTo routines 0x30_0000 empty (λ v. ground arith)
