-- ===== src/Paging.antt =====
-- kernel/paging.c: the page tables of the boot, which map the first 4 GiB to themselves in pages of
-- 2 MiB. What is printed is left out.
pub mod Identity
mod Examples
use Prim.Native.Nat.{bit_or}
use notux_kernel.Base.{ℕ, ◌+◌, ◌*◌, ◌-◌, ◌^◌, for_loop}
use notux_kernel.Machine.{Machine, write}

-- Where the linker puts the static tables.
pub record Tables : Type 0 where
  pub pml4_table : ℕ
  pub pdp_table : ℕ
  pub pd_tables : ℕ

-- PAGE_PRESENT | PAGE_WRITE | PAGE_USER, and PAGE_HUGE besides.
abbrev pub page_flags : ℕ
page_flags = 7

abbrev pub huge_flags : ℕ
huge_flags = 0x87

-- `pd_tables[i]`
abbrev pub pd_table : Tables → ℕ → ℕ
pd_table l i = l.pd_tables + 4096 * i

pub clear_tables : Tables → Machine → Machine
clear_tables l m =
    for_loop (λ i m. write (write m (l.pml4_table + 8 * i) 0) (l.pdp_table + 8 * i) 0) 0 512 m

-- The inner loop.
pub fill_pd : Tables → ℕ → Machine → Machine
fill_pd l i m =
    for_loop
      (λ j m. write m (pd_table l i + 8 * j) (bit_or (i * 0x4000_0000 + j * 0x20_0000) huge_flags))
      0 512 m

pub paging_init : Tables → Machine → Machine
paging_init l m =
    let linked = write (clear_tables l m) l.pml4_table (bit_or l.pdp_table page_flags) in
    let filled =
      for_loop
        (λ i m. fill_pd l i (write m (l.pdp_table + 8 * i) (bit_or (pd_table l i) page_flags))) 0 4
        linked in
    record filled { cr3 = l.pml4_table }

-- CR0 after the call. `1 << 31` is a negative `int`, and is widened with its sign.
pub paging_enable : ℕ → ℕ
paging_enable cr0 = bit_or cr0 (2 ^ 64 - 2 ^ 31)
