-- ===== src/Vmm/Examples.antt =====
-- The theorems on kernel/vmm.c at a concrete machine, whose first page is in use.
use notux_kernel.Base.{ℕ, ◌≡◌, ◌==◌, if◌then◌else◌, [], refl, arith}
use notux_kernel.Base.Bits.{test_bit}
use notux_kernel.Machine.{Machine, read, load64}
use notux_kernel.Pmm.{bitmap_test}
use notux_kernel.Vmm.{vmm_map_page, vmm_unmap_page}
use notux_kernel.Vmm.Tree.{IsTree}
use notux_kernel.Vmm.Unmap.{Unmapped, vmm_unmap_page-Unmapped}
use notux_kernel.Vmm.Refine.{Mapped, vmm_map_page-Mapped}

abbrev machine : Machine
machine = record {
  mem = λ a. 0;
  bitmap = λ i. if i == 0 then 1 else 0;
  kernel_pml4 = 0x1000;
  cr3 = 0x1000;
  kernel_stack = 0;
  invalidated = [];
}

-- Beside the first page, that of the empty root table is in use.
abbrev with_root : Machine
with_root = record machine { bitmap = λ i. if i == 0 then 3 else 0 }

abbrev only_root : ℕ → ℕ
only_root t = if t == 0x1000 then 4 else 0

with_root-IsTree : IsTree with_root 0x1000 only_root (λ t. 0)
unfolding read load64 bitmap_test test_bit
with_root-IsTree = record {
  bytes = λ a. omega arith;
  bitmap_bytes = λ i. ground arith;
  reserved = refl;
  top = refl;
  null = refl;
  aligned = λ t real. ground arith;
  used = λ t real. let e : t ≡ 0x1000 = ground arith in rw e refl;
  child = λ t i up lt present plain. absurd (ground arith);
}

vmm_map_page-Mapped_example :
    Mapped with_root 0x1000 0x40_0000 0x5000 (vmm_map_page with_root 0x1000 0x40_0000 0x5000 7)
vmm_map_page-Mapped_example =
    vmm_map_page-Mapped with_root-IsTree 0x40_0000 0x5000 7 (omega arith) (omega arith)
      (omega arith)

vmm_unmap_page-Unmapped_example :
    Unmapped with_root 0x1000 0x40_0000 (vmm_unmap_page with_root 0x1000 0x40_0000)
vmm_unmap_page-Unmapped_example = vmm_unmap_page-Unmapped with_root-IsTree 0x40_0000 (omega arith)
