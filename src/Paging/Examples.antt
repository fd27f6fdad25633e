-- ===== src/Paging/Examples.antt =====
-- The theorem on kernel/paging.c at concrete places of the tables.
use notux_kernel.Base.{ℕ, ◌≡◌, ◌<◌, ◌^◌, ltb, if◌then◌else◌, [], refl, arith}
use notux_kernel.Machine.{Machine}
use notux_kernel.Paging.{Tables, paging_init}
use notux_kernel.Paging.Identity.{IsPlaced, paging_init-identity}
use notux_kernel.Vmm.{vmm_virt_to_phys}

-- Memory is not zero at the start.
abbrev machine : Machine
machine = record {
  mem = λ a. 0xFF;
  bitmap = λ i. 0;
  kernel_pml4 = 0;
  cr3 = 0;
  kernel_stack = 0;
  invalidated = [];
}

abbrev tables : Tables
tables = record { pml4_table = 0x20_0000; pdp_table = 0x20_1000; pd_tables = 0x20_2000 }

tables-IsPlaced : IsPlaced tables
tables-IsPlaced = record {
  pml4_aligned = refl;
  pdp_aligned = refl;
  pd_aligned = refl;
  pml4_real = omega arith;
  pdp_real = omega arith;
  pd_real = omega arith;
  fits = (omega arith, omega arith);
  apart = omega arith;
  pml4_apart = λ i lt. omega arith;
  pdp_apart = λ i lt. omega arith;
}

paging_init-identity_example :
    ((paging_init tables machine).cr3 ≡ 0x20_0000)
    × ((v : ℕ)
        → v < 2 ^ 48
        → vmm_virt_to_phys (paging_init tables machine) 0x20_0000 v
          ≡ (if ltb v (2 ^ 32) then v else 0))
paging_init-identity_example = paging_init-identity tables tables-IsPlaced machine
