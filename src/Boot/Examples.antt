-- ===== src/Boot/Examples.antt =====
-- kernel() of kernel/onion.c with a kernel of 2 MiB and one module after it.
use notux_kernel.Base.{ℕ, ◌≡◌, arith, List, [], ◌∷◌, leb, ◌||◌}
use notux_kernel.Pmm.{Bitmap, bitmap_test, max_pages}
use notux_kernel.Pmm.Bitmap.{IsBytes}
use notux_kernel.Boot.{MultibootMod, reserve_boot}
use notux_kernel.Boot.Reserved.{is_kept, none_left, one_more, reserve_boot_lem}

abbrev modules : List MultibootMod
modules = record { mod_start = 0x20_0000; mod_end = 0x20_8123 } ∷ []

abbrev garbage : Bitmap
garbage = λ i. 0xAA

reserve_boot_lem_example :
    IsBytes (reserve_boot garbage 0x20_0000 0x9500 0x9600 modules)
    × ((j : ℕ)
        → bitmap_test (reserve_boot garbage 0x20_0000 0x9500 0x9600 modules) j
          ≡ (is_kept 0x20_0000 0x9500 0x9600 modules j || leb max_pages j))
reserve_boot_lem_example =
    reserve_boot_lem garbage 0x20_0000 0x9500 0x9600 modules (λ i. omega arith) (omega arith)
      (omega arith) (omega arith) (omega arith) (one_more (omega arith) none_left)
