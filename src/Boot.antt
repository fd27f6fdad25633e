-- ===== src/Boot.antt =====
-- kernel() of kernel/onion.c: the physical pages that it keeps from being given out, before anything is
-- allocated. The place of the kernel's end, and what the boot loader left, are arguments.
pub mod Reserved
mod Examples
use notux_kernel.Base.{
  ℕ, ◌+◌, ◌*◌, ◌/◌, ◌%◌, ◌^◌, List, [], ◌∷◌, length, ltb, ◌==◌, ◌||◌, if◌then◌else◌,
}
use notux_kernel.Pmm.{Bitmap, pmm_init, pmm_reserve_region}

-- multiboot_mod_list_t, the fields that are read
pub record MultibootMod : Type 0 where
  pub mod_start : ℕ
  pub mod_end : ℕ

-- The sizes of multiboot_info_t and multiboot_mod_list_t.
abbrev pub info_size : ℕ
info_size = 28

abbrev pub mod_size : ℕ
mod_size = 16

abbrev pub kernel_pages : ℕ → ℕ
kernel_pages kernel_end = (kernel_end + 4095) % 2 ^ 64 / 4096 % 2 ^ 32

-- The loop over the modules.
unfoldable pub reserve_modules : List MultibootMod → Bitmap → Bitmap
reserve_modules [] b = b
reserve_modules (x ∷ xs) b =
    reserve_modules xs
      (if ltb x.mod_start x.mod_end then pmm_reserve_region b x.mod_start x.mod_end else b)

-- `mods` is 0 when the boot loader says that there are no modules.
unfoldable pub reserve_boot : Bitmap → (kernel_end mb_info mods : ℕ) → List MultibootMod → Bitmap
reserve_boot b kernel_end mb_info mods list =
    let b1 = pmm_init b (kernel_pages kernel_end) in
    let b2 = pmm_reserve_region b1 mb_info ((mb_info + info_size) % 2 ^ 64) in
    if mods == 0 || length list == 0
    then b2
    else reserve_modules list
        (pmm_reserve_region b2 mods ((mods + length list * mod_size) % 2 ^ 64))
