-- ===== src/Boot/Reserved.antt =====
-- kernel() of kernel/onion.c: the pages in use before the first allocation.
use notux_kernel.Base.{
  ℕ, ◌+◌, ◌*◌, ◌/◌, ◌%◌, ◌^◌, ◌<◌, ◌≡◌, refl, ◌∙◌, arith, Bool, true, false, Bool-cases, inl, inr,
  List, [], ◌∷◌, length, ltb, leb, ◌==◌, ◌||◌, ◌&&◌, not,
}
use notux_kernel.Pmm.{Bitmap, bitmap_test, max_pages, pmm_init, pmm_reserve_region}
use notux_kernel.Pmm.Bitmap.{IsBytes}
use notux_kernel.Pmm.Region.{overlaps, pmm_init_lem, pmm_reserve_region_lem}
use notux_kernel.Boot.{
  MultibootMod, info_size, mod_size, kernel_pages, reserve_modules, reserve_boot,
}

-- The page holds a byte of one of the modules.
unfoldable pub in_modules : List MultibootMod → ℕ → Bool
in_modules [] j = false
in_modules (x ∷ xs) j = overlaps x.mod_start x.mod_end j || in_modules xs j

-- The fields are of 32 bits.
pub data AreModules : List MultibootMod → Type 0 where
  none_left : AreModules []
  one_more :
      {x : MultibootMod} {xs : List MultibootMod}
      → x.mod_end < 2 ^ 32
      → AreModules xs
      → AreModules (x ∷ xs)

reserve_modules_lem :
    (list : List MultibootMod) (b : Bitmap)
    → AreModules list
    → IsBytes b
    → IsBytes (reserve_modules list b)
      × ((j : ℕ) → bitmap_test (reserve_modules list b) j ≡ (bitmap_test b j || in_modules list j))
unfolding reserve_modules in_modules
reserve_modules_lem [] b none_left h = (h, λ j. ground arith)
reserve_modules_lem (x ∷ xs) b (one_more small rest) h =
    elim (Bool-cases (ltb x.mod_start x.mod_end)) [
      | inl some ↦
          let r = pmm_reserve_region_lem b x.mod_start x.mod_end h (omega (arith, small)) in
          let later =
            reserve_modules_lem xs (pmm_reserve_region b x.mod_start x.mod_end) rest r.0 in
          rw some (later.0, λ j. later.1 j ∙ ground (arith, r.1 j))
      | inr empty ↦
          let later = reserve_modules_lem xs b rest h in
          rw empty (later.0, λ j. later.1 j ∙ ground arith)
    ]

in_modules-none : (list : List MultibootMod) (j : ℕ) → length list ≡ 0 → in_modules list j ≡ false
unfolding in_modules
in_modules-none [] j e = refl
in_modules-none (x ∷ xs) j e = absurd (omega (arith, e))

-- What the page holds that the kernel keeps.
abbrev pub is_kept : (kernel_end mb_info mods : ℕ) → List MultibootMod → (j : ℕ) → Bool
is_kept kernel_end mb_info mods list j =
    ltb (j * 4096) kernel_end
    || overlaps mb_info (mb_info + info_size) j
    || not (mods == 0) && (overlaps mods (mods + mod_size * length list) j || in_modules list j)

-- When the kernel and what the boot loader left lie below 4 GiB, exactly these pages are in use before
-- the first allocation: those with a byte of the kernel or below it, of the multiboot information, of
-- the list of modules or of a module, and those that do not exist.
pub reserve_boot_lem :
    (b : Bitmap) (kernel_end mb_info mods : ℕ) (list : List MultibootMod)
    → IsBytes b
    → kernel_end < 2 ^ 32
    → mb_info < 2 ^ 32
    → mods < 2 ^ 32
    → length list < 2 ^ 32
    → AreModules list
    → IsBytes (reserve_boot b kernel_end mb_info mods list)
      × ((j : ℕ)
          → bitmap_test (reserve_boot b kernel_end mb_info mods list) j
            ≡ (is_kept kernel_end mb_info mods list j || leb max_pages j))
unfolding reserve_boot
reserve_boot_lem b kernel_end mb_info mods list h hk hi hm hl are =
    let info_end : (mb_info + info_size) % 2 ^ 64 ≡ mb_info + info_size = omega arith in
    let list_end : (mods + length list * mod_size) % 2 ^ 64 ≡ mods + mod_size * length list =
      omega arith in
    let pages : kernel_pages kernel_end ≡ (kernel_end + 4095) / 4096 = omega arith in
    let kernel : (j : ℕ) → ltb j (kernel_pages kernel_end) ≡ ltb (j * 4096) kernel_end =
      λ j. rw pages (ground arith) in
    let one = pmm_init_lem b (kernel_pages kernel_end) h in
    let two =
      pmm_reserve_region_lem (pmm_init b (kernel_pages kernel_end)) mb_info (mb_info + info_size)
        one.0 (omega arith) in
    let b2 =
      pmm_reserve_region (pmm_init b (kernel_pages kernel_end)) mb_info (mb_info + info_size) in
    let three =
      pmm_reserve_region_lem b2 mods (mods + mod_size * length list) two.0 (omega arith) in
    let four =
      reserve_modules_lem list (pmm_reserve_region b2 mods (mods + mod_size * length list)) are
        three.0 in
    let base : (j : ℕ)
        → bitmap_test (pmm_init b (kernel_pages kernel_end)) j
          ≡ (ltb (j * 4096) kernel_end || leb max_pages j) =
      λ j. rw (kernel j) at (one.1 j) in
    let without : (j : ℕ)
        → (mods == 0 || length list == 0) ≡ true
        → (bitmap_test (pmm_init b (kernel_pages kernel_end)) j
            || overlaps mb_info (mb_info + info_size) j)
          ≡ (is_kept kernel_end mb_info mods list j || leb max_pages j) =
      λ j nothing. ground (arith, base j, nothing, in_modules-none list j) in
    elim (Bool-cases (mods == 0 || length list == 0)) [
      | inl nothing ↦ rw (info_end, nothing) (two.0, λ j. two.1 j ∙ without j nothing)
      | inr something ↦
          rw (info_end, something, list_end)
            (four.0, λ j. four.1 j ∙ ground (arith, three.1 j, two.1 j, base j, something))
    ]
