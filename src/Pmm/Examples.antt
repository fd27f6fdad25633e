-- ===== src/Pmm/Examples.antt =====
-- The theorems on kernel/pmm.c at concrete bitmaps, and runs of its functions.
use notux_kernel.Base.{
  ◌+◌, ◌-◌, ◌*◌, ◌/◌, ◌^◌, ◌<◌, ◌≡◌, refl, ◌≢◌, true, false, arith, update, find_from, ◌⊎◌, ◌||◌,
  inl, inr,
}
use notux_kernel.Pmm.{
  Bitmap, max_pages, page_size, bitmap_clear, bitmap_test, pmm_init, pmm_reserve_region,
  pmm_alloc_page, pmm_free_page,
}
use notux_kernel.Base.Bits.{test_bit, clear_bit}
use notux_kernel.Pmm.Bitmap.{IsBytes}
use notux_kernel.Pmm.Region.{
  overlaps, pmm_init_lem, pmm_reserve_region_lem, pmm_reserve_region_wraps,
}
use notux_kernel.Pmm.Alloc.{IsFull, Allocated, pmm_alloc_page_lem, pmm_alloc_page_loses_page_zero}
use notux_kernel.Pmm.Refine.{
  Pool, Reach, here, next, reserve, take, booted, IsSound, Reach-IsSound, alloc_is_fresh,
}

abbrev garbage : Bitmap
garbage i = 255

abbrev empty : Bitmap
empty i = 0

-- Pages 0 to 9 are in use.
abbrev low : Bitmap
low = update (update empty 0 255) 1 3

alloc_takes_ten : (pmm_alloc_page low).0 ≡ 10 * 4096
unfolding pmm_alloc_page find_from bitmap_test test_bit
alloc_takes_ten = refl

free_then_alloc : (pmm_alloc_page (pmm_free_page low 0x3000)).0 ≡ 0x3000
unfolding pmm_alloc_page find_from bitmap_test test_bit pmm_free_page clear_bit bitmap_clear
free_then_alloc = refl

free_rejects : pmm_free_page low 0x3001 ≡ low
unfolding pmm_free_page
free_rejects = refl

garbage-IsBytes : IsBytes garbage
garbage-IsBytes i = omega arith

empty-IsBytes : IsBytes empty
empty-IsBytes i = omega arith

low-IsBytes : IsBytes low
low-IsBytes i = ground arith

pmm_reserve_region_wraps_example : pmm_reserve_region empty 0x1000 (2 ^ 64 - 1) ≡ empty
pmm_reserve_region_wraps_example =
    pmm_reserve_region_wraps empty 0x1000 (2 ^ 64 - 1) (omega arith) (omega arith)

low_zero_used : bitmap_test low 0 ≡ true
unfolding bitmap_test test_bit
low_zero_used = refl

pmm_alloc_page_lem_example :
    (IsFull low × (pmm_alloc_page low ≡ (0, low)))
    ⊎ (((pmm_alloc_page low).0 ≢ 0) × Allocated low (pmm_alloc_page low).0 (pmm_alloc_page low).1)
pmm_alloc_page_lem_example = pmm_alloc_page_lem low low-IsBytes low_zero_used

empty_zero_free : bitmap_test empty 0 ≡ false
unfolding bitmap_test test_bit
empty_zero_free = refl

pmm_alloc_page_loses_page_zero_example :
    ((pmm_alloc_page empty).0 ≡ 0) × (bitmap_test (pmm_alloc_page empty).1 0 ≡ true)
pmm_alloc_page_loses_page_zero_example =
    pmm_alloc_page_loses_page_zero empty empty-IsBytes empty_zero_free

-- Two pages are reserved by pmm_init, and page 16 as a region.
abbrev reserved_too : Pool
reserved_too = record (booted garbage 2) {
  bitmap = pmm_reserve_region (pmm_init garbage 2) 0x10000 0x10010;
  reserved = λ j. (booted garbage 2).reserved j || overlaps 0x10000 0x10010 j;
}

one_region : Reach (booted garbage 2) reserved_too
one_region =
    next here (reserve (booted garbage 2) 0x10000 0x10010 (omega arith) (λ j e. ground arith))

-- The first call of pmm_alloc_page succeeds.
first_succeeds : (pmm_alloc_page reserved_too.bitmap).0 ≢ 0
first_succeeds =
    let l = pmm_init_lem garbage 2 garbage-IsBytes in
    let r = pmm_reserve_region_lem (pmm_init garbage 2) 0x10000 0x10010 l.0 (omega arith) in
    elim (pmm_alloc_page_lem reserved_too.bitmap r.0 (ground (arith, r.1 0, l.1 0))) [
      | inl (full, e) ↦ absurd (ground (arith, full 2, r.1 2, l.1 2))
      | inr (ne, a) ↦ ne
    ]

abbrev after_one : Pool
after_one = record reserved_too {
  bitmap = (pmm_alloc_page reserved_too.bitmap).1;
  owned = update (λ j. false) ((pmm_alloc_page reserved_too.bitmap).0 / page_size) true;
}

one_step : Reach (booted garbage 2) after_one
one_step = next one_region (take reserved_too first_succeeds)

Reach-IsSound_example : IsSound 2 after_one
Reach-IsSound_example = Reach-IsSound garbage 2 garbage-IsBytes (omega arith) one_step

alloc_is_fresh_example :
    (reserved_too.owned ((pmm_alloc_page reserved_too.bitmap).0 / page_size) ≡ false)
    × (reserved_too.reserved ((pmm_alloc_page reserved_too.bitmap).0 / page_size) ≡ false)
    × (2 * page_size < (pmm_alloc_page reserved_too.bitmap).0 + 1)
    × ((pmm_alloc_page reserved_too.bitmap).0 + page_size < max_pages * page_size + 1)
alloc_is_fresh_example =
    alloc_is_fresh garbage 2 garbage-IsBytes (omega arith) one_region first_succeeds
