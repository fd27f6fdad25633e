-- ===== src/Pmm/Alloc.antt =====
-- pmm_alloc_page and pmm_free_page of kernel/pmm.c.
use mathlib.Core.Path.{subst}
use notux_kernel.Base.{
  ℕ, ◌*◌, ◌/◌, ◌%◌, ◌<◌, ◌≡◌, ◌≢◌, true, false, not, ◌||◌, arith, ◌==◌, find_from-Searched, inl,
  inr, ◌⊎◌,
}
use notux_kernel.Pmm.{Bitmap, max_pages, page_size, bitmap_set, bitmap_test, pmm_alloc_page}
use notux_kernel.Pmm.Bitmap.{
  IsBytes, bitmap_set-IsBytes, bitmap_test-bitmap_set, bitmap_test-beyond,
}

-- `k` is the lowest page that is not in use.
pub record IsLowestFree (b : Bitmap) (k : ℕ) : Type 0 where
  pub below : k < max_pages
  pub free : bitmap_test b k ≡ false
  pub lowest : (j : ℕ) → j < k → bitmap_test b j ≡ true

abbrev pub IsFull : Bitmap → Type 0
IsFull b = (j : ℕ) → bitmap_test b j ≡ true

-- What the allocator does: it takes the lowest free page, or says NULL when every page is in use.
pub alloc-cases :
    (b : Bitmap)
    → ((k : ℕ) × IsLowestFree b k × (pmm_alloc_page b ≡ (k * page_size, bitmap_set b k)))
      ⊎ (IsFull b × (pmm_alloc_page b ≡ (0, b)))
unfolding pmm_alloc_page
alloc-cases b =
    elim (find_from-Searched max_pages 0 max_pages (λ i. not (bitmap_test b i)) (omega arith)) [
      | inl (k, found, below, first) ↦ inl (
        k,
        record {
          below = below;
          free = ground (arith, first.passes);
          lowest = λ j h. ground (arith, first.before j (omega arith) h);
        },
        rw (found, pmm_alloc_page),
      )
      | inr (gone, taken) ↦
          inr (λ j. ground (arith, taken j, bitmap_test-beyond b j), rw (gone, pmm_alloc_page))
    ]

-- What `pmm_alloc_page` promises of its result and of the bitmap that it leaves, when page 0
-- is reserved.
pub record Allocated (b : Bitmap) (ptr : ℕ) (b' : Bitmap) : Type 0 where
  pub bytes : IsBytes b'
  pub aligned : ptr % page_size ≡ 0
  pub in_range : ptr < max_pages * page_size
  pub lowest : IsLowestFree b (ptr / page_size)
  pub marks : (j : ℕ) → bitmap_test b' j ≡ (bitmap_test b j || j == ptr / page_size)

-- With page 0 in use, pmm_alloc_page returns NULL exactly when every page is in use, and then
-- changes nothing. Otherwise the result is the address of the lowest free page, which is
-- aligned and inside the 128 MB, and the bitmap changes by that page alone.
pub pmm_alloc_page_lem :
    (b : Bitmap)
    → IsBytes b
    → bitmap_test b 0 ≡ true
    → ((IsFull b × (pmm_alloc_page b ≡ (0, b)))
        ⊎ (((pmm_alloc_page b).0 ≢ 0) × Allocated b (pmm_alloc_page b).0 (pmm_alloc_page b).1))
pmm_alloc_page_lem b h zero_used = elim (alloc-cases b) [
  | inl (k, low, e) ↦ inr (
      rw e (
        ground (arith, low.free),
        record {
          bytes = bitmap_set-IsBytes b k h;
          aligned = omega arith;
          in_range = omega (arith, low.below);
          lowest = subst (IsLowestFree b) (omega arith) low;
          marks = λ j. ground (arith, bitmap_test-bitmap_set b k j h);
        },
      ))
  | inr (full, e) ↦ inl (full, e)
]

-- If page 0 is free, pmm_alloc_page marks it as used and returns its address, which is NULL:
-- the caller is told that memory is exhausted, and the page is lost.
pub pmm_alloc_page_loses_page_zero :
    (b : Bitmap)
    → IsBytes b
    → bitmap_test b 0 ≡ false
    → ((pmm_alloc_page b).0 ≡ 0) × (bitmap_test (pmm_alloc_page b).1 0 ≡ true)
pmm_alloc_page_loses_page_zero b h free = elim (alloc-cases b) [
  | inl (k, low, e) ↦
      let zero_page : k ≡ 0 = ground (arith, low.lowest 0) in
      rw e (omega arith, ground (arith, bitmap_test-bitmap_set b k 0 h))
  | inr (full, e) ↦ cc (full 0)
]
