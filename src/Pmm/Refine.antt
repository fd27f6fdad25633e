-- ===== src/Pmm/Refine.antt =====
-- The page allocator of kernel/pmm.c as its callers see it: pages that are reserved at boot, and
-- pages that they own between pmm_alloc_page and pmm_free_page.
use notux_kernel.Base.{
  ℕ, ◌+◌, ◌*◌, ◌/◌, ◌%◌, ◌^◌, ◌<◌, ◌≡◌, ◌≢◌, Bool, true, false, ◌||◌, arith, ltb, leb, update, inl,
  inr, ◌⊎◌,
}
use notux_kernel.Pmm.{
  Bitmap, max_pages, page_size, bitmap_clear, bitmap_test, pmm_init, pmm_reserve_region,
  pmm_alloc_page, pmm_free_page,
}
use notux_kernel.Pmm.Bitmap.{IsBytes, bitmap_clear-IsBytes, bitmap_test-bitmap_clear}
use notux_kernel.Pmm.Region.{overlaps, pmm_init_lem, pmm_reserve_region_lem}
use notux_kernel.Pmm.Alloc.{Allocated, pmm_alloc_page_lem}

-- The allocator's bitmap, with the pages that are reserved (those that do not exist are) and those that
-- callers own.
pub record Pool : Type 0 where
  pub bitmap : Bitmap
  pub reserved : ℕ → Bool
  pub owned : ℕ → Bool

-- One call: pmm_reserve_region of what no caller owns, where the rounding does not wrap, or a call of a
-- caller that frees only what it owns, or an address that the code rejects.
pub data Step : Pool → Pool → Type 0 where
  reserve :
      (p : Pool) (phys_start phys_end : ℕ)
      → phys_end + 4095 < 2 ^ 64
      → ((j : ℕ) → p.owned j ≡ true → overlaps phys_start phys_end j ≡ false)
      → Step p (record p {
        bitmap = pmm_reserve_region p.bitmap phys_start phys_end;
        reserved = λ j. p.reserved j || overlaps phys_start phys_end j;
      })
  take :
      (p : Pool)
      → (pmm_alloc_page p.bitmap).0 ≢ 0
      → Step p (record p {
        bitmap = (pmm_alloc_page p.bitmap).1;
        owned = update p.owned ((pmm_alloc_page p.bitmap).0 / page_size) true;
      })
  exhausted :
      (p : Pool)
      → (pmm_alloc_page p.bitmap).0 ≡ 0
      → Step p (record p { bitmap = (pmm_alloc_page p.bitmap).1 })
  give :
      (p : Pool) (ptr : ℕ)
      → p.owned (ptr / page_size) ≡ true
      → ptr % page_size ≡ 0
      → Step p (record p {
        bitmap = pmm_free_page p.bitmap ptr;
        owned = update p.owned (ptr / page_size) false;
      })
  reject :
      (p : Pool) (ptr : ℕ)
      → (ptr ≡ 0) ⊎ ((ptr % page_size ≢ 0) ⊎ (max_pages * page_size < ptr + 1))
      → Step p (record p { bitmap = pmm_free_page p.bitmap ptr })

pub data Reach (p : Pool) : Pool → Type 0 where
  here : Reach p p
  next : {q r : Pool} → Reach p q → Step q r → Reach p r

-- The pool right after `pmm_init(reserved_pages)`.
abbrev pub booted : Bitmap → ℕ → Pool
booted b reserved_pages = record {
  bitmap = pmm_init b reserved_pages;
  reserved = λ j. ltb j reserved_pages || leb max_pages j;
  owned = λ j. false;
}

-- The pages in use are exactly the reserved and the owned ones, and no page is both.
pub record IsSound (reserved_pages : ℕ) (p : Pool) : Type 0 where
  pub bytes : IsBytes p.bitmap
  pub exact : (j : ℕ) → bitmap_test p.bitmap j ≡ (p.reserved j || p.owned j)
  pub apart : (j : ℕ) → p.owned j ≡ true → p.reserved j ≡ false
  -- What pmm_init reserved still is, with the pages that do not exist.
  pub keeps : (j : ℕ) → (ltb j reserved_pages || leb max_pages j) ≡ true → p.reserved j ≡ true

booted-IsSound : (b : Bitmap) (n : ℕ) → IsBytes b → IsSound n (booted b n)
booted-IsSound b n h =
    let l = pmm_init_lem b n h in
    record { bytes = l.0; exact = λ j. ground (arith, l.1 j); apart = λ j e. cc; keeps = λ j e. e }

take-IsSound :
    (n : ℕ) (p : Pool)
    → 0 < n
    → IsSound n p
    → (pmm_alloc_page p.bitmap).0 ≢ 0
    → Allocated p.bitmap (pmm_alloc_page p.bitmap).0 (pmm_alloc_page p.bitmap).1
take-IsSound n p pos s ne =
    elim (pmm_alloc_page_lem p.bitmap s.bytes (ground (arith, s.exact 0, s.keeps 0))) [
      | inl (full, e) ↦ absurd (ne (rw e))
      | inr (ne, a) ↦ a
    ]

reject-same :
    (b : Bitmap) (ptr : ℕ)
    → (ptr ≡ 0) ⊎ ((ptr % page_size ≢ 0) ⊎ (max_pages * page_size < ptr + 1))
    → pmm_free_page b ptr ≡ b
unfolding pmm_free_page
reject-same b ptr h = ground arith

give-clear :
    (b : Bitmap) (ptr : ℕ)
    → ptr % page_size ≡ 0
    → 0 < ptr / page_size
    → ptr / page_size < max_pages
    → pmm_free_page b ptr ≡ bitmap_clear b (ptr / page_size)
unfolding pmm_free_page
give-clear b ptr aligned pos lt = ground arith

Step-IsSound : (n : ℕ) {p q : Pool} → 0 < n → Step p q → IsSound n p → IsSound n q
Step-IsSound n pos (reserve p from to fits free) s =
    let l = pmm_reserve_region_lem p.bitmap from to s.bytes fits in
    record {
      bytes = l.0;
      exact = λ j. ground (arith, l.1 j, s.exact j);
      apart = λ j e. ground (arith, s.apart j e, free j e);
      keeps = λ j e. ground (arith, s.keeps j e);
    }
Step-IsSound n pos (take p ne) s =
    let a = take-IsSound n p pos s ne in
    let k : ℕ = (pmm_alloc_page p.bitmap).0 / page_size in
    record {
      bytes = a.bytes;
      exact = λ j. ground (arith, a.marks j, s.exact j);
      apart = λ j e. ground (arith, s.apart j, s.exact j, a.lowest.free);
      keeps = s.keeps;
    }
Step-IsSound n pos (exhausted p e) s =
    elim (pmm_alloc_page_lem p.bitmap s.bytes (ground (arith, s.exact 0, s.keeps 0))) [
      | inl (full, same) ↦ rw same s
      | inr (ne, a) ↦ absurd (ne e)
    ]
Step-IsSound n pos (give p ptr mine aligned) s =
    let k : ℕ = ptr / page_size in
    let inside : (0 < k) × (k < max_pages) = ground (arith, s.apart k mine, s.keeps k, s.keeps 0) in
    rw (give-clear p.bitmap ptr aligned inside.0 inside.1) (record {
      bytes = bitmap_clear-IsBytes p.bitmap k s.bytes;
      exact = λ j. ground (
        arith,
        bitmap_test-bitmap_clear p.bitmap k j s.bytes inside.1,
        s.exact j,
        s.apart j,
        s.apart k,
      );
      apart = λ j e. ground (arith, s.apart j);
      keeps = s.keeps;
    })
Step-IsSound n pos (reject p ptr h) s = rw (reject-same p.bitmap ptr h) s

-- After pmm_init(n) with n > 0, and any calls of pmm_reserve_region (on regions of which no caller owns a
-- page, and where rounding the end does not wrap), pmm_alloc_page and pmm_free_page (on pages that
-- the caller owns, or addresses that the code rejects), the pages in use are exactly the reserved
-- ones and those that callers own; no reserved page is owned, and the first n are reserved.
pub Reach-IsSound :
    (b : Bitmap) (reserved_pages : ℕ) {p : Pool}
    → IsBytes b
    → 0 < reserved_pages
    → Reach (booted b reserved_pages) p
    → IsSound reserved_pages p
Reach-IsSound b n h pos here = booted-IsSound b n h
Reach-IsSound b n h pos (next r st) = Step-IsSound n pos st (Reach-IsSound b n h pos r)

-- No page is handed out twice: after pmm_init(n) with n > 0, and any calls of pmm_reserve_region (on
-- regions of which no caller owns a page, and where rounding the end does not wrap), pmm_alloc_page and
-- pmm_free_page (on pages that the caller owns, or addresses that the code rejects), a page that
-- pmm_alloc_page returns is not reserved, is owned by nobody, and is inside the memory that the bitmap
-- covers, behind the first n pages.
pub alloc_is_fresh :
    (b : Bitmap) (reserved_pages : ℕ) {p : Pool}
    → IsBytes b
    → 0 < reserved_pages
    → Reach (booted b reserved_pages) p
    → (pmm_alloc_page p.bitmap).0 ≢ 0
    → (p.owned ((pmm_alloc_page p.bitmap).0 / page_size) ≡ false)
      × (p.reserved ((pmm_alloc_page p.bitmap).0 / page_size) ≡ false)
      × (reserved_pages * page_size < (pmm_alloc_page p.bitmap).0 + 1)
      × ((pmm_alloc_page p.bitmap).0 + page_size < max_pages * page_size + 1)
alloc_is_fresh b n {p} h pos r ne =
    let s = Reach-IsSound b n h pos r in
    let a = take-IsSound n p pos s ne in
    let k : ℕ = (pmm_alloc_page p.bitmap).0 / page_size in
    (
      ground (arith, s.exact k, a.lowest.free),
      ground (arith, s.exact k, a.lowest.free),
      ground (arith, s.exact k, a.lowest.free, a.aligned, s.keeps k),
      omega (arith, a.aligned, a.lowest.below),
    )
