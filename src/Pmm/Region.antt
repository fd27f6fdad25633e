-- ===== src/Pmm/Region.antt =====
-- pmm_init and pmm_reserve_region of kernel/pmm.c: which pages they mark.
use notux_kernel.Base.{
  ℕ, ◌+◌, ◌-◌, ◌*◌, ◌/◌, ◌%◌, ◌^◌, ◌≤◌, ◌<◌, ◌≡◌, Bool, ◌||◌, ◌&&◌, arith, ltb, leb, if◌then◌else◌,
  update, ◌∙◌, for_loop, for_loop_inv, Bool-cases, inl, inr,
}
use notux_kernel.Base.Bits.{test_bit-zero}
use notux_kernel.Pmm.{
  Bitmap, max_pages, page_size, bitmap_set, bitmap_test, pmm_init, pmm_reserve_region,
}
use notux_kernel.Pmm.Bitmap.{
  IsBytes, bitmap_set-IsBytes, bitmap_test-bitmap_set, bitmap_test-beyond,
}

-- What a loop of bitmap_set from page `s` on has done when it comes to page `k`.
record Marked (b : Bitmap) (s k : ℕ) (c : Bitmap) : Type 0 where
  bytes : IsBytes c
  tests : (j : ℕ) → bitmap_test c j ≡ (bitmap_test b j || (leb s j && ltb j k))

Marked-bitmap_set :
    (b : Bitmap) (s k : ℕ) (c : Bitmap)
    → s ≤ k
    → Marked b s k c
    → Marked b s (k + 1) (bitmap_set c k)
Marked-bitmap_set b s k c lo m = record {
  bytes = bitmap_set-IsBytes c k m.bytes;
  tests = λ j. ground (arith, bitmap_test-bitmap_set c k j m.bytes, m.tests j);
}

mark_range :
    (b : Bitmap) (n s e : ℕ)
    → IsBytes b
    → s + n ≡ e
    → Marked b s e (for_loop (λ i b. bitmap_set b i) s n b)
mark_range b n s e h p =
    for_loop_inv (λ i b. bitmap_set b i) (Marked b s) e s n b p
      (λ k c lo hi m. Marked-bitmap_set b s k c lo m)
      (record { bytes = h; tests = λ j. ground arith })

-- The first loop of pmm_init clears the whole array.
zeroed : Bitmap → Bitmap
zeroed b = for_loop (λ i b. update b i 0) 0 4096 b

zeroed-lt : (b : Bitmap) (i : ℕ) → i < 4096 → zeroed b i ≡ 0
unfolding zeroed
zeroed-lt b i =
    for_loop_inv (λ i b. update b i 0) (λ k (c : Bitmap). i < k → c i ≡ 0) 4096 0 4096 b
      (omega arith) (λ k c lo hi h lt. ground (arith, h)) (λ lt. absurd (omega arith))

zeroed-IsBytes : (b : Bitmap) → IsBytes b → IsBytes (zeroed b)
unfolding zeroed
zeroed-IsBytes b h =
    for_loop_inv (λ i b. update b i 0) (λ k. IsBytes) 4096 0 4096 b (omega arith)
      (λ k c lo hi p i. ground (arith, p i)) h

bitmap_test-zeroed : (b : Bitmap) (j : ℕ) → bitmap_test (zeroed b) j ≡ leb max_pages j
unfolding bitmap_test
bitmap_test-zeroed b j = ground (arith, zeroed-lt b (j / 8), test_bit-zero (j % 8))

-- After pmm_init(n) the pages in use are exactly those below n; beyond the last page the test says
-- in use. Nothing of the earlier contents is left.
pub pmm_init_lem :
    (b : Bitmap) (reserved_pages : ℕ)
    → IsBytes b
    → IsBytes (pmm_init b reserved_pages)
      × ((j : ℕ)
          → bitmap_test (pmm_init b reserved_pages) j ≡ (ltb j reserved_pages || leb max_pages j))
unfolding pmm_init zeroed
pmm_init_lem b r h =
    let n : ℕ = if ltb max_pages r then max_pages else r in
    let m : Marked (zeroed b) 0 n (for_loop (λ i b. bitmap_set b i) 0 n (zeroed b)) =
      mark_range (zeroed b) n 0 n (zeroed-IsBytes b h) (omega arith) in
    (m.bytes, λ j. ground (arith, m.tests j, bitmap_test-zeroed b j))

-- Page `j` has an address in common with `[phys_start, phys_end)`.
abbrev pub overlaps : ℕ → ℕ → ℕ → Bool
overlaps phys_start phys_end j =
    ltb phys_start phys_end && ltb (j * page_size) phys_end && ltb phys_start ((j + 1) * page_size)

-- `end_page` of pmm_reserve_region.
abbrev last_page : ℕ → ℕ
last_page e =
    let rounded = (e + page_size - 1) % 2 ^ 64 / page_size in
    if ltb max_pages rounded then max_pages else rounded

-- The pages of the loop are those that the region touches.
marked-overlaps :
    (b : Bitmap) (s e j : ℕ)
    → s < e
    → e + 4095 < 2 ^ 64
    → (bitmap_test b j || (leb (s / page_size) j && ltb j (last_page e)))
      ≡ (bitmap_test b j || overlaps s e j)
marked-overlaps b s e j p fits = ground (arith, bitmap_test-beyond b j)

-- pmm_reserve_region marks exactly the pages that the region touches, and no other, whatever
-- the region, if rounding its end up to a page does not leave 64 bits.
pub pmm_reserve_region_lem :
    (b : Bitmap) (phys_start phys_end : ℕ)
    → IsBytes b
    → phys_end + 4095 < 2 ^ 64
    → IsBytes (pmm_reserve_region b phys_start phys_end)
      × ((j : ℕ)
          → bitmap_test (pmm_reserve_region b phys_start phys_end) j
            ≡ (bitmap_test b j || overlaps phys_start phys_end j))
unfolding pmm_reserve_region
pmm_reserve_region_lem b s e h fits =
    let n : ℕ = last_page e - s / page_size in
    let m : s < e
        → s / page_size < max_pages
        → Marked b (s / page_size) (last_page e)
            (for_loop (λ i b. bitmap_set b i) (s / page_size) n b) =
      λ p q. mark_range b n (s / page_size) (last_page e) h (ground arith) in
    elim (Bool-cases (leb e s)) [
      | inl empty ↦ rw empty (h, λ j. ground arith)
      | inr full ↦ elim (Bool-cases (leb max_pages (s / page_size))) [
        | inl beyond ↦ rw (full, beyond) (h, λ j. ground (arith, bitmap_test-beyond b j))
        | inr inside ↦
            let m' = m (ground arith) (ground arith) in
            rw (full, inside)
              (m'.bytes, λ j. m'.tests j ∙ marked-overlaps b s e j (ground arith) fits)
      ]
    ]

-- Where the rounding wraps, pmm_reserve_region marks nothing at all.
pub pmm_reserve_region_wraps :
    (b : Bitmap) (phys_start phys_end : ℕ)
    → phys_end < 2 ^ 64
    → 2 ^ 64 ≤ phys_end + 4095
    → pmm_reserve_region b phys_start phys_end ≡ b
unfolding pmm_reserve_region for_loop
pmm_reserve_region_wraps b s e lt wraps =
    let none_left : last_page e - s / page_size ≡ 0 = ground arith in
    elim (Bool-cases (leb e s)) [
      | inl empty ↦ rw empty
      | inr full ↦ elim (Bool-cases (leb max_pages (s / page_size))) [
        | inl beyond ↦ rw (full, beyond)
        | inr inside ↦ rw (full, inside, none_left)
      ]
    ]
