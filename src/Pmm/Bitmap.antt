-- ===== src/Pmm/Bitmap.antt =====
-- The three bitmap primitives of kernel/pmm.c, on whole bitmaps.
use notux_kernel.Base.{ℕ, ◌/◌, ◌%◌, ◌<◌, ◌≤◌, ◌≡◌, true, ◌||◌, ◌&&◌, not, arith, ◌==◌}
use notux_kernel.Base.Bits.{set_bit-lt, clear_bit-lt, test_bit-set_bit, test_bit-clear_bit}
use notux_kernel.Pmm.{Bitmap, max_pages, bitmap_set, bitmap_clear, bitmap_test}

-- Every cell holds a byte.
abbrev pub IsBytes : Bitmap → Type 0
IsBytes b = (i : ℕ) → b i < 256

pub bitmap_set-IsBytes : (b : Bitmap) (p : ℕ) → IsBytes b → IsBytes (bitmap_set b p)
unfolding bitmap_set
bitmap_set-IsBytes b p h i = ground (arith, h i, h (p / 8), set_bit-lt (b (p / 8)) (p % 8))

pub bitmap_clear-IsBytes : (b : Bitmap) (p : ℕ) → IsBytes b → IsBytes (bitmap_clear b p)
unfolding bitmap_clear
bitmap_clear-IsBytes b p h i = ground (arith, h i, h (p / 8), clear_bit-lt (b (p / 8)) (p % 8))

pub bitmap_test-bitmap_set :
    (b : Bitmap) (p q : ℕ)
    → IsBytes b
    → bitmap_test (bitmap_set b p) q ≡ (bitmap_test b q || p == q)
unfolding bitmap_set bitmap_test
bitmap_test-bitmap_set b p q h =
    ground (arith, h (p / 8), test_bit-set_bit (b (p / 8)) (p % 8) (q % 8))

pub bitmap_test-bitmap_clear :
    (b : Bitmap) (p q : ℕ)
    → IsBytes b
    → p < max_pages
    → bitmap_test (bitmap_clear b p) q ≡ (bitmap_test b q && not (p == q))
unfolding bitmap_clear bitmap_test
bitmap_test-bitmap_clear b p q h lt =
    ground (arith, h (p / 8), test_bit-clear_bit (b (p / 8)) (p % 8) (q % 8))

-- Beyond the last page the test says in use.
pub bitmap_test-beyond : (b : Bitmap) (q : ℕ) → max_pages ≤ q → bitmap_test b q ≡ true
unfolding bitmap_test
bitmap_test-beyond b q h = ground arith
