-- ===== src/Pmm.antt =====
-- kernel/pmm.c: the physical page allocator, a bitmap with one bit for each of the 32768 pages of
-- the first 128 MB. `static uint8_t bitmap[]` is the function from a byte's index to the byte; the
-- guards on `page_index` keep every index below 4096. A pointer is its address, NULL is 0.
pub mod Bitmap
pub mod Region
pub mod Alloc
pub mod Refine
mod Examples
use notux_kernel.Base.{
  ℕ, ◌+◌, ◌-◌, ◌*◌, ◌/◌, ◌%◌, ◌^◌, Bool, true, false, not, ◌||◌, Option, none, some, ltb, leb, ◌==◌,
  if◌then◌else◌, update, for_loop, find_from,
}
use notux_kernel.Base.Bits.{set_bit, clear_bit, test_bit}

abbrev pub page_size : ℕ
page_size = 4096

abbrev pub max_pages : ℕ
max_pages = 128 * 1024 * 1024 / page_size

abbrev pub Bitmap : Type 0
Bitmap = ℕ → ℕ

pub bitmap_set : Bitmap → ℕ → Bitmap
bitmap_set b page_index =
    if leb max_pages page_index
    then b
    else update b (page_index / 8) (set_bit (b (page_index / 8)) (page_index % 8))

pub bitmap_clear : Bitmap → ℕ → Bitmap
bitmap_clear b page_index =
    if leb max_pages page_index
    then b
    else update b (page_index / 8) (clear_bit (b (page_index / 8)) (page_index % 8))

-- The `int` result, read as the truth value that its callers test.
unfoldable pub bitmap_test : Bitmap → ℕ → Bool
bitmap_test b page_index =
    if leb max_pages page_index then true else test_bit (b (page_index / 8)) (page_index % 8)

pub pmm_init : Bitmap → ℕ → Bitmap
pmm_init b reserved_pages =
    let zeroed = for_loop (λ i b. update b i 0) 0 (max_pages / 8) b in
    let reserved = if ltb max_pages reserved_pages then max_pages else reserved_pages in
    for_loop (λ i b. bitmap_set b i) 0 reserved zeroed

-- The sum is a `uint64_t`, and wraps.
pub pmm_reserve_region : Bitmap → ℕ → ℕ → Bitmap
pmm_reserve_region b phys_start phys_end =
    let start_page = phys_start / page_size in
    let rounded = (phys_end + page_size - 1) % 2 ^ 64 / page_size in
    let end_page = if ltb max_pages rounded then max_pages else rounded in
    if leb phys_end phys_start
    then b
    else (if leb max_pages start_page
        then b
        else for_loop (λ i b. bitmap_set b i) start_page (end_page - start_page) b)

unfoldable pub pmm_alloc_page : Bitmap → ℕ × Bitmap
pmm_alloc_page b = elim (find_from max_pages 0 (λ i. not (bitmap_test b i))) [
  | some i ↦ (i * page_size, bitmap_set b i)
  | none ↦ (0, b)
]

pub pmm_free_page : Bitmap → ℕ → Bitmap
pmm_free_page b ptr =
    if ptr == 0
    then b
    else (if not (ptr % page_size == 0)
        then b
        else (if leb max_pages (ptr / page_size) then b else bitmap_clear b (ptr / page_size)))
