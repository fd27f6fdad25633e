-- ===== src/Machine.antt =====
-- The state that the memory code of the kernel works on: physical memory, byte by byte (the kernel
-- runs with it mapped one to one, so that a pointer is its address), the bitmap of pmm.c, the root
-- of the kernel's page tables, and what goes to the processor: CR3, the kernel stack of the
-- TSS, and the addresses that `invlpg` was given, latest first.
pub mod Word
use notux_kernel.Base.{
  ℕ, ◌+◌, ◌-◌, ◌*◌, ◌/◌, ◌%◌, ◌^◌, Bool, ◌&&◌, List, ◌∷◌, ltb, leb, ◌==◌, if◌then◌else◌, update,
}
use notux_kernel.Pmm.{Bitmap, pmm_alloc_page}

pub record Machine : Type 0 where
  pub mem : ℕ → ℕ
  pub bitmap : Bitmap
  pub kernel_pml4 : ℕ
  pub cr3 : ℕ
  pub kernel_stack : ℕ
  pub invalidated : List ℕ

-- The byte `k` of a little-endian word.
abbrev pub byte_of : ℕ → ℕ → ℕ
byte_of v k = v / 256 ^ k % 256

-- `*(uint64_t *)a`
unfoldable pub load64 : (ℕ → ℕ) → ℕ → ℕ
load64 mem a =
    mem a
    + 256 * mem (a + 1)
    + 256 ^ 2 * mem (a + 2)
    + 256 ^ 3 * mem (a + 3)
    + 256 ^ 4 * mem (a + 4)
    + 256 ^ 5 * mem (a + 5)
    + 256 ^ 6 * mem (a + 6)
    + 256 ^ 7 * mem (a + 7)

-- `*(uint64_t *)a = v`
unfoldable pub store64 : (ℕ → ℕ) → ℕ → ℕ → ℕ → ℕ
store64 mem a v x = if leb a x && ltb x (a + 8) then byte_of v (x - a) else mem x

unfoldable pub read : Machine → ℕ → ℕ
read m a = load64 m.mem a

unfoldable pub write : Machine → ℕ → ℕ → Machine
write m a v = record m { mem = store64 m.mem a v }

-- The call of pmm_alloc_page, on the machine.
unfoldable pub alloc_page : Machine → ℕ × Machine
alloc_page m = let (page, b) = pmm_alloc_page m.bitmap in (page, record m { bitmap = b })
