-- ===== src/Ramfs.antt =====
-- kernel/ramfs.c, and kernel/vfs.c, which only passes its calls on: a read-only list of files in the
-- image that the boot loader left in memory.
pub mod Lookup
mod Examples
use notux_kernel.Base.{
  ℕ, zero, suc, ◌+◌, ◌*◌, Bool, true, false, not, ◌&&◌, Option, none, some, ◌==◌, if◌then◌else◌,
  find_from,
}
use notux_kernel.Elf.{load32}

-- The image, the address at which it lies (0 before ramfs_init), and its header.
pub record Ramfs : Type 0 where
  pub image : ℕ → ℕ
  pub disk : ℕ
  pub magic : ℕ
  pub file_count : ℕ

abbrev pub ramfs_magic : ℕ
ramfs_magic = 0x52414D46

-- Where entry `i` begins in the image: 32 bytes of name, the offset, the size.
abbrev pub entry_at : ℕ → ℕ
entry_at i = 8 + 40 * i

-- The comparison of two C strings. The code has no bound; `limit` is a number of bytes after which
-- the model gives up and answers false.
unfoldable pub streq : ℕ → (ℕ → ℕ) → ℕ → (ℕ → ℕ) → ℕ → Bool
streq zero s a t b = false
streq (suc limit) s a t b =
    let rest = streq limit s (a + 1) t (b + 1) in
    if not (s a == 0) && s a == t b then rest else s a == 0 && t b == 0

pub ramfs_init : (ℕ → ℕ) → ℕ → Ramfs
ramfs_init image disk_image = record {
  image = image;
  disk = disk_image;
  magic = load32 image 0;
  file_count = load32 image 4;
}

-- The index of the first file of that name; none is -1. The name is a C string in `names`.
pub ramfs_open : ℕ → Ramfs → (ℕ → ℕ) → ℕ → Option ℕ
ramfs_open limit fs names name =
    if fs.disk == 0
    then none
    else if not (fs.magic == ramfs_magic)
    then none
    else find_from fs.file_count 0 (λ i. streq limit fs.image (entry_at i) names name)

pub ramfs_size : Ramfs → Option ℕ → ℕ
ramfs_size fs none = 0
ramfs_size fs (some fd) = load32 fs.image (entry_at fd + 36)

-- The offset of the file's bytes in the image; none is NULL.
pub ramfs_data : Ramfs → Option ℕ → Option ℕ
ramfs_data fs none = none
ramfs_data fs (some fd) = some (load32 fs.image (entry_at fd + 32))
