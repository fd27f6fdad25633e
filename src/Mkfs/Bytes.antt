-- ===== src/Mkfs/Bytes.antt =====
-- The files of an image that mkfs.c writes: where the bytes of each file lie, and what makes the blocks
-- of the files apart.
use notux_kernel.Base.{ℕ, ◌+◌, ◌-◌, ◌*◌, ◌/◌, ◌%◌, ◌<◌, ◌≤◌, ◌≡◌, ◌≢◌, ltb, ◌==◌, if◌then◌else◌}
use notux_kernel.Mkfs.{Sector, Image, nmeta, word}

-- Byte `k` of a data block, of block `f` under a table, and of block `f` under a table of tables; 0
-- where there is no block.
abbrev pub peek1 : (ℕ → Sector) → (b k : ℕ) → ℕ
peek1 disk b k = if b == 0 then 0 else disk b k

abbrev pub peek2 : (ℕ → Sector) → (b f k : ℕ) → ℕ
peek2 disk b f k = if b == 0 then 0 else peek1 disk (word (disk b) f) k

abbrev pub peek3 : (ℕ → Sector) → (b f k : ℕ) → ℕ
peek3 disk b f k = if b == 0 then 0 else peek2 disk (word (disk b) (f / 128)) (f % 128) k

-- Byte `k` of block `f` of a file with these addresses, as the file system of the kernel reads it.
unfoldable pub block_byte : (ℕ → Sector) → (addrs : ℕ → ℕ) → (f k : ℕ) → ℕ
block_byte disk addrs f k =
    if ltb f 12
    then peek1 disk (addrs f) k
    else if ltb f 140
    then peek2 disk (addrs 12) (f - 12) k
    else peek3 disk (addrs 13) (f - 140) k

abbrev pub file_byte : (ℕ → Sector) → (addrs : ℕ → ℕ) → (p : ℕ) → ℕ
file_byte disk addrs p = block_byte disk addrs (p / 512) (p % 512)

-- The addresses of each inode.
abbrev pub View : Type 0
View = ℕ → ℕ → ℕ

-- What a block is used for: 1 for data, 2 for a table, 3 for a table of tables, 0 for nothing; whose it
-- is; and the first block of the file that it leads to.
pub record Use : Type 0 where
  pub level : ℕ → ℕ
  pub owner : ℕ → ℕ
  pub start : ℕ → ℕ

abbrev pub root_level : ℕ → ℕ
root_level i = if ltb i 12 then 1 else if i == 12 then 2 else 3

abbrev pub root_start : ℕ → ℕ
root_start i = if ltb i 12 then i else if i == 12 then 12 else 140

abbrev pub span : ℕ → ℕ
span level = if level == 2 then 1 else 128

-- Inodes that fit into the blocks for them.
abbrev pub inode_limit : ℕ
inode_limit = 203

-- Every address leads to a block of the right use, after the metadata and below the next free one; the
-- free ones are zero.
pub record IsFs (s : Image) (v : View) (u : Use) : Type 0 where
  pub null : u.level 0 ≡ 0
  pub range : (b : ℕ) → u.level b ≢ 0 → (nmeta ≤ b) × (b < s.freeblock)
  pub after_meta : nmeta ≤ s.freeblock
  pub fresh : (b k : ℕ) → s.freeblock ≤ b → s.disk b k ≡ 0
  pub roots :
      (n i : ℕ)
      → n < inode_limit
      → i < 14
      → v n i ≢ 0
      → (u.level (v n i) ≡ root_level i) × (u.owner (v n i) ≡ n) × (u.start (v n i) ≡ root_start i)
  pub children :
      (t i : ℕ)
      → 1 < u.level t
      → i < 128
      → word (s.disk t) i ≢ 0
      → (u.level (word (s.disk t) i) + 1 ≡ u.level t)
        × (u.owner (word (s.disk t) i) ≡ u.owner t)
        × (u.start (word (s.disk t) i) ≡ u.start t + i * span (u.level t))
