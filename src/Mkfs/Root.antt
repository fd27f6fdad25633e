-- ===== src/Mkfs/Root.antt =====
-- mkfs.c: a free block that an inode comes to lead to.
use notux_kernel.Base.{ℕ, ◌+◌, ◌-◌, ◌/◌, ◌%◌, ◌^◌, ◌<◌, ◌≡◌, arith, update}
use native.Mathlib.Decide.{ℕ_discrete}
use notux_kernel.Mkfs.{Sector, Image, taken, word}
use notux_kernel.Mkfs.Words.{word-zero}
use notux_kernel.Mkfs.Bytes.{
  peek2, peek3, block_byte, View, Use, root_level, root_start, inode_limit, IsFs,
}

-- The use of one more block.
abbrev pub used : Use → (b level owner start : ℕ) → Use
used u b l n st = record {
  level = update u.level b l;
  owner = update u.owner b n;
  start = update u.start b st;
}

-- A block of zeros leads to zeros.
pub peek2-zero : (disk : ℕ → Sector) (b f k : ℕ) → ((j : ℕ) → disk b j ≡ 0) → peek2 disk b f k ≡ 0
peek2-zero disk b f k z = ground (arith, word-zero (disk b) f z)

pub peek3-zero : (disk : ℕ → Sector) (b f k : ℕ) → ((j : ℕ) → disk b j ≡ 0) → peek3 disk b f k ≡ 0
peek3-zero disk b f k z = ground (arith, word-zero (disk b) (f / 128) z)

module _ (s : Image) (v0 : View) (n : ℕ) (a : ℕ → ℕ) (u : Use) (fs : IsFs s (update v0 n a) u)
    (k : ℕ) (ln : n < inode_limit) (lk : k < 14) (none : a k ≡ 0)
    (room : s.freeblock < 2 ^ 32 - 1) where
  abbrev pub now : View
  now = update v0 n (update a k s.freeblock)

  abbrev pub now_used : Use
  now_used = used u s.freeblock (root_level k) n (root_start k)

  free_unused : u.level s.freeblock ≡ 0
  free_unused = elim (ℕ_discrete (u.level s.freeblock) 0) [
    | yes e ↦ e
    | no ne ↦ absurd (omega (arith, (fs.range s.freeblock ne).1))
  ]

  pub root-IsFs : IsFs (taken s) now now_used
  root-IsFs =
      let bumped : (s.freeblock + 1) % 2 ^ 32 ≡ s.freeblock + 1 = omega arith in
      let free = free_unused in
      record {
        null = ground (arith, fs.null, fs.after_meta);
        range = λ b real. ground (arith, fs.range b, bumped, fs.after_meta);
        after_meta = omega (arith, fs.after_meta, bumped);
        fresh = λ b j le. fs.fresh b j (omega (arith, bumped));
        roots = λ m i lm li real. ground (arith, fs.roots m i, fs.range (update v0 n a m i), free);
        children = λ t i up li real. elim (ℕ_discrete t s.freeblock) [
          | yes e ↦ absurd (real (word-zero (s.disk t) i (λ j. fs.fresh t j (omega arith))))
          | no ne ↦
              let w = word (s.disk t) i in
              let old : 1 < u.level t = ground arith in
              let c = fs.children t i old li real in
              let r = fs.range w (omega (arith, c.0, old)) in ground (arith, c.0, c.1, c.2, r)
        ];
      }

  pub root-same :
      (m f j : ℕ) → block_byte s.disk (now m) f j ≡ block_byte s.disk (update v0 n a m) f j
  unfolding block_byte
  root-same m f j =
      let z = λ (i : ℕ). fs.fresh s.freeblock i (omega arith) in
      ground (
        arith,
        none,
        z j,
        peek2-zero s.disk s.freeblock (f - 12) j z,
        peek3-zero s.disk s.freeblock (f - 140) j z,
      )
