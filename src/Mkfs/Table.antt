-- ===== src/Mkfs/Table.antt =====
-- mkfs.c: a free block that an entry of a table comes to lead to.
use notux_kernel.Base.{
  ℕ, ◌+◌, ◌-◌, ◌*◌, ◌/◌, ◌%◌, ◌^◌, ◌<◌, ◌≡◌, ◌≢◌, refl, ap, Bool-cases, inl, inr, true, false, ◌&&◌,
  arith, ltb, ◌==◌, ==_refl, if◌then◌else◌,
}
use native.Mathlib.Decide.{ℕ_discrete}
use notux_kernel.Mkfs.{Image, taken, wsect, maxfile, word, set_word}
use notux_kernel.Mkfs.Words.{word-zero, word-set_word}
use notux_kernel.Mkfs.Bytes.{peek1, peek2, peek3, block_byte, View, Use, span, inode_limit, IsFs}
use notux_kernel.Mkfs.Root.{used, peek2-zero}

module _ (s : Image) (v : View) (u : Use) (fs : IsFs s v u) (t i : ℕ) (up : 1 < u.level t)
    (li : i < 128) (none : word (s.disk t) i ≡ 0) (room : s.freeblock < 2 ^ 32 - 1) where
  abbrev pub grown : Image
  grown = wsect (taken s) t (set_word (s.disk t) i s.freeblock)

  abbrev pub grown_use : Use
  grown_use = used u s.freeblock (u.level t - 1) (u.owner t) (u.start t + i * span (u.level t))

  free_unused : u.level s.freeblock ≡ 0
  free_unused = elim (ℕ_discrete (u.level s.freeblock) 0) [
    | yes e ↦ e
    | no ne ↦ absurd (omega (arith, (fs.range s.freeblock ne).1))
  ]

  table_taken : (t < s.freeblock) × (t ≢ 0)
  table_taken =
      (omega (arith, (fs.range t (omega arith)).1), λ e. omega (arith, ap u.level e, fs.null))

  pub words :
      (b j : ℕ)
      → word (grown.disk b) j ≡ (
          if t == b then (if i == j then s.freeblock else word (s.disk b) j) else word (s.disk b) j)
  unfolding wsect
  words b j = elim (ℕ_discrete t b) [
    | yes e ↦ ground (arith, e, word-set_word (s.disk t) i s.freeblock j)
    | no ne ↦ ground arith
  ]

  -- What is asked of an entry that leads to `w`.
  abbrev Child : (b j w : ℕ) → Type 0
  Child b j w =
      (grown_use.level w + 1 ≡ grown_use.level b)
      × (grown_use.owner w ≡ grown_use.owner b)
      × (grown_use.start w ≡ grown_use.start b + j * span (grown_use.level b))

  new-Child : Child t i s.freeblock
  new-Child =
      let before = table_taken in
      let self : (s.freeblock == s.freeblock) ≡ true = ==_refl s.freeblock in
      let other : (s.freeblock == t) ≡ false = ground arith in
      rw (self, other) (omega arith, refl, refl)

  old-Child :
      (b j : ℕ) → 1 < u.level b → j < 128 → word (s.disk b) j ≢ 0 → Child b j (word (s.disk b) j)
  old-Child b j more lj real =
      let w = word (s.disk b) j in
      let c = fs.children b j more lj real in
      let low = (fs.range w (omega (arith, c.0, more))).1 in
      let low' = (fs.range b (omega arith)).1 in
      let one : (s.freeblock == w) ≡ false = ground arith in
      let two : (s.freeblock == b) ≡ false = ground arith in rw (one, two) c

  pub grown-IsFs : IsFs grown v grown_use
  unfolding wsect
  grown-IsFs =
      let bumped : (s.freeblock + 1) % 2 ^ 32 ≡ s.freeblock + 1 = omega arith in
      let free = free_unused in
      let before = table_taken in
      record {
        null = ground (arith, fs.null, fs.after_meta);
        range = λ b real. ground (arith, fs.range b, bumped, fs.after_meta);
        after_meta = omega (arith, fs.after_meta, bumped);
        fresh = λ b j le. ground (arith, fs.fresh b j, bumped, before.0);
        roots = λ m j lm lj real. ground (arith, fs.roots m j, fs.range (v m j), free);
        children = λ b j more lj real. elim (ℕ_discrete b s.freeblock) [
          | yes e ↦
              let zero_word : word (grown.disk b) j ≡ 0 = ground (
                arith,
                words b j,
                word-zero (s.disk b) j (λ k. fs.fresh b k (omega arith)),
                before.0,
              ) in
              absurd (real zero_word)
          | no ne ↦
              let old : 1 < u.level b = ground arith in
              elim (Bool-cases (t == b && i == j)) [
                | inl new ↦
                    let e1 : t ≡ b = ground arith in
                    let e2 : i ≡ j = ground arith in
                    let value : word (grown.disk b) j ≡ s.freeblock = ground (arith, words b j) in
                    rw (value, ← e1, ← e2) new-Child
                | inr other ↦
                    let value : word (grown.disk b) j ≡ word (s.disk b) j =
                      ground (arith, words b j) in
                    rw value (old-Child b j old lj (rw value at real))
              ]
        ];
      }

  -- No byte of a file changes.
  peek1-same : (b k : ℕ) → (b ≢ 0 → u.level b ≡ 1) → peek1 grown.disk b k ≡ peek1 s.disk b k
  unfolding wsect
  peek1-same b k data_block = ground (arith, data_block)

  new-peek1 : (k : ℕ) → peek1 grown.disk s.freeblock k ≡ 0
  unfolding wsect
  new-peek1 k = ground (arith, fs.fresh s.freeblock k, table_taken.0)

  new-peek2 : (f k : ℕ) → peek2 grown.disk s.freeblock f k ≡ 0
  unfolding wsect
  new-peek2 f k =
      let apart : (t == s.freeblock) ≡ false = (let before = table_taken in ground arith) in
      peek2-zero grown.disk s.freeblock f k (λ j. rw apart (fs.fresh s.freeblock j (omega arith)))

  peek2-same :
      (b f k : ℕ) → f < 128 → (b ≢ 0 → u.level b ≡ 2) → peek2 grown.disk b f k ≡ peek2 s.disk b f k
  peek2-same b f k lf table = elim (ℕ_discrete b 0) [
    | yes null ↦ ground arith
    | no real ↦
        let lev = table real in
        let w = word (s.disk b) f in
        let old = peek1-same w k (λ ne. omega (arith, (fs.children b f (omega arith) lf ne).0)) in
        ground (arith, words b f, old, new-peek1 k, none)
  ]

  peek3-same :
      (b f k : ℕ)
      → f < 16384
      → (b ≢ 0 → u.level b ≡ 3)
      → peek3 grown.disk b f k ≡ peek3 s.disk b f k
  peek3-same b f k lf table = elim (ℕ_discrete b 0) [
    | yes null ↦ ground arith
    | no real ↦
        let lev = table real in
        let w = word (s.disk b) (f / 128) in
        let old =
          peek2-same w (f % 128) k (omega arith)
            (λ ne. omega (arith, (fs.children b (f / 128) (omega arith) (omega arith) ne).0)) in
        ground (arith, words b (f / 128), old, new-peek2 (f % 128) k, none)
  ]

  pub grown-same :
      (m f k : ℕ)
      → m < inode_limit
      → f < maxfile
      → block_byte grown.disk (v m) f k ≡ block_byte s.disk (v m) f k
  unfolding block_byte
  grown-same m f k lm lf =
      let root = λ (j : ℕ) (lj : j < 14) (ne : v m j ≢ 0). (fs.roots m j lm lj ne).0 in
      elim (Bool-cases (ltb f 12)) [
        | inl low ↦ rw low (peek1-same (v m f) k (λ ne. ground (arith, root f (ground arith) ne)))
        | inr high ↦ elim (Bool-cases (ltb f 140)) [
          | inl mid ↦
              rw (high, mid)
                (peek2-same (v m 12) (f - 12) k (ground arith) (λ ne. root 12 (omega arith) ne))
          | inr top ↦
              rw (high, top)
                (peek3-same (v m 13) (f - 140) k (ground arith) (λ ne. root 13 (omega arith) ne))
        ]
      ]
