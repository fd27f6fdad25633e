-- ===== src/Mkfs/Agree.antt =====
-- mkfs.c: two images with the same blocks after the metadata have the same files.
use notux_kernel.Base.{
  ℕ, ◌-◌, ◌*◌, ◌/◌, ◌%◌, ◌<◌, ◌≤◌, ◌≡◌, ◌≢◌, refl, sym, ap, ◌∙◌, Bool-cases, inl, inr, arith, ltb,
}
use native.Mathlib.Decide.{ℕ_discrete}
use notux_kernel.Mkfs.{Sector, Image, maxfile, nmeta}
use notux_kernel.Mkfs.Bytes.{View, Use, peek1, file_byte, inode_limit, IsFs}
use notux_kernel.Mkfs.Where.{entry, block_at, block_at-IsData, second_level, block_byte-block_at}

module _ (s : Image) (v : View) (u : Use) (fs : IsFs s v u) (s' : Image) (v' : View)
    (data_same : (b : ℕ) → nmeta ≤ b → s'.disk b ≡ s.disk b)
    (free_same : s'.freeblock ≡ s.freeblock) where
  -- An address may be lost.
  pub agree-IsFs :
      ((m i : ℕ) → m < inode_limit → i < 14 → v' m i ≢ 0 → v' m i ≡ v m i) → IsFs s' v' u
  agree-IsFs part = record {
    null = fs.null;
    range = λ b real. omega (arith, fs.range b real, free_same);
    after_meta = omega (arith, fs.after_meta, free_same);
    fresh = λ b k le.
        ap (λ (x : Sector). x k) (data_same b (omega (arith, free_same, fs.after_meta)))
        ∙ fs.fresh b k (omega (arith, free_same));
    roots = λ m i lm li ne. (let e = part m i lm li ne in rw e (fs.roots m i lm li (rw e at ne)));
    children = λ t i up li ne.
        (let e = data_same t (fs.range t (omega arith)).0 in
          rw e (fs.children t i up li (rw e at ne)));
  }

  entry-agree : (t i : ℕ) → (t ≢ 0 → nmeta ≤ t) → entry s'.disk t i ≡ entry s.disk t i
  entry-agree t i after = elim (ℕ_discrete t 0) [
    | yes null ↦ ground arith
    | no real ↦ rw (data_same t (after real)) refl
  ]

  peek1-agree : (b k : ℕ) → (b ≢ 0 → nmeta ≤ b) → peek1 s'.disk b k ≡ peek1 s.disk b k
  peek1-agree b k after = elim (ℕ_discrete b 0) [
    | yes null ↦ ground arith
    | no real ↦ rw (data_same b (after real)) refl
  ]

  module _ (m : ℕ) (lm : m < inode_limit) (same : (i : ℕ) → i < 14 → v' m i ≡ v m i) where
    root_after : (i : ℕ) → i < 14 → v m i ≢ 0 → nmeta ≤ v m i
    root_after i li ne = (fs.range (v m i) (ground (arith, fs.roots m i lm li ne))).0

    block_at-agree : (f : ℕ) → f < maxfile → block_at s'.disk (v' m) f ≡ block_at s.disk (v m) f
    block_at-agree f lf = elim (Bool-cases (ltb f 12)) [
      | inl low ↦ rw low (same f (ground arith))
      | inr high ↦ elim (Bool-cases (ltb f 140)) [
        | inl mid ↦
            rw (high, mid, same 12 (omega arith))
              (entry-agree (v m 12) (f - 12) (root_after 12 (omega arith)))
        | inr top ↦
            let q : ℕ = (f - 140) / 128 in
            let upper = entry-agree (v m 13) q (root_after 13 (omega arith)) in
            let lower = entry-agree (entry s.disk (v m 13) q) ((f - 140) % 128) (λ ne.
              (fs.range (entry s.disk (v m 13) q)
                (omega (arith, second_level s v u fs m q lm (omega arith) ne))).0) in
            rw (high, top, same 13 (omega arith), upper) lower
      ]
    ]

    pub agree-bytes :
        (i : ℕ) → i < 512 * maxfile → file_byte s'.disk (v' m) i ≡ file_byte s.disk (v m) i
    agree-bytes i li =
        let f : ℕ = i / 512 in
        let lf : f < maxfile = omega arith in
        block_byte-block_at s'.disk (v' m) f (i % 512)
        ∙ ap (λ b. peek1 s'.disk b (i % 512)) (block_at-agree f lf)
        ∙ peek1-agree (block_at s.disk (v m) f) (i % 512) (λ ne.
          (fs.range (block_at s.disk (v m) f)
            (omega (arith, (block_at-IsData s v u fs m f lm lf ne).0))).0)
        ∙ sym (block_byte-block_at s.disk (v m) f (i % 512))
