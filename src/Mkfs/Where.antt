-- ===== src/Mkfs/Where.antt =====
-- mkfs.c: the block in which a block of a file lies. No other block of a file lies there.
use notux_kernel.Base.{
  ℕ, ◌+◌, ◌-◌, ◌/◌, ◌%◌, ◌<◌, ◌≡◌, ◌≢◌, refl, sym, ap, ◌∙◌, Bool-cases, inl, inr, false, ◌&&◌,
  arith, ltb, ◌==◌, if◌then◌else◌,
}
use native.Mathlib.Decide.{ℕ_discrete}
use notux_kernel.Mkfs.{Sector, Image, wsect, maxfile, word}
use notux_kernel.Mkfs.Bytes.{peek1, block_byte, View, Use, span, inode_limit, IsFs}

abbrev pub entry : (ℕ → Sector) → (table i : ℕ) → ℕ
entry disk b i = if b == 0 then 0 else word (disk b) i

abbrev pub block_at : (ℕ → Sector) → (addrs : ℕ → ℕ) → (f : ℕ) → ℕ
block_at disk a f =
    if ltb f 12
    then a f
    else if ltb f 140
    then entry disk (a 12) (f - 12)
    else entry disk (entry disk (a 13) ((f - 140) / 128)) ((f - 140) % 128)

pub block_byte-block_at :
    (disk : ℕ → Sector) (a : ℕ → ℕ) (f k : ℕ)
    → block_byte disk a f k ≡ peek1 disk (block_at disk a f) k
unfolding block_byte
block_byte-block_at disk a f k = ground arith

module _ (s : Image) (v : View) (u : Use) (fs : IsFs s v u) where
  -- A block with data of the inode `m`, its block `f`.
  abbrev pub IsData : (m f b : ℕ) → Type 0
  IsData m f b = (u.level b ≡ 1) × (u.owner b ≡ m) × (u.start b ≡ f)

  under_table :
      (t m i : ℕ)
      → i < 128
      → u.level t ≡ 2
      → u.owner t ≡ m
      → word (s.disk t) i ≢ 0
      → IsData m (u.start t + i) (word (s.disk t) i)
  under_table t m i li lev own ne =
      let c = fs.children t i (omega (arith, lev)) li ne in
      let one : span (u.level t) ≡ 1 = rw lev refl in
      (omega (arith, c.0, lev), c.1 ∙ own, omega (arith, (rw one at c.2)))

  pub block_at-IsData :
      (m f : ℕ)
      → m < inode_limit
      → f < maxfile
      → block_at s.disk (v m) f ≢ 0
      → IsData m f (block_at s.disk (v m) f)
  block_at-IsData m f lm lf ne = elim (Bool-cases (ltb f 12)) [
    | inl low ↦
        let r = fs.roots m f lm (ground arith) (rw low at ne) in
        rw low (ground (arith, r.0), r.1, ground (arith, r.2))
    | inr high ↦ elim (Bool-cases (ltb f 140)) [
      | inl mid ↦
          let ne' : entry s.disk (v m 12) (f - 12) ≢ 0 = (rw (high, mid) at ne) in
          let real : v m 12 ≢ 0 = λ e. ne' (rw e refl) in
          let some_table : (v m 12 == 0) ≡ false = ground arith in
          let r = fs.roots m 12 lm (omega arith) real in
          let d = under_table (v m 12) m (f - 12) (ground arith) r.0 r.1 (rw some_table at ne') in
          rw (high, mid, some_table) (d.0, d.1, ground (arith, d.2, r.2))
      | inr top ↦
          let q : ℕ = (f - 140) / 128 in
          let t : ℕ = entry s.disk (v m 13) q in
          let ne' : entry s.disk t ((f - 140) % 128) ≢ 0 = (rw (high, top) at ne) in
          let real2 : t ≢ 0 = λ e. ne' (rw e refl) in
          let real : v m 13 ≢ 0 = λ e. real2 (rw e refl) in
          let table3 : (v m 13 == 0) ≡ false = ground arith in
          let table2 : (word (s.disk (v m 13)) q == 0) ≡ false = ground (arith, real2) in
          let r = fs.roots m 13 lm (omega arith) real in
          let c = fs.children (v m 13) q (omega (arith, r.0)) (omega arith) (rw table3 at real2) in
          let wide : span (u.level (v m 13)) ≡ 128 = rw r.0 refl in
          let d =
            under_table (word (s.disk (v m 13)) q) m ((f - 140) % 128) (omega arith)
              (omega (arith, c.0, r.0)) (c.1 ∙ r.1) (rw (table3, table2) at ne') in
          rw (high, top, table3, table2) (d.0, d.1, ground (arith, d.2, r.2, (rw wide at c.2)))
    ]
  ]

  pub second_level :
      (m q : ℕ)
      → m < inode_limit
      → q < 128
      → entry s.disk (v m 13) q ≢ 0
      → u.level (entry s.disk (v m 13) q) ≡ 2
  second_level m q lm lq ne =
      let real : v m 13 ≢ 0 = λ e. ne (rw e refl) in
      let table3 : (v m 13 == 0) ≡ false = ground arith in
      let r = fs.roots m 13 lm (omega arith) real in
      let c = fs.children (v m 13) q (omega (arith, r.0)) lq (rw table3 at ne) in
      rw table3 (omega (arith, c.0, r.0))

  -- The write of a data block.
  module _ (x : ℕ) (buf : Sector) (is_data : u.level x ≡ 1) where
    abbrev pub written : Image
    written = wsect s x buf

    other_word : (t i : ℕ) → u.level t ≢ 1 → word (written.disk t) i ≡ word (s.disk t) i
    unfolding wsect
    other_word t i ne =
        let other : (x == t) ≡ false =
          (let apart : x ≢ t = λ e. ne (ap u.level (sym e) ∙ is_data) in ground arith) in
        rw other refl

    pub written-IsFs : IsFs written v u
    unfolding wsect
    written-IsFs =
        let r = fs.range x (omega (arith, is_data)) in
        record {
          null = fs.null;
          range = fs.range;
          after_meta = fs.after_meta;
          fresh = λ b k le. ground (arith, fs.fresh b k, r.1);
          roots = fs.roots;
          children = λ t i up li real.
              let same = other_word t i (omega arith) in
              rw same (fs.children t i up li (rw same at real));
        }

    entry-same : (t i : ℕ) → (t ≢ 0 → u.level t ≢ 1) → entry written.disk t i ≡ entry s.disk t i
    entry-same t i table = elim (ℕ_discrete t 0) [
      | yes null ↦ ground arith
      | no real ↦ ground (arith, other_word t i (table real))
    ]

    block_at-same :
        (m f : ℕ)
        → m < inode_limit
        → f < maxfile
        → block_at written.disk (v m) f ≡ block_at s.disk (v m) f
    block_at-same m f lm lf =
        let root = λ (i : ℕ) (li : i < 14) (ne : v m i ≢ 0). (fs.roots m i lm li ne).0 in
        elim (Bool-cases (ltb f 12)) [
          | inl low ↦ rw low refl
          | inr high ↦ elim (Bool-cases (ltb f 140)) [
            | inl mid ↦
                rw (high, mid)
                  (entry-same (v m 12) (f - 12) (λ ne. omega (arith, root 12 (omega arith) ne)))
            | inr top ↦
                let q : ℕ = (f - 140) / 128 in
                let upper = entry-same (v m 13) q (λ ne. omega (arith, root 13 (omega arith) ne)) in
                let lower =
                  entry-same (entry s.disk (v m 13) q) ((f - 140) % 128)
                    (λ ne. omega (arith, second_level m q lm (omega arith) ne)) in
                rw (high, top, upper) lower
          ]
        ]

    -- Only the bytes of the one block change.
    pub written-bytes :
        (n fbn m f k : ℕ)
        → n < inode_limit
        → m < inode_limit
        → fbn < maxfile
        → f < maxfile
        → block_at s.disk (v n) fbn ≡ x
        → block_byte written.disk (v m) f k
          ≡ (if m == n && f == fbn then buf k else block_byte s.disk (v m) f k)
    unfolding wsect
    written-bytes n fbn m f k ln lm lb lf at =
        let b = block_at s.disk (v m) f in
        let real : x ≢ 0 = λ e. omega (arith, is_data, ap u.level e, fs.null) in
        let now =
          block_byte-block_at written.disk (v m) f k
          ∙ ap (λ b. peek1 written.disk b k) (block_at-same m f lm lf) in
        let before = block_byte-block_at s.disk (v m) f k in
        elim (Bool-cases (m == n && f == fbn)) [
          | inl same ↦
              let here : b ≡ x =
                (let e1 : m ≡ n = ground arith in
                  let e2 : f ≡ fbn = ground arith in rw (e1, e2) at) in
              let value : peek1 written.disk b k ≡ buf k = rw here (ground (arith, real)) in
              rw same (now ∙ value)
          | inr other ↦
              let apart : b ≢ 0 → x ≢ b = λ ne e.
                (let mine = block_at-IsData n fbn ln lb (rw at real) in
                  let its = block_at-IsData m f lm lf ne in
                  let e' = at ∙ e in
                  ground (
                    arith,
                    sym mine.1 ∙ ap u.owner e' ∙ its.1,
                    sym mine.2 ∙ ap u.start e' ∙ its.2,
                  )) in
              let value : peek1 written.disk b k ≡ peek1 s.disk b k = ground (arith, apart) in
              rw other (now ∙ value ∙ sym before)
        ]
