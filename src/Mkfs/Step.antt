-- ===== src/Mkfs/Step.antt =====
-- The part of the loop of iappend of mkfs.c that finds the block, or takes a free one.
use notux_kernel.Base.{
  ℕ, ◌+◌, ◌-◌, ◌%◌, ◌^◌, ◌<◌, ◌≤◌, ◌≡◌, ◌≢◌, refl, sym, ◌∙◌, Bool-cases, inl, inr, true, arith, ltb,
  ◌==◌, ==_refl, update, some,
}
use notux_kernel.Mkfs.{Image, Dinode, rsect, wsect, taken, addr_of, entry_of, maxfile, nmeta, word}
use notux_kernel.Mkfs.Bytes.{block_byte, View, Use, root_level, inode_limit, IsFs}
use notux_kernel.Mkfs.Root.{now, now_used, root-IsFs, root-same}
use notux_kernel.Mkfs.Table.{grown, grown_use, grown-IsFs, grown-same, words}

-- What changes when some blocks are taken, `count` at most: no byte of a file, and no sector of the
-- metadata.
pub record Takes (count : ℕ) (s : Image) (v : View) (u : Use) (s' : Image) (v' : View) (u' : Use)
    : Type 0 where
  pub fs : IsFs s' v' u'
  pub more : s.freeblock ≤ s'.freeblock
  pub few : s'.freeblock ≤ s.freeblock + count
  pub blocks : s'.blocks ≡ s.blocks
  pub freeinode : s'.freeinode ≡ s.freeinode
  pub meta : (b : ℕ) → b < nmeta → s'.disk b ≡ s.disk b
  pub levels : (b : ℕ) → u.level b ≢ 0 → u'.level b ≡ u.level b
  pub same :
      (m f k : ℕ)
      → m < inode_limit
      → f < maxfile
      → block_byte s'.disk (v' m) f k ≡ block_byte s.disk (v m) f k

pub nothing_taken :
    (count : ℕ) (s : Image) (v : View) (u : Use) → IsFs s v u → Takes count s v u s v u
nothing_taken count s v u fs = record {
  fs = fs;
  more = omega arith;
  few = omega arith;
  blocks = refl;
  freeinode = refl;
  meta = λ b lt. refl;
  levels = λ b real. refl;
  same = λ m f k lm lf. refl;
}

pub Takes_trans :
    {a b : ℕ} {s1 s2 s3 : Image} {v1 v2 v3 : View} {u1 u2 u3 : Use}
    → Takes a s1 v1 u1 s2 v2 u2
    → Takes b s2 v2 u2 s3 v3 u3
    → Takes (a + b) s1 v1 u1 s3 v3 u3
Takes_trans x y = record {
  fs = y.fs;
  more = omega (arith, x.more, y.more);
  few = omega (arith, x.few, y.few);
  blocks = y.blocks ∙ x.blocks;
  freeinode = y.freeinode ∙ x.freeinode;
  meta = λ b lt. y.meta b lt ∙ x.meta b lt;
  levels = λ b real. (let l = x.levels b real in y.levels b (λ e. real (sym l ∙ e)) ∙ l);
  same = λ m f k lm lf. y.same m f k lm lf ∙ x.same m f k lm lf;
}

module _ (v0 : View) (n : ℕ) (ln : n < inode_limit) where
  abbrev pub seen : Dinode → View
  seen d = update v0 n d.addrs

  -- A root of the inode, after addr_of.
  abbrev pub HasRoot : Image → Dinode → Use → (k : ℕ) → ℕ × Image × Dinode → Use → Type 0
  HasRoot s d u k r u' =
      Takes 1 s (seen d) u r.1 (seen r.2) u'
      × (r.2.addrs k ≡ r.0)
      × (u'.level r.0 ≡ root_level k)
      × (r.1.disk ≡ s.disk)
      × (r.2 ≡ record d { addrs = r.2.addrs })

  pub addr_of-Takes :
      (s : Image) (d : Dinode) (u : Use) (k : ℕ)
      → IsFs s (seen d) u
      → k < 14
      → s.freeblock < 2 ^ 32 - 1
      → (u' : Use) × HasRoot s d u k (addr_of s d k) u'
  unfolding addr_of
  addr_of-Takes s d u k fs lk room =
      let self : (n == n) ≡ true = ==_refl n in
      let bumped : (s.freeblock + 1) % 2 ^ 32 ≡ s.freeblock + 1 = omega arith in
      elim (Bool-cases (d.addrs k == 0)) [
        | inr old ↦
            let lev : u.level (d.addrs k) ≡ root_level k = ground (arith, fs.roots n k ln lk) in
            rw old (u, (nothing_taken 1 s (seen d) u fs, refl, lev, refl, refl))
        | inl none_yet ↦
            let none : d.addrs k ≡ 0 = ground arith in
            let u' = now_used s v0 n d.addrs u fs k ln lk none room in
            let took : Takes 1 s (seen d) u (taken s) (now s v0 n d.addrs u fs k ln lk none room)
                u' =
              record {
                fs = root-IsFs s v0 n d.addrs u fs k ln lk none room;
                more = omega (arith, bumped);
                few = omega (arith, bumped);
                blocks = refl;
                freeinode = refl;
                meta = λ b lt. refl;
                levels = λ b real. ground (arith, fs.range b real);
                same = λ m f j lm lf. root-same s v0 n d.addrs u fs k ln lk none room m f j;
              } in
            rw none_yet (u', (took, ground arith, ground arith, refl, refl))
      ]

-- An entry of a table, after entry_of.
abbrev pub HasEntry : Image → View → Use → (t i : ℕ) → ℕ × Image → Use → Type 0
HasEntry s v u t i r u' =
    (entry_of s t i ≡ some r)
    × Takes 1 s v u r.1 v u'
    × (u'.level r.0 + 1 ≡ u.level t)
    × (word (r.1.disk t) i ≡ r.0)
    × ((b : ℕ) → b ≢ t → r.1.disk b ≡ s.disk b)

pub entry_of-Takes :
    (s : Image) (v : View) (u : Use) (t i : ℕ)
    → IsFs s v u
    → 1 < u.level t
    → i < 128
    → t < s.blocks
    → s.freeblock < 2 ^ 32 - 1
    → (r : ℕ × Image) × (u' : Use) × HasEntry s v u t i r u'
unfolding entry_of rsect wsect
entry_of-Takes s v u t i fs up li there room =
    let bumped : (s.freeblock + 1) % 2 ^ 32 ≡ s.freeblock + 1 = omega arith in
    let present : ltb t s.blocks ≡ true = ground arith in
    let low = fs.range t (omega arith) in
    elim (Bool-cases (word (s.disk t) i == 0)) [
      | inr old ↦
          let lev = (fs.children t i up li (ground arith)).0 in
          (
            (word (s.disk t) i, s),
            u,
            (rw (present, old) refl, nothing_taken 1 s v u fs, lev, refl, λ b ne. refl),
          )
      | inl none_yet ↦
          let none : word (s.disk t) i ≡ 0 = ground arith in
          let s' = grown s v u fs t i up li none room in
          let u' = grown_use s v u fs t i up li none room in
          let took : Takes 1 s v u s' v u' = record {
            fs = grown-IsFs s v u fs t i up li none room;
            more = omega (arith, bumped);
            few = omega (arith, bumped);
            blocks = rw present refl;
            freeinode = refl;
            meta = λ b lt. ground (arith, low.0);
            levels = λ b real. ground (arith, fs.range b real);
            same = λ m f j lm lf. grown-same s v u fs t i up li none room m f j lm lf;
          } in
          let entry : word (s'.disk t) i ≡ s.freeblock =
            ground (arith, words s v u fs t i up li none room t i) in
          (
            (s.freeblock, s'),
            u',
            (rw (present, none_yet) refl, took, ground arith, entry, λ b ne. ground arith),
          )
    ]
