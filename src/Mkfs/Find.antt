-- ===== src/Mkfs/Find.antt =====
-- mkfs.c: the part of the loop of iappend that finds the block of the file, whatever the way to it.
use notux_kernel.Base.{
  ℕ, ◌+◌, ◌-◌, ◌/◌, ◌%◌, ◌^◌, ◌<◌, ◌≤◌, ◌≡◌, ◌≢◌, refl, ap, ◌∙◌, Bool-cases, inl, inr, true, false,
  arith, ltb, ◌==◌, some,
}
use notux_kernel.Mkfs.{Sector, Image, Dinode, addr_of, block_for, maxfile, word}
use notux_kernel.Mkfs.Bytes.{View, Use, inode_limit, IsFs}
use notux_kernel.Mkfs.Step.{
  Takes, nothing_taken, Takes_trans, seen, HasRoot, addr_of-Takes, HasEntry, entry_of-Takes,
}
use notux_kernel.Mkfs.Where.{block_at}

-- The way through two tables.
far_at :
    (disk1 disk2 : ℕ → Sector) (addrs : ℕ → ℕ) (t q x fbn : ℕ)
    → ltb fbn 12 ≡ false
    → ltb fbn 140 ≡ false
    → addrs 13 ≡ t
    → t ≢ 0
    → q ≢ 0
    → word (disk1 t) ((fbn - 12 - 128) / 128) ≡ q
    → disk2 t ≡ disk1 t
    → word (disk2 q) ((fbn - 12 - 128) % 128) ≡ x
    → block_at disk2 addrs fbn ≡ x
far_at disk1 disk2 addrs t q x fbn high top root t0 q0 upper same lower =
    let e : fbn - 12 - 128 ≡ fbn - 140 = omega arith in
    let upper' : word (disk1 t) ((fbn - 140) / 128) ≡ q = rw e at upper in
    let lower' : word (disk2 q) ((fbn - 140) % 128) ≡ x = rw e at lower in
    let one : (t == 0) ≡ false = ground arith in
    let two : (q == 0) ≡ false = ground arith in rw (high, top, root, one, same, upper', two) lower'

module _ (v0 : View) (n : ℕ) (ln : n < inode_limit) where
  -- The block `fbn` of the file, after block_for.
  abbrev pub HasBlock : Image → Dinode → Use → (fbn : ℕ) → ℕ × Image × Dinode → Use → Type 0
  HasBlock s d u fbn r u' =
      (block_for s d fbn ≡ some r)
      × Takes 3 s (seen v0 n ln d) u r.1 (seen v0 n ln r.2) u'
      × (u'.level r.0 ≡ 1)
      × (block_at r.1.disk r.2.addrs fbn ≡ r.0)
      × (r.2 ≡ record d { addrs = r.2.addrs })

  module _ (s : Image) (d : Dinode) (u : Use) (fbn : ℕ) (fs : IsFs s (seen v0 n ln d) u)
      (in_file : fbn < maxfile) (room : s.freeblock + 3 ≤ s.blocks)
      (small : s.blocks < 2 ^ 31) where
    direct_block :
        ltb fbn 12 ≡ true → (r : ℕ × Image × Dinode) × (u' : Use) × HasBlock s d u fbn r u'
    unfolding block_for
    direct_block low =
        let (u1, h) = addr_of-Takes v0 n ln s d u fbn fs (ground arith) (omega arith) in
        let r = addr_of s d fbn in
        (
          r,
          u1,
          (
            rw low refl,
            Takes_trans h.0 (nothing_taken 2 r.1 (seen v0 n ln r.2) u1 h.0.fs),
            ground (arith, h.2),
            rw low h.1,
            h.4,
          ),
        )

    table_block :
        ltb fbn 12 ≡ false
        → ltb fbn 140 ≡ true
        → (r : ℕ × Image × Dinode) × (u' : Use) × HasBlock s d u fbn r u'
    unfolding block_for
    table_block high mid =
        let (u1, h) = addr_of-Takes v0 n ln s d u 12 fs (omega arith) (omega arith) in
        let a = addr_of s d 12 in
        let lev : u1.level a.0 ≡ 2 = h.2 in
        let there = h.0.fs.range a.0 (omega arith) in
        let (r, u2, e) =
          entry_of-Takes a.1 (seen v0 n ln a.2) u1 a.0 (fbn - 12) h.0.fs (omega arith)
            (ground arith) (omega (arith, there.1, h.0.few, h.0.blocks)) (omega (arith, h.0.few)) in
        let took =
          Takes_trans (Takes_trans h.0 e.1) (nothing_taken 1 r.1 (seen v0 n ln a.2) u2 e.1.fs) in
        let real : (a.0 == 0) ≡ false = ground (arith, lev, h.0.fs.null) in
        (
          (r.0, r.1, a.2),
          u2,
          (
            rw (high, mid, e.0) refl,
            took,
            omega (arith, e.2, lev),
            rw (high, mid, h.1, real) e.3,
            h.4,
          ),
        )

    last_step :
        ltb fbn 12 ≡ false
        → ltb fbn 140 ≡ false
        → (u1 : Use)
        → (let a = addr_of s d 13 in
            HasRoot v0 n ln s d u 13 a u1
            → u1.level a.0 ≡ 3
            → (q : ℕ × Image) (u2 : Use)
            → HasEntry a.1 (seen v0 n ln a.2) u1 a.0 ((fbn - 12 - 128) / 128) q u2
            → (r : ℕ × Image × Dinode) × (u' : Use) × HasBlock s d u fbn r u')
    unfolding block_for
    last_step high top u1 h lev q u2 e =
        let a = addr_of s d 13 in
        let i2 : ℕ = (fbn - 12 - 128) % 128 in
        let lev2 : u2.level q.0 ≡ 2 = omega (arith, e.2, lev) in
        let lev3 : u2.level a.0 ≡ 3 = e.1.levels a.0 (omega arith) ∙ lev in
        let there2 = e.1.fs.range q.0 (omega arith) in
        let (r, u3, g) =
          entry_of-Takes q.1 (seen v0 n ln a.2) u2 q.0 i2 e.1.fs (omega arith) (omega arith)
            (omega (arith, there2.1, h.0.few, h.0.blocks, e.1.few, e.1.blocks))
            (omega (arith, h.0.few, e.1.few)) in
        let apart : a.0 ≢ q.0 = λ e'. omega (arith, ap u2.level e', lev2, lev3) in
        let here =
          far_at q.1.disk r.1.disk a.2.addrs a.0 q.0 r.0 fbn high top h.1
            (λ z. omega (arith, ap u1.level z, lev, h.0.fs.null))
            (λ z. omega (arith, ap u2.level z, lev2, e.1.fs.null)) e.3 (g.4 a.0 apart) g.3 in
        (
          (r.0, r.1, a.2),
          u3,
          (
            rw (high, top, e.0, g.0) refl,
            Takes_trans (Takes_trans h.0 e.1) g.1,
            omega (arith, g.2, lev2),
            here,
            h.4,
          ),
        )

    far_block :
        ltb fbn 12 ≡ false
        → ltb fbn 140 ≡ false
        → (r : ℕ × Image × Dinode) × (u' : Use) × HasBlock s d u fbn r u'
    unfolding block_for
    far_block high top =
        let i1 : ℕ = (fbn - 12 - 128) / 128 in
        let (u1, h) = addr_of-Takes v0 n ln s d u 13 fs (omega arith) (omega arith) in
        let a = addr_of s d 13 in
        let lev : u1.level a.0 ≡ 3 = h.2 in
        let there = h.0.fs.range a.0 (omega arith) in
        let (q, u2, e) =
          entry_of-Takes a.1 (seen v0 n ln a.2) u1 a.0 i1 h.0.fs (omega arith) (omega arith)
            (omega (arith, there.1, h.0.few, h.0.blocks)) (omega (arith, h.0.few)) in
        last_step high top u1 h lev q u2 e

    pub block_for-HasBlock : (r : ℕ × Image × Dinode) × (u' : Use) × HasBlock s d u fbn r u'
    block_for-HasBlock = elim (Bool-cases (ltb fbn 12)) [
      | inl low ↦ direct_block low
      | inr high ↦ elim (Bool-cases (ltb fbn 140)) [
        | inl mid ↦ table_block high mid
        | inr top ↦ far_block high top
      ]
    ]
