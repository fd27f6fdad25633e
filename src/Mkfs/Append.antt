-- ===== src/Mkfs/Append.antt =====
-- mkfs.c: the loop of iappend.
use notux_kernel.Base.{
  ℕ, zero, suc, ◌+◌, ◌-◌, ◌*◌, ◌/◌, ◌%◌, ◌^◌, ◌<◌, ◌≤◌, ◌≡◌, ◌≢◌, refl, sym, ap, ◌∙◌, Bool-cases,
  inl, inr, true, false, ◌&&◌, arith, ltb, leb, ◌==◌, ==_refl, if◌then◌else◌, some,
}
use notux_kernel.Mkfs.{
  Sector, Image, Dinode, wsect, rsect, copy_in, chunk, append_round, append_loop, maxfile, nmeta,
}
use notux_kernel.Mkfs.Bytes.{View, Use, block_byte, file_byte, inode_limit, IsFs}
use notux_kernel.Mkfs.Step.{seen}
use notux_kernel.Mkfs.Find.{block_for-HasBlock}
use notux_kernel.Mkfs.Where.{block_at, block_byte-block_at, written, written-IsFs, written-bytes}

-- The image and the inode `n` after `count` bytes are written at `off`: these bytes are the ones of `p`,
-- and no other byte of a file changes.
pub record Appends (n : ℕ) (s : Image) (v : View) (d : Dinode) (off : ℕ) (p : ℕ → ℕ) (count : ℕ)
    (s' : Image) (v' : View) (u' : Use) (d' : Dinode) : Type 0 where
  pub fs : IsFs s' v' u'
  pub blocks : s'.blocks ≡ s.blocks
  pub freeinode : s'.freeinode ≡ s.freeinode
  pub meta : (b : ℕ) → b < nmeta → s'.disk b ≡ s.disk b
  pub fields : d' ≡ record d { addrs = d'.addrs }
  pub bytes :
      (m i : ℕ)
      → m < inode_limit
      → i < 512 * maxfile
      → file_byte s'.disk (v' m) i ≡ (
          if m == n && (leb off i && ltb i (off + count))
          then p (i - off)
          else file_byte s.disk (v m) i)

-- A write into one block of a file, seen from the start of the file.
chunk_bytes :
    (p before : ℕ → ℕ) (old m n off count i : ℕ)
    → off % 512 + count ≤ 512
    → (m ≡ n → i / 512 ≡ off / 512 → before (i % 512) ≡ old)
    → (if m == n && i / 512 == off / 512 then copy_in before (off % 512) p count (i % 512) else old)
      ≡ (if m == n && (leb off i && ltb i (off + count)) then p (i - off) else old)
unfolding copy_in
chunk_bytes p before old m n off count i fits same = elim (Bool-cases (m == n)) [
  | inr other ↦ rw other refl
  | inl mine ↦ elim (Bool-cases (i / 512 == off / 512)) [
    | inr elsewhere ↦
        let out : leb off i && ltb i (off + count) ≡ false = ground arith in
        rw (mine, elsewhere, out) refl
    | inl here ↦
        let block : i / 512 ≡ off / 512 = ground arith in
        let e : i % 512 - off % 512 ≡ i - off = omega arith in
        let test : leb (off % 512) (i % 512) && ltb (i % 512) (off % 512 + count)
            ≡ leb off i && ltb i (off + count) =
          ground arith in
        rw (mine, here, test, e, same (ground arith) block) refl
  ]
]

chunk-le : (n off : ℕ) → chunk n off ≤ n
chunk-le n off = ground arith

chunk-ge : (n off : ℕ) → n ≢ 0 → 1 ≤ chunk n off
chunk-ge n off ne = ground arith

chunk-fits : (n off : ℕ) → off % 512 + chunk n off ≤ 512
chunk-fits n off = ground arith

-- Three blocks for each block of the file that a run writes to.
abbrev pub need : (off count : ℕ) → ℕ
need off count = if count == 0 then 0 else 3 * ((off % 512 + count + 511) / 512)

need_after :
    (off count : ℕ)
    → count ≢ 0
    → need (off + chunk count off) (count - chunk count off) + 3 ≤ need off count
need_after off count ne = ground arith

append_loop_step :
    (rounds : ℕ) (s : Image) (d : Dinode) (off : ℕ) (p : ℕ → ℕ) (n : ℕ) (s1 : Image) (d1 : Dinode)
    → (n == 0) ≡ false
    → append_round s d off p n ≡ some (s1, d1)
    → append_loop (suc rounds) s d off p n
      ≡ append_loop rounds s1 d1 (off + chunk n off) (λ k. p (k + chunk n off)) (n - chunk n off)
unfolding append_loop
append_loop_step rounds s d off p n s1 d1 more round = rw (append_loop, more, round) refl

-- A write of some bytes, and of the others after them.
Appends-trans :
    {n : ℕ} {s s1 s2 : Image} {v v1 v2 : View} {d d1 d2 : Dinode} {u1 u2 : Use} (off : ℕ)
    (p : ℕ → ℕ) (c count : ℕ)
    → c ≤ count
    → Appends n s v d off p c s1 v1 u1 d1
    → Appends n s1 v1 d1 (off + c) (λ k. p (k + c)) (count - c) s2 v2 u2 d2
    → Appends n s v d off p count s2 v2 u2 d2
Appends-trans {n} {s} {s1} {s2} {v} {v1} {v2} {d} {d1} {d2} off p c count le a b = record {
  fs = b.fs;
  blocks = b.blocks ∙ a.blocks;
  freeinode = b.freeinode ∙ a.freeinode;
  meta = λ x lt. b.meta x lt ∙ a.meta x lt;
  fields = b.fields ∙ ap (λ (e : Dinode). record e { addrs = d2.addrs }) a.fields;
  bytes = λ m i lm li.
      let first = a.bytes m i lm li in
      let later = b.bytes m i lm li in
      elim (Bool-cases (m == n)) [
        | inr other ↦
            let first' = rw other at first in
            let later' = rw other at later in rw other (later' ∙ first')
        | inl mine ↦ elim (Bool-cases (leb (off + c) i)) [
          | inr low ↦
              let out : leb (off + c) i && ltb i (off + c + (count - c)) ≡ false = ground arith in
              let e : leb off i && ltb i (off + c) ≡ leb off i && ltb i (off + count) =
                ground arith in
              let first' = rw (mine, e) at first in
              let later' = rw (mine, out) at later in rw mine (later' ∙ first')
          | inl high ↦
              let out : leb off i && ltb i (off + c) ≡ false = ground arith in
              let e : leb (off + c) i && ltb i (off + c + (count - c))
                  ≡ leb off i && ltb i (off + count) =
                ground arith in
              let place : i - (off + c) + c ≡ i - off = ground arith in
              let first' = rw (mine, out) at first in
              let later' = rw (mine, e, place, first') at later in rw mine later'
        ]
      ];
}

module _ (v0 : View) (n : ℕ) (ln : n < inode_limit) where
  append_round-Appends :
      (s : Image) (d : Dinode) (u : Use) (off : ℕ) (p : ℕ → ℕ) (count : ℕ)
      → IsFs s (seen v0 n ln d) u
      → off / 512 < maxfile
      → s.freeblock + 3 ≤ s.blocks
      → s.blocks < 2 ^ 31
      → (s' : Image) × (d' : Dinode) × (u' : Use) × ((append_round s d off p count ≡ some (s', d'))
          × Appends n s (seen v0 n ln d) d off p (chunk count off) s' (seen v0 n ln d') u' d'
          × (s'.freeblock ≤ s.freeblock + 3))
  unfolding append_round rsect wsect
  append_round-Appends s d u off p count fs low room small =
      let (r, u1, h) = block_for-HasBlock v0 n ln s d u (off / 512) fs low room small in
      let fs1 = h.1.fs in
      let self : (n == n) ≡ true = ==_refl n in
      let at : block_at r.1.disk (seen v0 n ln r.2 n) (off / 512) ≡ r.0 = rw self h.3 in
      let there = fs1.range r.0 (omega (arith, h.2)) in
      let present : ltb r.0 r.1.blocks ≡ true = ground (arith, there.1, h.1.few, h.1.blocks) in
      let inside : ltb (off / 512) 16524 ≡ true = ground arith in
      let buf : Sector = copy_in (r.1.disk r.0) (off % 512) p (chunk count off) in
      let real : (r.0 == 0) ≡ false = ground (arith, there.0) in
      let in_block : (k : ℕ)
          → block_byte r.1.disk (seen v0 n ln r.2 n) (off / 512) k ≡ r.1.disk r.0 k =
        λ k. block_byte-block_at r.1.disk (seen v0 n ln r.2 n) (off / 512) k ∙ rw (at, real) refl in
      let s' = written r.1 (seen v0 n ln r.2) u1 fs1 r.0 buf h.2 in
      (
        s',
        r.2,
        u1,
        (
          rw (inside, h.0, present) refl,
          record {
            fs = written-IsFs r.1 (seen v0 n ln r.2) u1 fs1 r.0 buf h.2;
            blocks = rw present h.1.blocks;
            freeinode = h.1.freeinode;
            meta = λ b lt. ground (arith, there.0, h.1.meta b lt);
            fields = h.4;
            bytes = λ m i lm li.
                let moved =
                  written-bytes r.1 (seen v0 n ln r.2) u1 fs1 r.0 buf h.2 n (off / 512) m (i / 512)
                    (i % 512) ln lm low (omega arith) at in
                let kept = h.1.same m (i / 512) (i % 512) lm (omega arith) in
                let before : m ≡ n
                    → i / 512 ≡ off / 512
                    → r.1.disk r.0 (i % 512) ≡ file_byte s.disk (seen v0 n ln d m) i =
                  λ e1 e2.
                    sym (in_block (i % 512))
                    ∙ h.1.same n (off / 512) (i % 512) ln low
                    ∙ ap (λ f. block_byte s.disk (seen v0 n ln d n) f (i % 512)) (sym e2)
                    ∙ ap (λ j. file_byte s.disk (seen v0 n ln d j) i) (sym e1) in
                let whole = rw kept at moved in
                whole
                ∙ chunk_bytes p (r.1.disk r.0) (file_byte s.disk (seen v0 n ln d m) i) m n off
                    (chunk count off) i (chunk-fits count off) before;
          },
          h.1.few,
        ),
      )

  nothing_appended :
      (s : Image) (d : Dinode) (u : Use) (off : ℕ) (p : ℕ → ℕ)
      → IsFs s (seen v0 n ln d) u
      → Appends n s (seen v0 n ln d) d off p 0 s (seen v0 n ln d) u d
  nothing_appended s d u off p fs = record {
    fs = fs;
    blocks = refl;
    freeinode = refl;
    meta = λ b lt. refl;
    fields = refl;
    bytes = λ m i lm li.
        (let empty : leb off i && ltb i (off + 0) ≡ false = ground arith in
          elim (Bool-cases (m == n)) [ inl e ↦ rw (e, empty) refl | inr e ↦ rw e refl ]);
  }

  pub append_loop-Appends :
      (rounds : ℕ) (s : Image) (d : Dinode) (u : Use) (off : ℕ) (p : ℕ → ℕ) (count : ℕ)
      → IsFs s (seen v0 n ln d) u
      → off + count ≤ 512 * maxfile
      → s.freeblock + need off count ≤ s.blocks
      → s.blocks < 2 ^ 31
      → count ≤ rounds
      → (s' : Image) × (d' : Dinode) × (u' : Use) × ((append_loop rounds s d off p count
            ≡ some (off + count, s', d'))
          × Appends n s (seen v0 n ln d) d off p count s' (seen v0 n ln d') u' d'
          × (s'.freeblock ≤ s.freeblock + need off count))
  unfolding append_loop
  append_loop-Appends zero s d u off p count fs in_file room small le =
      let none_left : count ≡ 0 = omega arith in
      let at_end : off + 0 ≡ off = omega arith in
      (
        s,
        d,
        u,
        (rw (none_left, at_end) refl, rw none_left (nothing_appended s d u off p fs), omega arith),
      )
  append_loop-Appends (suc rounds) s d u off p count fs in_file room small le =
      elim (Bool-cases (count == 0)) [
        | inl done ↦
            let none_left : count ≡ 0 = ground arith in
            let at_end : off + 0 ≡ off = omega arith in
            (
              s,
              d,
              u,
              (
                rw (none_left, at_end) refl,
                rw none_left (nothing_appended s d u off p fs),
                omega arith,
              ),
            )
        | inr more ↦
            let c : ℕ = chunk count off in
            let some_left : 1 ≤ count = ground arith in
            let part : c ≤ count = chunk-le count off in
            let after : off + c + (count - c) ≡ off + count = omega arith in
            let fewer = need_after off count (omega arith) in
            let (s1, d1, u1, a) =
              append_round-Appends s d u off p count fs (omega arith) (omega arith) small in
            let (s2, d2, u2, b) =
              append_loop-Appends rounds s1 d1 u1 (off + c) (λ k. p (k + c)) (count - c) a.1.fs
                (rw after in_file) (omega (arith, a.2, a.1.blocks, fewer, room))
                (rw a.1.blocks small) (omega (arith, chunk-ge count off (ground arith))) in
            (
              s2,
              d2,
              u2,
              (
                append_loop_step rounds s d off p count s1 d1 more a.0
                    ∙ b.0
                    ∙ ap (λ o. some (o, s2, d2)) after,
                Appends-trans off p c count (omega arith) a.1 b.1,
                omega (arith, a.2, b.2, fewer),
              ),
            )
      ]
