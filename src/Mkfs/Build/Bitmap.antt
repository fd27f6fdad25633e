-- ===== src/Mkfs/Build/Bitmap.antt =====
-- balloc_mark_used of mkfs.c: what each bit of the bitmap says.
use notux_kernel.Base.{
  ℕ, ◌+◌, ◌*◌, ◌/◌, ◌%◌, ◌<◌, ◌≤◌, ◌≡◌, refl, ◌∙◌, Bool-cases, inl, inr, Bool, true, false, ◌&&◌,
  arith, ltb, ◌==◌, Option, some, for_loop_inv,
}
use notux_kernel.Base.Bits.{test_bit, set_bit-lt, test_bit-set_bit, test_bit-zero}
use notux_kernel.Mkfs.{Sector, Image, wsect, dinode_at, iblock, nmeta, fssize, bmapstart}
use notux_kernel.Mkfs.Build.{mark, bitmap_sector, balloc_mark_used}
use notux_kernel.Mkfs.Bytes.{Use, inode_limit}
use notux_kernel.Mkfs.Agree.{agree-IsFs, agree-bytes}
use notux_kernel.Mkfs.Files.{view}
use notux_kernel.Mkfs.Spec.{Tree, Shows}

-- The bits of a sector, the first `k` of them marked.
record IsMarked (used first k : ℕ) (buf : Sector) : Type 0 where
  byte : (j : ℕ) → buf j < 256
  bits : (j : ℕ) → test_bit (buf (j / 8)) (j % 8) ≡ (ltb j k && ltb (first + j) used)

mark-IsMarked :
    (used first k : ℕ) (buf : Sector)
    → IsMarked used first k buf
    → IsMarked used first (k + 1) (mark used first k buf)
unfolding mark
mark-IsMarked used first k buf h = elim (Bool-cases (ltb (first + k) used)) [
  | inr free ↦ rw free (record { byte = h.byte; bits = λ j. ground (arith, h.bits j) })
  | inl taken ↦ rw taken (record {
    byte = λ j.
        ground (arith, h.byte j, set_bit-lt (buf (k / 8)) (k % 8) (h.byte (k / 8)) (omega arith));
    bits = λ j. elim (Bool-cases (k / 8 == j / 8)) [
      | inl same ↦
          let e : k / 8 ≡ j / 8 = ground arith in
          let set =
            test_bit-set_bit (buf (k / 8)) (k % 8) (j % 8) (h.byte (k / 8)) (omega arith)
              (omega arith) in
          let old : test_bit (buf (k / 8)) (j % 8) ≡ (ltb j k && ltb (first + j) used) =
            rw e (h.bits j) in
          rw (same, set, old) (ground arith)
      | inr other ↦ rw other (h.bits j ∙ ground arith)
    ];
  })
]

bitmap_sector-IsMarked : (used first : ℕ) → IsMarked used first 4096 (bitmap_sector used first)
unfolding bitmap_sector
bitmap_sector-IsMarked used first =
    for_loop_inv (mark used first) (λ k buf. IsMarked used first k buf) 4096 0 4096 (λ k. 0) refl
      (λ k buf le lt h. mark-IsMarked used first k buf h)
      (record { byte = λ j. omega arith; bits = λ j. ground (arith, test_bit-zero (j % 8)) })

-- A write of a sector of the bitmap changes no file.
write_bitmap :
    (s : Image) (u : Use) (t : Tree) (free next x : ℕ) (buf : Sector)
    → Shows s u t free next
    → bmapstart ≤ x
    → x < nmeta
    → ((j : ℕ) → buf j < 256)
    → Shows (wsect s x buf) u t free next
unfolding wsect dinode_at
write_bitmap s u t free next x buf sh after before bytes =
    let present : ltb x s.blocks ≡ true = ground (arith, sh.blocks) in
    let apart : (m : ℕ) → m < inode_limit → (x == iblock m) ≡ false = λ m lm. ground arith in
    let same : (b : ℕ) → nmeta ≤ b → (wsect s x buf).disk b ≡ s.disk b = λ b lb. ground arith in
    let kept : (m i : ℕ) → m < inode_limit → view (wsect s x buf) m i ≡ view s m i =
      λ m i lm. rw (apart m lm) refl in
    record {
      image = record {
        fs =
            agree-IsFs s (view s) u sh.image.fs (wsect s x buf) (view (wsect s x buf)) same refl
              (λ m i lm li ne. kept m i lm);
        bytes = λ b k lb. ground (arith, sh.image.bytes b k lb, bytes k);
        present = rw present sh.image.present;
        small = rw present sh.image.small;
      };
      blocks = rw present sh.blocks;
      free_le = sh.free_le;
      next_is = sh.next_is;
      super = (let far : (x == 1) ≡ false = ground arith in rw far sh.super);
      type = λ m lm. rw (apart m lm) (sh.type m lm);
      nlink = λ m lm. rw (apart m lm) (sh.nlink m lm);
      size = λ m lm. rw (apart m lm) (sh.size m lm);
      byte = λ m i lm li.
          agree-bytes s (view s) u sh.image.fs (wsect s x buf) (view (wsect s x buf)) same refl m lm
            (λ j lj. kept m j lm) i li
          ∙ sh.byte m i lm li;
    }

-- The bit of a block in the bitmap.
abbrev pub block_bit : Image → ℕ → Bool
block_bit s b = test_bit (s.disk (bmapstart + b / 4096) (b % 4096 / 8)) (b % 4096 % 8)

two_sectors :
    (s : Image) (used : ℕ) (low high : Sector)
    → IsMarked used 0 4096 low
    → IsMarked used 4096 4096 high
    → (b : ℕ) → b < fssize
    → block_bit (wsect (wsect s bmapstart low) (bmapstart + 1) high) b ≡ ltb b used
unfolding wsect
two_sectors s used low high hl hh b lb = elim (Bool-cases (ltb b 4096)) [
  | inl early ↦
      let q : b / 4096 ≡ 0 = ground arith in
      let r : b % 4096 ≡ b = ground arith in let bit = hl.bits b in rw (q, r) (bit ∙ ground arith)
  | inr late ↦
      let q : b / 4096 ≡ 1 = ground arith in
      let bit = hh.bits (b % 4096) in
      let r : 4096 + b % 4096 ≡ b = ground arith in rw q (bit ∙ rw r (ground arith))
]

pub record Marks (s : Image) (used : ℕ) (r : Option Image) : Type 0 where
  pub image : Image
  pub result : r ≡ some image
  pub bits : (b : ℕ) → b < fssize → block_bit image b ≡ ltb b used
  pub freeblock : image.freeblock ≡ s.freeblock
  pub before : (b : ℕ) → b < bmapstart → image.disk b ≡ s.disk b
  pub shows :
      (u : Use) (t : Tree) (free next : ℕ) → Shows s u t free next → Shows image u t free next

-- With at most 4096 blocks used, bit `b` of the bitmap that balloc_mark_used writes is set exactly when
-- `b` is below `used`, for each of the 8192 blocks, and no file changes.
pub balloc_mark_used-Marks :
    (s : Image) (used : ℕ) → used ≤ 8 * 512 → Marks s used (balloc_mark_used s used)
unfolding balloc_mark_used wsect
balloc_mark_used-Marks s used le =
    let fits : ltb (8 * 512) used ≡ false = ground arith in
    let low = bitmap_sector-IsMarked used 0 in
    let high = bitmap_sector-IsMarked used 4096 in
    record {
      image =
          wsect (wsect s bmapstart (bitmap_sector used 0)) (bmapstart + 1)
            (bitmap_sector used 4096);
      result = rw fits refl;
      bits = two_sectors s used (bitmap_sector used 0) (bitmap_sector used 4096) low high;
      freeblock = refl;
      before = λ b lb. ground arith;
      shows = λ u t free next sh.
          write_bitmap (wsect s bmapstart (bitmap_sector used 0)) u t free next (bmapstart + 1)
            (bitmap_sector used 4096)
            (write_bitmap s u t free next bmapstart (bitmap_sector used 0) sh (omega arith)
              (omega arith) low.byte)
            (omega arith) (omega arith) high.byte;
    }
