-- ===== src/Mkfs/Files.antt =====
-- mkfs.c: the image as its files, and what the operations do to them.
use notux_kernel.Base.{
  ℕ, ◌+◌, ◌-◌, ◌*◌, ◌%◌, ◌^◌, ◌<◌, ◌≤◌, ◌≡◌, ◌≢◌, refl, sym, ap, ◌∙◌, true, false, ◌&&◌, arith, ltb,
  leb, ◌==◌, ==_refl, if◌then◌else◌, update, some,
}
use native.Mathlib.Decide.{ℕ_discrete}
use notux_kernel.Mkfs.{
  Sector, Image, Dinode, dinode_at, put_dinode, ipb, iblock, rsect, wsect, rinode, winode, iappend,
  maxfile, nmeta,
}
use notux_kernel.Mkfs.Inode.{
  SameInode, SameInode-refl, Fits, dinode_at-put_dinode, dinode_at-other, dinode_at-Fits,
  put_dinode-byte,
}
use notux_kernel.Mkfs.Bytes.{View, Use, root_level, file_byte, inode_limit, IsFs}
use notux_kernel.Mkfs.Append.{Appends, need, append_loop-Appends}
use notux_kernel.Mkfs.Step.{seen}
use notux_kernel.Mkfs.Agree.{agree-IsFs, agree-bytes}

-- The dinode `m` on the disk.
abbrev pub inode_of : Image → ℕ → Dinode
inode_of s m = dinode_at (s.disk (iblock m)) (m % ipb)

abbrev pub view : Image → View
view s m = (inode_of s m).addrs

-- Byte `i` of the file `m`.
abbrev pub byte_at : Image → (m i : ℕ) → ℕ
byte_at s m i = file_byte s.disk (view s m) i

pub record IsImage (s : Image) (u : Use) : Type 0 where
  pub fs : IsFs s (view s) u
  pub bytes : (b k : ℕ) → b < nmeta → s.disk b k < 256
  pub present : s.freeblock ≤ s.blocks
  pub small : s.blocks < 2 ^ 31

-- What winode changes.
pub record WroteInode (s : Image) (n : ℕ) (d : Dinode) (s' : Image) : Type 0 where
  pub it : SameInode (inode_of s' n) d
  pub others : (m : ℕ) → m < inode_limit → m ≢ n → SameInode (inode_of s' m) (inode_of s m)
  pub blocks_same : (b : ℕ) → nmeta ≤ b → s'.disk b ≡ s.disk b
  pub freeblock : s'.freeblock ≡ s.freeblock
  pub freeinode : s'.freeinode ≡ s.freeinode
  pub blocks : s'.blocks ≡ s.blocks
  pub super : s'.disk 1 ≡ s.disk 1
  pub bytes : ((b k : ℕ) → b < nmeta → s.disk b k < 256) → (b k : ℕ) → b < nmeta → s'.disk b k < 256

pub winode-WroteInode :
    (s : Image) (n : ℕ) (d : Dinode)
    → n < inode_limit
    → nmeta ≤ s.blocks
    → Fits d
    → (s' : Image) × ((winode s n d ≡ some s') × WroteInode s n d s')
unfolding winode rsect wsect
winode-WroteInode s n d ln le fits =
    let place : iblock n < nmeta = omega arith in
    let present : ltb (iblock n) s.blocks ≡ true = ground arith in
    let self : (iblock n == iblock n) ≡ true = ==_refl (iblock n) in
    let x = s.disk (iblock n) in
    let s' = wsect s (iblock n) (put_dinode x (n % ipb) d) in
    (
      s',
      (
        rw present refl,
        record {
          it = rw self (dinode_at-put_dinode x (n % ipb) d fits);
          others = λ m lm ne. elim (ℕ_discrete (iblock n) (iblock m)) [
            | no apart ↦
                let other : (iblock n == iblock m) ≡ false = ground arith in
                rw other (SameInode-refl (inode_of s m))
            | yes e ↦
                let slots : m % ipb ≢ n % ipb = omega (arith, e, ne) in
                rw (← e, self) (dinode_at-other x (n % ipb) d (m % ipb) slots)
          ];
          blocks_same = λ b lb. ground arith;
          freeblock = refl;
          freeinode = refl;
          blocks = rw present refl;
          super = ground arith;
          bytes = λ old b k lb. ground (
            arith,
            old b k lb,
            old (iblock n) k place,
            put_dinode-byte x (n % ipb) d (λ j. old (iblock n) j place) k,
          );
        },
      ),
    )

-- After a write of the inode `n`, the view is the one that the loop of iappend kept.
view-WroteInode :
    (s0 s2 : Image) (n : ℕ) (d : Dinode) (s' : Image)
    → ((b : ℕ) → b < nmeta → s2.disk b ≡ s0.disk b)
    → WroteInode s2 n d s'
    → (m i : ℕ) → m < inode_limit
    → i < 14
    → view s' m i ≡ update (view s0) n d.addrs m i
view-WroteInode s0 s2 n d s' meta w m i lm li = elim (ℕ_discrete n m) [
  | yes e ↦ let mine : (n == m) ≡ true = ground arith in rw (mine, ← e) (w.it.addrs i li)
  | no ne ↦
      let other : (n == m) ≡ false = ground arith in
      let same : s2.disk (iblock m) ≡ s0.disk (iblock m) = meta (iblock m) (omega arith) in
      rw other (
        (w.others m lm (λ e. ne (sym e))).addrs i li
        ∙ ap (λ (x : Sector). (dinode_at x (m % ipb)).addrs i) same)
]

-- What iappend promises.
pub record Appended (s : Image) (n : ℕ) (p : ℕ → ℕ) (count : ℕ) (s' : Image) (u' : Use)
    : Type 0 where
  pub image : IsImage s' u'
  pub size : (inode_of s' n).size ≡ (inode_of s n).size + count
  pub type : (inode_of s' n).type ≡ (inode_of s n).type
  pub nlink : (inode_of s' n).nlink ≡ (inode_of s n).nlink
  pub others : (m : ℕ) → m < inode_limit → m ≢ n → SameInode (inode_of s' m) (inode_of s m)
  pub contents :
      (m i : ℕ)
      → m < inode_limit
      → i < 512 * maxfile
      → byte_at s' m i ≡ (
          if m == n && (leb (inode_of s n).size i && ltb i ((inode_of s n).size + count))
          then p (i - (inode_of s n).size)
          else byte_at s m i)
  pub freeblock : s'.freeblock ≤ s.freeblock + need (inode_of s n).size count
  pub freeinode : s'.freeinode ≡ s.freeinode
  pub super : s'.disk 1 ≡ s.disk 1
  pub blocks : s'.blocks ≡ s.blocks

module _ (s : Image) (u : Use) (n : ℕ) (p : ℕ → ℕ) (count : ℕ) (im : IsImage s u)
    (ln : n < inode_limit) (in_file : (inode_of s n).size + count ≤ 512 * maxfile)
    (room : s.freeblock + need (inode_of s n).size count ≤ s.blocks) where
  seen_self : (m i : ℕ) → seen (view s) n ln (inode_of s n) m i ≡ view s m i
  seen_self m i = elim (ℕ_discrete n m) [
    | yes e ↦ (let mine : (n == m) ≡ true = ground arith in rw (mine, e) refl)
    | no ne ↦ (let other : (n == m) ≡ false = ground arith in rw other refl)
  ]

  module _ (s2 : Image) (d2 : Dinode) (u2 : Use)
      (a : Appends n s
        (seen (view s) n ln (inode_of s n))
        (inode_of s n)
        (inode_of s n).size
        p
        count
        s2
        (seen (view s) n ln d2)
        u2
        d2)
      (few : s2.freeblock ≤ s.freeblock + need (inode_of s n).size count) where
    abbrev longer : Dinode
    longer = record d2 { size = (inode_of s n).size + count }

    addresses-small : (i : ℕ) → i < 14 → d2.addrs i < 2 ^ 32
    addresses-small i li = elim (ℕ_discrete (d2.addrs i) 0) [
      | yes e ↦ omega (arith, e)
      | no ne ↦
          let self : (n == n) ≡ true = ==_refl n in
          let r : u2.level (d2.addrs i) ≡ root_level i =
            (rw self at (a.fs.roots n i ln li (rw self ne))).0 in
          omega (arith, (a.fs.range (d2.addrs i) (ground (arith, r))).1, few, room, im.small)
    ]

    longer-Fits : Fits longer
    longer-Fits =
        let old : Fits (inode_of s n) =
          dinode_at-Fits (s.disk (iblock n)) (n % ipb) (λ k. im.bytes (iblock n) k (omega arith)) in
        record {
          type = rw (ap (λ (e : Dinode). e.type) a.fields) old.type;
          major = rw (ap (λ (e : Dinode). e.major) a.fields) old.major;
          minor = rw (ap (λ (e : Dinode). e.minor) a.fields) old.minor;
          nlink = rw (ap (λ (e : Dinode). e.nlink) a.fields) old.nlink;
          size = omega (arith, in_file);
          addrs = addresses-small;
        }

    finished : (s3 : Image) → WroteInode s2 n longer s3 → Appended s n p count s3 u2
    finished s3 w =
        let seen3 = view-WroteInode s s2 n longer s3 a.meta w in
        let bytes2 : (m i : ℕ)
            → m < inode_limit
            → i < 512 * maxfile
            → byte_at s3 m i ≡ file_byte s2.disk (seen (view s) n ln d2 m) i =
          λ m i lm li.
            agree-bytes s2 (seen (view s) n ln d2) u2 a.fs s3 (view s3) w.blocks_same w.freeblock m
              lm (λ j lj. seen3 m j lm lj) i li in
        let bytes0 : (m i : ℕ)
            → m < inode_limit
            → i < 512 * maxfile
            → file_byte s.disk (seen (view s) n ln (inode_of s n) m) i ≡ byte_at s m i =
          λ m i lm li.
            agree-bytes s (view s) u im.fs s (seen (view s) n ln (inode_of s n)) (λ b lb. refl) refl
              m lm (λ j lj. seen_self m j) i li in
        record {
          image = record {
            fs =
                agree-IsFs s2 (seen (view s) n ln d2) u2 a.fs s3 (view s3) w.blocks_same w.freeblock
                  (λ m i lm li ne. seen3 m i lm li);
            bytes = w.bytes (λ b k lb. rw (a.meta b lb) (im.bytes b k lb));
            present = omega (arith, w.freeblock, w.blocks, a.blocks, few, room);
            small = rw (w.blocks ∙ a.blocks) im.small;
          };
          size = w.it.size;
          type = w.it.type ∙ ap (λ (e : Dinode). e.type) a.fields;
          nlink = w.it.nlink ∙ ap (λ (e : Dinode). e.nlink) a.fields;
          others = λ m lm ne.
              (let e : s2.disk (iblock m) ≡ s.disk (iblock m) = a.meta (iblock m) (omega arith) in
                rw e at (w.others m lm ne));
          contents = λ m i lm li. bytes2 m i lm li ∙ (rw (bytes0 m i lm li) at (a.bytes m i lm li));
          freeblock = omega (arith, w.freeblock, few);
          freeinode = w.freeinode ∙ a.freeinode;
          super = w.super ∙ a.meta 1 (omega arith);
          blocks = w.blocks ∙ a.blocks;
        }

  pub iappend-Appended :
      (s' : Image) × (u' : Use) × ((iappend s n p count ≡ some s') × Appended s n p count s' u')
  unfolding iappend rinode rsect
  iappend-Appended =
      let d = inode_of s n in
      let fs1 : IsFs s (seen (view s) n ln d) u =
        agree-IsFs s (view s) u im.fs s (seen (view s) n ln d) (λ b lb. refl) refl
          (λ m i lm li ne. seen_self m i) in
      let (s2, d2, u2, a) =
        append_loop-Appends (view s) n ln count s d u d.size p count fs1 in_file room im.small
          (omega arith) in
      let (s3, w) =
        winode-WroteInode s2 n (longer s2 d2 u2 a.1 a.2) ln
          (omega (arith, a.1.blocks, im.present, im.fs.after_meta))
          (longer-Fits s2 d2 u2 a.1 a.2) in
      let there : ltb (iblock n) s.blocks ≡ true = ground (arith, im.present, im.fs.after_meta) in
      (s3, u2, (rw (there, a.0) w.0, finished s2 d2 u2 a.1 a.2 s3 w.1))
