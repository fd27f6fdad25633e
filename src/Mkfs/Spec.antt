-- ===== src/Mkfs/Spec.antt =====
-- mkfs.c: what the operations promise, in terms of the files alone.
use notux_kernel.Base.{
  ℕ, ◌+◌, ◌-◌, ◌*◌, ◌/◌, ◌<◌, ◌≤◌, ◌≡◌, ◌≢◌, ap, ◌∙◌, true, false, ◌&&◌, arith, ltb, leb, ◌==◌,
  ==_refl, if◌then◌else◌, update, Option, some,
}
use native.Mathlib.Decide.{ℕ_discrete}
use notux_kernel.Mkfs.{Sector, Image, Dinode, iappend, maxfile, fssize}
use notux_kernel.Mkfs.Bytes.{Use, block_byte, file_byte, inode_limit}
use notux_kernel.Mkfs.Append.{need}
use notux_kernel.Mkfs.Build.{super_sector}
use notux_kernel.Mkfs.Files.{
  inode_of, view, byte_at, IsImage, WroteInode, Appended, iappend-Appended,
}
use notux_kernel.Mkfs.Agree.{agree-IsFs, agree-bytes}

-- The inodes by number, without where their bytes lie.
pub record Tree : Type 0 where
  pub type : ℕ → ℕ
  pub nlink : ℕ → ℕ
  pub size : ℕ → ℕ
  pub byte : ℕ → ℕ → ℕ

abbrev pub appended : Tree → (n : ℕ) → (ℕ → ℕ) → (count : ℕ) → Tree
appended t n p count = record t {
  size = update t.size n (t.size n + count);
  byte = λ m i.
      if m == n && (leb (t.size n) i && ltb i (t.size n + count))
      then p (i - t.size n)
      else t.byte m i;
}

abbrev pub created : Tree → (n type : ℕ) → Tree
created t n type = record {
  type = update t.type n type;
  nlink = update t.nlink n 1;
  size = update t.size n 0;
  byte = λ m i. if m == n then 0 else t.byte m i;
}

abbrev pub relinked : Tree → (n nlink : ℕ) → Tree
relinked t n nlink = record t { nlink = update t.nlink n nlink }

-- The image shows the tree: every file has the bytes and the size, `free` bounds the next free block, and
-- `next` is the next inode.
pub record Shows (s : Image) (u : Use) (t : Tree) (free next : ℕ) : Type 0 where
  pub image : IsImage s u
  pub blocks : s.blocks ≡ fssize
  pub free_le : s.freeblock ≤ free
  pub next_is : s.freeinode ≡ next
  pub super : s.disk 1 ≡ super_sector
  pub type : (m : ℕ) → m < inode_limit → (inode_of s m).type ≡ t.type m
  pub nlink : (m : ℕ) → m < inode_limit → (inode_of s m).nlink ≡ t.nlink m
  pub size : (m : ℕ) → m < inode_limit → (inode_of s m).size ≡ t.size m
  pub byte : (m i : ℕ) → m < inode_limit → i < 512 * maxfile → byte_at s m i ≡ t.byte m i

-- A run ends, with an image that shows the tree.
pub record Yields {A : Type 0} (r : Option A) (result_of : Image → A) (t : Tree) (free next : ℕ)
    : Type 0 where
  pub image : Image
  pub uses : Use
  pub result : r ≡ some (result_of image)
  pub shows : Shows image uses t free next

abbrev pub Makes : Option Image → Tree → (free next : ℕ) → Type 0
Makes r t free next = Yields r (λ s. s) t free next

Appended-Shows :
    (s : Image) (u : Use) (t : Tree) (free next n : ℕ) (p : ℕ → ℕ) (count : ℕ) (s' : Image)
    (u' : Use)
    → Shows s u t free next
    → n < inode_limit
    → Appended s n p count s' u'
    → Shows s' u' (appended t n p count) (free + need (t.size n) count) next
Appended-Shows s u t free next n p count s' u' sh ln a =
    let size_is = sh.size n ln in
    record {
      image = a.image;
      blocks = a.blocks ∙ sh.blocks;
      free_le = (let f = rw size_is at a.freeblock in omega (arith, f, sh.free_le));
      next_is = a.freeinode ∙ sh.next_is;
      super = a.super ∙ sh.super;
      type = λ m lm. elim (ℕ_discrete m n) [
        | yes e ↦ rw e (a.type ∙ sh.type n ln)
        | no ne ↦ (a.others m lm ne).type ∙ sh.type m lm
      ];
      nlink = λ m lm. elim (ℕ_discrete m n) [
        | yes e ↦ rw e (a.nlink ∙ sh.nlink n ln)
        | no ne ↦ (a.others m lm ne).nlink ∙ sh.nlink m lm
      ];
      size = λ m lm. elim (ℕ_discrete m n) [
        | yes e ↦
            let self : (n == n) ≡ true = ==_refl n in
            rw (e, self) (a.size ∙ ap (λ x. x + count) size_is)
        | no ne ↦
            let other : (n == m) ≡ false = ground arith in
            rw other ((a.others m lm ne).size ∙ sh.size m lm)
      ];
      byte = λ m i lm li. rw (size_is, sh.byte m i lm li) at (a.contents m i lm li);
    }

-- On an image that shows a map of files, and with three free blocks for each block of the file that it
-- writes to, iappend within the largest file size ends with an image that shows the map with the bytes
-- appended to the one file and nothing else changed.
pub iappend-Makes :
    (s : Image) (u : Use) (t : Tree) (free next n : ℕ) (p : ℕ → ℕ) (count : ℕ)
    → Shows s u t free next
    → n < inode_limit
    → t.size n + count ≤ 512 * maxfile
    → free + need (t.size n) count ≤ fssize
    → Makes (iappend s n p count) (appended t n p count) (free + need (t.size n) count) next
iappend-Makes s u t free next n p count sh ln in_file room =
    let size_is = sh.size n ln in
    let less : s.freeblock + need (t.size n) count ≤ s.blocks =
      omega (arith, sh.free_le, sh.blocks, room) in
    let (s', u', a) =
      iappend-Appended s u n p count sh.image ln (rw size_is in_file) (rw size_is less) in
    record {
      image = s';
      uses = u';
      result = a.0;
      shows = Appended-Shows s u t free next n p count s' u' sh ln a.1;
    }

-- A write of the inode `n` that keeps its addresses, or clears them.
pub WroteInode-IsImage :
    (s : Image) (u : Use) (n : ℕ) (d : Dinode) (s' : Image)
    → IsImage s u
    → ((i : ℕ) → i < 14 → d.addrs i ≢ 0 → d.addrs i ≡ view s n i)
    → WroteInode s n d s'
    → IsImage s' u
WroteInode-IsImage s u n d s' im part w = record {
  fs = agree-IsFs s (view s) u im.fs s' (view s') w.blocks_same w.freeblock (λ m i lm li ne.
      elim (ℕ_discrete m n) [
        | yes e ↦ (let it = w.it.addrs i li in rw e (it ∙ part i li (λ z. (rw e at ne) (it ∙ z))))
        | no other ↦ (w.others m lm other).addrs i li
      ]);
  bytes = w.bytes im.bytes;
  present = omega (arith, w.freeblock, w.blocks, im.present);
  small = rw w.blocks im.small;
}

pub other-byte :
    (s : Image) (u : Use) (n : ℕ) (d : Dinode) (s' : Image)
    → IsImage s u
    → WroteInode s n d s'
    → (m i : ℕ) → m < inode_limit
    → i < 512 * maxfile
    → m ≢ n
    → byte_at s' m i ≡ byte_at s m i
other-byte s u n d s' im w m i lm li ne =
    agree-bytes s (view s) u im.fs s' (view s') w.blocks_same w.freeblock m lm
      (λ j lj. (w.others m lm ne).addrs j lj) i li

-- A file without addresses has only zeros.
pub no_bytes :
    (disk : ℕ → Sector) (a : ℕ → ℕ) (i : ℕ)
    → ((j : ℕ) → j < 14 → a j ≡ 0)
    → i < 512 * maxfile
    → file_byte disk a i ≡ 0
unfolding block_byte
no_bytes disk a i z li = ground (arith, z (i / 512), z 12, z 13)
