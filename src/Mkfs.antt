-- ===== src/Mkfs.antt =====
-- mkfs.c: the program that writes the disk image. The image file is its sectors by number, each its
-- bytes by offset, and the number of sectors that the file has; the calls of the C library on it are
-- taken to succeed, but for a read at the end of the file. `none` is an exit with an error.
pub mod Build
pub mod Inode
pub mod Words
pub mod Bytes
pub mod Root
pub mod Table
pub mod Where
pub mod Step
pub mod Find
pub mod Append
pub mod Agree
pub mod Files
pub mod Spec
pub mod Alloc
pub mod Run
pub mod Embed
pub mod Start
pub mod Main
pub mod Contents
mod Examples
use notux_kernel.Base.{
  ℕ, zero, suc, ◌+◌, ◌-◌, ◌*◌, ◌/◌, ◌%◌, ◌^◌, Bool, true, false, ◌&&◌, Option, none, some, ◌>>=◌,
  ltb, leb, ◌==◌, if◌then◌else◌, update,
}
use notux_kernel.Machine.{byte_of}

-- BSIZE bytes
abbrev pub Sector : Type 0
Sector = ℕ → ℕ

abbrev pub bsize : ℕ
bsize = 512

abbrev pub ndirect : ℕ
ndirect = 12

abbrev pub nindirect : ℕ
nindirect = 128

-- NDIRECT + NINDIRECT + NDINDIRECT
abbrev pub maxfile : ℕ
maxfile = 16524

-- IPB; a dinode takes 68 bytes.
abbrev pub ipb : ℕ
ipb = 7

abbrev pub fssize : ℕ
fssize = 8192

abbrev pub ninodes : ℕ
ninodes = 200

abbrev pub logsize : ℕ
logsize = 30

-- The places that main computes.
abbrev pub ninodeblocks : ℕ
ninodeblocks = ninodes / ipb + 1

abbrev pub nbitmap : ℕ
nbitmap = fssize / 4096 + 1

abbrev pub nmeta : ℕ
nmeta = 2 + logsize + ninodeblocks + nbitmap

abbrev pub inodestart : ℕ
inodestart = 2 + logsize

abbrev pub bmapstart : ℕ
bmapstart = 2 + logsize + ninodeblocks

pub record Dinode : Type 0 where
  pub type : ℕ
  pub major : ℕ
  pub minor : ℕ
  pub nlink : ℕ
  pub size : ℕ
  pub addrs : ℕ → ℕ

pub record Image : Type 0 where
  pub disk : ℕ → Sector
  pub blocks : ℕ
  pub freeblock : ℕ
  pub freeinode : ℕ

unfoldable pub wsect : Image → ℕ → Sector → Image
wsect s sec buf = record s {
  disk = update s.disk sec buf;
  blocks = if ltb sec s.blocks then s.blocks else sec + 1;
}

unfoldable pub rsect : Image → ℕ → Option Sector
rsect s sec = if ltb sec s.blocks then some (s.disk sec) else none

-- The 16 and 32 bits at an offset, and entry `i` of a sector that is an array of `uint`.
abbrev pub load16 : Sector → ℕ → ℕ
load16 x o = x o + 256 * x (o + 1)

abbrev pub load32 : Sector → ℕ → ℕ
load32 x o = x o + 256 * x (o + 1) + 65536 * x (o + 2) + 16777216 * x (o + 3)

unfoldable pub word : Sector → ℕ → ℕ
word x i = load32 x (4 * i)

unfoldable pub set_word : Sector → ℕ → ℕ → Sector
set_word x i v k = if k / 4 == i then byte_of v (k % 4) else x k

-- The byte `k` of a dinode.
unfoldable pub dinode_byte : Dinode → ℕ → ℕ
dinode_byte d k =
    if ltb k 2
    then byte_of d.type k
    else if ltb k 4
    then byte_of d.major (k - 2)
    else if ltb k 6
    then byte_of d.minor (k - 4)
    else if ltb k 8
    then byte_of d.nlink (k - 6)
    else if ltb k 12
    then byte_of d.size (k - 8)
    else byte_of (d.addrs ((k - 12) / 4)) ((k - 12) % 4)

-- `*dip` and `*dip = *ip`, for the dinode `slot` of a sector.
unfoldable pub dinode_at : Sector → ℕ → Dinode
dinode_at x slot = record {
  type = load16 x (68 * slot);
  major = load16 x (68 * slot + 2);
  minor = load16 x (68 * slot + 4);
  nlink = load16 x (68 * slot + 6);
  size = load32 x (68 * slot + 8);
  addrs = λ i. load32 x (68 * slot + 12 + 4 * i);
}

unfoldable pub put_dinode : Sector → ℕ → Dinode → Sector
put_dinode x slot d k =
    if leb (68 * slot) k && ltb k (68 * slot + 68) then dinode_byte d (k - 68 * slot) else x k

-- IBLOCK
abbrev pub iblock : ℕ → ℕ
iblock inum = inum / ipb + inodestart

unfoldable pub winode : Image → ℕ → Dinode → Option Image
winode s inum d =
    rsect s (iblock inum) >>= λ buf. some (wsect s (iblock inum) (put_dinode buf (inum % ipb) d))

unfoldable pub rinode : Image → ℕ → Option Dinode
rinode s inum = rsect s (iblock inum) >>= λ buf. some (dinode_at buf (inum % ipb))

unfoldable pub ialloc : Image → (type : ℕ) → Option (ℕ × Image)
ialloc s type =
    let din : Dinode = record {
      type = type;
      major = 0;
      minor = 0;
      nlink = 1;
      size = 0;
      addrs = λ i. 0;
    } in
    winode (record s { freeinode = (s.freeinode + 1) % 2 ^ 32 }) s.freeinode din >>= λ s1.
    some (s.freeinode, s1)

-- The image after `freeblock++`.
abbrev pub taken : Image → Image
taken s = record s { freeblock = (s.freeblock + 1) % 2 ^ 32 }

-- `if (din.addrs[k] == 0) din.addrs[k] = freeblock++;` and the address.
unfoldable pub addr_of : Image → Dinode → ℕ → ℕ × Image × Dinode
addr_of s d k =
    if d.addrs k == 0
    then (s.freeblock, taken s, record d { addrs = update d.addrs k s.freeblock })
    else (d.addrs k, s, d)

-- The same for entry `i` of the table in a block, which is read, and written if it changes.
unfoldable pub entry_of : Image → (block i : ℕ) → Option (ℕ × Image)
entry_of s block i = rsect s block >>= λ x.
    if word x i == 0
    then some (s.freeblock, wsect (taken s) block (set_word x i s.freeblock))
    else some (word x i, s)

-- The block of the file that holds the file's block `fbn`.
unfoldable pub block_for : Image → Dinode → (fbn : ℕ) → Option (ℕ × Image × Dinode)
block_for s d fbn =
    if ltb fbn ndirect
    then some (addr_of s d fbn)
    else if ltb fbn (ndirect + nindirect)
    then (let (table, s1, d1) = addr_of s d ndirect in
        entry_of s1 table (fbn - ndirect) >>= λ r. some (r.0, r.1, d1))
    else (let (table, s1, d1) = addr_of s d (ndirect + 1) in
        entry_of s1 table ((fbn - ndirect - nindirect) / nindirect) >>= λ q.
        entry_of q.1 q.0 ((fbn - ndirect - nindirect) % nindirect) >>= λ r. some (r.0, r.1, d1))

-- `memmove(buf + o, p, n)`
unfoldable pub copy_in : Sector → (o : ℕ) → (ℕ → ℕ) → (n : ℕ) → Sector
copy_in buf o p n k = if leb o k && ltb k (o + n) then p (k - o) else buf k

abbrev pub chunk : (n off : ℕ) → ℕ
chunk n off = if ltb n (bsize - off % bsize) then n else bsize - off % bsize

-- One round of the loop of iappend.
unfoldable pub append_round :
    Image → Dinode → (off : ℕ) → (ℕ → ℕ) → (n : ℕ) → Option (Image × Dinode)
append_round s d off p n =
    if ltb (off / bsize) maxfile
    then (block_for s d (off / bsize) >>= λ r. rsect r.1 r.0 >>= λ buf.
        some (wsect r.1 r.0 (copy_in buf (off % bsize) p (chunk n off)), r.2))
    else none

-- The loop, on a number of rounds.
unfoldable pub append_loop :
    (rounds : ℕ) → Image → Dinode → (off : ℕ) → (ℕ → ℕ) → (n : ℕ) → Option (ℕ × Image × Dinode)
append_loop zero s d off p n = if n == 0 then some (off, s, d) else none
append_loop (suc rounds) s d off p n = elim (n == 0) [
  | true ↦ some (off, s, d)
  | false ↦ append_round s d off p n >>= λ r.
      append_loop rounds r.0 r.1 (off + chunk n off) (λ k. p (k + chunk n off)) (n - chunk n off)
]

-- Each round takes a byte at least, so that `n` rounds are enough.
unfoldable pub iappend : Image → (inum : ℕ) → (ℕ → ℕ) → (n : ℕ) → Option Image
iappend s inum p n = rinode s inum >>= λ d.
    append_loop n s d d.size p n >>= λ r. winode r.1 inum (record r.2 { size = r.0 })
