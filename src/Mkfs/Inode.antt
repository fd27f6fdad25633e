-- ===== src/Mkfs/Inode.antt =====
-- mkfs.c: the dinodes of a sector.
use notux_kernel.Base.{
  ℕ, ◌+◌, ◌-◌, ◌*◌, ◌/◌, ◌%◌, ◌^◌, ◌<◌, ◌≡◌, ◌≢◌, refl, ap, ◌∙◌, true, false, ◌&&◌, arith, ltb, leb,
}
use notux_kernel.Machine.{byte_of}
use notux_kernel.Mkfs.{Sector, Dinode, dinode_byte, dinode_at, put_dinode, load16, load32}

-- The fields that a dinode of a sector has: of the addresses, the first 14.
pub record SameInode (a b : Dinode) : Type 0 where
  pub type : a.type ≡ b.type
  pub major : a.major ≡ b.major
  pub minor : a.minor ≡ b.minor
  pub nlink : a.nlink ≡ b.nlink
  pub size : a.size ≡ b.size
  pub addrs : (i : ℕ) → i < 14 → a.addrs i ≡ b.addrs i

pub SameInode-refl : (d : Dinode) → SameInode d d
SameInode-refl d = record {
  type = refl;
  major = refl;
  minor = refl;
  nlink = refl;
  size = refl;
  addrs = λ i li. refl;
}

-- A dinode whose fields fit their widths.
pub record Fits (d : Dinode) : Type 0 where
  pub type : d.type < 2 ^ 16
  pub major : d.major < 2 ^ 16
  pub minor : d.minor < 2 ^ 16
  pub nlink : d.nlink < 2 ^ 16
  pub size : d.size < 2 ^ 32
  pub addrs : (i : ℕ) → i < 14 → d.addrs i < 2 ^ 32

byte-put_dinode :
    (x : Sector) (slot : ℕ) (d : Dinode) (k : ℕ)
    → k < 68
    → put_dinode x slot d (68 * slot + k) ≡ dinode_byte d k
unfolding put_dinode
byte-put_dinode x slot d k lt =
    let e : 68 * slot + k - 68 * slot ≡ k = omega arith in
    let inside : leb (68 * slot) (68 * slot + k) && ltb (68 * slot + k) (68 * slot + 68) ≡ true =
      ground arith in
    rw (inside, e) refl

other-put_dinode :
    (x : Sector) (slot slot' : ℕ) (d : Dinode) (k : ℕ)
    → k < 68
    → slot' ≢ slot
    → put_dinode x slot d (68 * slot' + k) ≡ x (68 * slot' + k)
unfolding put_dinode
other-put_dinode x slot slot' d k lt ne =
    let outside : leb (68 * slot) (68 * slot' + k) && ltb (68 * slot' + k) (68 * slot + 68)
        ≡ false =
      ground arith in
    rw outside refl

start : (x : Sector) (o : ℕ) → x o ≡ x (o + 0)
start x o = ap x (omega arith)

-- Two sectors with the same bytes at a place.
load16-same :
    (x y : Sector) (o : ℕ) → ((k : ℕ) → k < 2 → x (o + k) ≡ y (o + k)) → load16 x o ≡ load16 y o
load16-same x y o same =
    omega (arith, start x o, start y o, same 0 (omega arith), same 1 (omega arith))

load32-same :
    (x y : Sector) (o : ℕ) → ((k : ℕ) → k < 4 → x (o + k) ≡ y (o + k)) → load32 x o ≡ load32 y o
load32-same x y o same = omega (
  arith,
  start x o,
  start y o,
  same 0 (omega arith),
  same 1 (omega arith),
  same 2 (omega arith),
  same 3 (omega arith),
)

load16-lt : (x : Sector) (o : ℕ) → ((k : ℕ) → x k < 256) → load16 x o < 2 ^ 16
load16-lt x o b = omega (arith, b o, b (o + 1))

load32-lt : (x : Sector) (o : ℕ) → ((k : ℕ) → x k < 256) → load32 x o < 2 ^ 32
load32-lt x o b = omega (arith, b o, b (o + 1), b (o + 2), b (o + 3))

-- The bytes of a number in place.
load16-bytes :
    (x : Sector) (o v : ℕ)
    → v < 2 ^ 16
    → ((k : ℕ) → k < 2 → x (o + k) ≡ byte_of v k)
    → load16 x o ≡ v
load16-bytes x o v small b = omega (arith, start x o, b 0 (omega arith), b 1 (omega arith))

load32-bytes :
    (x : Sector) (o v : ℕ)
    → v < 2 ^ 32
    → ((k : ℕ) → k < 4 → x (o + k) ≡ byte_of v k)
    → load32 x o ≡ v
load32-bytes x o v small b =
    omega
      (arith, start x o, b 0 (omega arith), b 1 (omega arith), b 2 (omega arith), b 3 (omega arith))

module _ (x : Sector) (slot : ℕ) (d : Dinode) where
  -- The byte `k` of a field at `o` of the dinode.
  field :
      (base o k : ℕ)
      → base ≡ 68 * slot + o
      → o + k < 68
      → put_dinode x slot d (base + k) ≡ dinode_byte d (o + k)
  field base o k e lt =
      ap (put_dinode x slot d) (omega (arith, e)) ∙ byte-put_dinode x slot d (o + k) lt

  address_byte : (i k : ℕ) → k < 4 → dinode_byte d (12 + 4 * i + k) ≡ byte_of (d.addrs i) k
  unfolding dinode_byte
  address_byte i k lt =
      let t2 : ltb (12 + 4 * i + k) 2 ≡ false = ground arith in
      let t4 : ltb (12 + 4 * i + k) 4 ≡ false = ground arith in
      let t6 : ltb (12 + 4 * i + k) 6 ≡ false = ground arith in
      let t8 : ltb (12 + 4 * i + k) 8 ≡ false = ground arith in
      let t12 : ltb (12 + 4 * i + k) 12 ≡ false = ground arith in
      let q : (12 + 4 * i + k - 12) / 4 ≡ i = omega arith in
      let r : (12 + 4 * i + k - 12) % 4 ≡ k = omega arith in rw (t2, t4, t6, t8, t12, q, r) refl

  -- A dinode whose fields fit their widths, written into a slot of a sector, is read back from there.
  pub dinode_at-put_dinode : Fits d → SameInode (dinode_at (put_dinode x slot d) slot) d
  unfolding dinode_at dinode_byte
  dinode_at-put_dinode fits =
      let y = put_dinode x slot d in
      record {
        type =
            load16-bytes y (68 * slot) d.type fits.type
              (λ k lt. field (68 * slot) 0 k (omega arith) (omega arith) ∙ ground arith);
        major =
            load16-bytes y (68 * slot + 2) d.major fits.major
              (λ k lt. field (68 * slot + 2) 2 k refl (omega arith) ∙ ground arith);
        minor =
            load16-bytes y (68 * slot + 4) d.minor fits.minor
              (λ k lt. field (68 * slot + 4) 4 k refl (omega arith) ∙ ground arith);
        nlink =
            load16-bytes y (68 * slot + 6) d.nlink fits.nlink
              (λ k lt. field (68 * slot + 6) 6 k refl (omega arith) ∙ ground arith);
        size =
            load32-bytes y (68 * slot + 8) d.size fits.size
              (λ k lt. field (68 * slot + 8) 8 k refl (omega arith) ∙ ground arith);
        addrs = λ i li.
            load32-bytes y (68 * slot + 12 + 4 * i) (d.addrs i) (fits.addrs i li) (λ k lt.
              field (68 * slot + 12 + 4 * i) (12 + 4 * i) k (omega arith) (omega arith)
              ∙ address_byte i k lt);
      }

  other_field :
      (slot' base o k : ℕ)
      → slot' ≢ slot
      → base ≡ 68 * slot' + o
      → o + k < 68
      → put_dinode x slot d (base + k) ≡ x (base + k)
  other_field slot' base o k ne e lt =
      let at : 68 * slot' + (o + k) ≡ base + k = omega (arith, e) in
      rw at at (other-put_dinode x slot slot' d (o + k) lt ne)

  pub dinode_at-other :
      (slot' : ℕ)
      → slot' ≢ slot
      → SameInode (dinode_at (put_dinode x slot d) slot') (dinode_at x slot')
  unfolding dinode_at
  dinode_at-other slot' ne =
      let y = put_dinode x slot d in
      record {
        type =
            load16-same y x (68 * slot')
              (λ k lt. other_field slot' (68 * slot') 0 k ne (omega arith) (omega arith));
        major =
            load16-same y x (68 * slot' + 2)
              (λ k lt. other_field slot' (68 * slot' + 2) 2 k ne refl (omega arith));
        minor =
            load16-same y x (68 * slot' + 4)
              (λ k lt. other_field slot' (68 * slot' + 4) 4 k ne refl (omega arith));
        nlink =
            load16-same y x (68 * slot' + 6)
              (λ k lt. other_field slot' (68 * slot' + 6) 6 k ne refl (omega arith));
        size =
            load32-same y x (68 * slot' + 8)
              (λ k lt. other_field slot' (68 * slot' + 8) 8 k ne refl (omega arith));
        addrs = λ i li. load32-same y x (68 * slot' + 12 + 4 * i) (λ k lt.
            other_field slot' (68 * slot' + 12 + 4 * i) (12 + 4 * i) k ne (omega arith)
              (omega arith));
      }

pub dinode_at-Fits : (x : Sector) (slot : ℕ) → ((k : ℕ) → x k < 256) → Fits (dinode_at x slot)
unfolding dinode_at
dinode_at-Fits x slot b = record {
  type = load16-lt x (68 * slot) b;
  major = load16-lt x (68 * slot + 2) b;
  minor = load16-lt x (68 * slot + 4) b;
  nlink = load16-lt x (68 * slot + 6) b;
  size = load32-lt x (68 * slot + 8) b;
  addrs = λ i li. load32-lt x (68 * slot + 12 + 4 * i) b;
}

pub put_dinode-byte :
    (x : Sector) (slot : ℕ) (d : Dinode)
    → ((k : ℕ) → x k < 256)
    → (k : ℕ) → put_dinode x slot d k < 256
unfolding put_dinode dinode_byte
put_dinode-byte x slot d b k = ground (arith, b k)
