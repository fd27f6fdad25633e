-- ===== src/Mkfs/Start.antt =====
-- mkfs.c: the image before its first directory.
use notux_kernel.Base.{ℕ, ◌+◌, ◌<◌, ◌≡◌, ◌≢◌, refl, arith, for_loop_inv}
use notux_kernel.Mkfs.{Sector, Image, wsect, dinode_at, iblock, nmeta, fssize, load16, load32}
use notux_kernel.Mkfs.Build.{opened, cleared, super_sector}
use notux_kernel.Mkfs.Bytes.{Use}
use notux_kernel.Mkfs.Files.{view}
use notux_kernel.Mkfs.Spec.{Tree, Shows, no_bytes}

-- Sectors of zeros up to `k`.
record IsCleared (k : ℕ) (s : Image) : Type 0 where
  zeros : (b i : ℕ) → s.disk b i ≡ 0
  blocks : s.blocks ≡ k
  freeblock : s.freeblock ≡ nmeta
  freeinode : s.freeinode ≡ 1

cleared-IsCleared : IsCleared fssize cleared
unfolding wsect
cleared-IsCleared =
    for_loop_inv (λ i s. wsect s i (λ k. 0)) IsCleared fssize 0 fssize opened refl
      (λ k t le lt h. record {
        zeros = λ b i. ground (arith, h.zeros b i);
        blocks = ground (arith, h.blocks);
        freeblock = h.freeblock;
        freeinode = h.freeinode;
      })
      (record { zeros = λ b i. refl; blocks = refl; freeblock = refl; freeinode = refl })

-- The image once the superblock is written.
abbrev pub start : Image
start = wsect cleared 1 super_sector

abbrev pub no_use : Use
no_use = record { level = λ b. 0; owner = λ b. 0; start = λ b. 0 }

abbrev pub no_files : Tree
no_files = record { type = λ m. 0; nlink = λ m. 0; size = λ m. 0; byte = λ m i. 0 }

load16-zero : (x : Sector) (o : ℕ) → ((k : ℕ) → x k ≡ 0) → load16 x o ≡ 0
load16-zero x o z = omega (arith, z o, z (o + 1))

load32-zero : (x : Sector) (o : ℕ) → ((k : ℕ) → x k ≡ 0) → load32 x o ≡ 0
load32-zero x o z = omega (arith, z o, z (o + 1), z (o + 2), z (o + 3))

super_sector-byte : (k : ℕ) → super_sector k < 256
unfolding super_sector
super_sector-byte k = omega arith

module _ (s : Image) (h : IsCleared fssize s) where
  later_zero : (b i : ℕ) → b ≢ 1 → (wsect s 1 super_sector).disk b i ≡ 0
  unfolding wsect
  later_zero b i ne = ground (arith, h.zeros b i)

  inode_zero : (m k : ℕ) → (wsect s 1 super_sector).disk (iblock m) k ≡ 0
  inode_zero m k = later_zero (iblock m) k (omega arith)

  start-Shows' : Shows (wsect s 1 super_sector) no_use no_files nmeta 1
  unfolding dinode_at wsect
  start-Shows' = record {
    image = record {
      fs = record {
        null = refl;
        range = λ b real. absurd (real refl);
        after_meta = omega (arith, h.freeblock);
        fresh = λ b k le. later_zero b k (omega (arith, h.freeblock));
        roots = λ m i lm li ne. absurd (ne (load32-zero _ _ (inode_zero m)));
        children = λ t i up li ne. absurd (omega (arith, up));
      };
      bytes = λ b k lb. ground (arith, h.zeros b k, super_sector-byte k);
      present = ground (arith, h.freeblock, h.blocks);
      small = ground (arith, h.blocks);
    };
    blocks = ground (arith, h.blocks);
    free_le = omega (arith, h.freeblock);
    next_is = h.freeinode;
    super = refl;
    type = λ m lm. load16-zero _ _ (inode_zero m);
    nlink = λ m lm. load16-zero _ _ (inode_zero m);
    size = λ m lm. load32-zero _ _ (inode_zero m);
    byte = λ m i lm li.
        no_bytes (wsect s 1 super_sector).disk (view (wsect s 1 super_sector) m) i
          (λ j lj. load32-zero _ _ (inode_zero m)) li;
  }

pub start-Shows : Shows start no_use no_files nmeta 1
start-Shows = start-Shows' cleared cleared-IsCleared
