-- ===== src/Bridge/Examples.antt =====
-- The theorems on kernel/Xjail/xv6/xv6fs_bridge.c at a disk whose sectors are numbers.
use notux_kernel.Base.{
  ℕ, ◌+◌, ◌≡◌, refl, Bool, true, false, not, ◌&&◌, arith, ◌==◌, if◌then◌else◌, some, List, [], ◌∷◌,
  update,
}
use notux_kernel.Bridge.{Ahci, Buf, Bridge, bread}
use notux_kernel.Bridge.Coherence.{IsDisk, IsCoherent, Holds}
use notux_kernel.Bridge.Refine.{Call, run_cached, run_direct, seen, run_cached-run_direct}
use notux_kernel.Bridge.Reuse.{bread_reuses_held}
use notux_kernel.Bridge.Files.{Inodes, xv6fs_bridge_read_file}
use notux_kernel.Bridge.Boot.{create_default_dirs}
use notux_kernel.Bridge.Ops.{xv6fs_create, xv6fs_unlink}
use notux_kernel.Bridge.Owns.{more, fewer, Counts}
use notux_kernel.Bridge.Balance.{file_calls-balanced}

abbrev ahci : Ahci (ℕ → ℕ) ℕ
ahci = record {
  ahci_read_sectors = λ d a. some (d a);
  ahci_write_sectors = λ d a x. (true, update d a x);
}

ahci-IsDisk : IsDisk ahci
ahci-IsDisk = record { same = λ d a x ok. ground arith; other = λ d a b x ok ne. ground arith }

abbrev empty : Buf ℕ
empty = record { valid = false; dirty = false; dev = 0; blockno = 0; contents = 0 }

-- Sector n of the disk holds n + 7, and nothing has been read.
abbrev unused : Bridge (ℕ → ℕ) ℕ
unused = record {
  bcache_pool = λ i. empty;
  bcache_inited = false;
  bcache_next_victim = 0;
  ahci_dev = true;
  disk = λ n. n + 7;
}

unused-IsCoherent : IsCoherent ahci 0 unused
unused-IsCoherent = record {
  present = refl;
  victim = omega arith;
  one_device = λ i v. absurd (ground arith);
  clean = λ i v. absurd (ground arith);
  holds = λ i v. absurd (ground arith);
  once = λ i j v w e. absurd (ground arith);
  in_pool = λ i v. absurd (ground arith);
}

abbrev calls : List (Call ℕ)
calls = Call.get 3 ∷ Call.change 3 (λ x. x + 1) ∷ Call.get 3 ∷ []

run_cached-run_direct_example :
    seen ahci (run_cached ahci 0 calls unused) ≡ run_direct ahci calls (λ n. n + 7)
run_cached-run_direct_example =
    run_cached-run_direct ahci ahci-IsDisk 0 calls unused unused-IsCoherent

-- The next victim holds block 3.
abbrev third : Bridge (ℕ → ℕ) ℕ
third = record unused {
  bcache_inited = true;
  bcache_pool = λ i.
      if i == 0
      then record { valid = true; dirty = false; dev = 0; blockno = 3; contents = 10 }
      else empty;
}

third-IsCoherent : IsCoherent ahci 0 third
third-IsCoherent = record {
  present = refl;
  victim = omega arith;
  one_device = λ i v. ground arith;
  clean = λ i v. ground arith;
  holds = λ i v. ground arith;
  once = λ i j v w e. ground arith;
  in_pool = λ i v. ground arith;
}

bread_reuses_held_example :
    (bread ahci third 0 3 ≡ some (0, third))
    × ((s' : Bridge (ℕ → ℕ) ℕ) × (bread ahci third 0 5 ≡ some (0, s')) × Holds s' 0 5 12)
bread_reuses_held_example =
    bread_reuses_held ahci 0 third 5 12 third-IsCoherent refl refl (λ j v. ground arith) refl

-- The references and the locks of a file system that finds inode 2 for every directory, inode 6 for every
-- name, and has inode 7 to give away.
abbrev Counted : Type 0
Counted = (ℕ → ℕ) × (ℕ → Bool)

abbrev spare : Counted → ℕ
spare (n, l) = if n 7 == 0 then 7 else 0

abbrev inodes : Inodes Counted ℕ
inodes = record {
  namei = λ (n, l) path. (6, (more 6 n, l));
  nameiparent = λ (n, l) path. (2, (λ i. if i == 0 then 97 else 0), (more 2 n, l));
  dirlookup = λ (n, l) dp name. (6, 32, (more 6 n, l));
  dirlink = λ d dp name inum. (true, d);
  ialloc = λ (n, l) dev type. (spare (n, l), (more (spare (n, l)) n, l));
  ilock = λ (n, l) p. (n, update l p true);
  iunlock = λ (n, l) p. (n, update l p false);
  iput = λ (n, l) p. (fewer p n, l);
  iupdate = λ d p. d;
  readi = λ d p off n. (some [], d);
  writei = λ d p bytes off n. (some n, d);
  dev = λ d p. 0;
  inum = λ d p. p;
  type_of = λ d p. 2;
  nlink = λ d p. 1;
  size = λ d p. 64;
  set_device = λ d p major minor. d;
  set_nlink = λ d p n. d;
}

inodes-Counts : Counts inodes (λ d. d.0) (λ d. d.1)
inodes-Counts = record {
  namei = λ d path i. refl;
  nameiparent = λ d path i. refl;
  dirlookup = λ d dp name i. refl;
  ialloc = λ d dev type i. refl;
  ialloc_unheld = λ d dev type real. ground arith;
  iput = λ d p i held. refl;
  ilock = λ d p i. refl;
  iunlock = λ d p i. refl;
  refs_ilock = λ d p i. refl;
  refs_iunlock = λ d p i. refl;
  refs_iupdate = λ d p i. refl;
  refs_dirlink = λ d p name n i. refl;
  refs_readi = λ d p off n i. refl;
  refs_writei = λ d p bytes off n i. refl;
  refs_set_device = λ d p a b i. refl;
  refs_set_nlink = λ d p n i. refl;
  locked_namei = λ d path i. refl;
  locked_nameiparent = λ d path i. refl;
  locked_dirlookup = λ d dp name i. refl;
  locked_ialloc = λ d dev type i. refl;
  locked_iput = λ d p i. refl;
  locked_iupdate = λ d p i. refl;
  locked_dirlink = λ d p name n i. refl;
  locked_readi = λ d p off n i. refl;
  locked_writei = λ d p bytes off n i. refl;
  locked_set_device = λ d p a b i. refl;
  locked_set_nlink = λ d p n i. refl;
}

-- Inode 2 is held by someone, as a working directory is.
abbrev held : Counted
held = ((λ i. if i == 2 then 1 else 0), (λ i. false))

file_calls-balanced_example :
    ((type major minor i : ℕ)
      → (let (ip, d') = xv6fs_create inodes held 100 type major minor in
          (d'.0 i ≡ (if not (ip == 0) && ip == i then held.0 i + 1 else held.0 i))
          × (d'.1 i ≡ (not (ip == 0) && ip == i))))
    × ((i : ℕ)
        → (let d' = (xv6fs_unlink inodes held 100).1 in (d'.0 i ≡ held.0 i) × (d'.1 i ≡ false)))
    × ((maxlen i : ℕ)
        → (let d' = (xv6fs_bridge_read_file inodes held 100 maxlen).1 in
            (d'.0 i ≡ held.0 i) × (d'.1 i ≡ false)))
    × ((etc bin root i : ℕ)
        → (let d' = create_default_dirs inodes held etc bin root in
            (d'.0 i ≡ held.0 i) × (d'.1 i ≡ false)))
file_calls-balanced_example = file_calls-balanced inodes inodes-Counts held 100 (λ i. refl)
