-- ===== src/Bridge/Files.antt =====
-- The end of kernel/Xjail/xv6/xv6fs_bridge.c: the working directory of the file system, the read of a
-- whole file, and the start. What is printed is left out, and bridge_halt is `none`.
use notux_kernel.Base.{ℕ, Bool, true, Option, none, some, List, ◌==◌, if◌then◌else◌}
use notux_kernel.Bridge.{Bridge}

-- `char name[DIRSIZ]`, by index.
abbrev pub Name : Type 0
Name = ℕ → ℕ

-- The calls of kernel/xv6fs/fs.c that this file and xv6fs_ops.c make, over the state `D` of that layer.
-- An inode pointer is its address, 0 for NULL; its fields are part of the state.
pub record Inodes (D Text : Type 0) : Type 0 where
  pub namei : D → Text → ℕ × D
  pub nameiparent : D → Text → ℕ × Name × D
  -- The inode, and the offset of its entry.
  pub dirlookup : D → ℕ → Name → ℕ × ℕ × D
  -- false for a negative result
  pub dirlink : D → ℕ → Name → (inum : ℕ) → Bool × D
  pub ialloc : D → (dev type : ℕ) → ℕ × D
  pub ilock : D → ℕ → D
  pub iunlock : D → ℕ → D
  pub iput : D → ℕ → D
  pub iupdate : D → ℕ → D
  -- The bytes that were read, or none for -1.
  pub readi : D → ℕ → (off n : ℕ) → Option (List ℕ) × D
  -- How many of the bytes were written, or none for -1.
  pub writei : D → ℕ → List ℕ → (off n : ℕ) → Option ℕ × D
  pub dev : D → ℕ → ℕ
  pub inum : D → ℕ → ℕ
  pub type_of : D → ℕ → ℕ
  pub nlink : D → ℕ → ℕ
  pub size : D → ℕ → ℕ
  -- `ip->major = major; ip->minor = minor`
  pub set_device : D → ℕ → (major minor : ℕ) → D
  pub set_nlink : D → ℕ → ℕ → D

-- xv6fs_fake_proc.cwd and xv6fs_fake_proc_inited.
pub record FakeProc : Type 0 where
  pub cwd : ℕ
  pub inited : Bool

module _ {D Text : Type 0} (fs : Inodes D Text) where
  -- `root` is "/".
  pub myproc : Text → D × FakeProc → Option (D × FakeProc)
  myproc root (d, p) =
      if p.inited
      then some (d, p)
      else (let (ip, d1) = fs.namei d root in
          if ip == 0 then none else some (d1, record { cwd = ip; inited = true }))

  change_cwd : ℕ → D × FakeProc → D × FakeProc
  change_cwd ip (d, p) = (if p.cwd == 0 then d else fs.iput d p.cwd, record p { cwd = ip })

  pub xv6fs_bridge_set_cwd : Text → ℕ → D × FakeProc → Option (D × FakeProc)
  xv6fs_bridge_set_cwd root ip s = elim (myproc root s) [
    | none ↦ none
    | some t ↦ some (change_cwd ip t)
  ]

  -- The bytes, or none for -1.
  unfoldable pub xv6fs_bridge_read_file : D → Text → (maxlen : ℕ) → Option (List ℕ) × D
  xv6fs_bridge_read_file d path maxlen =
      let (ip, d1) = fs.namei d path in
      let (got, d2) = fs.readi (fs.ilock d1 ip) ip 0 maxlen in
      if ip == 0 then (none, d1) else (got, fs.iput (fs.iunlock d2 ip) ip)

pub xv6fs_bridge_init : {D Sector : Type 0} → Bridge D Sector → Bool → Bridge D Sector
xv6fs_bridge_init s dev = record s { ahci_dev = dev }
