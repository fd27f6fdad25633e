-- ===== src/Bridge/Ops.antt =====
-- kernel/Xjail/xv6/xv6fs_ops.c: making and removing files and directories.
use notux_kernel.Base.{
  ℕ, zero, suc, ◌+◌, ◌-◌, ◌*◌, ◌/◌, ◌%◌, ◌^◌, Bool, true, false, not, ◌&&◌, ◌||◌, Option, none,
  some, List, [], ◌∷◌, leb, ltb, ◌==◌, if◌then◌else◌, length, get_or,
}
use notux_kernel.Bridge.Files.{Name, Inodes}

-- sizeof(struct dirent)
abbrev pub dirent_size : ℕ
dirent_size = 16

abbrev pub t_dir : ℕ
t_dir = 1

abbrev pub t_file : ℕ
t_file = 2

-- "." and ".."
abbrev pub dot : Name
dot i = if i == 0 then 46 else 0

abbrev pub dot_dot : Name
dot_dot i = if ltb i 2 then 46 else 0

abbrev pub is_dot : Name → Bool
is_dot name = name 0 == 46 && name 1 == 0

abbrev pub is_dot_dot : Name → Bool
is_dot_dot name = name 0 == 46 && name 1 == 46 && name 2 == 0

-- `de.inum != 0` is false of a whole entry that was read.
abbrev pub is_unused : Option (List ℕ) → Bool
is_unused none = false
is_unused (some de) = length de == dirent_size && get_or de 0 0 == 0 && get_or de 1 0 == 0

-- `(int)writei(...) == sizeof(de)`
abbrev pub is_whole : Option ℕ → Bool
is_whole none = false
is_whole (some n) = n == dirent_size

pub zeros : ℕ → List ℕ
zeros zero = []
zeros (suc n) = 0 ∷ zeros n

module _ {D Text : Type 0} (fs : Inodes D Text) where
  -- iunlock(ip); iput(ip);
  abbrev pub let_go : D → ℕ → D
  let_go d ip = fs.iput (fs.iunlock d ip) ip

  -- An entry of that name is there.
  unfoldable pub create_found : D → (dp ip type : ℕ) → ℕ × D
  create_found d dp ip type =
      let d1 = fs.ilock (let_go d dp) ip in
      if type == t_file && fs.type_of d1 ip == t_file then (ip, d1) else (0, let_go d1 ip)

  -- The entries of a new directory.
  unfoldable pub link_dots : D → (dp ip : ℕ) → Bool × D
  link_dots d dp ip =
      let d1 = fs.iupdate (fs.set_nlink d dp ((fs.nlink d dp + 1) % 2 ^ 16)) dp in
      let (ok, d2) = fs.dirlink d1 ip dot (fs.inum d1 ip) in
      if ok then fs.dirlink d2 ip dot_dot (fs.inum d2 dp) else (false, d2)

  -- From the last dirlink on, where `ok` says that the directory has its own entries.
  unfoldable pub create_link : Bool × D → (dp ip : ℕ) → Name → ℕ × D
  create_link (ok, d) dp ip name =
      let (linked, d1) = fs.dirlink d dp name (fs.inum d ip) in
      if not ok
      then (0, let_go (let_go d ip) dp)
      else if not linked
      then (0, let_go (let_go d1 ip) dp)
      else (ip, let_go d1 dp)

  unfoldable pub create_new : D → (dp : ℕ) → Name → (type major minor : ℕ) → ℕ × D
  create_new d dp name type major minor =
      let (ip, d1) = fs.ialloc d (fs.dev d dp) type in
      let d2 = fs.set_nlink (fs.set_device (fs.ilock d1 ip) ip major minor) ip 1 in
      let d3 = fs.iupdate d2 ip in
      if ip == 0
      then (0, let_go d1 dp)
      else create_link (if type == t_dir then link_dots d3 dp ip else (true, d3)) dp ip name

  unfoldable pub xv6fs_create : D → Text → (type major minor : ℕ) → ℕ × D
  xv6fs_create d path type major minor =
      let (dp, name, d1) = fs.nameiparent d path in
      let (ip, off, d2) = fs.dirlookup (fs.ilock d1 dp) dp name in
      if dp == 0
      then (0, d1)
      else if not (ip == 0)
      then create_found d2 dp ip type
      else create_new d2 dp name type major minor

  -- The loop over the entries after the first two.
  unfoldable pub dir_empty : D → (ip o rounds : ℕ) → Bool × D
  dir_empty d ip o zero = (true, d)
  dir_empty d ip o (suc rounds) =
      let (de, d1) = fs.readi d ip o dirent_size in
      let rest = dir_empty d1 ip (o + dirent_size) rounds in
      if is_unused de then rest else (false, d1)

  -- From the write of the empty entry on, where `ok` says that nothing speaks against it.
  unfoldable pub unlink_entry : Bool × D → (dp ip off : ℕ) → Bool × D
  unlink_entry (ok, d) dp ip off =
      let (written, d1) = fs.writei d dp (zeros dirent_size) off dirent_size in
      let d2 =
        if fs.type_of d1 ip == t_dir
        then fs.iupdate (fs.set_nlink d1 dp ((fs.nlink d1 dp + 2 ^ 16 - 1) % 2 ^ 16)) dp
        else d1 in
      let d3 = let_go d2 dp in
      let d4 = fs.iupdate (fs.set_nlink d3 ip ((fs.nlink d3 ip + 2 ^ 16 - 1) % 2 ^ 16)) ip in
      if not ok
      then (false, let_go (let_go d ip) dp)
      else if not (is_whole written)
      then (false, let_go (let_go d1 ip) dp)
      else (true, let_go d4 ip)

  -- `ip->nlink < 1`, of a short; the number of entries is that of the loop's condition.
  unfoldable pub unlink_found : D → (dp ip off : ℕ) → Bool × D
  unlink_found d dp ip off =
      let d1 = fs.ilock d ip in
      let rounds = (fs.size d1 ip - 2 * dirent_size + 15) / dirent_size in
      if fs.nlink d1 ip == 0 || leb (2 ^ 15) (fs.nlink d1 ip)
      then (false, let_go (let_go d1 ip) dp)
      else unlink_entry
          (if fs.type_of d1 ip == t_dir
            then dir_empty d1 ip (2 * dirent_size) rounds
            else (true, d1))
          dp ip off

  -- true for 0, false for -1
  unfoldable pub xv6fs_unlink : D → Text → Bool × D
  xv6fs_unlink d path =
      let (dp, name, d1) = fs.nameiparent d path in
      let d2 = fs.ilock d1 dp in
      let (ip, off, d3) = fs.dirlookup d2 dp name in
      if dp == 0
      then (false, d1)
      else if is_dot name
      then (false, let_go d2 dp)
      else if is_dot_dot name
      then (false, let_go d2 dp)
      else if ip == 0
      then (false, let_go d3 dp)
      else unlink_found d3 dp ip off
