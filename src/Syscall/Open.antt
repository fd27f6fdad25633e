-- ===== src/Syscall/Open.antt =====
-- The calls of kernel/syscall.c on paths: open (2), chdir (80), mkdir (83), unlink (87).
use notux_kernel.Base.{ℕ, ◌/◌, ◌%◌, Bool, not, none, some, ◌==◌, if◌then◌else◌}
use notux_kernel.Syscall.{FileSystem, Kernel, minus_one, int, set_ofile, set_disk}
use notux_kernel.Syscall.Files.{free_fd}

module _ {D : Type 0} (fs : FileSystem D) where
  open fs use {
    namei, ilock, iunlock, iput, iupdate, type_of, truncate, xv6fs_create, xv6fs_unlink,
    xv6fs_bridge_set_cwd,
  }

  abbrev pub o_creat : ℕ → Bool
  o_creat flags = flags / 0x40 % 2 == 1

  abbrev pub o_trunc : ℕ → Bool
  o_trunc flags = flags / 0x200 % 2 == 1

  -- O_CREAT: the inode comes back locked.
  unfoldable pub open_create : Kernel D → ℕ → ℕ → ℕ × D
  open_create k path flags =
      let (ip, d) = xv6fs_create k.disk k.user path 2 0 0 in
      if ip == 0 then (0, d) else (ip, if o_trunc flags then iupdate (truncate d ip) ip else d)

  unfoldable pub open_existing : Kernel D → ℕ → ℕ → ℕ × D
  open_existing k path flags =
      let (ip, d) = namei k.disk k.user path in
      if ip == 0
      then (0, d)
      else (ip, if o_trunc flags then iunlock (iupdate (truncate (ilock d ip) ip) ip) ip else d)

  unfoldable pub sys_open : Kernel D → ℕ → ℕ → ℕ × Kernel D
  sys_open k path arg2 =
      let flags = int arg2 in
      if path == 0
      then (minus_one, k)
      else (let (ip, d) =
            if o_creat flags then open_create k path flags else open_existing k path flags in
          let unlocked = λ (d : D). if o_creat flags then iunlock d ip else d in
          if ip == 0 then (minus_one, set_disk k d) else elim (free_fd fs k) [
            | none ↦ (minus_one, set_disk k (iput (unlocked d) ip))
            | some fd ↦ (
              fd,
              set_ofile (set_disk k (unlocked d)) fd
                  (record { ip = ip; offset = 0; flags = flags }),
            )
          ])

  unfoldable pub sys_chdir : Kernel D → ℕ → ℕ × Kernel D
  sys_chdir k path =
      if path == 0
      then (minus_one, k)
      else (let (ip, d) = namei k.disk k.user path in
          if ip == 0
          then (minus_one, set_disk k d)
          else (let d1 = ilock d ip in
              if not (type_of d1 ip == 1)
              then (minus_one, set_disk k (iput (iunlock d1 ip) ip))
              else (0, set_disk k (xv6fs_bridge_set_cwd (iunlock d1 ip) ip))))

  unfoldable pub sys_mkdir : Kernel D → ℕ → ℕ × Kernel D
  sys_mkdir k path =
      if path == 0
      then (minus_one, k)
      else (let (ip, d) = xv6fs_create k.disk k.user path 1 0 0 in
          if ip == 0 then (minus_one, set_disk k d) else (0, set_disk k (iput (iunlock d ip) ip)))

  unfoldable pub sys_unlink : Kernel D → ℕ → ℕ × Kernel D
  sys_unlink k path =
      if path == 0
      then (minus_one, k)
      else (let (done, d) = xv6fs_unlink k.disk k.user path in
          (if done then 0 else minus_one, set_disk k d))
