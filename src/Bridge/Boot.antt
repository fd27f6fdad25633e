-- ===== src/Bridge/Boot.antt =====
-- create_default_dirs of kernel/onion.c, which the kernel calls when it starts. The paths "/etc", "/bin"
-- and "/root" are arguments, since a path is of a type of the file system.
use notux_kernel.Base.{◌==◌, if◌then◌else◌}
use notux_kernel.Bridge.Files.{Inodes}
use notux_kernel.Bridge.Ops.{t_dir, let_go, xv6fs_create}

module _ {D Text : Type 0} (fs : Inodes D Text) where
  unfoldable pub default_dir : D → (path : Text) → D
  default_dir d path =
      let (ip, d1) = xv6fs_create fs d path t_dir 0 0 in if ip == 0 then d1 else let_go fs d1 ip

  unfoldable pub create_default_dirs : D → (etc bin root : Text) → D
  create_default_dirs d etc bin root = default_dir (default_dir (default_dir d etc) bin) root
