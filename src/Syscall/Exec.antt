-- ===== src/Syscall/Exec.antt =====
-- spawn_from_xv6fs of kernel/syscall.c, spawn_from_ramfs of kernel/ramfspawn.c, and execve (59).
use notux_kernel.Base.{
  ℕ, zero, suc, ◌+◌, ◌-◌, ◌*◌, ◌^◌, Bool, true, false, not, ◌&&◌, ◌||◌, Option, none, some, length,
  ltb, leb, ◌==◌, if◌then◌else◌, update, for_loop,
}
use notux_kernel.Machine.{load64}
use notux_kernel.Keyboard.{kflush}
use notux_kernel.Process.{
  terminated, create_process, get_process_by_pid, set_process, set_process_entry, set_process_argv,
}
use notux_kernel.Elf.{load16, has_magic, load_elf_into_process}
use notux_kernel.Ramfs.{ramfs_open, ramfs_size, ramfs_data}
use notux_kernel.Syscall.{FileSystem, Kernel, Layout, minus_one, current, set_disk, put_bytes}

abbrev pub max_elf_size : ℕ
max_elf_size = 256 * 1024

abbrev pub max_argv : ℕ
max_argv = 16

abbrev pub argv_scratch_size : ℕ
argv_scratch_size = 4096

-- `len` of a C string, but at most `room`.
unfoldable pub bounded_length : ℕ → (ℕ → ℕ) → ℕ → ℕ
bounded_length zero mem src = 0
bounded_length (suc room) mem src =
    let rest = bounded_length room mem (src + 1) in if mem src == 0 then 0 else suc rest

-- The state of the loop over the arguments: how much of the scratch buffer is taken, how many
-- arguments are copied, and whether the loop goes on.
pub record Args : Type 0 where
  pub scratch : ℕ → ℕ
  pub ptrs : ℕ → ℕ
  pub taken : ℕ
  pub copied : ℕ
  pub going : Bool

-- One round, on the address `src` of the argument.
pub copy_arg : ℕ → (ℕ → ℕ) → ℕ → Args → Args
copy_arg scratch_at user src a =
    let len = bounded_length (argv_scratch_size - a.taken) user src in
    if not a.going
    then a
    else if src == 0
    then record a { going = false }
    else if leb argv_scratch_size (a.taken + len + 1)
    then record a { going = false }
    else record {
      scratch =
          update (for_loop (λ j s. update s (a.taken + j) (user (src + j))) 0 len a.scratch)
            (a.taken + len) 0;
      ptrs = update a.ptrs a.copied (scratch_at + a.taken);
      taken = a.taken + len + 1;
      copied = a.copied + 1;
      going = true;
    }

module _ {D : Type 0} (l : Layout) (fs : FileSystem D) where
  open fs use {namei, ilock, iunlock, iput, idup, size, readi}

  pub copy_args : Kernel D → ℕ → ℕ → Args
  copy_args k caller_argv argc =
      for_loop (λ i a. copy_arg l.argv_scratch_at k.user (load64 k.user (caller_argv + 8 * i)) a) 0
        argc
        (record {
          scratch = k.argv_scratch;
          ptrs = k.argv_ptrs;
          taken = 0;
          copied = 0;
          going = true;
        })

  -- The arguments are installed only if there are from 1 to 15 of them.
  pub install_args : Kernel D → ℕ → ℕ → ℕ → Kernel D
  install_args k idx caller_argv argc =
      let a = copy_args k caller_argv argc in
      if not (caller_argv == 0) && ltb 0 argc && ltb argc max_argv
      then record k {
        argv_scratch = a.scratch;
        argv_ptrs = update a.ptrs a.copied 0;
        machine = set_process_argv k.machine (k.table.processes idx) a.copied l.argv_ptrs_at;
      }
      else k

  -- One round of the loop that hands the caller's fd 0, 1 and 2 to the child.
  pub inherit_fd : ℕ → ℕ → Kernel D → Kernel D
  inherit_fd idx sfd k =
      let file = (current k).ofiles sfd in
      let child = k.table.processes idx in
      if file.ip == 0 then k else record k {
        table = set_process k.table idx (record child { ofiles = update child.ofiles sfd file });
        disk = idup k.disk file.ip;
      }

  -- From the new process on: its files, its segments, its entry point and its arguments.
  pub start_child : Kernel D → ℕ → ℕ → ℕ → ℕ → ℕ → Option ℕ × Kernel D
  start_child k idx pid file_size caller_argv argc =
      let k1 = for_loop (inherit_fd idx) 0 3 k in
      let child = k1.table.processes idx in
      let (loaded, m) = load_elf_into_process k1.machine child.pml4 k1.elf_load_buffer file_size in
      let k2 = record k1 { machine = m } in
      if not loaded
      then (
        none,
        record k2 { table = set_process k2.table idx (record child { state = terminated }) },
      )
      else (let entered = set_process_entry m child (load64 k1.elf_load_buffer 24) in
          (some pid, install_args (record k2 { machine = entered }) idx caller_argv argc))

  -- A pid with its top bit set is a negative `int`.
  pub create_child : Kernel D → ℕ → ℕ → ℕ → Option ℕ × Kernel D
  create_child k file_size caller_argv argc =
      let (made, t, m) = create_process l.stacks k.table k.machine 0 in
      let k1 = record k { table = t; machine = m } in
      elim made [
        | none ↦ (none, k1)
        | some pid ↦ if leb (2 ^ 31) pid then (none, k1) else (elim (get_process_by_pid t pid) [
          | none ↦ (none, k1)
          | some idx ↦ start_child k1 idx pid file_size caller_argv argc
        ])
      ]

  -- Reads the file at `path` into the load buffer; the size is none for any failure.
  pub read_elf : Kernel D → ℕ → Option ℕ × Kernel D
  read_elf k path =
      if path == 0
      then (none, k)
      else (let (ip, d) = namei k.disk k.user path in
          if ip == 0
          then (none, set_disk k d)
          else (let d1 = ilock d ip in
              let bytes_wanted = size d1 ip in
              if bytes_wanted == 0 || ltb max_elf_size bytes_wanted
              then (none, set_disk k (iput (iunlock d1 ip) ip))
              else (let (r, d2) = readi d1 ip 0 bytes_wanted in
                  let k1 = set_disk k (iput (iunlock d2 ip) ip) in
                  elim r [
                    | none ↦ (none, k1)
                    | some bytes ↦ (
                      if length bytes == bytes_wanted then some bytes_wanted else none,
                      record k1 { elf_load_buffer = put_bytes k.elf_load_buffer 0 bytes },
                    )
                  ])))

  -- The pid of the child, or none for -1.
  pub spawn_from_xv6fs : Kernel D → ℕ → ℕ → ℕ → Option ℕ × Kernel D
  spawn_from_xv6fs k path caller_argv argc =
      let (found, k1) = read_elf k path in
      let file = k1.elf_load_buffer in
      elim found [
        | none ↦ (none, k1)
        | some file_size ↦
            if has_magic file && file 4 == 2 && load16 file 18 == 62
            then create_child k1 file_size caller_argv argc
            else (none, k1)
      ]

  -- 0, or none for -1.
  pub spawn_from_ramfs : ℕ → Kernel D → ℕ → Option ℕ × Kernel D
  spawn_from_ramfs limit k filename =
      let fd = ramfs_open limit k.ramfs k.user filename in
      elim (ramfs_data k.ramfs fd) [
        | none ↦ (none, k)
        | some offset ↦
            let (made, t, m) = create_process l.stacks k.table k.machine 0 in
            let k1 = record k { table = t; machine = m } in
            let elf_data = λ (i : ℕ). k.ramfs.image (offset + i) in
            elim made [
              | none ↦ (none, k1)
              | some pid ↦
                  if leb (2 ^ 31) pid then (none, k1) else (elim (get_process_by_pid t pid) [
                    | none ↦ (none, k1)
                    | some idx ↦
                        let child = t.processes idx in
                        let (loaded, m1) =
                          load_elf_into_process m child.pml4 elf_data (ramfs_size k.ramfs fd) in
                        if not loaded then (none, record k1 { machine = m1 }) else (
                          some 0,
                          record k1 { machine = set_process_entry m1 child (load64 elf_data 24) },
                        )
                  ])
            ]
      ]

  -- The keys that wait are dropped if a process was started.
  abbrev started : ℕ → Kernel D → ℕ × Kernel D
  started r k = (r, record k { keyboard = kflush k.keyboard })

  pub sys_execve : ℕ → Kernel D → ℕ → ℕ → ℕ → ℕ × Kernel D
  sys_execve limit k filename arg2 arg3 =
      let (res, k1) = spawn_from_xv6fs k filename arg2 arg3 in
      let (again, k2) = spawn_from_ramfs limit k1 filename in
      if filename == 0 then (minus_one, k) else elim res [
        | some pid ↦ started pid k1
        | none ↦ elim again [ some r ↦ started r k2 | none ↦ (minus_one, k2) ]
      ]
