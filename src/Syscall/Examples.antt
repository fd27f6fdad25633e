-- ===== src/Syscall/Examples.antt =====
-- The theorems on kernel/syscall.c at a concrete kernel: process 0 runs, with descriptors 3 and 4 open
-- on the inode at 7, and process 2 is its child that has exited with 42. The file system is one of
-- reference counts.
use notux_kernel.Base.{
  ℕ, ◌+◌, ◌-◌, ◌≡◌, ◌⊎◌, true, false, some, [], arith, ltb, ◌==◌, ◌&&◌, if◌then◌else◌, update,
}
use notux_kernel.Process.{Process, State, running, zombie, terminated, OFile, closed}
use notux_kernel.Syscall.{FileSystem, Layout, Kernel, minus_one, int, ofile, is_open}
use notux_kernel.Syscall.Files.{sys_close, sys_dup, sys_dup2, sys_lseek}
use notux_kernel.Syscall.Handler.{sys_wait4}
use notux_kernel.Syscall.Fds.{held_below, Counts, IsCounted, fd_calls-IsCounted, sys_dup2_lem}
use notux_kernel.Syscall.Seek.{Sought, sys_lseek_lem}
use notux_kernel.Syscall.Wait.{Waited, sys_wait4-Waited}

-- The state of the file system: the reference count of each inode.
abbrev Refs : Type 0
Refs = ℕ → ℕ

abbrev file_system : FileSystem Refs
file_system = record {
  namei = λ d mem path. (0, d);
  ilock = λ d ip. d;
  iunlock = λ d ip. d;
  iput = λ d ip. update d ip (d ip - 1);
  idup = λ d ip. update d ip (d ip + 1);
  iupdate = λ d ip. d;
  size = λ d ip. 100;
  type_of = λ d ip. 2;
  truncate = λ d ip. d;
  readi = λ d ip off n. (some [], d);
  writei = λ d ip bytes off n. (some 0, d);
  xv6fs_create = λ d mem path type major minor. (0, d);
  xv6fs_unlink = λ d mem path. (false, d);
  xv6fs_bridge_set_cwd = λ d ip. d;
}

file_system-Counts : Counts file_system (λ d ip. d ip)
file_system-Counts = record {
  idup_self = λ d ip. ground arith;
  idup_other = λ d ip j ne. ground arith;
  iput_self = λ d ip pos. ground arith;
  iput_other = λ d ip j ne. ground arith;
}

abbrev open_file : OFile
open_file = record { ip = 7; offset = 20; flags = 2 }

abbrev files : ℕ → OFile
files = update (update (λ fd. closed) 3 open_file) 4 open_file

abbrev process : ℕ → ℕ → State → Process
process pid ppid state = record {
  pid = pid;
  ppid = ppid;
  exit_code = 42;
  esp = 0;
  kernel_stack = 0;
  state = state;
  pml4 = 0;
  heap_start = 0;
  heap_end = 0;
  ofiles = files;
}

abbrev kernel : Kernel Refs
kernel = record {
  table = record {
    processes =
        update (update (λ i. process 0 0 terminated) 0 (process 1 0 running)) 2
          (process 3 1 zombie);
    current_process_idx = 0;
    next_pid = 4;
  };
  machine = record {
    mem = λ a. 0;
    bitmap = λ i. if i == 0 then 1 else 0;
    kernel_pml4 = 0;
    cr3 = 0;
    kernel_stack = 0;
    invalidated = [];
  };
  keyboard = record {
    kb_buf = λ i. 0;
    kb_head = 0;
    kb_tail = 0;
    e0_prefix = false;
    shift_pressed = false;
  };
  disk = held_below 16 files;
  user = λ a. 0;
  screen = [];
  frame_buffer = λ i. 0;
  vbeaddr = 0;
  argv_scratch = λ i. 0;
  argv_ptrs = λ i. 0;
  elf_load_buffer = λ i. 0;
  ramfs = record { image = λ i. 0; disk = 0; magic = 0; file_count = 0 };
}

kernel-IsCounted : IsCounted file_system (λ d ip. d ip) (λ ip. 0) kernel
kernel-IsCounted ip ne = omega arith

fd_calls-IsCounted_example :
    IsCounted file_system (λ d ip. d ip) (λ ip. 0) (sys_close file_system kernel 3).1
    × IsCounted file_system (λ d ip. d ip) (λ ip. 0) (sys_dup file_system kernel 3).1
    × IsCounted file_system (λ d ip. d ip) (λ ip. 0) (sys_dup2 file_system kernel 3 9).1
fd_calls-IsCounted_example =
    fd_calls-IsCounted file_system file_system-Counts (λ ip. 0) kernel kernel-IsCounted 3 9

sys_dup2_lem_example :
    (((ltb (int 3) 16 && ltb (int 9) 16 && is_open kernel (int 3)) ≡ true)
      × ((sys_dup2 file_system kernel 3 9).0 ≡ int 9)
      × ((fd : ℕ)
          → ofile (sys_dup2 file_system kernel 3 9).1 fd
            ≡ (if int 9 == fd then ofile kernel (int 3) else ofile kernel fd)))
    ⊎ (((ltb (int 3) 16 && ltb (int 9) 16 && is_open kernel (int 3)) ≡ false)
        × (sys_dup2 file_system kernel 3 9 ≡ (minus_one, kernel)))
sys_dup2_lem_example = sys_dup2_lem file_system kernel 3 9

sys_lseek_lem_example : Sought file_system kernel 3 50 1 (sys_lseek file_system kernel 3 50 1)
sys_lseek_lem_example = sys_lseek_lem file_system kernel 3 50 1 (omega arith)

sys_wait4-Waited_example : Waited kernel 0x5000 (sys_wait4 kernel 0x5000)
sys_wait4-Waited_example = sys_wait4-Waited kernel 0x5000

abbrev layout : Layout
layout = record {
  stacks = record { kernel_stacks = 0x10_0000; user_stacks = 0x20_0000 };
  argv_scratch_at = 0x30_0000;
  argv_ptrs_at = 0x30_1000;
}

-- dup2 (33) of descriptor 3 to 9.
abbrev dup2_regs : ℕ → ℕ
dup2_regs = update (update (update (λ i. 0) 14 33) 9 3) 10 9
