-- ===== src/Syscall/Handler.antt =====
-- syscall_handler of kernel/syscall.c: the switch on the number in regs[14], with wait4 (61), getpid
-- (39), fork (57) and exit (60).
use notux_kernel.Base.{
  ℕ, ◌+◌, ◌/◌, ◌%◌, ◌^◌, ◌&&◌, Option, none, some, ◌==◌, if◌then◌else◌, update, find_from,
}
use notux_kernel.Process.{terminated, is_zombie, max_processes, set_process, exit_current_process}
use notux_kernel.Syscall.{FileSystem, Kernel, Layout, Memory, minus_one, int, current}
use notux_kernel.Syscall.Files.{sys_read, sys_write, sys_close, sys_lseek, sys_dup, sys_dup2}
use notux_kernel.Syscall.Open.{sys_open, sys_chdir, sys_mkdir, sys_unlink}
use notux_kernel.Syscall.Memory.{sys_brk, sys_blit}
use notux_kernel.Syscall.Exec.{sys_execve}

-- `*(int *)a = v`
pub store32 : Memory → ℕ → ℕ → Memory
store32 mem a v =
    update
      (update (update (update mem a (v % 256)) (a + 1) (v / 256 % 256)) (a + 2) (v / 256 ^ 2 % 256))
      (a + 3) (v / 256 ^ 3 % 256)

module _ {D : Type 0} where
  -- The first zombie whose parent is the caller.
  unfoldable pub zombie_child : Kernel D → Option ℕ
  zombie_child k =
      find_from max_processes 0
        λ i. (k.table.processes i).ppid == (current k).pid && is_zombie (k.table.processes i).state

  unfoldable pub reap : Kernel D → ℕ → Kernel D
  reap k i = record k {
    table =
        set_process k.table i
          (record (k.table.processes i) { state = terminated; pid = 0; ppid = 0; exit_code = 0 });
  }

  unfoldable pub sys_wait4 : Kernel D → ℕ → ℕ × Kernel D
  sys_wait4 k status_ptr = elim (zombie_child k) [
    | none ↦ (minus_one, k)
    | some found ↦
        let child = k.table.processes found in
        let k1 =
          if status_ptr == 0
          then k
          else record k { user = store32 k.user status_ptr child.exit_code } in
        (child.pid, reap k1 found)
  ]

-- What a system call comes to: it returns with regs[14], or the process halts until the timer
-- switches away from it.
pub data Outcome (D : Type 0) : Type 0 where
  returns : ℕ → Kernel D → Outcome D
  halts : Kernel D → Outcome D

module _ {D : Type 0} (l : Layout) (fs : FileSystem D) (limit : ℕ) where
  abbrev pub finish : ℕ × Kernel D → Outcome D
  finish (r, k) = returns r k

  unfoldable pub syscall_handler : Kernel D → (ℕ → ℕ) → Outcome D
  syscall_handler k regs =
      let num = regs 14 in
      let arg1 = regs 9 in
      let arg2 = regs 10 in
      let arg3 = regs 11 in
      if num == 0
      then finish (sys_read fs k arg1 arg2 arg3)
      else if num == 1
      then finish (sys_write fs k arg1 arg2 arg3)
      else if num == 2
      then finish (sys_open fs k arg1 arg2)
      else if num == 3
      then finish (sys_close fs k arg1)
      else if num == 8
      then finish (sys_lseek fs k arg1 arg2 arg3)
      else if num == 12
      then finish (sys_brk k arg1)
      else if num == 32
      then finish (sys_dup fs k arg1)
      else if num == 33
      then finish (sys_dup2 fs k arg1 arg2)
      else if num == 39
      then returns (current k).pid k
      else if num == 57
      then returns minus_one k
      else if num == 59
      then finish (sys_execve l fs limit k arg1 arg2 arg3)
      else if num == 60
      then halts (record k { table = exit_current_process k.table (int arg1) })
      else if num == 61
      then finish (sys_wait4 k arg2)
      else if num == 80
      then finish (sys_chdir fs k arg1)
      else if num == 83
      then finish (sys_mkdir fs k arg1)
      else if num == 87
      then finish (sys_unlink fs k arg1)
      else if num == 222
      then finish (sys_blit k arg1 arg2 arg3)
      else returns minus_one k
