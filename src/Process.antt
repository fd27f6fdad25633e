-- ===== src/Process.antt =====
-- kernel/process.c and process.h: the table of 8 processes, their creation, exit and reaping, and the
-- round-robin scheduler. Where the code halts for good (`for (;;) hlt`) the model says `halt`. The
-- addresses that the linker gives to the static stacks are parameters. What serwrite prints is left out.

pub mod Frame
pub mod Create
pub mod Next
pub mod Sched
pub mod Fair
mod Examples
use notux_kernel.Base.{
  ℕ, ◌+◌, ◌-◌, ◌*◌, ◌%◌, ◌^◌, Bool, true, false, not, ◌&&◌, Option, none, some, ltb, leb, ◌==◌,
  if◌then◌else◌, update, for_loop, find_from,
}
use mathlib.Core.Option
use notux_kernel.Machine.{Machine, write}
use notux_kernel.Vmm.{create_user_pml4, vmm_switch_pml4}

abbrev pub max_processes : ℕ
max_processes = 8

abbrev pub kernel_stack_size : ℕ
kernel_stack_size = 8192

abbrev pub user_stack_size : ℕ
user_stack_size = 16384

pub data State : Type 0 where
  ready running zombie terminated : State

abbrev pub is_ready : State → Bool
is_ready ready = true
is_ready _ = false

abbrev pub is_running : State → Bool
is_running running = true
is_running _ = false

abbrev pub is_zombie : State → Bool
is_zombie zombie = true
is_zombie _ = false

abbrev pub is_terminated : State → Bool
is_terminated terminated = true
is_terminated _ = false

-- An open file: the address of its inode, 0 if the slot is free.
pub record OFile : Type 0 where
  pub ip : ℕ
  pub offset : ℕ
  pub flags : ℕ

abbrev pub closed : OFile
closed = record { ip = 0; offset = 0; flags = 0 }

pub record Process : Type 0 where
  pub pid : ℕ
  pub ppid : ℕ
  pub exit_code : ℕ
  pub esp : ℕ
  pub kernel_stack : ℕ
  pub state : State
  pub pml4 : ℕ
  pub heap_start : ℕ
  pub heap_end : ℕ
  pub ofiles : ℕ → OFile

-- `processes`, `current_process_idx` and `next_pid`.
pub record Table : Type 0 where
  pub processes : ℕ → Process
  pub current_process_idx : ℕ
  pub next_pid : ℕ

abbrev pub set_process : Table → ℕ → Process → Table
set_process t i p = record t { processes = update t.processes i p }

abbrev pub close_files : (ℕ → OFile) → ℕ → OFile
close_files files = for_loop (λ j files. update files j closed) 0 16 files

abbrev reset : Process → Process
reset p = record {
  pid = 0;
  ppid = 0;
  exit_code = 0;
  esp = 0;
  kernel_stack = 0;
  state = terminated;
  pml4 = 0;
  heap_start = 0;
  heap_end = 0;
  ofiles = close_files p.ofiles;
}

pub scheduler_init : Table → Table
scheduler_init t = record {
  processes =
      for_loop (λ i (ps : ℕ → Process). update ps i (reset (ps i))) 0 max_processes t.processes;
  current_process_idx = 0;
  next_pid = 1;
}

abbrev pub get_current_process : Table → Process
get_current_process t = t.processes t.current_process_idx

-- The index of the process; `none` is NULL.
pub get_process_by_pid : Table → ℕ → Option ℕ
get_process_by_pid t pid =
    find_from max_processes 0
      λ i. (t.processes i).pid == pid && not (is_terminated (t.processes i).state)

-- The first slot that is free, which create_process takes.
pub free_slot : Table → Option ℕ
free_slot t = find_from max_processes 0 λ i. is_terminated (t.processes i).state

-- Where the linker puts the static stacks.
pub record Stacks : Type 0 where
  pub kernel_stacks : ℕ
  pub user_stacks : ℕ

abbrev pub kernel_stack_top : Stacks → ℕ → ℕ
kernel_stack_top l idx = l.kernel_stacks + (idx + 1) * kernel_stack_size

abbrev pub user_stack_top : Stacks → ℕ → ℕ
user_stack_top l idx = l.user_stacks + (idx + 1) * user_stack_size

-- The frame that the first switch to the process pops: 15 registers under what iretq takes.
pub push_frame : Machine → ℕ → ℕ → ℕ → Machine
push_frame m top user_top entry_point =
    let m1 = write m (top - 8) 0x1B in
    let m2 = write m1 (top - 16) user_top in
    let m3 = write m2 (top - 24) 0x202 in
    let m4 = write m3 (top - 32) 0x23 in
    let m5 = write m4 (top - 40) entry_point in
    for_loop (λ i m. write m (top - 48 - 8 * i) 0) 0 15 m5

-- What create_process puts into the slot.
pub new_process : Stacks → Table → ℕ → ℕ → Process
new_process l t idx pml4 =
    let caller =
      get_current_process
        (set_process t idx (record (t.processes idx) { pid = t.next_pid % 2 ^ 32 })) in
    record {
      pid = t.next_pid % 2 ^ 32;
      ppid = if is_running caller.state then caller.pid else 0;
      exit_code = 0;
      esp = kernel_stack_top l idx - 160;
      kernel_stack = kernel_stack_top l idx;
      state = ready;
      pml4 = pml4;
      heap_start = 0;
      heap_end = 0;
      ofiles = close_files (t.processes idx).ofiles;
    }

-- The pid as the `int` that the caller gets, `none` for -1.
pub create_process : Stacks → Table → Machine → ℕ → Option ℕ × Table × Machine
create_process l t m entry_point = elim (free_slot t) [
  | none ↦ (none, t, m)
  | some idx ↦
      let (pml4, m1) = create_user_pml4 m in
      if pml4 == 0 then (none, t, m1) else (
        some (t.next_pid % 2 ^ 32),
        record t {
          processes = update t.processes idx (new_process l t idx pml4);
          next_pid = (t.next_pid + 1) % 2 ^ 64;
        },
        push_frame m1 (kernel_stack_top l idx) (user_stack_top l idx) entry_point,
      )
]

pub set_process_entry : Machine → Process → ℕ → Machine
set_process_entry m proc entry_point =
    if proc.esp == 0 then m else write m (proc.esp + 8 * 15) entry_point

pub set_process_argv : Machine → Process → ℕ → ℕ → Machine
set_process_argv m proc argc argv_ptr =
    if proc.esp == 0
    then m
    else write (write m (proc.esp + 8 * 9) argc) (proc.esp + 8 * 10) argv_ptr

pub activate_process : Table → Machine → ℕ → Table × Machine
activate_process t m idx =
    if leb max_processes idx
    then (t, m)
    else (let proc = record (t.processes idx) { state = running } in
        let t' = record t { processes = update t.processes idx proc; current_process_idx = idx } in
        (t', vmm_switch_pml4 (record m { kernel_stack = proc.kernel_stack }) proc.pml4))

-- The next process in the order of the table that is ready, going round from the current one.
pub next_ready : Table → Option ℕ
next_ready t =
    Option.map (λ i. (t.current_process_idx + i) % max_processes)
      (find_from (max_processes - 1) 1
        λ i. is_ready (t.processes ((t.current_process_idx + i) % max_processes)).state)

pub data Switch : Type 0 where
  resume : ℕ → Table → Machine → Switch
  halt : Table → Machine → Switch

-- The current process keeps its stack pointer, if it runs.
abbrev pub save_esp : Table → ℕ → Table
save_esp t current_esp =
    let current = get_current_process t in
    if is_running current.state
    then set_process t t.current_process_idx (record current { esp = current_esp })
    else t

abbrev pub preempt : Table → Table
preempt t =
    let current = get_current_process t in
    if is_running current.state
    then set_process t t.current_process_idx (record current { state = ready })
    else t

-- The part of schedule for which no other process is ready.
pub keep_current : Table → Machine → Switch
keep_current t m =
    let current = get_current_process t in
    if not (is_terminated current.state) && not (is_zombie current.state)
    then resume current.esp
        (set_process t t.current_process_idx (record current { state = running })) m
    else halt t m

pub schedule : Table → Machine → ℕ → Switch
schedule t m current_esp =
    let t1 = save_esp t current_esp in
    elim (next_ready t1) [
      | some idx ↦
          let (t2, m2) = activate_process (preempt t1) m idx in
          resume (get_current_process t2).esp t2 m2
      | none ↦ keep_current t1 m
    ]

-- The process halts, until the timer switches away from it.
unfoldable pub exit_current_process : Table → ℕ → Table
exit_current_process t exit_code =
    set_process t t.current_process_idx
      (record (get_current_process t) { exit_code = exit_code; state = zombie })
