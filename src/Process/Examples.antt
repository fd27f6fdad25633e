-- ===== src/Process/Examples.antt =====
-- The theorems on kernel/process.c at a concrete table: process 0 runs, 1 and 2 are ready.
use notux_kernel.Base.{ℕ, ◌*◌, ◌≡◌, refl, none, some, [], arith, update, find_from}
use notux_kernel.Base.{for_loop}
use notux_kernel.Base.Bits.{test_bit}
use notux_kernel.Pmm.{pmm_alloc_page, bitmap_test}
use notux_kernel.Machine.{Machine, alloc_page, read, write, load64, store64}
use notux_kernel.Vmm.{create_user_pml4, vmm_get_kernel_pml4, copy_kernel, zero_table}
use notux_kernel.Process.{
  Table, Process, State, ready, running, terminated, closed, Stacks, next_ready, Switch, schedule,
  activate_process, create_process, get_process_by_pid, free_slot,
}
use notux_kernel.Process.Sched.{IsSound, Scheduled, schedule-Scheduled}
use notux_kernel.Process.Fair.{table_of}
use notux_kernel.Process.Create.{
  IsPlaced, HasPids, CreateResult, create_process-CreateResult, create_process-HasPids, FoundBy,
  get_process_by_pid-create_process,
}

abbrev process : ℕ → State → Process
process pid state = record {
  pid = pid;
  ppid = 0;
  exit_code = 0;
  esp = 0x1000 * pid;
  kernel_stack = 0;
  state = state;
  pml4 = 0;
  heap_start = 0;
  heap_end = 0;
  ofiles = λ fd. closed;
}

abbrev table : Table
table = record {
  processes =
      update (update (update (λ i. process 0 terminated) 0 (process 1 running)) 1 (process 2 ready))
        2 (process 3 ready);
  current_process_idx = 0;
  next_pid = 4;
}

abbrev machine : Machine
machine = record {
  mem = λ a. 0;
  bitmap = λ i. 255;
  kernel_pml4 = 0;
  cr3 = 0;
  kernel_stack = 0;
  invalidated = [];
}

abbrev stacks : Stacks
stacks = record { kernel_stacks = 0x100000; user_stacks = 0x200000 }

abbrev switch : Switch
switch = schedule table machine 0xABC

goes_round : (table_of switch).current_process_idx ≡ 1
unfolding schedule next_ready find_from activate_process
goes_round = refl

no_slot_left :
    create_process stacks (record table { processes = λ i. process 1 ready }) machine 0
    ≡ (none, record table { processes = λ i. process 1 ready }, machine)
unfolding create_process find_from free_slot
no_slot_left = refl

find_second : get_process_by_pid table 2 ≡ some 1
unfolding get_process_by_pid find_from
find_second = refl

table-IsSound : IsSound table
table-IsSound = record { current_in = omega arith; only = λ i lt r. ground arith }

schedule-Scheduled_example : Scheduled table 0xABC (schedule table machine 0xABC)
schedule-Scheduled_example = schedule-Scheduled table machine 0xABC table-IsSound

-- One page is left, for the page tables of a process, and the kernel's tables map nothing.
abbrev one_page : Machine
one_page = record machine { bitmap = update (λ i. 255) 0 251; kernel_pml4 = 0x1000 }

stacks-IsPlaced : IsPlaced stacks
stacks-IsPlaced = record { aligned = refl; low = omega arith }

create_process-CreateResult_example :
    CreateResult stacks table one_page 0x400000 (create_process stacks table one_page 0x400000)
create_process-CreateResult_example =
    create_process-CreateResult stacks stacks-IsPlaced table one_page 0x400000 (omega arith)

table-HasPids : HasPids table
table-HasPids = record {
  below = λ i lt live. ground arith;
  distinct = λ i j hi hj li lj e. ground arith;
}

create_process-HasPids_example : HasPids (create_process stacks table one_page 0x400000).1
create_process-HasPids_example =
    create_process-HasPids stacks stacks-IsPlaced table table-HasPids (omega arith) one_page
      0x400000 (omega arith)

creates : (create_process stacks table one_page 0x400000).0 ≡ some 4
unfolding create_process free_slot find_from create_user_pml4 alloc_page pmm_alloc_page bitmap_test
    test_bit vmm_get_kernel_pml4 copy_kernel zero_table for_loop read write load64 store64
creates = refl

get_process_by_pid-create_process_example :
    FoundBy table 4 (create_process stacks table one_page 0x400000).1
get_process_by_pid-create_process_example =
    get_process_by_pid-create_process stacks stacks-IsPlaced table table-HasPids (omega arith)
      one_page 0x400000 (omega arith) 4 creates
