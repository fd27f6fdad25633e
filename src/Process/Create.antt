-- ===== src/Process/Create.antt =====
-- create_process, exit_current_process and get_process_by_pid of kernel/process.c on the table of
-- processes.
use mathlib.Core.Bool.{not, ◌&&◌, false≢true}
use notux_kernel.Base.{
  ℕ, ◌+◌, ◌*◌, ◌%◌, ◌^◌, ◌<◌, ◌≡◌, refl, ◌≢◌, ◌⊎◌, inl, inr, true, false, Option, none, some, arith,
  ◌==◌, if◌then◌else◌, update, for_loop_inv, find_from-Searched, Bool-cases, ap, sym, ◌∙◌,
}
use native.Mathlib.Decide.{ℕ_discrete}
use notux_kernel.Machine.{Machine}
use notux_kernel.Vmm.{create_user_pml4}
use notux_kernel.Process.{
  Table, ready, OFile, closed, close_files, Stacks, is_running, is_terminated, max_processes,
  kernel_stack_size, user_stack_size, kernel_stack_top, user_stack_top, new_process, free_slot,
  create_process, get_process_by_pid, get_current_process,
}
use notux_kernel.Process.Frame.{Framed, push_frame-Framed}
use notux_kernel.Process.Sched.{IsSound}

abbrev pub IsFree : Table → ℕ → Type 0
IsFree t i = is_terminated (t.processes i).state ≡ true

abbrev pub IsLive : Table → ℕ → Type 0
IsLive t i = is_terminated (t.processes i).state ≡ false

-- No two processes have one pid, and no pid is given out before its turn.
pub record HasPids (t : Table) : Type 0 where
  pub below : (i : ℕ) → i < max_processes → IsLive t i → (t.processes i).pid < t.next_pid
  pub distinct :
      (i j : ℕ)
      → i < max_processes
      → j < max_processes
      → IsLive t i
      → IsLive t j
      → (t.processes i).pid ≡ (t.processes j).pid
      → i ≡ j

close_files-lt : (files : ℕ → OFile) (fd : ℕ) → fd < 16 → close_files files fd ≡ closed
close_files-lt files fd =
    for_loop_inv (λ j files. update files j closed) (λ k (fs : ℕ → OFile). fd < k → fs fd ≡ closed)
      16 0 16 files (omega arith) (λ k fs lo hi h lt. ground (arith, h))
      (λ lt. absurd (omega arith))

-- The linker aligns the kernel stacks to 16, and the user stacks are below 2^64.
pub record IsPlaced (l : Stacks) : Type 0 where
  pub aligned : l.kernel_stacks % 16 ≡ 0
  pub low : l.user_stacks + max_processes * user_stack_size < 2 ^ 64

-- The table and the memory after a successful create_process.
pub record Created (l : Stacks) (t : Table) (m : Machine) (entry pid : ℕ) (t' : Table)
    (m' : Machine) : Type 0 where
  pub idx : ℕ
  pub below : idx < max_processes
  pub was_free : IsFree t idx
  pub lowest : (j : ℕ) → j < idx → IsLive t j
  pub pid_is : pid ≡ t.next_pid % 2 ^ 32
  pub has_pid : (t'.processes idx).pid ≡ pid
  pub is_new : (t'.processes idx).state ≡ ready
  pub tables : (t'.processes idx).pml4 ≡ (create_user_pml4 m).0
  pub kernel_stack_is :
      (t'.processes idx).kernel_stack ≡ l.kernel_stacks + (idx + 1) * kernel_stack_size
  pub esp_is : (t'.processes idx).esp + 160 ≡ l.kernel_stacks + (idx + 1) * kernel_stack_size
  pub no_heap : ((t'.processes idx).heap_start ≡ 0) × ((t'.processes idx).heap_end ≡ 0)
  pub no_exit_code : (t'.processes idx).exit_code ≡ 0
  pub no_files : (fd : ℕ) → fd < 16 → (t'.processes idx).ofiles fd ≡ closed
  pub parent :
      (t'.processes idx).ppid
      ≡ (if is_running (get_current_process t).state then (get_current_process t).pid else 0)
  pub others : (j : ℕ) → j ≢ idx → t'.processes j ≡ t.processes j
  pub current : t'.current_process_idx ≡ t.current_process_idx
  pub next : t'.next_pid ≡ (t.next_pid + 1) % 2 ^ 64
  -- The first switch to the process starts it at `entry`, on its user stack.
  pub frame :
      Framed
        (create_user_pml4 m).1
        (l.kernel_stacks + (idx + 1) * kernel_stack_size)
        (l.user_stacks + (idx + 1) * user_stack_size)
        entry
        m'

-- The table that create_process leaves, once it has a slot and page tables.
abbrev pub filled : Stacks → Table → ℕ → ℕ → Table
filled l t idx pml4 = record t {
  processes = update t.processes idx (new_process l t idx pml4);
  next_pid = (t.next_pid + 1) % 2 ^ 64;
}

new_process-parent :
    (l : Stacks) (t : Table) (idx pml4 : ℕ)
    → IsFree t idx
    → (new_process l t idx pml4).ppid
      ≡ (if is_running (get_current_process t).state then (get_current_process t).pid else 0)
unfolding new_process
new_process-parent l t idx pml4 h = ground arith

Created-filled :
    (l : Stacks) (t : Table) (m m' : Machine) (entry idx : ℕ)
    → idx < max_processes
    → IsFree t idx
    → ((j : ℕ) → j < idx → IsLive t j)
    → Framed (create_user_pml4 m).1 (kernel_stack_top l idx) (user_stack_top l idx) entry m'
    → Created l t m entry (t.next_pid % 2 ^ 32) (filled l t idx (create_user_pml4 m).0) m'
unfolding new_process
Created-filled l t m m' entry idx lt free low frame = record {
  idx = idx;
  below = lt;
  was_free = free;
  lowest = low;
  pid_is = refl;
  has_pid = ground arith;
  is_new = ground arith;
  tables = ground arith;
  kernel_stack_is = ground arith;
  esp_is = ground arith;
  no_heap = (ground arith, ground arith);
  no_exit_code = ground arith;
  no_files = λ fd h. ground (arith, close_files-lt (t.processes idx).ofiles fd h);
  parent = ground (arith, new_process-parent l t idx (create_user_pml4 m).0 free);
  others = λ j ne'. ground arith;
  current = refl;
  next = refl;
  frame = frame;
}

-- What create_process can come to.
pub data CreateResult (l : Stacks) (t : Table) (m : Machine) (entry : ℕ)
    : Option ℕ × Table × Machine → Type 0 where
  no_slot : ((j : ℕ) → j < max_processes → IsLive t j) → CreateResult l t m entry (none, t, m)
  no_memory :
      (create_user_pml4 m).0 ≡ 0 → CreateResult l t m entry (none, t, (create_user_pml4 m).1)
  created :
      {pid : ℕ} {t' : Table} {m' : Machine}
      → (create_user_pml4 m).0 ≢ 0
      → Created l t m entry pid t' m'
      → CreateResult l t m entry (some pid, t', m')

module _ (l : Stacks) (placed : IsPlaced l) (t : Table) (m : Machine) (entry_point : ℕ)
    (small : entry_point < 2 ^ 64) where
  create_process-some :
      (idx : ℕ)
      → free_slot t ≡ some idx
      → idx < max_processes
      → IsFree t idx
      → ((j : ℕ) → j < idx → IsLive t j)
      → CreateResult l t m entry_point (create_process l t m entry_point)
  unfolding create_process
  create_process-some idx e lt free low =
      let frame =
        push_frame-Framed (create_user_pml4 m).1 (kernel_stack_top l idx) (user_stack_top l idx)
          entry_point (omega (arith, placed.aligned)) (omega arith) (omega (arith, placed.low))
          small in
      elim (Bool-cases ((create_user_pml4 m).0 == 0)) [
        | inl none_left ↦ rw (e, create_process) (rw none_left (no_memory (ground arith)))
        | inr some_left ↦
            rw (e, create_process)
              (rw some_left
                (created (ground arith) (Created-filled l t m _ entry_point idx lt free low frame)))
      ]

  -- For stacks that are where the linker puts them, create_process fails, with the table as it was,
  -- if no slot is free or create_user_pml4 fails. Otherwise it takes the lowest free slot for a ready
  -- process with the page tables that create_user_pml4 gives, the kernel stack of the slot, no heap, no
  -- open file, the next pid, and the running caller (if any) as its parent, and touches no other slot.
  -- On the kernel stack, at its stack pointer, are 15 registers of 0 and the frame for a start at the
  -- entry point on the user stack of the slot, and no other aligned word of memory changes after
  -- create_user_pml4.
  pub create_process-CreateResult :
      CreateResult l t m entry_point (create_process l t m entry_point)
  unfolding free_slot
  create_process-CreateResult =
      elim (find_from-Searched 8 0 8 (λ i. is_terminated (t.processes i).state) (omega arith)) [
        | inl (idx, e, lt, first) ↦
            create_process-some idx e lt first.passes (λ j h. first.before j (omega arith) h)
        | inr (e, full) ↦
            unfold create_process in
            rw (e, create_process, free_slot) (no_slot (λ j lt. full j (omega arith) lt))
      ]

module _ (l : Stacks) (t : Table) (m : Machine) (entry : ℕ) {pid : ℕ} {t' : Table} {m' : Machine}
    (c : Created l t m entry pid t' m') where
  -- A live process of the new table is the new one, or one of the old table.
  new_or_old :
      (i : ℕ)
      → IsLive t' i
      → ((i ≡ c.idx) × ((t'.processes i).pid ≡ pid))
        ⊎ ((i ≢ c.idx) × (t'.processes i ≡ t.processes i) × IsLive t i)
  new_or_old i live = elim (ℕ_discrete i c.idx) [
    | yes e ↦ inl (e, ground (arith, c.has_pid))
    | no ne ↦ inr (ne, c.others i ne, ground (arith, c.others i ne))
  ]

  -- A new process leaves at most the current process running.
  pub Created-IsSound : IsSound t → IsSound t'
  Created-IsSound s = record {
    current_in = omega (arith, c.current, s.current_in);
    only = λ i lt r. elim (ℕ_discrete i c.idx) [
      | yes e ↦ ground (arith, c.is_new)
      | no ne ↦ ground (arith, c.others i ne, s.only i lt, c.current)
    ];
  }

module _ (l : Stacks) (t : Table) (h : HasPids t) (small : t.next_pid + 1 < 2 ^ 32) (m : Machine)
    (entry : ℕ) {pid : ℕ} {t' : Table} {m' : Machine} (c : Created l t m entry pid t' m') where
  pid_small : pid ≡ t.next_pid
  pid_small = omega (arith, c.pid_is)

  distinct :
      (i j : ℕ)
      → i < max_processes
      → j < max_processes
      → IsLive t' i
      → IsLive t' j
      → (t'.processes i).pid ≡ (t'.processes j).pid
      → i ≡ j
  distinct i j hi hj li lj e = elim (new_or_old l t m entry c i li) [
    | inl (ei, pi) ↦ elim (new_or_old l t m entry c j lj) [
      | inl (ej, pj) ↦ ei ∙ sym ej
      | inr (nj, oj, old) ↦ absurd (ground (arith, h.below j hj old, pid_small))
    ]
    | inr (ni, oi, old) ↦ elim (new_or_old l t m entry c j lj) [
      | inl (ej, pj) ↦ absurd (ground (arith, h.below i hi old, pid_small))
      | inr (nj, oj, old') ↦ h.distinct i j hi hj old old' (ground arith)
    ]
  ]

  Created-HasPids : HasPids t'
  Created-HasPids = record {
    below = λ i lt live. elim (new_or_old l t m entry c i live) [
      | inl (e, p) ↦ omega (arith, p, pid_small, c.next)
      | inr (ne, o, old) ↦ ground (arith, h.below i lt old, c.next)
    ];
    distinct = distinct;
  }

  get_process_by_pid-Created : get_process_by_pid t' pid ≡ some c.idx
  unfolding get_process_by_pid
  get_process_by_pid-Created =
      elim (find_from-Searched 8 0 8
        (λ i. (t'.processes i).pid == pid && not (is_terminated (t'.processes i).state))
        (omega arith)) [
          | inl (k, e, lt, first) ↦
              e
              ∙ ap some (
                  distinct k c.idx lt c.below (ground (arith, first.passes))
                    (ground (arith, c.is_new)) (ground (arith, first.passes, c.has_pid)))
          | inr (e, missing) ↦ absurd (
              false≢true
                (sym (missing c.idx (omega arith) c.below) ∙ ground (arith, c.is_new, c.has_pid)))
        ]

-- The pid leads to a ready process, in a slot that was free.
abbrev pub FoundBy : Table → ℕ → Table → Type 0
FoundBy t pid t' =
    (idx : ℕ) × (get_process_by_pid t' pid ≡ some idx)
    × IsFree t idx
    × ((t'.processes idx).state ≡ ready)

module _ (l : Stacks) (placed : IsPlaced l) (t : Table) (h : HasPids t)
    (no_wrap : t.next_pid + 1 < 2 ^ 32) (m : Machine) (entry : ℕ) (small : entry < 2 ^ 64) where
  result-HasPids : {r : Option ℕ × Table × Machine} → CreateResult l t m entry r → HasPids r.1
  result-HasPids (no_slot full) = h
  result-HasPids (no_memory e) = h
  result-HasPids (created ne c) = Created-HasPids l t h no_wrap m entry c

  -- While pids do not wrap at 32 bits, create_process keeps the pids of the live processes distinct and
  -- below the next one to be given out, whether it succeeds or fails.
  pub create_process-HasPids : HasPids (create_process l t m entry).1
  create_process-HasPids = result-HasPids (create_process-CreateResult l placed t m entry small)

  result-FoundBy :
      (pid : ℕ) {r : Option ℕ × Table × Machine}
      → CreateResult l t m entry r
      → r.0 ≡ some pid
      → FoundBy t pid r.1
  result-FoundBy pid (no_slot full) e = absurd (ground arith)
  result-FoundBy pid (no_memory none_left) e = absurd (ground arith)
  result-FoundBy pid (created {pid = p} {t' = t'} ne c) e =
      let same : p ≡ pid = ground arith in
      let found = get_process_by_pid-Created l t h no_wrap m entry c in
      (c.idx, rw same at found, c.was_free, c.is_new)

  -- While pids do not wrap at 32 bits, the pid that create_process returns finds, by get_process_by_pid,
  -- a ready process in a slot that was free.
  pub get_process_by_pid-create_process :
      (pid : ℕ)
      → (create_process l t m entry).0 ≡ some pid
      → FoundBy t pid (create_process l t m entry).1
  get_process_by_pid-create_process pid e =
      result-FoundBy pid (create_process-CreateResult l placed t m entry small) e
