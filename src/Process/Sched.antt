-- ===== src/Process/Sched.antt =====
-- The scheduler of kernel/process.c: one process runs at a time, and no ready process waits for long.
use notux_kernel.Base.{
  ℕ, ◌<◌, ◌≡◌, ◌≢◌, ◌⊎◌, inl, inr, true, false, none, some, arith, ◌==◌, if◌then◌else◌, Bool-cases,
}
use mathlib.Core.Bool.{not, ◌&&◌}
use notux_kernel.Machine.{Machine}
use notux_kernel.Process.{
  Table, Process, running, is_running, is_zombie, is_terminated, max_processes, next_ready, Switch,
  resume, halt, schedule, keep_current, save_esp, preempt, activate_process, get_current_process,
}
use notux_kernel.Process.Next.{IsReady, IsNearest, NoneReady, next_ready-cases}

-- Only the current process can be in the state of running.
pub record IsSound (t : Table) : Type 0 where
  pub current_in : t.current_process_idx < max_processes
  pub only :
      (i : ℕ)
      → i < max_processes
      → is_running (t.processes i).state ≡ true
      → i ≡ t.current_process_idx

-- The table after a call of schedule that picked process `k`.
pub record Picked (t : Table) (k : ℕ) (esp : ℕ) (t' : Table) : Type 0 where
  pub sound : IsSound t'
  pub current : t'.current_process_idx ≡ k
  pub runs : (t'.processes k).state ≡ running
  pub stack : esp ≡ (t.processes k).esp
  -- Every other ready process stays ready, and what ran is ready again.
  pub others : (j : ℕ) → j ≢ k → IsReady t j → IsReady t' j
  pub yields :
      is_running (get_current_process t).state ≡ true
      → t.current_process_idx ≢ k
      → IsReady t' t.current_process_idx

-- A current process that was running has its stack pointer in the table.
abbrev pub Saved : Table → (current_esp : ℕ) → Table → Type 0
Saved t current_esp t' =
    is_running (get_current_process t).state ≡ true
    → (t'.processes t.current_process_idx).esp ≡ current_esp

-- The current process runs on.
pub record GoesOn (t : Table) (current_esp esp : ℕ) (t' : Table) : Type 0 where
  pub current : t'.current_process_idx ≡ t.current_process_idx
  pub runs : (get_current_process t').state ≡ running
  pub alive :
      (is_terminated (get_current_process t).state ≡ false)
      × (is_zombie (get_current_process t).state ≡ false)
  pub stack : esp ≡ (
      if is_running (get_current_process t).state then current_esp else (get_current_process t).esp)
  pub others : (j : ℕ) → j ≢ t.current_process_idx → t'.processes j ≡ t.processes j

save_esp-state :
    (t : Table) (esp j : ℕ) → ((save_esp t esp).processes j).state ≡ (t.processes j).state
save_esp-state t esp j = ground arith

save_esp-current :
    (t : Table) (esp : ℕ) → (save_esp t esp).current_process_idx ≡ t.current_process_idx
save_esp-current t esp = ground arith

save_esp-IsSound : (t : Table) (esp : ℕ) → IsSound t → IsSound (save_esp t esp)
save_esp-IsSound t esp s = record {
  current_in = ground (arith, save_esp-current t esp);
  only = λ i lt r. ground (arith, save_esp-current t esp, save_esp-state t esp i, s.only i);
}

preempt-state :
    (t : Table) (j : ℕ) → j ≢ t.current_process_idx → ((preempt t).processes j) ≡ (t.processes j)
preempt-state t j ne = ground arith

schedule-some :
    (t : Table) (m : Machine) (esp k : ℕ)
    → next_ready (save_esp t esp) ≡ some k
    → schedule t m esp ≡ (
        let (t2, m2) = activate_process (preempt (save_esp t esp)) m k in
        resume (get_current_process t2).esp t2 m2)
unfolding schedule
schedule-some t m esp k e = rw (e, schedule)

schedule-none :
    (t : Table) (m : Machine) (esp : ℕ)
    → next_ready (save_esp t esp) ≡ none
    → schedule t m esp ≡ keep_current (save_esp t esp) m
unfolding schedule
schedule-none t m esp e = rw (e, schedule)

-- The table after the switch to process `k`.
abbrev switched : Table → Machine → ℕ → Table
switched t m k = (activate_process (preempt t) m k).0

switched-process :
    (t : Table) (m : Machine) (k j : ℕ)
    → k < max_processes
    → (switched t m k).processes j ≡ (
        if k == j
        then record ((preempt t).processes k) { state = running }
        else (preempt t).processes j)
unfolding activate_process
switched-process t m k j h = ground arith

switched-current :
    (t : Table) (m : Machine) (k : ℕ) → k < max_processes → (switched t m k).current_process_idx ≡ k
unfolding activate_process
switched-current t m k h = ground arith

preempt-running :
    (t : Table) → is_running ((preempt t).processes t.current_process_idx).state ≡ false
preempt-running t = ground arith

preempt-yields :
    (t : Table)
    → is_running (get_current_process t).state ≡ true
    → IsReady (preempt t) t.current_process_idx
preempt-yields t = ground arith

switched-esp :
    (t : Table) (m : Machine) (k : ℕ)
    → k < max_processes
    → k ≢ t.current_process_idx
    → (get_current_process (switched t m k)).esp ≡ (t.processes k).esp
unfolding activate_process
switched-esp t m k h ne = ground (arith, preempt-state t k ne)

Picked-switched :
    (t : Table) (m : Machine) (k : ℕ)
    → IsSound t
    → IsNearest t k
    → Picked t k (get_current_process (switched t m k)).esp (switched t m k)
Picked-switched t m k s n =
    let ne : k ≢ t.current_process_idx = omega (arith, n.ahead) in
    record {
      sound = record {
        current_in = omega (arith, switched-current t m k n.below, n.below);
        only = λ i lt r. ground (
          arith,
          switched-current t m k n.below,
          switched-process t m k i n.below,
          preempt-running t,
          preempt-state t i,
          s.only i lt,
        );
      };
      current = switched-current t m k n.below;
      runs = ground (arith, switched-process t m k k n.below);
      stack = switched-esp t m k n.below ne;
      others = λ j ne' r.
          (rw (switched-process t m k j n.below)
            (ground (arith, preempt-state t j, preempt-yields t)));
      yields = λ r ne'.
          (rw (switched-process t m k t.current_process_idx n.below)
            (ground (arith, preempt-yields t)));
    }

-- The search on the table with the saved stack pointer.
IsNearest-save_esp : (t : Table) (esp k : ℕ) → IsNearest (save_esp t esp) k → IsNearest t k
IsNearest-save_esp t esp k n = record {
  below = n.below;
  ahead = ground (arith, n.ahead, save_esp-current t esp);
  waits = ground (arith, n.waits, save_esp-state t esp k);
  nearest =
      λ j lt pos r. ground (arith, save_esp-current t esp, save_esp-state t esp j, n.nearest j lt);
}

-- What schedule does to a sound table: the nearest ready process runs, or none is ready and the
-- current one, which has not exited, goes on where it is, or it has exited and nothing runs.
pub data Scheduled (t : Table) (current_esp : ℕ) : Switch → Type 0 where
  switches :
      {k esp : ℕ} {t' : Table} {m' : Machine}
      → IsNearest t k
      → Picked t k esp t'
      → Saved t current_esp t'
      → Scheduled t current_esp (resume esp t' m')
  continues :
      {esp : ℕ} {t' : Table} {m' : Machine}
      → NoneReady t
      → IsSound t'
      → GoesOn t current_esp esp t'
      → Scheduled t current_esp (resume esp t' m')
  stops :
      {t' : Table} {m' : Machine}
      → NoneReady t
      → IsSound t'
      → t'.current_process_idx ≡ t.current_process_idx
      → ((j : ℕ) → IsReady t j → IsReady t' j)
      → (is_terminated (get_current_process t).state ≡ true)
        ⊎ (is_zombie (get_current_process t).state ≡ true)
      → Scheduled t current_esp (halt t' m')

Picked-save_esp :
    (t : Table) (current_esp k esp : ℕ) (t' : Table)
    → k ≢ t.current_process_idx
    → Picked (save_esp t current_esp) k esp t'
    → Picked t k esp t'
Picked-save_esp t e k esp t' ne p = record {
  sound = p.sound;
  current = p.current;
  runs = p.runs;
  stack = ground (arith, p.stack);
  others = λ j ne' r. p.others j ne' (ground (arith, save_esp-state t e j));
  yields = λ r ne'.
      ground (arith, save_esp-current t e, save_esp-state t e t.current_process_idx, p.yields);
}

NoneReady-save_esp : (t : Table) (esp : ℕ) → NoneReady (save_esp t esp) → NoneReady t
NoneReady-save_esp t esp none_ready j lt pos =
    ground (arith, save_esp-current t esp, save_esp-state t esp j, none_ready j lt)

keep_current-Scheduled :
    (t : Table) (m : Machine) (e : ℕ)
    → IsSound t
    → NoneReady t
    → Scheduled t e (keep_current (save_esp t e) m)
unfolding keep_current
keep_current-Scheduled t m e s none_ready =
    let t1 : Table = save_esp t e in
    let s1 = save_esp-IsSound t e s in
    let current : Process = get_current_process t1 in
    let same : t1.current_process_idx ≡ t.current_process_idx = save_esp-current t e in
    let state = save_esp-state t e t.current_process_idx in
    elim (Bool-cases (not (is_terminated current.state) && not (is_zombie current.state))) [
      | inl goes_on ↦ rw goes_on (
          continues none_ready
            (record { current_in = s1.current_in; only = λ i lt r. ground (arith, s1.only i) })
            (record {
              current = same;
              runs = ground arith;
              alive = ground (arith, same, state, goes_on);
              stack = ground arith;
              others = λ j ne. ground (arith, same);
            }))
      | inr over ↦ rw over (
          stops none_ready s1 same (λ j r. ground (arith, save_esp-state t e j))
            (ground (arith, same, state, over)))
    ]

Saved-switched :
    (t : Table) (m : Machine) (e k : ℕ)
    → k < max_processes
    → k ≢ t.current_process_idx
    → Saved t e (switched (save_esp t e) m k)
Saved-switched t m e k lt ne r =
    rw (switched-process (save_esp t e) m k t.current_process_idx lt)
      (ground (arith, save_esp-current t e))

-- schedule keeps the table sound: at most the current process runs. It resumes the nearest ready
-- process behind the current one, at the stack pointer that this process was left with, and
-- puts a current process that was running back among the ready ones, with current_esp as its stack
-- pointer. If no other is ready and the current process has not exited, it goes on: at current_esp
-- if it was running, at its own stack pointer if not, and no other slot changes. It halts
-- only if no other is ready and the current process has exited.
pub schedule-Scheduled :
    (t : Table) (m : Machine) (current_esp : ℕ)
    → IsSound t
    → Scheduled t current_esp (schedule t m current_esp)
schedule-Scheduled t m esp s =
    let t1 = save_esp t esp in
    let s1 = save_esp-IsSound t esp s in
    elim (next_ready-cases t1 s1.current_in) [
      | inl (k, e, n) ↦
          let n' = IsNearest-save_esp t esp k n in
          let ne : k ≢ t.current_process_idx = omega (arith, n'.ahead) in
          rw (schedule-some t m esp k e) (
            switches n' (Picked-save_esp t esp k _ _ ne (Picked-switched t1 m k s1 n))
              (Saved-switched t m esp k n'.below ne))
      | inr (e, none_ready) ↦
          rw (schedule-none t m esp e)
            (keep_current-Scheduled t m esp s (NoneReady-save_esp t esp none_ready))
    ]
