-- ===== src/Syscall/Wait.antt =====
-- exit and wait4 of kernel/syscall.c: a child that has exited is reaped once.
use notux_kernel.Base.{
  ℕ, zero, suc, ◌+◌, ◌<◌, ◌≡◌, ◌≢◌, inl, inr, Bool, true, false, arith, ltb, ◌==◌, if◌then◌else◌,
  find_from-Searched, Bool-cases,
}
use mathlib.Core.Bool.{◌&&◌}
use notux_kernel.Process.{
  Table, Process, terminated, is_zombie, is_terminated, max_processes, set_process,
}
use notux_kernel.Syscall.{Kernel, minus_one, current}
use notux_kernel.Syscall.Handler.{zombie_child, reap, sys_wait4, store32}

abbrev pub is_zombie_of : Table → ℕ → ℕ → Bool
is_zombie_of t parent i = (t.processes i).ppid == parent && is_zombie (t.processes i).state

-- How many of the first `n` slots hold a zombie child of `parent`.
unfoldable pub zombies_below : ℕ → Table → ℕ → ℕ
zombies_below zero t parent = 0
zombies_below (suc n) t parent =
    zombies_below n t parent + (if is_zombie_of t parent n then 1 else 0)

zombies_below-set_process :
    (n : ℕ) (t : Table) (i : ℕ) (p : Process) (parent : ℕ)
    → zombies_below n (set_process t i p) parent
        + (if ltb i n && is_zombie_of t parent i then 1 else 0)
      ≡ zombies_below n t parent
        + (if ltb i n && (p.ppid == parent && is_zombie p.state) then 1 else 0)
unfolding zombies_below
zombies_below-set_process zero t i p parent = ground arith
zombies_below-set_process (suc n) t i p parent =
    ground (arith, zombies_below-set_process n t i p parent)

module _ {D : Type 0} where
  zombies-reap :
      (k : Kernel D) (n i parent : ℕ)
      → i < n
      → is_zombie_of k.table parent i ≡ true
      → zombies_below n (reap k i).table parent + 1 ≡ zombies_below n k.table parent
  unfolding reap
  zombies-reap k n i parent lt z =
      let dead : Process = record (k.table.processes i) {
        state = terminated;
        pid = 0;
        ppid = 0;
        exit_code = 0;
      } in
      ground (arith, zombies_below-set_process n k.table i dead parent)

module _ {D : Type 0} (k : Kernel D) where
  -- What wait4 comes to.
  pub data Waited (status_ptr : ℕ) : ℕ × Kernel D → Type 0 where
    no_child :
        ((i : ℕ) → i < max_processes → is_zombie_of k.table (current k).pid i ≡ false)
        → Waited status_ptr (minus_one, k)
    reaped :
        {i : ℕ} {k' : Kernel D}
        → i < max_processes
        → is_zombie_of k.table (current k).pid i ≡ true
        → is_terminated (k'.table.processes i).state ≡ true
        → ((j : ℕ) → j ≢ i → k'.table.processes j ≡ k.table.processes j)
        → zombies_below max_processes k'.table (current k).pid + 1
          ≡ zombies_below max_processes k.table (current k).pid
        → k'.user ≡ (
            if status_ptr == 0
            then k.user
            else store32 k.user status_ptr (k.table.processes i).exit_code)
        → Waited status_ptr ((k.table.processes i).pid, k')

  abbrev store_status : ℕ → ℕ → Kernel D
  store_status status_ptr i = record k {
    user = store32 k.user status_ptr (k.table.processes i).exit_code;
  }

  -- wait4 says -1, changing nothing, exactly when the caller has no child that has exited. Otherwise it
  -- returns the pid of one of these, puts its exit code at the status pointer if there is one, frees its
  -- slot, leaves every other slot, and leaves one such child less.
  pub sys_wait4-Waited : (status_ptr : ℕ) → Waited status_ptr (sys_wait4 k status_ptr)
  unfolding sys_wait4 zombie_child reap
  sys_wait4-Waited status_ptr =
      elim (find_from-Searched max_processes 0 max_processes
        (λ i. is_zombie_of k.table (current k).pid i) (omega arith)) [
          | inl (i, e, lt, first) ↦
              rw (e, zombie_child, sys_wait4)
                (elim (Bool-cases (status_ptr == 0)) [
                  | inl null ↦ rw null (
                      reaped lt first.passes (ground arith) (λ j ne. ground arith)
                        (zombies-reap k max_processes i (current k).pid lt first.passes)
                        (ground arith))
                  | inr given ↦ rw given (
                      reaped lt first.passes (ground arith) (λ j ne. ground arith)
                        (zombies-reap (store_status status_ptr i) max_processes i (current k).pid lt
                          first.passes)
                        (ground arith))
                ])
          | inr (e, none_left) ↦
              rw (e, zombie_child, sys_wait4) (no_child (λ j lt. none_left j (omega arith) lt))
        ]
