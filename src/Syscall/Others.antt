-- ===== src/Syscall/Others.antt =====
-- syscall_handler of kernel/syscall.c: what a call leaves alone of the process table.
use notux_kernel.Base.{ℕ, ◌≡◌, refl, ◌≢◌, Bool, true, false, arith, if◌then◌else◌}
use notux_kernel.Process.{Process, OFile}
use notux_kernel.Syscall.{Kernel, set_ofile}
use notux_kernel.Syscall.Handler.{Outcome, returns, halts}

-- From `k` to `k'` only the slot of the current process changed, and it is still the current one.
pub record Own {D : Type 0} (k k' : Kernel D) : Type 0 where
  pub index : k'.table.current_process_idx ≡ k.table.current_process_idx
  pub pids : k'.table.next_pid ≡ k.table.next_pid
  pub others :
      (j : ℕ) → j ≢ k.table.current_process_idx → k'.table.processes j ≡ k.table.processes j

pub record OwnTo {D : Type 0} (k : Kernel D) (r : ℕ × Kernel D) : Type 0 where
  pub kernel : Own k r.1

module _ {D : Type 0} where
  same_table : {k k' : Kernel D} → k'.table ≡ k.table → Own k k'
  same_table e = record { index = rw e; pids = rw e; others = λ j ne. rw e }

  set_file :
      {k k1 : Kernel D} (fd : ℕ) (file : OFile) → k1.table ≡ k.table → Own k (set_ofile k1 fd file)
  set_file {k} {k1} fd file e = record {
    index = rw e;
    pids = rw e;
    others = λ j ne. rw e (ground arith);
  }

  to : {k k' : Kernel D} {r : ℕ} → Own k k' → OwnTo k (r, k')
  to h = record { kernel = h }

  either-Own : {k x y : Kernel D} (b : Bool) → Own k x → Own k y → Own k (if b then x else y)
  either-Own true s t = s
  either-Own false s t = t

  either-OwnTo :
      {k : Kernel D} {x y : ℕ × Kernel D} (b : Bool)
      → OwnTo k x
      → OwnTo k y
      → OwnTo k (if b then x else y)
  either-OwnTo true s t = s
  either-OwnTo false s t = t

ruleset slots = (either-OwnTo, either-Own, same_table, set_file, refl, to)

module _ {D : Type 0} where
  -- The kernel after the call, whether the call returns or halts the process.
  pub after : Outcome D → Kernel D
  after (returns r k) = k
  after (halts k) = k

  record OwnOutcome (k : Kernel D) (o : Outcome D) : Type 0 where
    kernel : Own k (after o)
