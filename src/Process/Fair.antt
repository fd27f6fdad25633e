-- ===== src/Process/Fair.antt =====
-- The scheduler of kernel/process.c is fair: no ready process waits for long.
use notux_kernel.Base.{ℕ, suc, ◌+◌, ◌≤◌, ◌≡◌, ◌≢◌}
use notux_kernel.Machine.{Machine}
use notux_kernel.Process.{Table, Switch, resume, halt, schedule}
use notux_kernel.Process.Next.{distance, IsReady}
use notux_kernel.Process.Sched.{IsSound}

-- What happens between two timer interrupts, as far as a waiting process `p` is concerned: other
-- processes may be created, exit or be reaped.
pub record Leaves (p : ℕ) (t t' : Table) : Type 0 where
  pub sound : IsSound t'
  pub same_current : t'.current_process_idx ≡ t.current_process_idx
  pub still_ready : IsReady t p → IsReady t' p

-- The table after a call of schedule, whether it resumes a process or halts.
abbrev pub table_of : Switch → Table
table_of (resume esp t m) = t
table_of (halt t m) = t

-- The call resumes process `p`.
abbrev pub Resumes : ℕ → Switch → Type 0
Resumes p (resume esp t m) = t.current_process_idx ≡ p
Resumes p (halt t m) = ⊥

-- `n` calls of schedule, in a row, have not resumed the ready process `p`: each has resumed another or
-- halted the processor.
pub data PassedOver (p : ℕ) : ℕ → Table → Type 0 where
  start : {t : Table} → IsSound t → IsReady t p → t.current_process_idx ≢ p → PassedOver p 0 t
  again :
      {n : ℕ} {t t'' : Table} (m : Machine) (current_esp : ℕ)
      → PassedOver p n t
      → ¬ Resumes p (schedule t m current_esp)
      → Leaves p (table_of (schedule t m current_esp)) t''
      → PassedOver p (suc n) t''

record Bounded (p n : ℕ) (t : Table) : Type 0 where
  sound : IsSound t
  waits : IsReady t p
  apart : t.current_process_idx ≢ p
  near : n + distance t p ≤ 7
