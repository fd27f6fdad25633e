-- ===== src/Process/Next.antt =====
-- Which process schedule of kernel/process.c picks.
use notux_kernel.Base.{
  ℕ, ◌+◌, ◌-◌, ◌%◌, ◌<◌, ◌≤◌, ◌≡◌, ◌⊎◌, inl, inr, Bool, true, false, none, some, arith,
  find_from-Searched,
}
use native.Mathlib.Decide.{dec_lt}
use notux_kernel.Process.{Table, is_ready, max_processes, next_ready}

-- How far process `p` is behind the current one, going round the table.
abbrev pub distance : Table → ℕ → ℕ
distance t p = (p + max_processes - t.current_process_idx) % max_processes

abbrev pub IsReady : Table → ℕ → Type 0
IsReady t p = is_ready (t.processes p).state ≡ true

-- The nearest ready process, going round from the current one.
pub record IsNearest (t : Table) (k : ℕ) : Type 0 where
  pub below : k < max_processes
  pub ahead : 0 < distance t k
  pub waits : IsReady t k
  pub nearest :
      (j : ℕ) → j < max_processes → 0 < distance t j → IsReady t j → distance t k ≤ distance t j

abbrev pub NoneReady : Table → Type 0
NoneReady t =
    (j : ℕ) → j < max_processes → 0 < distance t j → is_ready (t.processes j).state ≡ false

round_trip :
    (t : Table) (j : ℕ)
    → t.current_process_idx < max_processes
    → j < max_processes
    → (t.current_process_idx + distance t j) % max_processes ≡ j
round_trip t j cur lt = omega arith

clash : {b : Bool} → b ≡ false → b ≡ true → ⊥
clash e f = cc

-- The search finds the nearest ready process, or there is none but the current one.
pub next_ready-cases :
    (t : Table)
    → t.current_process_idx < max_processes
    → ((k : ℕ) × (next_ready t ≡ some k) × IsNearest t k) ⊎ ((next_ready t ≡ none) × NoneReady t)
unfolding next_ready
next_ready-cases t cur =
    elim (find_from-Searched 7 1 8
      (λ i. is_ready (t.processes ((t.current_process_idx + i) % max_processes)).state)
      (omega arith)) [
        | inl (i, found, below, first) ↦ inl (
          (t.current_process_idx + i) % max_processes,
          rw found,
          record {
            below = omega arith;
            ahead = omega (arith, first.from);
            waits = first.passes;
            nearest = λ j lt pos r. elim (dec_lt (distance t j) i) [
              | yes near ↦
                  let free = first.before (distance t j) pos near in
                  absurd (clash (rw (round_trip t j cur lt) at free) r)
              | no far ↦ omega arith
            ];
          },
        )
        | inr (gone, idle) ↦ inr (
          rw gone,
          λ j lt pos. rw (round_trip t j cur lt) at (idle (distance t j) pos (omega arith)),
        )
      ]
