-- ===== src/Syscall/Brk.antt =====
-- sys_brk of kernel/syscall.c: the bounds of the heap that a process has.
use notux_kernel.Base.{ℕ, ◌<◌, ◌≤◌, ◌≡◌, ◌≢◌, ◌⊎◌, ltb, ◌==◌, if◌then◌else◌}
use notux_kernel.Machine.{Machine}
use notux_kernel.Syscall.{Kernel, current}
use notux_kernel.Syscall.Memory.{page_align_up, move_break}

module _ {D : Type 0} where
  abbrev pub IsOrdered : Kernel D → Type 0
  IsOrdered k = (current k).heap_start ≤ (current k).heap_end

  -- What brk comes to, for a caller in the state `k` that has a heap.
  pub record Moved (k : Kernel D) (new_brk : ℕ) (answer : ℕ × Kernel D) : Type 0 where
    pub start : (current answer.1).heap_start ≡ (current k).heap_start
    pub ordered : IsOrdered answer.1
    pub told : answer.0 ≡ (current answer.1).heap_end
    pub either : (answer.0 ≡ new_brk) ⊎ (answer.0 ≡ (current k).heap_end)
    pub below : new_brk < (current k).heap_start → answer.0 ≡ (current k).heap_end
    pub shrinks :
        new_brk ≢ 0
        → (current k).heap_start ≤ new_brk
        → page_align_up new_brk ≤ page_align_up (current k).heap_end
        → answer.0 ≡ new_brk
    pub others :
        (j : ℕ) → j ≢ k.table.current_process_idx → answer.1.table.processes j ≡ k.table.processes j

  -- The rest of sys_brk, once the heap is set up.
  abbrev pub brk_at : Kernel D → ℕ → ℕ × Kernel D
  brk_at k new_brk =
      let p = current k in
      if new_brk == 0
      then (p.heap_end, k)
      else if new_brk == p.heap_end
      then (p.heap_end, k)
      else if ltb new_brk p.heap_start
      then (p.heap_end, k)
      else move_break k new_brk
