-- ===== src/Syscall/Memory.antt =====
-- sys_brk (12) and the copy to the frame buffer (222) of kernel/syscall.c.
use notux_kernel.Base.{
  ℕ, zero, suc, ◌+◌, ◌-◌, ◌*◌, ◌/◌, ◌%◌, ◌^◌, Bool, true, false, not, ◌&&◌, ltb, leb, ◌==◌,
  if◌then◌else◌, update, for_loop,
}
use notux_kernel.Machine.{Machine, alloc_page}
use notux_kernel.Vmm.{vmm_map_page, vmm_unmap_page}
use notux_kernel.Elf.{load32}
use notux_kernel.Syscall.{Kernel, int, current, set_current}

abbrev pub heap_base : ℕ
heap_base = 0x7000_0000_0000

abbrev pub page_align_up : ℕ → ℕ
page_align_up x = let up = (x + 4095) % 2 ^ 64 in up - up % 4096

-- The loop that maps new pages, with the number of pages left; false once memory is exhausted.
pub grow : ℕ → Machine → ℕ → ℕ → Bool × Machine
grow zero m pml4 page = (true, m)
grow (suc rounds) m pml4 page =
    let (phys, m1) = alloc_page m in
    let rest = grow rounds (vmm_map_page m1 pml4 page phys 7) pml4 (page + 4096) in
    if phys == 0 then (false, m1) else rest

-- The loop that unmaps pages.
pub shrink : ℕ → Machine → ℕ → ℕ → Machine
shrink rounds m pml4 page = for_loop (λ i m. vmm_unmap_page m pml4 (page + 4096 * i)) 0 rounds m

module _ {D : Type 0} where
  -- The first call of a process sets its heap up.
  abbrev pub with_heap : Kernel D → Kernel D
  with_heap k =
      if (current k).heap_start == 0
      then set_current k (record (current k) { heap_start = heap_base; heap_end = heap_base })
      else k

  abbrev pub moved : Kernel D → ℕ → Machine → ℕ × Kernel D
  moved k new_brk m =
      (new_brk, set_current (record k { machine = m }) (record (current k) { heap_end = new_brk }))

  -- The part of sys_brk after its early returns.
  unfoldable pub move_break : Kernel D → ℕ → ℕ × Kernel D
  move_break k new_brk =
      let p = current k in
      let old_end = page_align_up p.heap_end in
      let new_end = page_align_up new_brk in
      if ltb old_end new_end
      then (let (done, m) = grow ((new_end - old_end) / 4096) k.machine p.pml4 old_end in
          if done then moved k new_brk m else (p.heap_end, record k { machine = m }))
      else (if ltb new_end old_end
          then moved k new_brk (shrink ((old_end - new_end) / 4096) k.machine p.pml4 new_end)
          else moved k new_brk k.machine)

  unfoldable pub sys_brk : Kernel D → ℕ → ℕ × Kernel D
  sys_brk k new_brk =
      let k1 = with_heap k in
      let p = current k1 in
      if new_brk == 0
      then (p.heap_end, k1)
      else if new_brk == p.heap_end
      then (p.heap_end, k1)
      else if ltb new_brk p.heap_start
      then (p.heap_end, k1)
      else move_break k1 new_brk

  -- The pixels go in pairs, and the last one of an odd number by itself.
  abbrev pub copy_pixel : Kernel D → ℕ → (ℕ → ℕ) → ℕ → ℕ → ℕ
  copy_pixel k src fb i = update fb i (load32 k.user (src + 4 * i))

  pub blit : Kernel D → ℕ → ℕ → (ℕ → ℕ)
  blit k src total =
      let pairs =
        for_loop (λ i fb. copy_pixel k src (copy_pixel k src fb (2 * i)) (2 * i + 1)) 0 (total / 2)
          k.frame_buffer in
      if not (total % 2 == 0) then copy_pixel k src pairs (total - 1) else pairs

  unfoldable pub sys_blit : Kernel D → ℕ → ℕ → ℕ → ℕ × Kernel D
  sys_blit k user_buf arg2 arg3 =
      let width = int arg2 in
      let height = int arg3 in
      if not (user_buf == 0) && leb width 800 && leb height 600
      then (if k.vbeaddr == 0
          then (0, k)
          else (0, record k { frame_buffer = blit k user_buf (width * height) }))
      else (0, k)
