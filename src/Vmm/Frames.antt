-- ===== src/Vmm/Frames.antt =====
-- kernel/vmm.c: what the paging code does to the bitmap of physical pages.
use notux_kernel.Base.{
  ℕ, ◌+◌, ◌*◌, ◌≡◌, refl, Bool, true, false, arith, ◌==◌, if◌then◌else◌, for_loop, for_loop_inv,
  inl, inr, List,
}
use notux_kernel.Machine.{Machine, write, alloc_page}
use notux_kernel.Pmm.{bitmap_test}
use notux_kernel.Pmm.Bitmap.{IsBytes, bitmap_set-IsBytes, bitmap_test-bitmap_set}
use notux_kernel.Pmm.Alloc.{alloc-cases}
use notux_kernel.Vmm.{
  zero_table, new_level, get_next_level, fill_split, split_huge_pde, map_table, vmm_map_page,
  unmap_table, vmm_unmap_page, copy_entries, pml4_idx, pdp_idx, pd_idx,
}

-- From `m` to `m'` pages were only taken, and the kernel's root table, CR3 and the kernel stack stayed.
pub record Takes (m m' : Machine) : Type 0 where
  pub bytes : IsBytes m.bitmap → IsBytes m'.bitmap
  pub used :
      IsBytes m.bitmap → (q : ℕ) → bitmap_test m.bitmap q ≡ true → bitmap_test m'.bitmap q ≡ true
  pub root : m'.kernel_pml4 ≡ m.kernel_pml4
  pub cr3_same : m'.cr3 ≡ m.cr3
  pub stack_same : m'.kernel_stack ≡ m.kernel_stack

pub Takes-refl : (m : Machine) → Takes m m
Takes-refl m = record {
  bytes = λ h. h;
  used = λ h q u. u;
  root = refl;
  cr3_same = refl;
  stack_same = refl;
}

pub Takes-trans : {m1 m2 m3 : Machine} → Takes m1 m2 → Takes m2 m3 → Takes m1 m3
Takes-trans s t = record {
  bytes = λ h. t.bytes (s.bytes h);
  used = λ h q u. t.used (s.bytes h) q (s.used h q u);
  root = cc (s.root, t.root);
  cr3_same = cc (s.cr3_same, t.cr3_same);
  stack_same = cc (s.stack_same, t.stack_same);
}

pub either-Takes :
    {m x y : Machine} (b : Bool) → Takes m x → Takes m y → Takes m (if b then x else y)
either-Takes true s t = s
either-Takes false s t = t

-- The same for an answer that comes with the machine.
record TakesTo {A : Type 0} (m : Machine) (r : A × Machine) : Type 0 where
  machine : Takes m r.1

to : {A : Type 0} {m : Machine} {r : A × Machine} → Takes m r.1 → TakesTo m r
to t = record { machine = t }

either-TakesTo :
    {A : Type 0} {m : Machine} {x y : A × Machine} (b : Bool)
    → TakesTo m x
    → TakesTo m y
    → TakesTo m (if b then x else y)
either-TakesTo true s t = s
either-TakesTo false s t = t

-- One more step keeps the relation: a write, an allocation, a loop, and each helper of vmm.c.
module _ {m m' : Machine} (so_far : Takes m m') where
  pub then-write : (a v : ℕ) → Takes m (write m' a v)
  unfolding write
  then-write a v = record {
    bytes = so_far.bytes;
    used = so_far.used;
    root = so_far.root;
    cr3_same = so_far.cr3_same;
    stack_same = so_far.stack_same;
  }

  then-invalidate : (addresses : List ℕ) → Takes m (record m' { invalidated = addresses })
  then-invalidate addresses = record {
    bytes = so_far.bytes;
    used = so_far.used;
    root = so_far.root;
    cr3_same = so_far.cr3_same;
    stack_same = so_far.stack_same;
  }

pub alloc_page-Takes : (m : Machine) → Takes m (alloc_page m).1
unfolding alloc_page
alloc_page-Takes m = elim (alloc-cases m.bitmap) [
  | inl (k, low, e) ↦ simp e (record {
    bytes = λ h. bitmap_set-IsBytes m.bitmap k h;
    used = λ h q u. ground (arith, bitmap_test-bitmap_set m.bitmap k q h);
    root = refl;
    cr3_same = refl;
    stack_same = refl;
  })
  | inr (full, e) ↦ simp e (Takes-refl m)
]

pub then-alloc : {m m' : Machine} → Takes m m' → Takes m (alloc_page m').1
then-alloc so_far = Takes-trans so_far (alloc_page-Takes _)

then-loop :
    (body : ℕ → Machine → Machine) {m : Machine} (i n : ℕ) {m' : Machine}
    → ((k : ℕ) (t : Machine) → Takes m t → Takes m (body k t))
    → Takes m m'
    → Takes m (for_loop body i n m')
then-loop body {m} i n {m'} step so_far =
    for_loop_inv body (λ k t. Takes m t) (i + n) i n m' refl (λ k t lo hi. step k t) so_far

then-zero_table : {m m' : Machine} (table : ℕ) → Takes m m' → Takes m (zero_table m' table)
unfolding zero_table
then-zero_table table so_far =
    either-Takes (table == 0) so_far (then-loop _ 0 512 (λ k t h. then-write h _ _) so_far)

then-fill_split : {m m' : Machine} (pt pde : ℕ) → Takes m m' → Takes m (fill_split m' pt pde)
unfolding fill_split
then-fill_split pt pde so_far = then-loop _ 0 512 (λ k t h. then-write h _ _) so_far

then-copy_entries :
    {m m' : Machine} (dst src from n : ℕ) → Takes m m' → Takes m (copy_entries m' dst src from n)
unfolding copy_entries
then-copy_entries dst src from n so_far = then-loop _ from n (λ k t h. then-write h _ _) so_far

ruleset steps = (
  either-TakesTo, either-Takes, then-write, then-invalidate, then-alloc, then-zero_table,
  then-fill_split, then-copy_entries, Takes-refl, to,
)

new_level-TakesTo : {m m' : Machine} (entry : ℕ) → Takes m m' → TakesTo m (new_level m' entry)
unfolding new_level
new_level-TakesTo entry so_far = search steps depth 12

get_next_level-TakesTo :
    {m m' : Machine} (entry : ℕ) (allocate : Bool)
    → Takes m m'
    → TakesTo m (get_next_level m' entry allocate)
unfolding get_next_level
get_next_level-TakesTo entry allocate so_far = search (steps, new_level-TakesTo) depth 12

split_huge_pde-TakesTo : {m m' : Machine} (pde : ℕ) → Takes m m' → TakesTo m (split_huge_pde m' pde)
unfolding split_huge_pde
split_huge_pde-TakesTo pde so_far = search steps depth 12

map_table-TakesTo : {m m' : Machine} (pde : ℕ) → Takes m m' → TakesTo m (map_table m' pde)
unfolding map_table
map_table-TakesTo pde so_far = search (steps, new_level-TakesTo, split_huge_pde-TakesTo) depth 12

unmap_table-TakesTo : {m m' : Machine} (pde : ℕ) → Takes m m' → TakesTo m (unmap_table m' pde)
unfolding unmap_table
unmap_table-TakesTo pde so_far = search (steps, split_huge_pde-TakesTo) depth 12

pub vmm_map_page-Takes :
    (m : Machine) (pml4 virt phys flags : ℕ) → Takes m (vmm_map_page m pml4 virt phys flags)
unfolding vmm_map_page
vmm_map_page-Takes m pml4 virt phys flags =
    let top = get_next_level m (pml4 + 8 * pml4_idx virt) true in
    let middle = get_next_level top.1 (top.0 + 8 * pdp_idx virt) true in
    let low = map_table middle.1 (middle.0 + 8 * pd_idx virt) in
    let to_top : Takes m top.1 = (get_next_level-TakesTo _ true (Takes-refl m)).machine in
    let to_middle : Takes m middle.1 = (get_next_level-TakesTo _ true to_top).machine in
    let to_low : Takes m low.1 = (map_table-TakesTo _ to_middle).machine in
    either-Takes (pml4 == 0) (Takes-refl m) (
      either-Takes (top.0 == 0) to_top (
        either-Takes (middle.0 == 0) to_middle
          (either-Takes (low.0 == 0) to_low (then-invalidate (then-write to_low _ _) _))))

pub vmm_unmap_page-Takes : (m : Machine) (pml4 virt : ℕ) → Takes m (vmm_unmap_page m pml4 virt)
unfolding vmm_unmap_page
vmm_unmap_page-Takes m pml4 virt =
    let top = get_next_level m (pml4 + 8 * pml4_idx virt) false in
    let middle = get_next_level top.1 (top.0 + 8 * pdp_idx virt) false in
    let low = unmap_table middle.1 (middle.0 + 8 * pd_idx virt) in
    let to_top : Takes m top.1 = (get_next_level-TakesTo _ false (Takes-refl m)).machine in
    let to_middle : Takes m middle.1 = (get_next_level-TakesTo _ false to_top).machine in
    let to_low : Takes m low.1 = (unmap_table-TakesTo _ to_middle).machine in
    either-Takes (pml4 == 0) (Takes-refl m) (
      either-Takes (top.0 == 0) to_top (
        either-Takes (middle.0 == 0) to_middle
          (either-Takes (low.0 == 0) to_low (then-invalidate (then-write to_low _ _) _))))
