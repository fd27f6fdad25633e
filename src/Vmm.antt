-- ===== src/Vmm.antt =====
-- kernel/vmm.c: four levels of page tables. A `uint64_t *` is the address of its word, entry `i` of
-- a table the word at `table + 8 * i`. `x & ~0xFFF` is `x - x % 4096`, and a test of a flag is a
-- test of that binary digit.
pub mod Frames
pub mod Words
pub mod Walk
pub mod Tree
pub mod Grow
pub mod Extend
pub mod Mapping
pub mod Path
pub mod Refine
pub mod Find
pub mod Unmap
mod Examples
use Prim.Native.Nat.{bit_or}
use notux_kernel.Base.{
  ℕ, ◌+◌, ◌-◌, ◌*◌, ◌/◌, ◌%◌, ◌^◌, Bool, true, false, not, ◌&&◌, ◌||◌, List, ◌∷◌, ltb, leb, ◌==◌,
  if◌then◌else◌, for_loop,
}
use notux_kernel.Machine.{Machine, read, write, alloc_page}

abbrev pub pml4_idx : ℕ → ℕ
pml4_idx addr = addr / 2 ^ 39 % 512

abbrev pub pdp_idx : ℕ → ℕ
pdp_idx addr = addr / 2 ^ 30 % 512

abbrev pub pd_idx : ℕ → ℕ
pd_idx addr = addr / 2 ^ 21 % 512

abbrev pub pt_idx : ℕ → ℕ
pt_idx addr = addr / 2 ^ 12 % 512

abbrev pub is_present : ℕ → Bool
is_present entry = entry % 2 == 1

abbrev pub is_huge : ℕ → Bool
is_huge entry = entry / 128 % 2 == 1

-- `entry & ~0xFFFULL`
abbrev pub table_of : ℕ → ℕ
table_of entry = entry - entry % 4096

-- PAGE_PRESENT | PAGE_WRITE | PAGE_USER
abbrev pub table_flags : ℕ
table_flags = 7

unfoldable pub zero_table : Machine → ℕ → Machine
zero_table m table = if table == 0 then m else for_loop (λ i m. write m (table + 8 * i) 0) 0 512 m

-- A new table, linked in at `entry`.
pub new_level : Machine → ℕ → ℕ × Machine
new_level m entry =
    let (new_table, m1) = alloc_page m in
    if new_table == 0
    then (0, m1)
    else (new_table, write (zero_table m1 new_table) entry (bit_or new_table table_flags))

pub get_next_level : Machine → ℕ → Bool → ℕ × Machine
get_next_level m entry allocate =
    if entry == 0
    then (0, m)
    else if is_present (read m entry)
    then (if is_huge (read m entry) then 0 else table_of (read m entry), m)
    else (if not allocate then (0, m) else new_level m entry)

-- The loop of split_huge_pde, which fills the new table.
pub fill_split : Machine → ℕ → ℕ → Machine
fill_split m pt pde =
    for_loop
      (λ i m. write m (pt + 8 * i) (bit_or ((pde - pde % 2 ^ 21 + i * 4096) % 2 ^ 64) (pde % 8))) 0
      512 m

pub split_huge_pde : Machine → ℕ → ℕ × Machine
split_huge_pde m pde =
    if pde == 0
    then (0, m)
    else if not (is_present (read m pde))
    then (0, m)
    else if not (is_huge (read m pde))
    then (table_of (read m pde), m)
    else (let (pt, m1) = alloc_page m in
        if pt == 0
        then (0, m1)
        else (pt, write (fill_split m1 pt (read m pde)) pde (bit_or pt table_flags)))

-- CR3 is read from the processor.
pub vmm_init : Machine → Machine
vmm_init m = record m { kernel_pml4 = table_of m.cr3 }

unfoldable pub vmm_get_kernel_pml4 : Machine → ℕ
vmm_get_kernel_pml4 m = m.kernel_pml4

-- The part of vmm_map_page that finds or makes the page table.
pub map_table : Machine → ℕ → ℕ × Machine
map_table m pde =
    if is_present (read m pde)
    then (if is_huge (read m pde) then split_huge_pde m pde else (table_of (read m pde), m))
    else new_level m pde

pub vmm_map_page : Machine → ℕ → ℕ → ℕ → ℕ → Machine
vmm_map_page m pml4 virt phys flags =
    if pml4 == 0
    then m
    else (let (pdp, m1) = get_next_level m (pml4 + 8 * pml4_idx virt) true in
        if pdp == 0
        then m1
        else (let (pd, m2) = get_next_level m1 (pdp + 8 * pdp_idx virt) true in
            if pd == 0
            then m2
            else (let (pt, m3) = map_table m2 (pd + 8 * pd_idx virt) in
                if pt == 0
                then m3
                else (let m4 =
                      write m3 (pt + 8 * pt_idx virt) (bit_or (bit_or (table_of phys) flags) 1) in
                    record m4 { invalidated = virt ∷ m4.invalidated }))))

-- The part of vmm_unmap_page that finds the page table.
pub unmap_table : Machine → ℕ → ℕ × Machine
unmap_table m pde =
    if is_huge (read m pde)
    then split_huge_pde m pde
    else (if not (is_present (read m pde)) then (0, m) else (table_of (read m pde), m))

pub vmm_unmap_page : Machine → ℕ → ℕ → Machine
vmm_unmap_page m pml4 virt =
    if pml4 == 0
    then m
    else (let (pdp, m1) = get_next_level m (pml4 + 8 * pml4_idx virt) false in
        if pdp == 0
        then m1
        else (let (pd, m2) = get_next_level m1 (pdp + 8 * pdp_idx virt) false in
            if pd == 0
            then m2
            else (let (pt, m3) = unmap_table m2 (pd + 8 * pd_idx virt) in
                if pt == 0
                then m3
                else (let m4 = write m3 (pt + 8 * pt_idx virt) 0 in
                    record m4 { invalidated = virt ∷ m4.invalidated }))))

-- The last two levels of vmm_virt_to_phys.
pub translate_pde : Machine → ℕ → ℕ → ℕ
translate_pde m pde virt =
    if not (is_present pde)
    then 0
    else if is_huge pde
    then bit_or (pde - pde % 2 ^ 21) (virt % 2 ^ 21)
    else if table_of pde == 0
    then 0
    else (let pte = read m (table_of pde + 8 * pt_idx virt) in
        if not (is_present pte) then 0 else bit_or (table_of pte) (virt % 4096))

-- With nothing to allocate the walk leaves the machine as it is.
pub vmm_virt_to_phys : Machine → ℕ → ℕ → ℕ
vmm_virt_to_phys m pml4 virt =
    if pml4 == 0
    then 0
    else (let pdp = (get_next_level m (pml4 + 8 * pml4_idx virt) false).0 in
        if pdp == 0
        then 0
        else (let pd = (get_next_level m (pdp + 8 * pdp_idx virt) false).0 in
            if pd == 0 then 0 else translate_pde m (read m (pd + 8 * pd_idx virt)) virt))

-- `for (i = from; i < from + n; i++) dst[i] = src[i];` over entries.
pub copy_entries : Machine → ℕ → ℕ → ℕ → ℕ → Machine
copy_entries m dst src from n =
    for_loop (λ i m. write m (dst + 8 * i) (read m (src + 8 * i))) from n m

-- One round of the loop over the first four entries of the kernel's directory pointers; `false` once
-- memory is exhausted, where the function returns 0.
pub copy_directory : ℕ → ℕ → ℕ → Bool × Machine → Bool × Machine
copy_directory k_pdp user_pdp i (going, m) =
    if not going
    then (false, m)
    else if not (is_present (read m (k_pdp + 8 * i)))
    then (true, m)
    else if table_of (read m (k_pdp + 8 * i)) == 0
    then (true, m)
    else (let (pd, m1) = alloc_page m in
        if pd == 0
        then (false, m1)
        else (let m2 = write (zero_table m1 pd) (user_pdp + 8 * i) (bit_or pd table_flags) in
            (true, copy_entries m2 pd (table_of (read m (k_pdp + 8 * i))) 0 512)))

-- The part of create_user_pml4 that copies the kernel's lowest 4 GiB and shares the rest.
unfoldable pub copy_kernel : Machine → ℕ → ℕ × Machine
copy_kernel m user_pml4 =
    let k_pml4 = vmm_get_kernel_pml4 m in
    if k_pml4 == 0
    then (0, m)
    else if not (is_present (read m k_pml4))
    then (user_pml4, m)
    else if table_of (read m k_pml4) == 0
    then (user_pml4, m)
    else (let (user_pdp, m1) = alloc_page m in
        if user_pdp == 0
        then (0, m1)
        else (let m2 = write (zero_table m1 user_pdp) user_pml4 (bit_or user_pdp table_flags) in
            let (going, m3) =
              for_loop (copy_directory (table_of (read m k_pml4)) user_pdp) 0 4 (true, m2) in
            if not going then (0, m3) else (user_pml4, copy_entries m3 user_pml4 k_pml4 1 511)))

unfoldable pub create_user_pml4 : Machine → ℕ × Machine
create_user_pml4 m =
    let (user_pml4, m1) = alloc_page m in
    if user_pml4 == 0 then (0, m1) else copy_kernel (zero_table m1 user_pml4) user_pml4

pub vmm_switch_pml4 : Machine → ℕ → Machine
vmm_switch_pml4 m pml4 = if pml4 == 0 then m else record m { cr3 = pml4 }
