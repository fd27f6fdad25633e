-- ===== src/Vmm/Walk.antt =====
-- vmm_virt_to_phys of kernel/vmm.c as a walk by levels: 4 is the root, 1 holds the pages.
use Prim.Native.Nat.{bit_or}
use notux_kernel.Base.{
  ℕ, zero, suc, ◌+◌, ◌-◌, ◌*◌, ◌%◌, ◌^◌, ◌≡◌, ◌≢◌, refl, ◌∙◌, true, false, not, arith, ◌==◌,
  if◌then◌else◌, Bool-cases, inl, inr,
}
use notux_kernel.Machine.{Machine, read}
use notux_kernel.Vmm.{
  is_present, is_huge, table_of, pml4_idx, pdp_idx, pd_idx, pt_idx, get_next_level, translate_pde,
  vmm_virt_to_phys,
}

-- The index that an address has in a table of the level.
abbrev pub index : ℕ → ℕ → ℕ
index zero virt = 0
index (suc zero) virt = pt_idx virt
index (suc (suc zero)) virt = pd_idx virt
index (suc (suc (suc zero))) virt = pdp_idx virt
index (suc (suc (suc (suc n)))) virt = pml4_idx virt

-- What an entry at a level says of an address, where `rest` is what the table below says.
unfoldable pub descend : ℕ → ℕ → ℕ → ℕ → ℕ
descend level entry virt rest =
    if not (is_present entry)
    then 0
    else if level == 1
    then bit_or (table_of entry) (virt % 4096)
    else if is_huge entry
    then (if level == 2 then bit_or (entry - entry % 2 ^ 21) (virt % 2 ^ 21) else 0)
    else if table_of entry == 0
    then 0
    else rest

unfoldable pub walk : ℕ → Machine → ℕ → ℕ → ℕ
walk zero m t virt = 0
walk (suc n) m t virt =
    let entry = read m (t + 8 * index (suc n) virt) in
    descend (suc n) entry virt (walk n m (table_of entry) virt)

pub walk-suc :
    (n : ℕ) (m : Machine) (t virt : ℕ)
    → walk (suc n) m t virt ≡ (
        let entry = read m (t + 8 * index (suc n) virt) in
        descend (suc n) entry virt (walk n m (table_of entry) virt))
unfolding walk
walk-suc n m t virt = refl

pub descend_leads :
    (level entry virt rest : ℕ)
    → is_present entry ≡ true
    → level ≢ 1
    → is_huge entry ≡ false
    → table_of entry ≢ 0
    → descend level entry virt rest ≡ rest
unfolding descend
descend_leads level entry virt rest present more plain table =
    let upper : (level == 1) ≡ false = ground arith in
    let some_table : (table_of entry == 0) ≡ false = ground arith in
    rw (present, upper, plain, some_table) refl

-- The two upper levels: a call of get_next_level, and the test of its result.
upper :
    (m : Machine) (e n virt : ℕ) (below : ℕ → ℕ)
    → e ≢ 0
    → (let next = (get_next_level m e false).0 in if next == 0 then 0 else below next)
      ≡ descend (suc (suc (suc n))) (read m e) virt (below (table_of (read m e)))
unfolding descend get_next_level
upper m e n virt below ne =
    let entry = read m e in
    elim (Bool-cases (is_present entry)) [
      | inr absent ↦ ground (arith, absent)
      | inl present ↦ elim (Bool-cases (is_huge entry)) [
        | inl huge ↦ ground (arith, huge)
        | inr plain ↦ elim (Bool-cases (table_of entry == 0)) [
          | inl null ↦ ground (arith, null)
          | inr table ↦ ground (arith, table)
        ]
      ]
    ]

lower :
    (m : Machine) (entry virt : ℕ)
    → translate_pde m entry virt ≡ descend 2 entry virt (walk 1 m (table_of entry) virt)
unfolding translate_pde descend walk
lower m entry virt = ground arith

-- What the table below says matters only if the entry leads to it.
pub descend_same :
    (level entry virt : ℕ) {rest other : ℕ}
    → (is_present entry ≡ true
        → level ≢ 1
        → is_huge entry ≡ false
        → table_of entry ≢ 0
        → rest ≡ other)
    → descend level entry virt rest ≡ descend level entry virt other
unfolding descend
descend_same level entry virt h = elim (Bool-cases (is_present entry)) [
  | inr absent ↦ rw absent refl
  | inl present ↦ elim (Bool-cases (level == 1)) [
    | inl last ↦ rw (present, last) refl
    | inr more ↦ elim (Bool-cases (is_huge entry)) [
      | inl huge ↦ rw (present, more, huge) refl
      | inr plain ↦ elim (Bool-cases (table_of entry == 0)) [
        | inl null ↦ rw (present, more, plain, null) refl
        | inr table ↦
            rw (present, more, plain, table) (h present (ground arith) plain (ground arith))
      ]
    ]
  ]
]

-- The walk from a page directory and from a page directory pointer table, as the code has them.
from_directory : Machine → ℕ → ℕ → ℕ
from_directory m virt t = translate_pde m (read m (t + 8 * pd_idx virt)) virt

from_pointers : Machine → ℕ → ℕ → ℕ
from_pointers m virt t =
    let next = (get_next_level m (t + 8 * pdp_idx virt) false).0 in
    if next == 0 then 0 else from_directory m virt next

from_directory-walk : (m : Machine) (virt t : ℕ) → from_directory m virt t ≡ walk 2 m t virt
unfolding from_directory walk
from_directory-walk m virt t = lower m (read m (t + 8 * pd_idx virt)) virt

from_pointers-walk : (m : Machine) (virt t : ℕ) → t ≢ 0 → from_pointers m virt t ≡ walk 3 m t virt
unfolding from_pointers walk
from_pointers-walk m virt t ne =
    let entry = read m (t + 8 * pdp_idx virt) in
    upper m (t + 8 * pdp_idx virt) 0 virt (from_directory m virt) (omega arith)
    ∙ descend_same 3 entry virt
        (λ here more plain table. from_directory-walk m virt (table_of entry))

pub vmm_virt_to_phys-walk :
    (m : Machine) (root virt : ℕ) → root ≢ 0 → vmm_virt_to_phys m root virt ≡ walk 4 m root virt
unfolding vmm_virt_to_phys walk from_pointers from_directory
vmm_virt_to_phys-walk m root virt h =
    let entry = read m (root + 8 * pml4_idx virt) in
    let some_root : (root == 0) ≡ false = ground arith in
    rw (some_root, vmm_virt_to_phys)
      (upper m (root + 8 * pml4_idx virt) 1 virt (from_pointers m virt) (omega arith)
        ∙ descend_same 4 entry virt
            (λ here more plain table. from_pointers-walk m virt (table_of entry) table))
