-- ===== src/Vmm/Find.antt =====
-- How vmm_unmap_page of kernel/vmm.c finds the page table of an address: a step down gives a table, or
-- no address with that index means anything.
use notux_kernel.Base.{
  ℕ, zero, suc, ◌+◌, ◌*◌, ◌/◌, ◌<◌, ◌≡◌, ◌≢◌, refl, sym, ap, ◌∙◌, true, false, arith, ◌==◌,
  Bool-cases, inl, inr, ◌⊎◌,
}
use notux_kernel.Machine.{Machine, read}
use notux_kernel.Pmm.Alloc.{IsFull}
use notux_kernel.Vmm.{is_present, is_huge, table_of, get_next_level, split_huge_pde, unmap_table}
use notux_kernel.Vmm.Walk.{index, descend, descend_leads, walk, walk-suc}
use notux_kernel.Vmm.Tree.{IsTree}
use notux_kernel.Vmm.Extend.{Extends, already, entry_real, split-Extension}
use notux_kernel.Vmm.Path.{Link}

-- No address that has this index in the table means anything.
abbrev pub Nothing : Machine → (ℕ → ℕ) → ℕ → ℕ → Type 0
Nothing m level t i = (v : ℕ) → index (level t) v ≡ i → walk (level t) m t v ≡ 0

-- The call gave no table and did nothing, since there is nothing to find or memory is full, or it gave one.
abbrev pub Found : Machine → ℕ → (ℕ → ℕ) → (ℕ → ℕ) → ℕ → ℕ → ℕ × Machine → Type 0
Found m root level parent t i r =
    (((IsFull m.bitmap × (level t ≡ 2)) ⊎ Nothing m level t i) × (r ≡ (0, m)))
    ⊎ ((r.0 ≢ 0) × Extends m root level parent t i r.0 r.1)

module _ {m : Machine} {root : ℕ} {level parent : ℕ → ℕ} (tree : IsTree m root level parent)
    (t i : ℕ) (upper : 1 < level t) (lt : i < 512) where
  absent-Nothing :
      (n : ℕ) → level t ≡ suc n → is_present (read m (t + 8 * i)) ≡ false → Nothing m level t i
  unfolding descend
  absent-Nothing n e absent v at = rw e (
      walk-suc n m t v
      ∙ (let same : index (suc n) v ≡ i = sym (ap (λ k. index k v) e) ∙ at in
          rw (same, absent) refl))

  huge-Nothing :
      (n : ℕ)
      → level t ≡ suc (suc (suc n))
      → is_huge (read m (t + 8 * i)) ≡ true
      → Nothing m level t i
  unfolding descend
  huge-Nothing n e huge v at =
      let same : index (suc (suc (suc n))) v ≡ i = sym (ap (λ k. index k v) e) ∙ at in
      let one : (suc (suc (suc n)) == 1) ≡ false = ground arith in
      let two : (suc (suc (suc n)) == 2) ≡ false = ground arith in
      rw e (
        walk-suc (suc (suc n)) m t v ∙ (elim (Bool-cases (is_present (read m (t + 8 * i)))) [
          | inl here ↦ rw (same, here, one, huge, two) refl
          | inr absent ↦ rw (same, absent) refl
        ]))

  already-Found :
      is_present (read m (t + 8 * i)) ≡ true
      → is_huge (read m (t + 8 * i)) ≡ false
      → Found m root level parent t i (table_of (read m (t + 8 * i)), m)
  already-Found here plain = elim (already tree t i upper lt here plain) [
    | inl (why, none_found) ↦
        let below = tree.child t i upper lt here plain in
        absurd (omega (arith, below.0, ap (λ r. level r.0) none_found, tree.null))
    | inr found ↦ inr found
  ]

  pub get_next_level-Found :
      (n : ℕ)
      → level t ≡ suc (suc (suc n))
      → Found m root level parent t i (get_next_level m (t + 8 * i) false)
  unfolding get_next_level
  get_next_level-Found n e = elim (Bool-cases (is_present (read m (t + 8 * i)))) [
    | inr absent ↦
        let real = entry_real tree t i upper lt in
        rw (real, absent, get_next_level) (inl (inr (absent-Nothing (suc (suc n)) e absent), refl))
    | inl here ↦ elim (Bool-cases (is_huge (read m (t + 8 * i)))) [
      | inl huge ↦
          let real = entry_real tree t i upper lt in
          let value : get_next_level m (t + 8 * i) false ≡ (0, m) =
            rw (real, here, huge, get_next_level) refl in
          rw value (inl (inr (huge-Nothing n e huge), refl))
      | inr plain ↦
          let real = entry_real tree t i upper lt in
          let value : get_next_level m (t + 8 * i) false ≡ (table_of (read m (t + 8 * i)), m) =
            rw (real, here, plain, get_next_level) refl in
          rw value (already-Found here plain)
    ]
  ]

  split-absent : is_present (read m (t + 8 * i)) ≡ false → split_huge_pde m (t + 8 * i) ≡ (0, m)
  unfolding split_huge_pde
  split-absent absent =
      let real = entry_real tree t i upper lt in rw (real, absent, split_huge_pde) refl

  pub unmap_table-Found : level t ≡ 2 → Found m root level parent t i (unmap_table m (t + 8 * i))
  unfolding unmap_table
  unmap_table-Found low = elim (Bool-cases (is_huge (read m (t + 8 * i)))) [
    | inr plain ↦ elim (Bool-cases (is_present (read m (t + 8 * i)))) [
      | inl here ↦
          let value : unmap_table m (t + 8 * i) ≡ (table_of (read m (t + 8 * i)), m) =
            rw (plain, here, unmap_table) refl in
          rw value (already-Found here plain)
      | inr absent ↦ rw (plain, absent, unmap_table) (inl (inr (absent-Nothing 1 low absent), refl))
    ]
    | inl huge ↦
        let value : unmap_table m (t + 8 * i) ≡ split_huge_pde m (t + 8 * i) =
          rw (huge, unmap_table) refl in
        rw value (elim (Bool-cases (is_present (read m (t + 8 * i)))) [
          | inr absent ↦ rw (split-absent absent) (inl (inr (absent-Nothing 1 low absent), refl))
          | inl here ↦ elim (split-Extension tree t i upper lt low here huge) [
            | inr found ↦ inr found
            | inl (why, none_found) ↦ elim why [
              | inl full ↦ inl (inl (full, low), none_found)
              | inr (high, other) ↦ absurd (omega (arith, high, low))
            ]
          ]
        ])
  ]

pub same_index : (n v virt : ℕ) → v / 4096 ≡ virt / 4096 → index n v ≡ index n virt
same_index zero v virt e = refl
same_index (suc zero) v virt e = omega arith
same_index (suc (suc zero)) v virt e = omega arith
same_index (suc (suc (suc zero))) v virt e = omega arith
same_index (suc (suc (suc (suc n)))) v virt e = omega arith

-- The walk goes over a link.
pub Link-walk :
    {m : Machine} {root : ℕ} {level parent : ℕ → ℕ} (tree : IsTree m root level parent)
    (n t i next v : ℕ)
    → Link m level (suc (suc n)) t i next
    → i < 512
    → index (suc (suc n)) v ≡ i
    → walk (suc (suc n)) m t v ≡ walk (suc n) m next v
Link-walk {m} {level = level} tree n t i next v l lt at =
    let e = read m (t + 8 * i) in
    let below = tree.child t i (omega (arith, l.level_of)) lt l.present l.plain in
    let real : table_of e ≢ 0 =
      λ null. omega (arith, below.0, l.level_of, ap level null, tree.null) in
    walk-suc (suc n) m t v
    ∙ (rw at (
        descend_leads (suc (suc n)) e v (walk (suc n) m (table_of e) v) l.present (omega arith)
          l.plain real))
    ∙ ap (λ next. walk (suc n) m next v) l.leads
