-- ===== src/Vmm/Mapping.antt =====
-- vmm_map_page of kernel/vmm.c against vmm_virt_to_phys: what one mapping does to every address.
use notux_kernel.Base.{
  ℕ, zero, suc, ◌+◌, ◌*◌, ◌/◌, ◌^◌, ◌≤◌, ◌<◌, ◌≡◌, ◌≢◌, refl, sym, ap, ◌∙◌, Bool, true, false, ◌&&◌,
  arith, ◌==◌, if◌then◌else◌, Bool-cases, inl, inr,
}
use native.Mathlib.Decide.{ℕ_discrete}
use notux_kernel.Machine.{Machine, read, write}
use notux_kernel.Vmm.{is_present, is_huge, table_of, pt_idx}
use notux_kernel.Vmm.Words.{read-write_self, read-write_ne}
use notux_kernel.Vmm.Walk.{index, descend, walk, descend_same, descend_leads, walk-suc}
use notux_kernel.Vmm.Tree.{IsTree, index-lt, entry-injective}

-- The two addresses have the same indices from the level `n` down.
unfoldable pub agree : ℕ → ℕ → ℕ → Bool
agree zero v virt = true
agree (suc n) v virt = index (suc n) v == index (suc n) virt && agree n v virt

pub agree-page :
    (v virt : ℕ) → v < 2 ^ 48 → virt < 2 ^ 48 → agree 4 v virt ≡ (v / 4096 == virt / 4096)
unfolding agree
agree-page v virt hv hvirt = ground arith

-- The tables that the walk to `virt` goes through: `path n` is the one of level `n`.
pub record IsPath (m : Machine) (root : ℕ) (level parent : ℕ → ℕ) (virt : ℕ) (path : ℕ → ℕ)
    : Type 0 where
  pub tree : IsTree m root level parent
  pub start : path 4 ≡ root
  pub on : (n : ℕ) → 0 < n → n ≤ 4 → level (path n) ≡ n
  pub present : (n : ℕ) → 1 < n → n ≤ 4 → is_present (read m (path n + 8 * index n virt)) ≡ true
  pub plain : (n : ℕ) → 1 < n → n ≤ 4 → is_huge (read m (path n + 8 * index n virt)) ≡ false
  pub leads :
      (n : ℕ) → 0 < n → n < 4 → table_of (read m (path (suc n) + 8 * index (suc n) virt)) ≡ path n

module _ {m : Machine} {root : ℕ} {level parent : ℕ → ℕ} {virt : ℕ} {path : ℕ → ℕ}
    (p : IsPath m root level parent virt path) (entry : ℕ) (fits : entry < 2 ^ 64) where
  abbrev pub here : ℕ
  here = path 1 + 8 * pt_idx virt

  abbrev pub put : Machine
  put = write m here entry

  -- Above the lowest level nothing was written.
  pub above : (t i : ℕ) → 1 < level t → i < 512 → read put (t + 8 * i) ≡ read m (t + 8 * i)
  above t i up lt =
      let a = p.tree.aligned t (omega arith) in
      let b = p.on 1 (omega arith) (omega arith) in
      let c = p.tree.aligned (path 1) (omega arith) in
      let apart : t ≢ path 1 = λ e. omega (arith, ap level e) in
      read-write_ne m here (t + 8 * i) entry (omega arith) (omega arith) (omega arith)

  -- What a table of the walk, or another, says of an address after the write.
  abbrev pub after : ℕ → ℕ → ℕ → ℕ
  after n v t = if path n == t && agree n v virt then descend 1 entry v 0 else walk n m t v

  lowest : (v t : ℕ) → level t ≡ 1 → walk 1 put t v ≡ after 1 v t
  unfolding walk agree
  lowest v t e =
      let i = pt_idx v in
      let b = p.on 1 (omega arith) (omega arith) in
      elim (ℕ_discrete (t + 8 * i) here) [
        | yes met ↦
            let at =
              entry-injective p.tree t i (path 1) (pt_idx virt) (omega arith) (omega arith)
                (omega arith) (omega arith) met in
            let this : (path 1 == t && (pt_idx v == pt_idx virt && true)) ≡ true =
              ground (arith, at.0, at.1) in
            let value : read put (t + 8 * i) ≡ entry = rw met (read-write_self m here entry fits) in
            rw (this, value) refl
        | no apart ↦
            let x = p.tree.aligned t (omega arith) in
            let y = p.tree.aligned (path 1) (omega arith) in
            let other : (path 1 == t && (pt_idx v == pt_idx virt && true)) ≡ false = ground arith in
            let value : read put (t + 8 * i) ≡ read m (t + 8 * i) =
              read-write_ne m here (t + 8 * i) entry (omega arith) (omega arith)
                (λ q. apart (sym q)) in
            rw (other, value) refl
      ]

  -- The entry of the path at a level above, and where it leads.
  through :
      (n v t : ℕ) (rest : ℕ → ℕ)
      → n < 3
      → path (suc (suc n)) ≡ t
      → index (suc (suc n)) v ≡ index (suc (suc n)) virt
      → (let e = read m (t + 8 * index (suc (suc n)) v) in
          descend (suc (suc n)) e v (rest (table_of e)))
        ≡ rest (path (suc n))
  through n v t rest lt at same =
      let e = read m (path (suc (suc n)) + 8 * index (suc (suc n)) virt) in
      let lead = p.leads (suc n) (omega arith) (omega arith) in
      let real : table_of e ≢ 0 = λ q.
        omega
          (arith, ap level (sym lead ∙ q), p.on (suc n) (omega arith) (omega arith), p.tree.null) in
      rw (same, ← at)
        (descend_leads (suc (suc n)) e v (rest (table_of e))
            (p.present (suc (suc n)) (omega arith) (omega arith)) (omega arith)
            (p.plain (suc (suc n)) (omega arith) (omega arith)) real
          ∙ ap rest lead)

  -- Any other entry leads elsewhere.
  elsewhere :
      (n v t : ℕ)
      → n < 3
      → level t ≡ suc (suc n)
      → is_present (read m (t + 8 * index (suc (suc n)) v)) ≡ true
      → is_huge (read m (t + 8 * index (suc (suc n)) v)) ≡ false
      → (path (suc (suc n)) == t && index (suc (suc n)) v == index (suc (suc n)) virt) ≡ false
      → path (suc n) ≢ table_of (read m (t + 8 * index (suc (suc n)) v))
  elsewhere n v t lt e present plain other met =
      let k : ℕ = suc (suc n) in
      let on = p.on k (omega arith) (omega arith) in
      let mine = p.tree.child t (index k v) (omega arith) (index-lt k v) present plain in
      let path_child =
        p.tree.child (path k) (index k virt) (omega arith) (index-lt k virt)
          (p.present k (omega arith) (omega arith)) (p.plain k (omega arith) (omega arith)) in
      let one_parent : t + 8 * index k v ≡ path k + 8 * index k virt =
        sym mine.1
        ∙ ap parent (sym met ∙ sym (p.leads (suc n) (omega arith) (omega arith)))
        ∙ path_child.1 in
      let at =
        entry-injective p.tree t (index k v) (path k) (index k virt) (omega arith) (omega arith)
          (index-lt k v) (index-lt k virt) one_parent in
      ground (arith, at.0, at.1)

  pub walk-put : (n v t : ℕ) → n < 4 → level t ≡ suc n → walk (suc n) put t v ≡ after (suc n) v t
  unfolding agree
  walk-put zero v t lt e = lowest v t e
  walk-put (suc n) v t lt e =
      let k : ℕ = suc (suc n) in
      let i = index k v in
      let old = read m (t + 8 * i) in
      let now : walk k put t v ≡ descend k old v (walk (suc n) put (table_of old) v) =
        walk-suc (suc n) put t v
        ∙ ap (λ x. descend k x v (walk (suc n) put (table_of x) v))
            (above t i (omega arith) (index-lt k v)) in
      let before : walk k m t v ≡ descend k old v (walk (suc n) m (table_of old) v) =
        walk-suc (suc n) m t v in
      elim (Bool-cases (path k == t && i == index k virt)) [
        | inl on_path ↦
            let at : path k ≡ t = ground arith in
            let same : i ≡ index k virt = ground arith in
            let new_rest = now ∙ through n v t (λ c. walk (suc n) put c v) (omega arith) at same in
            let old_rest = before ∙ through n v t (λ c. walk (suc n) m c v) (omega arith) at same in
            let below =
              walk-put n v (path (suc n)) (omega arith)
                (p.on (suc n) (omega arith) (omega arith)) in
            ground (arith, new_rest, old_rest, below)
        | inr off_path ↦
            let rest = descend_same k old v (λ here more plain table.
              (let lower = p.tree.child t i (omega arith) (index-lt k v) here plain in
                let away = elsewhere n v t (omega arith) e here plain off_path in
                walk-put n v (table_of old) (omega arith) (omega (arith, lower.0))
                ∙ ground (arith, away))) in
            now ∙ rest ∙ sym before ∙ ground (arith, off_path)
      ]
