-- ===== src/Vmm/Tree.antt =====
-- The page tables of kernel/vmm.c as a tree: which tables there are, at which level, and which entry
-- leads to each.
use notux_kernel.Base.{
  ℕ, zero, suc, ◌+◌, ◌-◌, ◌*◌, ◌/◌, ◌%◌, ◌^◌, ◌<◌, ◌≡◌, ◌≢◌, refl, sym, ap, ◌∙◌, true, false, ◌&&◌,
  arith, ltb, leb, inl, inr, ◌⊎◌, update,
}
use native.Mathlib.Decide.{ℕ_discrete}
use notux_kernel.Machine.{Machine, read}
use notux_kernel.Pmm.{bitmap_test}
use notux_kernel.Pmm.Bitmap.{IsBytes}
use notux_kernel.Vmm.{is_present, is_huge, table_of}
use notux_kernel.Vmm.Words.{HasBytes}
use notux_kernel.Vmm.Walk.{index, walk, descend_same}

pub index-lt : (n virt : ℕ) → index n virt < 512
index-lt zero virt = omega arith
index-lt (suc zero) virt = omega arith
index-lt (suc (suc zero)) virt = omega arith
index-lt (suc (suc (suc zero))) virt = omega arith
index-lt (suc (suc (suc (suc n)))) virt = omega arith

-- `level t` is the level of the table `t`, 0 for what is no table; `parent t` is the entry that leads
-- to it. Every table lies in a page of its own that is in use, and no two entries lead to one table.
pub record IsTree (m : Machine) (root : ℕ) (level parent : ℕ → ℕ) : Type 0 where
  pub bytes : HasBytes m
  pub bitmap_bytes : IsBytes m.bitmap
  pub reserved : bitmap_test m.bitmap 0 ≡ true
  pub top : level root ≡ 4
  pub null : level 0 ≡ 0
  pub aligned : (t : ℕ) → level t ≢ 0 → t % 4096 ≡ 0
  pub used : (t : ℕ) → level t ≢ 0 → bitmap_test m.bitmap (t / 4096) ≡ true
  pub child :
      (t i : ℕ)
      → 1 < level t
      → i < 512
      → is_present (read m (t + 8 * i)) ≡ true
      → is_huge (read m (t + 8 * i)) ≡ false
      → (level (table_of (read m (t + 8 * i))) + 1 ≡ level t)
        × (parent (table_of (read m (t + 8 * i))) ≡ t + 8 * i)

-- Only the entry `i0` of the table `t0` may have changed, among the tables of the tree.
pub record Changes (m m' : Machine) (level : ℕ → ℕ) (t0 i0 : ℕ) : Type 0 where
  pub same :
      (t i : ℕ)
      → level t ≢ 0
      → i < 512
      → t + 8 * i ≢ t0 + 8 * i0
      → read m' (t + 8 * i) ≡ read m (t + 8 * i)

module _ {m : Machine} {root : ℕ} {level parent : ℕ → ℕ} (tree : IsTree m root level parent) where
  -- Entries of different tables, or at different indices, are different.
  pub entry-injective :
      (t i t' i' : ℕ)
      → level t ≢ 0
      → level t' ≢ 0
      → i < 512
      → i' < 512
      → t + 8 * i ≡ t' + 8 * i'
      → (t ≡ t') × (i ≡ i')
  entry-injective t i t' i' h h' lt lt' e =
      let a = tree.aligned t h in let b = tree.aligned t' h' in (omega arith, omega arith)

  -- A change that makes no difference where the walk meets it makes none at all.
  pub walk_unchanged :
      {m' : Machine} {t0 i0 : ℕ} (n : ℕ) (virt t : ℕ)
      → Changes m m' level t0 i0
      → level t0 ≢ 0
      → i0 < 512
      → (index (level t0) virt ≡ i0 → walk (level t0) m' t0 virt ≡ walk (level t0) m t0 virt)
      → level t ≡ n
      → walk n m' t virt ≡ walk n m t virt
  unfolding walk
  walk_unchanged zero virt t c real lt0 local e = refl
  walk_unchanged {m'} {t0} {i0} (suc n) virt t c real lt0 local e =
      let i = index (suc n) virt in
      let entry = read m (t + 8 * i) in
      elim (ℕ_discrete (t + 8 * i) (t0 + 8 * i0)) [
        | yes met ↦
            let at = entry-injective t i t0 i0 (omega arith) real (index-lt (suc n) virt) lt0 met in
            let lev : level t0 ≡ suc n = cc (at.0, e) in
            let there : walk (suc n) m' t0 virt ≡ walk (suc n) m t0 virt = (rw lev at local) at.1 in
            rw at.0 there
        | no other ↦ rw (c.same t i (omega arith) (index-lt (suc n) virt) other) (
            descend_same (suc n) entry virt (λ here more plain table.
              walk_unchanged n virt (table_of entry) c real lt0 local (
                let below = tree.child t i (omega arith) (index-lt (suc n) virt) here plain in
                omega (arith, below.0))))
      ]

-- The table `p` was made of a page that was free, and the entry at `e` leads to it now.
pub record Grows (m m' : Machine) (p e : ℕ) : Type 0 where
  pub page : p % 4096 ≡ 0
  pub some_page : p ≢ 0
  pub small : p < 2 ^ 63
  pub free : bitmap_test m.bitmap (p / 4096) ≡ false
  pub others :
      (b : ℕ) → b % 8 ≡ 0 → b ≢ e → (leb p b && ltb b (p + 4096)) ≡ false → read m' b ≡ read m b
  pub entry : read m' e ≡ p + 7
  pub bytes : HasBytes m'
  pub bitmap_bytes : IsBytes m'.bitmap
  pub used : (q : ℕ) → bitmap_test m.bitmap q ≡ true → bitmap_test m'.bitmap q ≡ true
  pub taken : bitmap_test m'.bitmap (p / 4096) ≡ true

module _ {m : Machine} {root : ℕ} {level parent : ℕ → ℕ} (tree : IsTree m root level parent) where
  -- A page that is free is no table.
  pub free-level : (p : ℕ) → bitmap_test m.bitmap (p / 4096) ≡ false → level p ≡ 0
  free-level p free = elim (ℕ_discrete (level p) 0) [
    | yes e ↦ e
    | no ne ↦ absurd (ground (arith, tree.used p ne))
  ]

  module _ {m' : Machine} (t i p : ℕ) (upper : 1 < level t) (lt : i < 512)
      (g : Grows m m' p (t + 8 * i)) where
    pub Grows-Changes : Changes m m' level t i
    Grows-Changes = record {
      same = λ t' i' real lt' ne.
          let fresh = free-level p g.free in
          let al = tree.aligned t' real in
          let apart : t' ≢ p = λ e. real (cc (e, fresh)) in
          g.others (t' + 8 * i') (omega arith) ne (ground (arith, g.page));
    }

    abbrev pub level' : ℕ → ℕ
    level' = update level p (level t - 1)

    abbrev pub parent' : ℕ → ℕ
    parent' = update parent p (t + 8 * i)

    abbrev Leads : ℕ → ℕ → ℕ → Type 0
    Leads c t' i' = (level' c + 1 ≡ level' t') × (parent' c ≡ t' + 8 * i')

    -- The new entry leads to the new table.
    Leads-new :
        (t' i' : ℕ)
        → level t' ≢ 0
        → i' < 512
        → t' + 8 * i' ≡ t + 8 * i
        → t' ≢ p
        → Leads (table_of (p + 7)) t' i'
    Leads-new t' i' real lt' e apart =
        let same = entry-injective tree t' i' t i real (omega arith) lt' lt e in
        let found : table_of (p + 7) ≡ p = omega (arith, g.page) in
        rw (found, same.0) (ground (arith, same.0), ground (arith, same.1))

    -- Every other entry leads where it led.
    Leads-old :
        (t' i' : ℕ)
        → 1 < level t'
        → i' < 512
        → t' ≢ p
        → is_present (read m (t' + 8 * i')) ≡ true
        → is_huge (read m (t' + 8 * i')) ≡ false
        → Leads (table_of (read m (t' + 8 * i'))) t' i'
    Leads-old t' i' up lt' apart here plain =
        let below = tree.child t' i' up lt' here plain in
        let fresh = free-level p g.free in
        let c = table_of (read m (t' + 8 * i')) in
        let away : c ≢ p = λ e. omega (arith, ap level e, fresh, below.0) in
        (ground (arith, below.0), ground (arith, below.1))

    child-Grows :
        (level t ≡ 2) ⊎ ((j : ℕ) → j < 512 → is_present (read m' (p + 8 * j)) ≡ false)
        → (t' i' : ℕ) → 1 < level' t'
        → i' < 512
        → is_present (read m' (t' + 8 * i')) ≡ true
        → is_huge (read m' (t' + 8 * i')) ≡ false
        → Leads (table_of (read m' (t' + 8 * i'))) t' i'
    child-Grows content t' i' up lt' here plain = elim (ℕ_discrete p t') [
      | yes e ↦ absurd (elim content [
        | inl low ↦ ground arith
        | inr empty ↦ let none = empty i' lt' in ground arith
      ])
      | no apart ↦
          let old : level' t' ≡ level t' = ground arith in
          elim (ℕ_discrete (t' + 8 * i') (t + 8 * i)) [
            | yes met ↦
                rw (ap (read m') met ∙ g.entry)
                  (Leads-new t' i' (omega arith) lt' met (λ e. apart (sym e)))
            | no other ↦
                let same = Grows-Changes.same t' i' (omega arith) lt' other in
                rw same (
                  Leads-old t' i' (omega arith) lt' (λ e. apart (sym e)) (rw same at here)
                    (rw same at plain))
          ]
    ]

    -- The tree with the new table, which has entries of its own only if it is of the lowest level.
    pub IsTree-Grows :
        (level t ≡ 2) ⊎ ((j : ℕ) → j < 512 → is_present (read m' (p + 8 * j)) ≡ false)
        → IsTree m' root level' parent'
    IsTree-Grows content = record {
      bytes = g.bytes;
      bitmap_bytes = g.bitmap_bytes;
      reserved = g.used 0 tree.reserved;
      top = ground (arith, free-level p g.free, tree.top);
      null = ground (arith, g.some_page, tree.null);
      aligned = λ t' real. ground (arith, g.page, tree.aligned t');
      used = λ t' real. ground (arith, g.taken, g.used (t' / 4096), tree.used t');
      child = λ t' i' up lt' here plain. child-Grows content t' i' up lt' here plain;
    }
