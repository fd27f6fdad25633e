-- ===== src/Vmm/Extend.antt =====
-- get_next_level and the table lookup of vmm_map_page in kernel/vmm.c: the tree after them.
use Prim.Native.Nat.{bit_or}
use notux_kernel.Base.{
  ℕ, zero, suc, ◌+◌, ◌-◌, ◌*◌, ◌%◌, ◌^◌, ◌<◌, ◌≡◌, ◌≢◌, refl, ap, true, false, ◌&&◌, arith, ltb,
  leb, ◌==◌, Bool-cases, inl, inr, ◌⊎◌, update,
}
use notux_kernel.Base.Bits.{bit_or-aligned}
use notux_kernel.Machine.{Machine, read, alloc_page}
use notux_kernel.Pmm.Alloc.{IsFull}
use notux_kernel.Vmm.{
  is_present, is_huge, table_of, zero_table, new_level, get_next_level, fill_split, split_huge_pde,
  map_table,
}
use notux_kernel.Vmm.Words.{read-lt}
use notux_kernel.Vmm.Walk.{index, walk}
use notux_kernel.Vmm.Tree.{IsTree, Grows, walk_unchanged, Grows-Changes, IsTree-Grows, free-level}
use notux_kernel.Vmm.Grow.{
  Fresh, alloc_page-Fresh, linked, linked-Grows, linked-content, walk_empty, walk_split,
}

-- The entry `i` of the table `t` leads to the table `next` now, in a tree that has all the tables of the
-- old one, and every address means what it meant.
pub record Extends (m : Machine) (root : ℕ) (level parent : ℕ → ℕ) (t i next : ℕ) (m' : Machine)
    : Type 0 where
  pub level' : ℕ → ℕ
  pub parent' : ℕ → ℕ
  pub tree : IsTree m' root level' parent'
  pub levels : (t' : ℕ) → level t' ≢ 0 → level' t' ≡ level t'
  pub parents : (t' : ℕ) → level t' ≢ 0 → parent' t' ≡ parent t'
  pub entries :
      (t' i' : ℕ)
      → level t' ≢ 0
      → i' < 512
      → t' + 8 * i' ≢ t + 8 * i
      → read m' (t' + 8 * i') ≡ read m (t' + 8 * i')
  pub present : is_present (read m' (t + 8 * i)) ≡ true
  pub plain : is_huge (read m' (t + 8 * i)) ≡ false
  pub leads : table_of (read m' (t + 8 * i)) ≡ next
  pub unchanged : (virt : ℕ) → walk 4 m' root virt ≡ walk 4 m root virt

-- The call gave no table and did nothing, since memory is full or an entry of one of the two upper levels is marked huge; or
-- it gave one.
abbrev pub Extension : Machine → ℕ → (ℕ → ℕ) → (ℕ → ℕ) → ℕ → ℕ → ℕ × Machine → Type 0
Extension m root level parent t i r =
    ((IsFull m.bitmap ⊎ ((2 < level t) × (is_huge (read m (t + 8 * i)) ≡ true))) × (r ≡ (0, m)))
    ⊎ ((r.0 ≢ 0) × Extends m root level parent t i r.0 r.1)

module _ {m : Machine} {root : ℕ} {level parent : ℕ → ℕ} (tree : IsTree m root level parent)
    (t i : ℕ) (upper : 1 < level t) (lt : i < 512) where
  e8 : (t + 8 * i) % 8 ≡ 0
  e8 = let a = tree.aligned t (omega arith) in omega arith

  -- A free page does not hold the entry.
  entry_apart :
      (p : ℕ)
      → p % 4096 ≡ 0
      → level p ≡ 0
      → (leb p (t + 8 * i) && ltb (t + 8 * i) (p + 4096)) ≡ false
  entry_apart p page free =
      let a = tree.aligned t (omega arith) in
      let apart : p ≢ t = λ e. omega (arith, ap level e) in ground arith

  pub entry_real : (t + 8 * i == 0) ≡ false
  entry_real = let real : t ≢ 0 = λ e. omega (arith, ap level e, tree.null) in ground arith

  -- The entry led to a table already.
  pub already :
      is_present (read m (t + 8 * i)) ≡ true
      → is_huge (read m (t + 8 * i)) ≡ false
      → Extension m root level parent t i (table_of (read m (t + 8 * i)), m)
  already here plain =
      let below = tree.child t i upper lt here plain in
      let next = table_of (read m (t + 8 * i)) in
      inr (
        λ null. omega (arith, below.0, ap level null, tree.null),
        record {
          level' = level;
          parent' = parent;
          tree = tree;
          levels = λ t' real. refl;
          parents = λ t' real. refl;
          entries = λ t' i' real lt' ne. refl;
          present = here;
          plain = plain;
          leads = refl;
          unchanged = λ virt. refl;
        },
      )

  -- A table was made.
  made :
      {m' : Machine} {p : ℕ}
      → (g : Grows m m' p (t + 8 * i))
      → (level t ≡ 2) ⊎ ((j : ℕ) → j < 512 → is_present (read m' (p + 8 * j)) ≡ false)
      → ((virt : ℕ) → index (level t) virt ≡ i → walk (level t) m' t virt ≡ walk (level t) m t virt)
      → Extends m root level parent t i p m'
  made {m'} {p} g content local =
      let fresh = free-level tree p g.free in
      let changes = Grows-Changes tree t i p upper lt g in
      record {
        level' = update level p (level t - 1);
        parent' = update parent p (t + 8 * i);
        tree = IsTree-Grows tree t i p upper lt g content;
        levels = λ t' real. ground arith;
        parents = λ t' real. ground arith;
        entries = λ t' i' real lt' ne. changes.same t' i' real lt' ne;
        present = rw g.entry (ground (arith, g.page));
        plain = rw g.entry (ground (arith, g.page));
        leads = rw g.entry (omega (arith, g.page));
        unchanged =
            λ virt. walk_unchanged tree 4 virt root changes (omega arith) lt (local virt) tree.top;
      }

  local_empty :
      (n : ℕ) {m' : Machine} {p : ℕ} (virt : ℕ)
      → 1 < n
      → Grows m m' p (t + 8 * i)
      → is_present (read m (t + 8 * i)) ≡ false
      → ((j : ℕ) → j < 512 → is_present (read m' (p + 8 * j)) ≡ false)
      → index n virt ≡ i
      → walk n m' t virt ≡ walk n m t virt
  local_empty zero virt up g absent empty at = absurd (omega arith)
  local_empty (suc zero) virt up g absent empty at = absurd (omega arith)
  local_empty (suc (suc n)) virt up g absent empty at = walk_empty t i g n virt absent empty at

  module _ (p : ℕ) (m1 : Machine) (fresh : Fresh m p m1) where
    apart : (leb p (t + 8 * i) && ltb (t + 8 * i) (p + 4096)) ≡ false
    apart = entry_apart p fresh.page (free-level tree p fresh.free)

    linked_empty :
        is_present (read m (t + 8 * i)) ≡ false
        → Extends m root level parent t i p (linked (λ k. 0) p (t + 8 * i) m1)
    linked_empty absent =
        let g =
          linked-Grows m m1 p (t + 8 * i) (λ k. 0) fresh e8 apart (λ k. omega arith) tree.bytes in
        let entry = linked-content m m1 p (t + 8 * i) (λ k. 0) fresh e8 apart (λ k. omega arith) in
        let empty : (j : ℕ)
            → j < 512
            → is_present (read (linked (λ k. 0) p (t + 8 * i) m1) (p + 8 * j)) ≡ false =
          λ j lt. rw (entry j lt) refl in
        made g (inr empty) (λ virt at. local_empty (level t) virt upper g absent empty at)

    -- What split_huge_pde puts into the entries of the new table.
    abbrev piece : ℕ → ℕ
    piece k =
        let pde = read m (t + 8 * i) in bit_or ((pde - pde % 2 ^ 21 + k * 4096) % 2 ^ 64) (pde % 8)

    piece-lt : (k : ℕ) → piece k < 2 ^ 64
    piece-lt k =
        let pde = read m (t + 8 * i) in
        let x = (pde - pde % 2 ^ 21 + k * 4096) % 2 ^ 64 in
        rw (bit_or-aligned x (pde % 8) (omega arith) (omega arith)) (omega arith)

    linked_split :
        level t ≡ 2
        → is_present (read m (t + 8 * i)) ≡ true
        → is_huge (read m (t + 8 * i)) ≡ true
        → Extends m root level parent t i p (linked piece p (t + 8 * i) m1)
    linked_split low here huge =
        let g = linked-Grows m m1 p (t + 8 * i) piece fresh e8 apart piece-lt tree.bytes in
        let entry = linked-content m m1 p (t + 8 * i) piece fresh e8 apart piece-lt in
        made g (inl low) (
          rw low (λ virt at.
            walk_split t i g virt (read-lt m (t + 8 * i) tree.bytes) here huge entry at))

  new_level-Extension :
      is_present (read m (t + 8 * i)) ≡ false
      → Extension m root level parent t i (new_level m (t + 8 * i))
  unfolding new_level zero_table
  new_level-Extension absent = elim (alloc_page-Fresh m tree.bitmap_bytes tree.reserved) [
    | inl (full, e) ↦ inl (inl full, rw (e, new_level) refl)
    | inr (some_page, fresh) ↦
        let real : ((alloc_page m).0 == 0) ≡ false = ground arith in
        rw (real, new_level, zero_table)
          (inr (some_page, linked_empty (alloc_page m).0 (alloc_page m).1 fresh absent))
  ]

  pub split-Extension :
      level t ≡ 2
      → is_present (read m (t + 8 * i)) ≡ true
      → is_huge (read m (t + 8 * i)) ≡ true
      → Extension m root level parent t i (split_huge_pde m (t + 8 * i))
  unfolding split_huge_pde fill_split
  split-Extension low here huge = elim (alloc_page-Fresh m tree.bitmap_bytes tree.reserved) [
    | inl (full, e) ↦ inl (inl full, rw (entry_real, here, huge, e, split_huge_pde) refl)
    | inr (some_page, fresh) ↦
        let real : ((alloc_page m).0 == 0) ≡ false = ground arith in
        rw (entry_real, here, huge, real, split_huge_pde)
          (inr (some_page, linked_split (alloc_page m).0 (alloc_page m).1 fresh low here huge))
  ]

  -- The call of get_next_level that makes what is missing.
  pub get_next_level-Extension :
      2 < level t → Extension m root level parent t i (get_next_level m (t + 8 * i) true)
  unfolding get_next_level
  get_next_level-Extension high = elim (Bool-cases (is_present (read m (t + 8 * i)))) [
    | inr absent ↦ rw (entry_real, absent, get_next_level) (new_level-Extension absent)
    | inl here ↦ elim (Bool-cases (is_huge (read m (t + 8 * i)))) [
      | inl huge ↦
          let value : get_next_level m (t + 8 * i) true ≡ (0, m) =
            rw (entry_real, here, huge, get_next_level) refl in
          rw value (inl (inr (high, huge), refl))
      | inr plain ↦
          let value : get_next_level m (t + 8 * i) true ≡ (table_of (read m (t + 8 * i)), m) =
            rw (entry_real, here, plain, get_next_level) refl in
          rw value (already here plain)
    ]
  ]

  -- The lookup of the page table in vmm_map_page.
  pub map_table-Extension :
      level t ≡ 2 → Extension m root level parent t i (map_table m (t + 8 * i))
  unfolding map_table
  map_table-Extension low = elim (Bool-cases (is_present (read m (t + 8 * i)))) [
    | inr absent ↦ rw (absent, map_table) (new_level-Extension absent)
    | inl here ↦ elim (Bool-cases (is_huge (read m (t + 8 * i)))) [
      | inl huge ↦
          let value : map_table m (t + 8 * i) ≡ split_huge_pde m (t + 8 * i) =
            rw (here, huge, map_table) refl in
          rw value (split-Extension low here huge)
      | inr plain ↦
          let value : map_table m (t + 8 * i) ≡ (table_of (read m (t + 8 * i)), m) =
            rw (here, plain, map_table) refl in
          rw value (already here plain)
    ]
  ]
