-- ===== src/Vmm/Path.antt =====
-- The tables on the way of vmm_map_page of kernel/vmm.c to one page, and what its last write keeps.
use notux_kernel.Base.{
  ℕ, zero, suc, ◌+◌, ◌*◌, ◌^◌, ◌≤◌, ◌<◌, ◌≡◌, ◌≢◌, refl, sym, ap, ◌∙◌, true, false, arith, List,
}
use notux_kernel.Machine.{Machine, read}
use notux_kernel.Vmm.{is_present, is_huge, table_of, pml4_idx, pdp_idx, pd_idx, pt_idx}
use notux_kernel.Vmm.Words.{write-HasBytes, write-bitmap}
use notux_kernel.Vmm.Walk.{index, walk}
use notux_kernel.Vmm.Tree.{IsTree, entry-injective}
use notux_kernel.Vmm.Extend.{Extends}
use notux_kernel.Vmm.Mapping.{IsPath, above, put}

-- The walk to one address, as a path.
unfoldable pub path_of : ℕ → ℕ → ℕ → ℕ → ℕ → ℕ
path_of root pdp pd pt zero = 0
path_of root pdp pd pt (suc zero) = pt
path_of root pdp pd pt (suc (suc zero)) = pd
path_of root pdp pd pt (suc (suc (suc zero))) = pdp
path_of root pdp pd pt (suc (suc (suc (suc n)))) = root

-- A table of the tree that an entry of another leads to, in the terms of the later machine.
pub record Link (m : Machine) (level : ℕ → ℕ) (n t i next : ℕ) : Type 0 where
  pub level_of : level t ≡ n
  pub present : is_present (read m (t + 8 * i)) ≡ true
  pub plain : is_huge (read m (t + 8 * i)) ≡ false
  pub leads : table_of (read m (t + 8 * i)) ≡ next

module _ {m : Machine} {root : ℕ} {level parent : ℕ → ℕ} {m' : Machine} {t i next : ℕ}
    (tree : IsTree m root level parent) (x : Extends m root level parent t i next m') where
  -- The link that an extension makes.
  pub Link-new : (n : ℕ) → level t ≡ n → n ≢ 0 → Link m' x.level' n t i next
  Link-new n e real = record {
    level_of = x.levels t (omega arith) ∙ e;
    present = x.present;
    plain = x.plain;
    leads = x.leads;
  }

  -- A link of another level stays.
  pub Link-kept :
      {n t' i' next' : ℕ}
      → i < 512
      → i' < 512
      → level t ≢ n
      → level t ≢ 0
      → n ≢ 0
      → Link m level n t' i' next'
      → Link m' x.level' n t' i' next'
  Link-kept {n} {t'} {i'} lt lt' other real pos l =
      let apart : t' + 8 * i' ≢ t + 8 * i = λ e.
        let at = entry-injective tree t' i' t i (omega (arith, l.level_of)) real lt' lt e in
        other (ap level (sym at.0) ∙ l.level_of) in
      let same = x.entries t' i' (omega (arith, l.level_of)) lt' apart in
      record {
        level_of = x.levels t' (omega (arith, l.level_of)) ∙ l.level_of;
        present = rw same l.present;
        plain = rw same l.plain;
        leads = rw same l.leads;
      }

  -- The new table is one level below.
  pub next_level : (n : ℕ) → 1 < suc n → i < 512 → level t ≡ suc n → x.level' next ≡ n
  next_level n up lt e =
      let below = x.tree.child t i (omega (arith, x.levels t)) lt x.present x.plain in
      omega (arith, below.0, ap x.level' x.leads, x.levels t (omega arith))

module _ {m : Machine} {root : ℕ} {level parent : ℕ → ℕ} (tree : IsTree m root level parent)
    (virt pdp pd pt : ℕ) (l4 : Link m level 4 root (pml4_idx virt) pdp)
    (l3 : Link m level 3 pdp (pdp_idx virt) pd) (l2 : Link m level 2 pd (pd_idx virt) pt)
    (l1 : level pt ≡ 1) where
  abbrev path : ℕ → ℕ
  path = path_of root pdp pd pt

  on : (n : ℕ) → 0 < n → n ≤ 4 → level (path n) ≡ n
  unfolding path_of
  on zero pos le = absurd (omega arith)
  on (suc zero) pos le = l1
  on (suc (suc zero)) pos le = l2.level_of
  on (suc (suc (suc zero))) pos le = l3.level_of
  on (suc (suc (suc (suc zero)))) pos le = l4.level_of
  on (suc (suc (suc (suc (suc n))))) pos le = absurd (omega arith)

  present : (n : ℕ) → 1 < n → n ≤ 4 → is_present (read m (path n + 8 * index n virt)) ≡ true
  unfolding path_of
  present zero pos le = absurd (omega arith)
  present (suc zero) pos le = absurd (omega arith)
  present (suc (suc zero)) pos le = l2.present
  present (suc (suc (suc zero))) pos le = l3.present
  present (suc (suc (suc (suc zero)))) pos le = l4.present
  present (suc (suc (suc (suc (suc n))))) pos le = absurd (omega arith)

  plain : (n : ℕ) → 1 < n → n ≤ 4 → is_huge (read m (path n + 8 * index n virt)) ≡ false
  unfolding path_of
  plain zero pos le = absurd (omega arith)
  plain (suc zero) pos le = absurd (omega arith)
  plain (suc (suc zero)) pos le = l2.plain
  plain (suc (suc (suc zero))) pos le = l3.plain
  plain (suc (suc (suc (suc zero)))) pos le = l4.plain
  plain (suc (suc (suc (suc (suc n))))) pos le = absurd (omega arith)

  leads :
      (n : ℕ) → 0 < n → n < 4 → table_of (read m (path (suc n) + 8 * index (suc n) virt)) ≡ path n
  unfolding path_of
  leads zero pos le = absurd (omega arith)
  leads (suc zero) pos le = l2.leads
  leads (suc (suc zero)) pos le = l3.leads
  leads (suc (suc (suc zero))) pos le = l4.leads
  leads (suc (suc (suc (suc n)))) pos le = absurd (omega arith)

  pub path-IsPath : IsPath m root level parent virt path
  unfolding path_of
  path-IsPath = record {
    tree = tree;
    start = refl;
    on = on;
    present = present;
    plain = plain;
    leads = leads;
  }

-- The write of the last step keeps the tree.
pub put-IsTree :
    {m : Machine} {root : ℕ} {level parent : ℕ → ℕ} {virt : ℕ} {path : ℕ → ℕ}
    (p : IsPath m root level parent virt path) (entry : ℕ) (fits : entry < 2 ^ 64)
    → IsTree (put p entry fits) root level parent
put-IsTree {m} {root} {level} {parent} {virt} {path} p entry fits =
    let bits = write-bitmap m (path 1 + 8 * pt_idx virt) entry in
    record {
      bytes = write-HasBytes m (path 1 + 8 * pt_idx virt) entry p.tree.bytes;
      bitmap_bytes = rw bits p.tree.bitmap_bytes;
      reserved = rw bits p.tree.reserved;
      top = p.tree.top;
      null = p.tree.null;
      aligned = p.tree.aligned;
      used = λ t real. rw bits (p.tree.used t real);
      child = λ t i up lt here plain.
          let same = above p entry fits t i up lt in
          rw same (p.tree.child t i up lt (rw same at here) (rw same at plain));
    }

-- The list of addresses given to `invlpg` has no part in all this.
pub invalidate-IsTree :
    {m : Machine} {root : ℕ} {level parent : ℕ → ℕ} (l : List ℕ)
    → IsTree m root level parent
    → IsTree (record m { invalidated = l }) root level parent
unfolding read
invalidate-IsTree l tree = record {
  bytes = tree.bytes;
  bitmap_bytes = tree.bitmap_bytes;
  reserved = tree.reserved;
  top = tree.top;
  null = tree.null;
  aligned = tree.aligned;
  used = tree.used;
  child = tree.child;
}

pub invalidate-walk :
    (m : Machine) (l : List ℕ) (root v : ℕ)
    → walk 4 (record m { invalidated = l }) root v ≡ walk 4 m root v
unfolding walk read
invalidate-walk m l root v = refl
