-- ===== src/Vmm/Refine.antt =====
-- vmm_map_page of kernel/vmm.c as an update of the function from addresses to addresses that
-- vmm_virt_to_phys computes.
use Prim.Native.Nat.{bit_or}
use notux_kernel.Base.{
  ℕ, ◌+◌, ◌*◌, ◌/◌, ◌%◌, ◌^◌, ◌<◌, ◌≡◌, ◌≢◌, refl, sym, ap, ◌∙◌, true, false, arith, ◌==◌,
  if◌then◌else◌, Bool-cases, inl, inr, ◌⊎◌, List, ◌∷◌,
}
use notux_kernel.Base.Bits.{bit_or-aligned, bit_or-one}
use notux_kernel.Machine.{Machine, read, write}
use notux_kernel.Pmm.Alloc.{IsFull}
use notux_kernel.Vmm.{
  is_present, is_huge, table_of, get_next_level, map_table, vmm_map_page, vmm_virt_to_phys,
  pml4_idx, pdp_idx, pd_idx, pt_idx,
}
use notux_kernel.Vmm.Walk.{index, descend, walk, vmm_virt_to_phys-walk}
use notux_kernel.Vmm.Tree.{IsTree}
use notux_kernel.Vmm.Extend.{Extends, get_next_level-Extension, map_table-Extension}
use notux_kernel.Vmm.Mapping.{agree-page, IsPath, walk-put, put}
use notux_kernel.Vmm.Path.{
  path_of, Link-new, Link-kept, next_level, path-IsPath, put-IsTree, invalidate-IsTree,
  invalidate-walk,
}

-- What vmm_map_page puts into the page table, for an address and flags below the page bits.
leaf : ℕ → ℕ → ℕ
leaf phys flags = bit_or (bit_or (table_of phys) flags) 1

leaf-eq : (phys flags : ℕ) → flags < 4096 → leaf phys flags ≡ (table_of phys + flags) / 2 * 2 + 1
unfolding leaf
leaf-eq phys flags h =
    rw (bit_or-aligned (table_of phys) flags (omega arith) h) (bit_or-one (table_of phys + flags))

leaf-descend :
    (phys flags v : ℕ) → flags < 4096 → descend 1 (leaf phys flags) v 0 ≡ table_of phys + v % 4096
unfolding descend
leaf-descend phys flags v h =
    let e = leaf-eq phys flags h in
    let here : is_present (leaf phys flags) ≡ true = ground (arith, e) in
    let page : table_of (leaf phys flags) ≡ table_of phys = omega (arith, e) in
    rw (here, page) (bit_or-aligned (table_of phys) (v % 4096) (omega arith) (omega arith))

leaf-lt : (phys flags : ℕ) → flags < 4096 → phys < 2 ^ 64 → leaf phys flags < 2 ^ 64
leaf-lt phys flags h small = omega (arith, leaf-eq phys flags h)

-- The translation of every address below 2^48 after one page has been mapped.
abbrev pub remapped : Machine → ℕ → ℕ → ℕ → ℕ → ℕ
remapped m root virt phys v =
    if v / 4096 == virt / 4096 then table_of phys + v % 4096 else vmm_virt_to_phys m root v

-- What vmm_map_page comes to.
pub data Mapped (m : Machine) (root virt phys : ℕ) (m' : Machine) : Type 0 where
  mapped :
      (level' parent' : ℕ → ℕ)
      → IsTree m' root level' parent'
      → ((v : ℕ) → v < 2 ^ 48 → vmm_virt_to_phys m' root v ≡ remapped m root virt phys v)
      → Mapped m root virt phys m'
  refused :
      (level' parent' : ℕ → ℕ)
      → IsTree m' root level' parent'
      → IsFull m'.bitmap
        ⊎ ((t : ℕ) × (2 < level' t) × (is_huge (read m' (t + 8 * index (level' t) virt)) ≡ true))
      → ((v : ℕ) → vmm_virt_to_phys m' root v ≡ vmm_virt_to_phys m root v)
      → Mapped m root virt phys m'

pub root_real :
    {m : Machine} {root : ℕ} {level parent : ℕ → ℕ} → IsTree m root level parent → root ≢ 0
root_real {level = level} tree e = omega (arith, tree.top, tree.null, ap level e)

module _ {m : Machine} {root : ℕ} {level parent : ℕ → ℕ} (tree : IsTree m root level parent)
    (virt phys flags : ℕ) (below : virt < 2 ^ 48) (small : phys < 2 ^ 64) (low : flags < 4096) where
  -- Once the page table is found, the last write maps the page.
  last_step :
      {m3 : Machine} {level' parent' : ℕ → ℕ} {path : ℕ → ℕ}
      → IsPath m3 root level' parent' virt path
      → ((v : ℕ) → walk 4 m3 root v ≡ walk 4 m root v)
      → (l : List ℕ)
      → Mapped m root virt phys
          (record (write m3 (path 1 + 8 * pt_idx virt) (leaf phys flags)) { invalidated = l })
  last_step {m3} {level'} {parent'} {path} p same l =
      let fits = leaf-lt phys flags low small in
      let now = put p (leaf phys flags) fits in
      let still = invalidate-IsTree l (put-IsTree p (leaf phys flags) fits) in
      mapped level' parent' still (λ v lt.
        let start : (path 4 == root) ≡ true = ground (arith, p.start) in
        let put_walk = walk-put p (leaf phys flags) fits 3 v root (omega arith) p.tree.top in
        let page = agree-page v virt lt below in
        vmm_virt_to_phys-walk (record now { invalidated = l }) root v (root_real still)
        ∙ invalidate-walk now l root v
        ∙ put_walk
        ∙ (elim (Bool-cases (v / 4096 == virt / 4096)) [
          | inl inside ↦ rw (start, page, inside) (leaf-descend phys flags v low)
          | inr outside ↦
              rw (start, page, outside)
                (same v ∙ sym (vmm_virt_to_phys-walk m root v (root_real tree)))
        ]))

  -- When a step gives no table, nothing has changed for any address.
  stopped :
      {m1 : Machine} {level' parent' : ℕ → ℕ} (t i : ℕ)
      → IsTree m1 root level' parent'
      → ((v : ℕ) → walk 4 m1 root v ≡ walk 4 m root v)
      → (2 < level' t → index (level' t) virt ≡ i)
      → IsFull m1.bitmap ⊎ ((2 < level' t) × (is_huge (read m1 (t + 8 * i)) ≡ true))
      → Mapped m root virt phys m1
  stopped {m1} {level'} {parent'} t i still same at why =
      refused level' parent' still
        (elim why [ inl full ↦ inl full | inr (up, huge) ↦ inr (t, up, rw (at up) huge) ])
        (λ v.
          vmm_virt_to_phys-walk m1 root v (root_real still)
          ∙ same v
          ∙ sym (vmm_virt_to_phys-walk m root v (root_real tree)))

  -- The code from the page directory on, and from the directory pointers on.
  abbrev from_directory : Machine → ℕ → Machine
  from_directory m2 pd =
      let (pt, m3) = map_table m2 (pd + 8 * pd_idx virt) in
      if pt == 0
      then m3
      else (let m4 = write m3 (pt + 8 * pt_idx virt) (leaf phys flags) in
          record m4 { invalidated = virt ∷ m4.invalidated })

  abbrev from_pointers : Machine → ℕ → Machine
  from_pointers m1 pdp =
      let (pd, m2) = get_next_level m1 (pdp + 8 * pdp_idx virt) true in
      if pd == 0 then m2 else from_directory m2 pd

  -- The root, the table below it, and so on down: each step finds or makes the next table.
  third :
      {m1 m2 : Machine} {pdp pd : ℕ}
      → (x1 : Extends m root level parent root (pml4_idx virt) pdp m1)
      → (x2 : Extends m1 root x1.level' x1.parent' pdp (pdp_idx virt) pd m2)
      → Mapped m root virt phys (from_directory m2 pd)
  unfolding path_of write
  third {m1} {m2} {pdp} {pd} x1 x2 =
      let lt4 : pml4_idx virt < 512 = omega arith in
      let lt3 : pdp_idx virt < 512 = omega arith in
      let lt2 : pd_idx virt < 512 = omega arith in
      let pdp_level : x1.level' pdp ≡ 3 = next_level tree x1 3 (omega arith) lt4 tree.top in
      let pd_level : x2.level' pd ≡ 2 = next_level x1.tree x2 2 (omega arith) lt3 pdp_level in
      let same2 : (v : ℕ) → walk 4 m2 root v ≡ walk 4 m root v =
        λ v. x2.unchanged v ∙ x1.unchanged v in
      let call = map_table m2 (pd + 8 * pd_idx virt) in
      elim (map_table-Extension x2.tree pd (pd_idx virt) (omega arith) lt2 pd_level) [
        | inl (why, e) ↦
            rw e
              (stopped pd (pd_idx virt) x2.tree same2 (λ up. absurd (omega (arith, pd_level))) why)
        | inr (real, x3) ↦
            let found : (call.0 == 0) ≡ false = ground arith in
            let l4 =
              Link-kept x1.tree x2 lt3 lt4 (omega arith) (omega arith) (omega arith)
                (Link-new tree x1 4 tree.top (omega arith)) in
            let l4' = Link-kept x2.tree x3 lt2 lt4 (omega arith) (omega arith) (omega arith) l4 in
            let l3 =
              Link-kept x2.tree x3 lt2 lt3 (omega arith) (omega arith) (omega arith)
                (Link-new x1.tree x2 3 pdp_level (omega arith)) in
            let l2 = Link-new x2.tree x3 2 pd_level (omega arith) in
            let l1 = next_level x2.tree x3 1 (omega arith) lt2 pd_level in
            rw found (
              last_step (path-IsPath x3.tree virt pdp pd call.0 l4' l3 l2 l1)
                (λ v. x3.unchanged v ∙ same2 v) (virt ∷ call.1.invalidated))
      ]

  second :
      {m1 : Machine} {pdp : ℕ}
      → (x1 : Extends m root level parent root (pml4_idx virt) pdp m1)
      → Mapped m root virt phys (from_pointers m1 pdp)
  second {m1} {pdp} x1 =
      let lt4 : pml4_idx virt < 512 = omega arith in
      let pdp_level : x1.level' pdp ≡ 3 = next_level tree x1 3 (omega arith) lt4 tree.top in
      let call = get_next_level m1 (pdp + 8 * pdp_idx virt) true in
      elim (get_next_level-Extension x1.tree pdp (pdp_idx virt) (omega arith) (omega arith)
        (omega arith)) [
          | inl (why, e) ↦
              rw e (stopped pdp (pdp_idx virt) x1.tree x1.unchanged (λ up. rw pdp_level refl) why)
          | inr (real, x2) ↦
              let found : (call.0 == 0) ≡ false = ground arith in rw found (third x1 x2)
        ]

  -- For a tree of page tables, and flags below the page bits, vmm_map_page leaves a tree, and either
  -- every address below 2^48 means what it meant, but for those of the page at `virt`, which lead to the
  -- page at `phys`, also where a page of 2 MiB had to be split for it; or nothing means anything
  -- else than it did, and then every physical page is in use, or a table of the two upper levels has an
  -- entry for `virt` that is marked huge.
  pub vmm_map_page-Mapped : Mapped m root virt phys (vmm_map_page m root virt phys flags)
  unfolding vmm_map_page leaf
  vmm_map_page-Mapped =
      let start : (root == 0) ≡ false = (let real = root_real tree in ground arith) in
      let top : level root ≡ 4 = tree.top in
      let call = get_next_level m (root + 8 * pml4_idx virt) true in
      rw (start, vmm_map_page)
        (elim (get_next_level-Extension tree root (pml4_idx virt) (omega (arith, tree.top))
          (omega arith) (omega (arith, tree.top))) [
            | inl (why, e) ↦
                rw e (stopped root (pml4_idx virt) tree (λ v. refl) (λ up. rw top refl) why)
            | inr (real, x1) ↦
                let found : (call.0 == 0) ≡ false = ground arith in rw found (second x1)
          ])
