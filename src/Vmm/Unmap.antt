-- ===== src/Vmm/Unmap.antt =====
-- vmm_unmap_page of kernel/vmm.c as an update of the function from addresses to addresses that
-- vmm_virt_to_phys computes.
use notux_kernel.Base.{
  ℕ, ◌+◌, ◌*◌, ◌/◌, ◌^◌, ◌<◌, ◌≡◌, refl, sym, ap, ◌∙◌, true, false, arith, ◌==◌, if◌then◌else◌,
  Bool-cases, inl, inr, List, ◌∷◌,
}
use notux_kernel.Machine.{Machine, write}
use notux_kernel.Pmm.Alloc.{IsFull}
use notux_kernel.Vmm.{
  get_next_level, unmap_table, vmm_unmap_page, vmm_virt_to_phys, pml4_idx, pdp_idx, pd_idx, pt_idx,
}
use notux_kernel.Vmm.Walk.{index, descend, walk, vmm_virt_to_phys-walk}
use notux_kernel.Vmm.Tree.{IsTree}
use notux_kernel.Vmm.Extend.{Extends}
use notux_kernel.Vmm.Mapping.{agree-page, IsPath, walk-put, put}
use notux_kernel.Vmm.Path.{
  path_of, Link-new, Link-kept, next_level, path-IsPath, put-IsTree, invalidate-IsTree,
  invalidate-walk,
}
use notux_kernel.Vmm.Refine.{root_real}
use notux_kernel.Vmm.Find.{get_next_level-Found, unmap_table-Found, same_index, Link-walk}

-- The translation of every address below 2^48 after one page has been unmapped.
abbrev pub cleared : Machine → ℕ → ℕ → ℕ → ℕ
cleared m root virt v = if v / 4096 == virt / 4096 then 0 else vmm_virt_to_phys m root v

-- What vmm_unmap_page comes to.
pub data Unmapped (m : Machine) (root virt : ℕ) (m' : Machine) : Type 0 where
  unmapped :
      (level' parent' : ℕ → ℕ)
      → IsTree m' root level' parent'
      → ((v : ℕ) → v < 2 ^ 48 → vmm_virt_to_phys m' root v ≡ cleared m root virt v)
      → Unmapped m root virt m'
  refused :
      (level' parent' : ℕ → ℕ)
      → IsTree m' root level' parent'
      → IsFull m'.bitmap
      → ((v : ℕ) → vmm_virt_to_phys m' root v ≡ vmm_virt_to_phys m root v)
      → Unmapped m root virt m'

module _ {m : Machine} {root : ℕ} {level parent : ℕ → ℕ} (tree : IsTree m root level parent)
    (virt : ℕ) (below : virt < 2 ^ 48) where
  -- Nothing was mapped there.
  unmapped_before :
      {m1 : Machine} {level' parent' : ℕ → ℕ}
      → IsTree m1 root level' parent'
      → ((v : ℕ) → walk 4 m1 root v ≡ walk 4 m root v)
      → ((v : ℕ) → v / 4096 ≡ virt / 4096 → walk 4 m1 root v ≡ 0)
      → Unmapped m root virt m1
  unmapped_before {m1} {level'} {parent'} still same zero_there =
      unmapped level' parent' still (λ v lt.
        vmm_virt_to_phys-walk m1 root v (root_real still)
        ∙ (elim (Bool-cases (v / 4096 == virt / 4096)) [
          | inl inside ↦ rw inside (zero_there v (ground arith))
          | inr outside ↦
              rw outside (same v ∙ sym (vmm_virt_to_phys-walk m root v (root_real tree)))
        ]))

  -- No memory for the split: nothing has changed for any address.
  no_memory :
      {m1 : Machine} {level' parent' : ℕ → ℕ}
      → IsTree m1 root level' parent'
      → ((v : ℕ) → walk 4 m1 root v ≡ walk 4 m root v)
      → IsFull m1.bitmap
      → Unmapped m root virt m1
  no_memory {m1} {level'} {parent'} still same full = refused level' parent' still full (λ v.
      vmm_virt_to_phys-walk m1 root v (root_real still)
      ∙ same v
      ∙ sym (vmm_virt_to_phys-walk m root v (root_real tree)))

  last_step :
      {m3 : Machine} {level' parent' : ℕ → ℕ} {path : ℕ → ℕ}
      → IsPath m3 root level' parent' virt path
      → ((v : ℕ) → walk 4 m3 root v ≡ walk 4 m root v)
      → (l : List ℕ)
      → Unmapped m root virt (record (write m3 (path 1 + 8 * pt_idx virt) 0) { invalidated = l })
  unfolding descend
  last_step {m3} {level'} {parent'} {path} p same l =
      let now = put p 0 (omega arith) in
      let still = invalidate-IsTree l (put-IsTree p 0 (omega arith)) in
      unmapped level' parent' still (λ v lt.
        let start : (path 4 == root) ≡ true = ground (arith, p.start) in
        let put_walk = walk-put p 0 (omega arith) 3 v root (omega arith) p.tree.top in
        let page = agree-page v virt lt below in
        vmm_virt_to_phys-walk (record now { invalidated = l }) root v (root_real still)
        ∙ invalidate-walk now l root v
        ∙ put_walk
        ∙ (elim (Bool-cases (v / 4096 == virt / 4096)) [
          | inl inside ↦ rw (start, page, inside) refl
          | inr outside ↦
              rw (start, page, outside)
                (same v ∙ sym (vmm_virt_to_phys-walk m root v (root_real tree)))
        ]))

  -- The code from the page directory on, and from the directory pointers on.
  abbrev from_directory : Machine → ℕ → Machine
  from_directory m2 pd =
      let (pt, m3) = unmap_table m2 (pd + 8 * pd_idx virt) in
      if pt == 0
      then m3
      else (let m4 = write m3 (pt + 8 * pt_idx virt) 0 in
          record m4 { invalidated = virt ∷ m4.invalidated })

  abbrev from_pointers : Machine → ℕ → Machine
  from_pointers m1 pdp =
      let (pd, m2) = get_next_level m1 (pdp + 8 * pdp_idx virt) false in
      if pd == 0 then m2 else from_directory m2 pd

  third :
      {m1 m2 : Machine} {pdp pd : ℕ}
      → (x1 : Extends m root level parent root (pml4_idx virt) pdp m1)
      → (x2 : Extends m1 root x1.level' x1.parent' pdp (pdp_idx virt) pd m2)
      → Unmapped m root virt (from_directory m2 pd)
  unfolding path_of write
  third {m1} {m2} {pdp} {pd} x1 x2 =
      let lt4 : pml4_idx virt < 512 = omega arith in
      let lt3 : pdp_idx virt < 512 = omega arith in
      let lt2 : pd_idx virt < 512 = omega arith in
      let pdp_level : x1.level' pdp ≡ 3 = next_level tree x1 3 (omega arith) lt4 tree.top in
      let pd_level : x2.level' pd ≡ 2 = next_level x1.tree x2 2 (omega arith) lt3 pdp_level in
      let same2 : (v : ℕ) → walk 4 m2 root v ≡ walk 4 m root v =
        λ v. x2.unchanged v ∙ x1.unchanged v in
      let l4 =
        Link-kept x1.tree x2 lt3 lt4 (omega arith) (omega arith) (omega arith)
          (Link-new tree x1 4 tree.top (omega arith)) in
      let l3 = Link-new x1.tree x2 3 pdp_level (omega arith) in
      let call = unmap_table m2 (pd + 8 * pd_idx virt) in
      elim (unmap_table-Found x2.tree pd (pd_idx virt) (omega arith) lt2 pd_level) [
        | inl (why, e) ↦ rw e (elim why [
          | inl (full, low) ↦ no_memory x2.tree same2 full
          | inr nothing ↦ unmapped_before x2.tree same2 (λ v inside.
              Link-walk x2.tree 2 root (pml4_idx virt) pdp v l4 lt4 (same_index 4 v virt inside)
              ∙ Link-walk x2.tree 1 pdp (pdp_idx virt) pd v l3 lt3 (same_index 3 v virt inside)
              ∙ sym (ap (λ k. walk k m2 pd v) pd_level)
              ∙ nothing v (ap (λ k. index k v) pd_level ∙ same_index 2 v virt inside))
        ])
        | inr (real, x3) ↦
            let found : (call.0 == 0) ≡ false = ground arith in
            let l4' = Link-kept x2.tree x3 lt2 lt4 (omega arith) (omega arith) (omega arith) l4 in
            let l3' = Link-kept x2.tree x3 lt2 lt3 (omega arith) (omega arith) (omega arith) l3 in
            let l2 = Link-new x2.tree x3 2 pd_level (omega arith) in
            let l1 = next_level x2.tree x3 1 (omega arith) lt2 pd_level in
            rw found (
              last_step (path-IsPath x3.tree virt pdp pd call.0 l4' l3' l2 l1)
                (λ v. x3.unchanged v ∙ same2 v) (virt ∷ call.1.invalidated))
      ]

  second :
      {m1 : Machine} {pdp : ℕ}
      → (x1 : Extends m root level parent root (pml4_idx virt) pdp m1)
      → Unmapped m root virt (from_pointers m1 pdp)
  second {m1} {pdp} x1 =
      let lt4 : pml4_idx virt < 512 = omega arith in
      let pdp_level : x1.level' pdp ≡ 3 = next_level tree x1 3 (omega arith) lt4 tree.top in
      let l4 = Link-new tree x1 4 tree.top (omega arith) in
      let call = get_next_level m1 (pdp + 8 * pdp_idx virt) false in
      elim (get_next_level-Found x1.tree pdp (pdp_idx virt) (omega arith) (omega arith) 0
        pdp_level) [
          | inl (why, e) ↦ rw e (elim why [
            | inl (full, low) ↦ absurd (omega (arith, low, pdp_level))
            | inr nothing ↦ unmapped_before x1.tree x1.unchanged (λ v inside.
                Link-walk x1.tree 2 root (pml4_idx virt) pdp v l4 lt4 (same_index 4 v virt inside)
                ∙ sym (ap (λ k. walk k m1 pdp v) pdp_level)
                ∙ nothing v (ap (λ k. index k v) pdp_level ∙ same_index 3 v virt inside))
          ])
          | inr (real, x2) ↦
              let found : (call.0 == 0) ≡ false = ground arith in rw found (third x1 x2)
        ]

  -- For a tree of page tables, vmm_unmap_page leaves a tree in which no address of the page at `virt`
  -- means anything and every other address below 2^48 means what it meant, also where a page of 2 MiB had
  -- to be split for it or nothing was mapped there; or every physical page is in use, and no address
  -- means anything else than it did.
  pub vmm_unmap_page-Unmapped : Unmapped m root virt (vmm_unmap_page m root virt)
  unfolding vmm_unmap_page
  vmm_unmap_page-Unmapped =
      let start : (root == 0) ≡ false = (let real = root_real tree in ground arith) in
      let top : level root ≡ 4 = tree.top in
      let call = get_next_level m (root + 8 * pml4_idx virt) false in
      rw (start, vmm_unmap_page)
        (elim (get_next_level-Found tree root (pml4_idx virt) (omega (arith, tree.top))
          (omega arith) 1 tree.top) [
            | inl (why, e) ↦ rw e (elim why [
              | inl (full, low) ↦ absurd (omega (arith, low, top))
              | inr nothing ↦
                  unmapped_before tree (λ v. refl)
                    (λ v inside.
                      sym (ap (λ k. walk k m root v) top)
                      ∙ nothing v (ap (λ k. index k v) top ∙ same_index 4 v virt inside))
            ])
            | inr (real, x1) ↦
                let found : (call.0 == 0) ≡ false = ground arith in rw found (second x1)
          ])
