-- ===== src/Paging/Identity.antt =====
-- paging_init of kernel/paging.c, seen through vmm_virt_to_phys of kernel/vmm.c.
use Prim.Native.Nat.{bit_or}
use notux_kernel.Base.{
  ℕ, suc, ◌+◌, ◌-◌, ◌*◌, ◌%◌, ◌^◌, ◌≤◌, ◌<◌, ◌≡◌, ◌≢◌, refl, ◌∙◌, true, arith, ltb, ◌==◌,
  if◌then◌else◌, for_loop_inv, Bool-cases, inl, inr,
}
use notux_kernel.Base.Bits.{bit_or-aligned, bit_or-aligned_huge}
use notux_kernel.Machine.{Machine, read, write}
use notux_kernel.Vmm.{vmm_virt_to_phys, table_of, is_present, is_huge, pml4_idx, pdp_idx, pd_idx}
use native.Mathlib.Decide.{ℕ_discrete}
use notux_kernel.Vmm.Words.{read-write_self, read-write_ne, read-fill_table_other, read-fill_table}
use notux_kernel.Vmm.Walk.{index, walk, walk-suc, descend, descend_leads, vmm_virt_to_phys-walk}
use notux_kernel.Paging.{
  Tables, pd_table, page_flags, huge_flags, clear_tables, fill_pd, paging_init,
}

-- The static tables are aligned, lie in pages of their own, and are not at address 0.
pub record IsPlaced (l : Tables) : Type 0 where
  pub pml4_aligned : l.pml4_table % 4096 ≡ 0
  pub pdp_aligned : l.pdp_table % 4096 ≡ 0
  pub pd_aligned : l.pd_tables % 4096 ≡ 0
  pub pml4_real : l.pml4_table ≢ 0
  pub pdp_real : l.pdp_table ≢ 0
  pub pd_real : l.pd_tables ≢ 0
  pub fits : (l.pdp_table < 2 ^ 48) × (l.pd_tables < 2 ^ 48)
  pub apart : l.pml4_table ≢ l.pdp_table
  pub pml4_apart : (i : ℕ) → i < 4 → l.pml4_table ≢ pd_table l i
  pub pdp_apart : (i : ℕ) → i < 4 → l.pdp_table ≢ pd_table l i

-- The tables after `k` rounds of the outer loop.
record Filled (l : Tables) (k : ℕ) (m : Machine) : Type 0 where
  top : (i : ℕ) → i < 512 → read m (l.pml4_table + 8 * i) ≡ (if i == 0 then l.pdp_table + 7 else 0)
  pointers :
      (i : ℕ) → i < 512 → read m (l.pdp_table + 8 * i) ≡ (if ltb i k then pd_table l i + 7 else 0)
  pages :
      (i j : ℕ)
      → i < k
      → j < 512
      → read m (pd_table l i + 8 * j) ≡ i * 0x4000_0000 + j * 0x20_0000 + huge_flags

-- The first loop leaves zeros below `k`.
record Cleared (l : Tables) (k : ℕ) (m : Machine) : Type 0 where
  top : (i : ℕ) → i < k → read m (l.pml4_table + 8 * i) ≡ 0
  pointers : (i : ℕ) → i < k → read m (l.pdp_table + 8 * i) ≡ 0

module _ (l : Tables) (placed : IsPlaced l) where
  clear_round :
      (k : ℕ) (m : Machine)
      → k < 512
      → Cleared l k m
      → Cleared l (k + 1) (write (write m (l.pml4_table + 8 * k) 0) (l.pdp_table + 8 * k) 0)
  clear_round k m lt c = record {
    top = λ i below. ground (
      arith,
      c.top i,
      placed.apart,
      placed.pml4_aligned,
      placed.pdp_aligned,
      read-write_ne (write m (l.pml4_table + 8 * k) 0) (l.pdp_table + 8 * k) (l.pml4_table + 8 * i)
          0,
      read-write_ne m (l.pml4_table + 8 * k) (l.pml4_table + 8 * i) 0,
      read-write_self m (l.pml4_table + 8 * k) 0,
    );
    pointers = λ i below. ground (
      arith,
      c.pointers i,
      placed.apart,
      placed.pml4_aligned,
      placed.pdp_aligned,
      read-write_ne (write m (l.pml4_table + 8 * k) 0) (l.pdp_table + 8 * k) (l.pdp_table + 8 * i)
          0,
      read-write_ne m (l.pml4_table + 8 * k) (l.pdp_table + 8 * i) 0,
      read-write_self (write m (l.pml4_table + 8 * k) 0) (l.pdp_table + 8 * k) 0,
    );
  }

  clear_tables-Cleared : (m : Machine) → Cleared l 512 (clear_tables l m)
  unfolding clear_tables
  clear_tables-Cleared m =
      for_loop_inv (λ i m. write (write m (l.pml4_table + 8 * i) 0) (l.pdp_table + 8 * i) 0)
        (λ k. Cleared l k) 512 0 512 m refl (λ k t lo hi. clear_round k t hi)
        record { top = λ i below. absurd (omega arith); pointers = λ i below. absurd (omega arith) }

  linked-Filled :
      (m : Machine)
      → Cleared l 512 m
      → Filled l 0 (write m l.pml4_table (bit_or l.pdp_table page_flags))
  linked-Filled m c =
      let flags = bit_or-aligned l.pdp_table page_flags placed.pdp_aligned (omega arith) in
      rw flags record {
        top = λ i below. ground (
          arith,
          c.top i,
          placed.pml4_aligned,
          placed.fits,
          read-write_ne m l.pml4_table (l.pml4_table + 8 * i) (l.pdp_table + 7),
          read-write_self m l.pml4_table (l.pdp_table + 7),
        );
        pointers = λ i below. ground (
          arith,
          c.pointers i,
          placed.pml4_aligned,
          placed.pdp_aligned,
          placed.apart,
          read-write_ne m l.pml4_table (l.pdp_table + 8 * i) (l.pdp_table + 7),
        );
        pages = λ i j lt below. absurd (omega arith);
      }

  -- An entry outside the directory `k` is not touched by its loop.
  fill_pd-other :
      (k : ℕ) (m : Machine) (t i : ℕ)
      → t % 4096 ≡ 0
      → t ≢ pd_table l k
      → i < 512
      → read (fill_pd l k m) (t + 8 * i) ≡ read m (t + 8 * i)
  unfolding fill_pd
  fill_pd-other k m t i aligned ne below =
      read-fill_table_other (λ j. bit_or (k * 0x4000_0000 + j * 0x20_0000) huge_flags)
        (pd_table l k) (omega (arith, placed.pd_aligned)) 0 512 m (t + 8 * i) (omega arith)
        (ground (arith, placed.pd_aligned))

  fill_pd-own :
      (k : ℕ) (m : Machine) (j : ℕ)
      → k < 4
      → j < 512
      → read (fill_pd l k m) (pd_table l k + 8 * j) ≡ k * 0x4000_0000 + j * 0x20_0000 + huge_flags
  unfolding fill_pd
  fill_pd-own k m j lt below =
      let flags =
        bit_or-aligned_huge (k * 0x4000_0000 + j * 0x20_0000) huge_flags (omega arith)
          (omega arith) in
      read-fill_table (λ j. bit_or (k * 0x4000_0000 + j * 0x20_0000) huge_flags) (pd_table l k)
        (omega (arith, placed.pd_aligned)) 0 512 m j (omega arith) (omega arith) (omega arith)
      ∙ flags

  fill_round :
      (k : ℕ) (m : Machine)
      → k < 4
      → Filled l k m
      → Filled l
          (k + 1)
          (fill_pd l k (write m (l.pdp_table + 8 * k) (bit_or (pd_table l k) page_flags)))
  fill_round k m lt f =
      let flags =
        bit_or-aligned (pd_table l k) page_flags (omega (arith, placed.pd_aligned)) (omega arith) in
      let now = write m (l.pdp_table + 8 * k) (pd_table l k + 7) in
      rw flags record {
        top = λ i below.
            fill_pd-other k now l.pml4_table i placed.pml4_aligned (placed.pml4_apart k lt) below
            ∙ read-write_ne m (l.pdp_table + 8 * k) (l.pml4_table + 8 * i) (pd_table l k + 7)
                (omega (arith, placed.pdp_aligned)) (omega (arith, placed.pml4_aligned))
                (omega (arith, placed.apart, placed.pml4_aligned, placed.pdp_aligned))
            ∙ f.top i below;
        pointers = λ i below.
            fill_pd-other k now l.pdp_table i placed.pdp_aligned (placed.pdp_apart k lt) below
            ∙ ground (
              arith,
              f.pointers i,
              placed.pdp_aligned,
              placed.fits,
              read-write_ne m (l.pdp_table + 8 * k) (l.pdp_table + 8 * i) (pd_table l k + 7),
              read-write_self m (l.pdp_table + 8 * k) (pd_table l k + 7),
            );
        pages = λ i j up below. elim (ℕ_discrete i k) [
          | yes e ↦ rw e (fill_pd-own k now j lt below)
          | no ne ↦
              fill_pd-other k now (pd_table l i) j (omega (arith, placed.pd_aligned)) (omega arith)
                below
              ∙ read-write_ne m (l.pdp_table + 8 * k) (pd_table l i + 8 * j) (pd_table l k + 7)
                  (omega (arith, placed.pdp_aligned)) (omega (arith, placed.pd_aligned))
                  (omega (
                    arith,
                    placed.pdp_apart i (omega arith),
                    placed.pd_aligned,
                    placed.pdp_aligned,
                  ))
              ∙ f.pages i j (omega arith) below
        ];
      }

  paging_init-Filled : (m : Machine) → Filled l 4 (paging_init l m)
  unfolding paging_init read
  paging_init-Filled m =
      let linked = write (clear_tables l m) l.pml4_table (bit_or l.pdp_table page_flags) in
      let f =
        for_loop_inv
          (λ i m. fill_pd l i (write m (l.pdp_table + 8 * i) (bit_or (pd_table l i) page_flags)))
          (λ k. Filled l k) 4 0 4 linked refl (λ k t lo hi. fill_round k t hi)
          (linked-Filled (clear_tables l m) (clear_tables-Cleared m)) in
      record { top = f.top; pointers = f.pointers; pages = f.pages }

  -- An entry that leads to an aligned table takes the walk there.
  leads :
      (n : ℕ) (m : Machine) (t v next : ℕ)
      → n ≢ 0
      → next % 4096 ≡ 0
      → next ≢ 0
      → read m (t + 8 * index (suc n) v) ≡ next + 7
      → walk (suc n) m t v ≡ walk n m next v
  leads n m t v next ne aligned real e =
      let t_next : table_of (next + 7) ≡ next = omega arith in
      let down =
        descend_leads (suc n) (next + 7) v (walk n m next v) (ground arith) (omega arith)
          (ground arith) (omega arith) in
      walk-suc n m t v ∙ (rw (e, t_next) down)

  -- The tables lead every address below 4 GiB to itself, and no other address of 48 bits anywhere.
  Filled-low : (m : Machine) (v : ℕ) → Filled l 4 m → v < 2 ^ 32 → walk 4 m l.pml4_table v ≡ v
  unfolding descend
  Filled-low m v f small =
      let e4 : read m (l.pml4_table + 8 * pml4_idx v) ≡ l.pdp_table + 7 =
        ground (arith, f.top (pml4_idx v)) in
      let e3 : read m (l.pdp_table + 8 * pdp_idx v) ≡ pd_table l (pdp_idx v) + 7 =
        ground (arith, f.pointers (pdp_idx v)) in
      let e2 = f.pages (pdp_idx v) (pd_idx v) (omega arith) (omega arith) in
      let page = bit_or-aligned_huge (v - v % 2 ^ 21) (v % 2 ^ 21) (omega arith) (omega arith) in
      let entry : pdp_idx v * 0x4000_0000 + pd_idx v * 0x20_0000 + huge_flags
          ≡ v - v % 2 ^ 21 + 0x87 =
        omega arith in
      let down4 =
        leads 3 m l.pml4_table v l.pdp_table (omega arith) placed.pdp_aligned placed.pdp_real e4 in
      let down3 =
        leads 2 m l.pdp_table v (pd_table l (pdp_idx v)) (omega arith)
          (omega (arith, placed.pd_aligned)) (omega (arith, placed.pd_real)) e3 in
      let base : v - v % 2 ^ 21 + 0x87 - (v - v % 2 ^ 21 + 0x87) % 2 ^ 21 ≡ v - v % 2 ^ 21 =
        omega arith in
      let present : is_present (v - v % 2 ^ 21 + 0x87) ≡ true = ground arith in
      let huge : is_huge (v - v % 2 ^ 21 + 0x87) ≡ true = ground arith in
      down4
      ∙ down3
      ∙ walk-suc 1 m (pd_table l (pdp_idx v)) v
      ∙ (rw (e2, entry, present, huge, base, page) (omega arith))

  absent :
      (n : ℕ) (m : Machine) (t v : ℕ)
      → read m (t + 8 * index (suc n) v) ≡ 0
      → walk (suc n) m t v ≡ 0
  unfolding descend
  absent n m t v e = walk-suc n m t v ∙ (rw e refl)

  Filled-high :
      (m : Machine) (v : ℕ) → Filled l 4 m → 2 ^ 32 ≤ v → v < 2 ^ 48 → walk 4 m l.pml4_table v ≡ 0
  Filled-high m v f high lt = elim (ℕ_discrete (pml4_idx v) 0) [
    | yes top ↦
        let e4 : read m (l.pml4_table + 8 * pml4_idx v) ≡ l.pdp_table + 7 =
          ground (arith, f.top (pml4_idx v)) in
        let e3 : read m (l.pdp_table + 8 * pdp_idx v) ≡ 0 =
          ground (arith, f.pointers (pdp_idx v)) in
        leads 3 m l.pml4_table v l.pdp_table (omega arith) placed.pdp_aligned placed.pdp_real e4
        ∙ absent 2 m l.pdp_table v e3
    | no other ↦ absent 3 m l.pml4_table v (ground (arith, f.top (pml4_idx v)))
  ]

  -- For tables that are aligned and in pages of their own, paging_init leaves page tables in CR3 through
  -- which vmm_virt_to_phys answers every address below 4 GiB with itself and every other address below
  -- 2^48 with 0, whatever the memory held before.
  pub paging_init-identity :
      (m : Machine)
      → ((paging_init l m).cr3 ≡ l.pml4_table)
        × ((v : ℕ)
            → v < 2 ^ 48
            → vmm_virt_to_phys (paging_init l m) l.pml4_table v ≡ (if ltb v (2 ^ 32) then v else 0))
  unfolding paging_init
  paging_init-identity m =
      let f = paging_init-Filled m in
      (
        refl,
        λ v lt.
            vmm_virt_to_phys-walk (paging_init l m) l.pml4_table v placed.pml4_real
            ∙ (elim (Bool-cases (ltb v (2 ^ 32))) [
              | inl low ↦ rw low (Filled-low (paging_init l m) v f (ground arith))
              | inr high ↦ rw high (Filled-high (paging_init l m) v f (ground arith) lt)
            ]),
      )
