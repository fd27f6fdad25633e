-- ===== src/Vmm/Grow.antt =====
-- get_next_level and split_huge_pde of kernel/vmm.c: a new table in the tree, and what it means for
-- the addresses.
use Prim.Native.Nat.{bit_or}
use notux_kernel.Base.{
  ℕ, suc, ◌+◌, ◌-◌, ◌*◌, ◌/◌, ◌%◌, ◌^◌, ◌<◌, ◌≡◌, ◌≢◌, refl, sym, ap, ◌∙◌, true, false, ◌&&◌, arith,
  ltb, leb, ◌==◌, inl, inr, ◌⊎◌,
}
use notux_kernel.Base.Bits.{bit_or-aligned, bit_or-aligned_huge}
use notux_kernel.Machine.{Machine, read, write, load64, alloc_page}
use notux_kernel.Pmm.{bitmap_test, page_size}
use notux_kernel.Pmm.Bitmap.{IsBytes, bitmap_set-IsBytes, bitmap_test-bitmap_set}
use notux_kernel.Pmm.Alloc.{alloc-cases, IsFull}
use notux_kernel.Vmm.{is_present, is_huge, table_of, table_flags, pt_idx}
use notux_kernel.Vmm.Words.{
  HasBytes, read-write_self, read-write_ne, write-HasBytes, write-bitmap, fill_table,
  read-fill_table_other, read-fill_table, fill_table-HasBytes, fill_table-bitmap,
}
use notux_kernel.Vmm.Walk.{index, descend, walk}
use notux_kernel.Vmm.Tree.{Grows, index-lt}

-- The page at `p` was free, and is in use in `m'`; nothing else has happened.
pub record Fresh (m : Machine) (p : ℕ) (m' : Machine) : Type 0 where
  pub page : p % 4096 ≡ 0
  pub some_page : p ≢ 0
  pub small : p < 2 ^ 63
  pub free : bitmap_test m.bitmap (p / 4096) ≡ false
  pub same : m'.mem ≡ m.mem
  pub bitmap_bytes : IsBytes m'.bitmap
  pub used : (q : ℕ) → bitmap_test m.bitmap q ≡ true → bitmap_test m'.bitmap q ≡ true
  pub taken : bitmap_test m'.bitmap (p / 4096) ≡ true

-- An allocation fails, with every page in use, or gives a fresh page.
pub alloc_page-Fresh :
    (m : Machine)
    → IsBytes m.bitmap
    → bitmap_test m.bitmap 0 ≡ true
    → (IsFull m.bitmap × (alloc_page m ≡ (0, m)))
      ⊎ (((alloc_page m).0 ≢ 0) × Fresh m (alloc_page m).0 (alloc_page m).1)
unfolding alloc_page
alloc_page-Fresh m bytes reserved = elim (alloc-cases m.bitmap) [
  | inr (full, e) ↦ inl (full, simp e refl)
  | inl (k, low, e) ↦
      let index : k * page_size / 4096 ≡ k = omega arith in
      inr (
        simp e (
          ground (arith, low.free, reserved),
          record {
            page = omega arith;
            some_page = ground (arith, low.free, reserved);
            small = omega (arith, low.below);
            free = rw index low.free;
            same = refl;
            bitmap_bytes = bitmap_set-IsBytes m.bitmap k bytes;
            used = λ q u. ground (arith, bitmap_test-bitmap_set m.bitmap k q bytes);
            taken = rw index (ground (arith, bitmap_test-bitmap_set m.bitmap k k bytes));
          },
        ))
]

-- The new table filled with `f`, and linked in at `e`.
abbrev pub linked : (ℕ → ℕ) → ℕ → ℕ → Machine → Machine
linked f p e m1 = write (fill_table f p 0 512 m1) e (bit_or p table_flags)

module _ (m m1 : Machine) (p e : ℕ) (f : ℕ → ℕ) (fresh : Fresh m p m1) (aligned : e % 8 ≡ 0)
    (out : (leb p e && ltb e (p + 4096)) ≡ false) (small : (k : ℕ) → f k < 2 ^ 64) where
  p8 : p % 8 ≡ 0
  p8 = omega (arith, fresh.page)

  pub linked-Grows : HasBytes m → Grows m (linked f p e m1) p e
  unfolding read
  linked-Grows bytes =
      let filled = fill_table f p 0 512 m1 in
      let bits : (linked f p e m1).bitmap ≡ m1.bitmap =
        write-bitmap filled e (bit_or p table_flags) ∙ fill_table-bitmap f p p8 0 512 m1 in
      record {
        page = fresh.page;
        some_page = fresh.some_page;
        small = fresh.small;
        free = fresh.free;
        others = λ b hb ne outside.
            read-write_ne filled e b _ aligned hb (λ same. ne (sym same))
            ∙ read-fill_table_other f p p8 0 512 m1 b hb (ground (arith, outside))
            ∙ ap (λ mem. load64 mem b) fresh.same;
        entry =
            rw (bit_or-aligned p 7 fresh.page (omega arith))
              (read-write_self filled e (p + 7) (omega (arith, fresh.small)));
        bytes =
            write-HasBytes filled e _ (fill_table-HasBytes f p p8 0 512 m1 (rw fresh.same bytes));
        bitmap_bytes = rw bits fresh.bitmap_bytes;
        used = λ q u. rw bits (fresh.used q u);
        taken = rw bits fresh.taken;
      }

  pub linked-content : (j : ℕ) → j < 512 → read (linked f p e m1) (p + 8 * j) ≡ f j
  linked-content j lt =
      let filled = fill_table f p 0 512 m1 in
      read-write_ne filled e (p + 8 * j) _ aligned (omega (arith, p8)) (ground arith)
      ∙ read-fill_table f p p8 0 512 m1 j (small j) (omega arith) (omega arith)

absent-descend :
    (level entry virt rest : ℕ) → is_present entry ≡ false → descend level entry virt rest ≡ 0
unfolding descend
absent-descend level entry virt rest absent = rw absent refl

table-descend :
    (level p virt rest : ℕ)
    → level ≢ 1
    → p % 4096 ≡ 0
    → p ≢ 0
    → descend level (p + 7) virt rest ≡ rest
unfolding descend
table-descend level p virt rest more page some_page =
    let present : is_present (p + 7) ≡ true = ground arith in
    let upper : (level == 1) ≡ false = ground arith in
    let plain : is_huge (p + 7) ≡ false = ground arith in
    let table : (table_of (p + 7) == 0) ≡ false = ground arith in
    rw (present, upper, plain, table) refl

table_of-linked : (p : ℕ) → p % 4096 ≡ 0 → table_of (p + 7) ≡ p
table_of-linked p page = omega arith

-- An entry of 2 MiB, and the entry of 4 KiB that takes its place for an address.
split-descend :
    (pde virt rest : ℕ)
    → pde < 2 ^ 64
    → is_present pde ≡ true
    → is_huge pde ≡ true
    → descend 1 (bit_or ((pde - pde % 2 ^ 21 + pt_idx virt * 4096) % 2 ^ 64) (pde % 8)) virt 0
      ≡ descend 2 pde virt rest
unfolding descend
split-descend pde virt rest fits present huge =
    let x = pde - pde % 2 ^ 21 + pt_idx virt * 4096 in
    let no_wrap : x % 2 ^ 64 ≡ x = omega arith in
    let pte : bit_or x (pde % 8) ≡ x + pde % 8 =
      bit_or-aligned x (pde % 8) (omega arith) (omega arith) in
    let here : is_present (x + pde % 8) ≡ true = ground arith in
    let page : table_of (x + pde % 8) ≡ x = omega arith in
    let low : bit_or x (virt % 4096) ≡ x + virt % 4096 =
      bit_or-aligned x (virt % 4096) (omega arith) (omega arith) in
    let high : bit_or (pde - pde % 2 ^ 21) (virt % 2 ^ 21) ≡ pde - pde % 2 ^ 21 + virt % 2 ^ 21 =
      bit_or-aligned_huge (pde - pde % 2 ^ 21) (virt % 2 ^ 21) (omega arith) (omega arith) in
    rw (no_wrap, pte, here, page, present, huge, low, high) (omega arith)

module _ {m m' : Machine} (t i : ℕ) {p : ℕ} (g : Grows m m' p (t + 8 * i)) where
  -- Through the new entry the walk goes on in the new table.
  walk_through :
      (n virt : ℕ)
      → index (suc (suc n)) virt ≡ i
      → walk (suc (suc n)) m' t virt ≡ walk (suc n) m' p virt
  unfolding walk
  walk_through n virt at =
      rw (at, g.entry, table_of-linked p g.page)
        (table-descend (suc (suc n)) p virt (walk (suc n) m' p virt) (omega arith) g.page
          g.some_page)

  -- An entry that led nowhere leads to a table that leads nowhere.
  pub walk_empty :
      (n virt : ℕ)
      → is_present (read m (t + 8 * i)) ≡ false
      → ((j : ℕ) → j < 512 → is_present (read m' (p + 8 * j)) ≡ false)
      → index (suc (suc n)) virt ≡ i
      → walk (suc (suc n)) m' t virt ≡ walk (suc (suc n)) m t virt
  unfolding walk
  walk_empty n virt absent empty at =
      walk_through n virt at
      ∙ absent-descend (suc n) (read m' (p + 8 * index (suc n) virt)) virt _
          (empty (index (suc n) virt) (index-lt (suc n) virt))
      ∙ sym (
          absent-descend (suc (suc n)) (read m (t + 8 * index (suc (suc n)) virt)) virt _
            (rw at absent))

  -- The entries that split_huge_pde makes stand for the same addresses as the entry of 2 MiB.
  pub walk_split :
      (virt : ℕ)
      → read m (t + 8 * i) < 2 ^ 64
      → is_present (read m (t + 8 * i)) ≡ true
      → is_huge (read m (t + 8 * i)) ≡ true
      → ((j : ℕ)
          → j < 512
          → read m' (p + 8 * j)
            ≡ bit_or
                ((read m (t + 8 * i) - read m (t + 8 * i) % 2 ^ 21 + j * 4096) % 2 ^ 64)
                (read m (t + 8 * i) % 8))
      → index 2 virt ≡ i
      → walk 2 m' t virt ≡ walk 2 m t virt
  unfolding walk
  walk_split virt fits present huge entries at =
      let pde = read m (t + 8 * i) in
      walk_through 0 virt at
      ∙ ap (λ e. descend 1 e virt 0) (entries (pt_idx virt) (index-lt 1 virt))
      ∙ rw at (split-descend pde virt (walk 1 m (table_of pde) virt) fits present huge)
