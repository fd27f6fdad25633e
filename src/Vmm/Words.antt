-- ===== src/Vmm/Words.antt =====
-- The words of kernel/vmm.c: what a loop of writes to a table leaves in memory.
use notux_kernel.Base.{
  ℕ, zero, suc, ◌+◌, ◌*◌, ◌%◌, ◌^◌, ◌≤◌, ◌<◌, ◌≡◌, ◌≢◌, refl, false, ◌&&◌, arith, ltb, leb,
  for_loop, for_loop_inv, ◌∙◌,
}
use notux_kernel.Machine.{Machine, read, write, load64, store64}
use native.Mathlib.Decide.{ℕ_discrete}
use notux_kernel.Machine.Word.{load64-store64_self, load64-store64_ne}

-- Memory holds bytes.
abbrev pub HasBytes : Machine → Type 0
HasBytes m = (a : ℕ) → m.mem a < 256

pub read-lt : (m : Machine) (a : ℕ) → HasBytes m → read m a < 2 ^ 64
unfolding read load64
read-lt m a h =
    omega (arith, h a, h (a + 1), h (a + 2), h (a + 3), h (a + 4), h (a + 5), h (a + 6), h (a + 7))

pub read-write_self : (m : Machine) (a v : ℕ) → v < 2 ^ 64 → read (write m a v) a ≡ v
unfolding read write
read-write_self m a v h = load64-store64_self m.mem a v h

pub read-write_ne :
    (m : Machine) (a b v : ℕ) → a % 8 ≡ 0 → b % 8 ≡ 0 → a ≢ b → read (write m a v) b ≡ read m b
unfolding read write
read-write_ne m a b v ha hb ne = load64-store64_ne m.mem a b v ha hb ne

pub write-HasBytes : (m : Machine) (a v : ℕ) → HasBytes m → HasBytes (write m a v)
unfolding write store64
write-HasBytes m a v h x = ground (arith, h x)

pub write-bitmap : (m : Machine) (a v : ℕ) → (write m a v).bitmap ≡ m.bitmap
unfolding write
write-bitmap m a v = refl

-- The loop that gives entry `i` of the table at `p` the value `f i`.
abbrev pub fill_table : (ℕ → ℕ) → ℕ → ℕ → ℕ → Machine → Machine
fill_table f p i n m = for_loop (λ i m. write m (p + 8 * i) (f i)) i n m

module _ (f : ℕ → ℕ) (p : ℕ) (aligned : p % 8 ≡ 0) where
  pub read-fill_table_other :
      (i n : ℕ) (m : Machine) (b : ℕ)
      → b % 8 ≡ 0
      → (leb (p + 8 * i) b && ltb b (p + 8 * (i + n))) ≡ false
      → read (fill_table f p i n m) b ≡ read m b
  unfolding for_loop
  read-fill_table_other i zero m b hb out = refl
  read-fill_table_other i (suc n) m b hb out =
      let now = write m (p + 8 * i) (f i) in
      read-fill_table_other (i + 1) n now b hb (ground arith)
      ∙ read-write_ne m (p + 8 * i) b (f i) (omega arith) hb (ground arith)

  pub read-fill_table :
      (i n : ℕ) (m : Machine) (j : ℕ)
      → f j < 2 ^ 64
      → i ≤ j
      → j < i + n
      → read (fill_table f p i n m) (p + 8 * j) ≡ f j
  unfolding for_loop
  read-fill_table i zero m j small lo hi = absurd (omega arith)
  read-fill_table i (suc n) m j small lo hi =
      let now = write m (p + 8 * i) (f i) in
      elim (ℕ_discrete i j) [
        | yes e ↦
            let here : read now (p + 8 * j) ≡ f j =
              rw e (read-write_self m (p + 8 * j) (f j) small) in
            read-fill_table_other (i + 1) n now (p + 8 * j) (omega arith) (ground arith) ∙ here
        | no ne ↦ read-fill_table (i + 1) n now j small (omega arith) (omega arith)
      ]

  pub fill_table-HasBytes : (i n : ℕ) (m : Machine) → HasBytes m → HasBytes (fill_table f p i n m)
  fill_table-HasBytes i n m h =
      for_loop_inv (λ i m. write m (p + 8 * i) (f i)) (λ k t. HasBytes t) (i + n) i n m refl
        (λ k t lo hi. write-HasBytes t (p + 8 * k) (f k)) h

  pub fill_table-bitmap : (i n : ℕ) (m : Machine) → (fill_table f p i n m).bitmap ≡ m.bitmap
  fill_table-bitmap i n m =
      for_loop_inv (λ i m. write m (p + 8 * i) (f i)) (λ k t. t.bitmap ≡ m.bitmap) (i + n) i n m
        refl (λ k t lo hi e. write-bitmap t (p + 8 * k) (f k) ∙ e) refl
