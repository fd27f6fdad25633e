-- ===== src/Base/Loops.antt =====
-- Counted loops, and the search for the first index that passes a test.
use Prim.Native.Nat.{ℕ, zero, suc, ◌+◌, ◌≤◌, ◌<◌}
use mathlib.Core.Path.{◌≡◌, refl}
use mathlib.Core.Logic.{◌⊎◌, inl, inr}
use mathlib.Core.Bool.{Bool, true, false}
use mathlib.Core.Option.{Option, none, some}
use native.Mathlib.Omega.{arith}
use native.Mathlib.Decide.{ℕ_discrete}
use notux_kernel.Base.Compare.{Bool-cases}

-- `for (k = i; k < i + rounds; k++) s = body k s`
module _ {ℓ} {S : Type ℓ} (body : ℕ → S → S) where
  unfoldable pub for_loop : (i rounds : ℕ) → S → S
  for_loop i zero s = s
  for_loop i (suc rounds) s = for_loop (i + 1) rounds (body i s)

  -- What holds before the loop and is kept by every round holds at its end.
  module _ {κ} (Inv : ℕ → S → Type κ) (end : ℕ) where
    pub for_loop_inv :
        (i rounds : ℕ) (s : S)
        → i + rounds ≡ end
        → ((k : ℕ) (t : S) → i ≤ k → k < end → Inv k t → Inv (k + 1) (body k t))
        → Inv i s
        → Inv end (for_loop i rounds s)
    unfolding for_loop
    for_loop_inv i zero s last round start = let e : end ≡ i = omega arith in rw e start
    for_loop_inv i (suc rounds) s last round start =
        let later = λ (k : ℕ) (t : S) (from : i + 1 ≤ k). round k t (omega arith) in
        for_loop_inv (i + 1) rounds (body i s) (omega arith) later
          (round i s (omega arith) (omega arith) start)

-- `for (k = i; k < i + n; k++) if (test k) break;`: the first index that passes.
unfoldable pub find_from : ℕ → ℕ → (ℕ → Bool) → Option ℕ
find_from zero i test = none
find_from (suc n) i test = elim (test i) [ true ↦ some i | false ↦ find_from n (i + 1) test ]

-- `k` is the first index from `i` on that passes.
pub record IsFirst (i : ℕ) (test : ℕ → Bool) (k : ℕ) : Type 0 where
  pub from : i ≤ k
  pub passes : test k ≡ true
  pub before : (j : ℕ) → i ≤ j → j < k → test j ≡ false

-- No index from `i` up to `e` passes.
abbrev pub NoneBelow : ℕ → ℕ → (ℕ → Bool) → Type 0
NoneBelow i e test = (j : ℕ) → i ≤ j → j < e → test j ≡ false

-- What the search can answer: the first index that passes, or that none passes.
abbrev pub Searched : ℕ → ℕ → (ℕ → Bool) → Option ℕ → Type 0
Searched i e test r =
    ((k : ℕ) × (r ≡ some k) × (k < e) × IsFirst i test k) ⊎ ((r ≡ none) × NoneBelow i e test)

skip :
    (i : ℕ) (test : ℕ → Bool) (j : ℕ)
    → test i ≡ false
    → i ≤ j
    → (i + 1 ≤ j → test j ≡ false)
    → test j ≡ false
skip i test j miss lo rest = elim (ℕ_discrete i j) [
  | yes e ↦ rw e at miss
  | no ne ↦ rest (omega arith)
]

pub find_from-Searched :
    (n i e : ℕ) (test : ℕ → Bool) → i + n ≡ e → Searched i e test (find_from n i test)
unfolding find_from
find_from-Searched zero i e test p = inr (refl, λ j lo hi. absurd (omega arith))
find_from-Searched (suc n) i e test p = elim (Bool-cases (test i)) [
  | inl hit ↦
      rw (hit, find_from)
        (inl (
          i,
          refl,
          omega arith,
          record { from = omega arith; passes = hit; before = λ j lo hi. absurd (omega arith) },
        ))
  | inr miss ↦
      rw (miss, find_from)
        (elim (find_from-Searched n (i + 1) e test (omega arith)) [
          | inl (k, found, below, first) ↦ inl (
            k,
            found,
            below,
            record {
              from = omega (arith, first.from);
              passes = first.passes;
              before = λ j lo hi. skip i test j miss lo (λ up. first.before j up hi);
            },
          )
          | inr (gone, none_passes) ↦
              inr (gone, λ j lo hi. skip i test j miss lo (λ up. none_passes j up hi))
        ])
]
