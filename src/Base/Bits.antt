-- ===== src/Base/Bits.antt =====
-- Laws of the native bit operations: the digit step, a value put above the low bits of another,
-- and the single bits of a byte.
use Prim.Native.Nat.{
  ℕ, zero, suc, ◌+◌, ◌-◌, ◌*◌, ◌/◌, ◌%◌, ◌^◌, ◌≤◌, ◌<◌, max, bit_and, bit_or, digits,
  bit_or-bitwise,
}
use mathlib.Core.Path.{◌≡◌, refl, sym, ap, subst, ◌∙◌}
use mathlib.Core.Bool.{Bool, true, false, not, ◌&&◌, ◌||◌}
use native.Mathlib.Omega.{arith}
use notux_kernel.Base.Compare.{◌==◌, ltb, checked, of_checked}

module _ (last : ℕ → ℕ) (join : ℕ → ℕ → ℕ) where
  no_digits : (fuel b : ℕ) → digits last join fuel 0 b ≡ last b
  no_digits zero b = refl
  no_digits (suc fuel) b = refl

  -- Fuel beyond the number itself makes no difference.
  any_fuel :
      (fuel other a b : ℕ)
      → a ≤ fuel
      → a ≤ other
      → digits last join fuel a b ≡ digits last join other a b
  any_fuel fuel other zero b enough enough' = no_digits fuel b ∙ sym (no_digits other b)
  any_fuel (suc fuel) (suc other) (suc a) b enough enough' =
      ap (λ (upper : ℕ). upper * 2 + join (suc a % 2) (b % 2))
        (any_fuel fuel other (suc a / 2) (b / 2) (omega arith) (omega arith))
  any_fuel (suc fuel) zero (suc a) b enough enough' = absurd (omega arith)
  any_fuel zero other (suc a) b enough enough' = absurd (omega arith)

low_or : (b : ℕ) → bit_or 0 b ≡ b
low_or b = bit_or-bitwise 0 b

-- The law for the lowest digit.
or_digit : (a b : ℕ) → bit_or a b ≡ max (a % 2) (b % 2) + 2 * bit_or (a / 2) (b / 2)
or_digit zero b = omega (arith, low_or b, low_or (b / 2))
or_digit (suc a) b =
    let upper = bit_or-bitwise (suc a / 2) (b / 2) in
    let fuel = any_fuel (λ d. d) max (suc a / 2) a (suc a / 2) (b / 2) in
    omega (arith, fuel (omega arith) (omega arith), upper, bit_or-bitwise (suc a) b)

or_nothing : (bound a : ℕ) → a ≤ bound → bit_or a 0 ≡ a
or_nothing bound zero small = low_or 0
or_nothing (suc bound) (suc a) small =
    omega (arith, or_nothing bound (suc a / 2) (omega arith), or_digit (suc a) 0)
or_nothing zero (suc a) small = absurd (omega arith)

pub bit_or-zero : (a : ℕ) → bit_or a 0 ≡ a
bit_or-zero a = or_nothing a a (omega arith)

pub bit_or-one : (a : ℕ) → bit_or a 1 ≡ a / 2 * 2 + 1
bit_or-one a = omega (arith, or_digit a 1, bit_or-zero (a / 2))

-- `a << k`, by doubling.
abbrev shl : ℕ → ℕ → ℕ
shl zero a = a
shl (suc k) a = 2 * shl k a

bit_or-shl : (k a x : ℕ) → x < shl k 1 → bit_or (shl k a) x ≡ shl k a + x
bit_or-shl zero a x h = let e : x ≡ 0 = omega arith in rw (e, bit_or-zero) (omega arith)
bit_or-shl (suc k) a x h =
    let half : 2 * shl k a / 2 ≡ shl k a = omega arith in
    omega (arith, (rw half at (or_digit (2 * shl k a) x)), bit_or-shl k a (x / 2) (omega arith))

-- Flags below the page bits are put into an aligned address without a carry.
pub bit_or-aligned : (a x : ℕ) → a % 4096 ≡ 0 → x < 4096 → bit_or a x ≡ a + x
bit_or-aligned a x h lt =
    subst (λ t. bit_or t x ≡ t + x) (omega arith) (bit_or-shl 12 (a / 4096) x (omega arith))

-- The same for what a page of 2 MiB leaves free.
pub bit_or-aligned_huge : (a x : ℕ) → a % 2 ^ 21 ≡ 0 → x < 2 ^ 21 → bit_or a x ≡ a + x
bit_or-aligned_huge a x h lt =
    subst (λ t. bit_or t x ≡ t + x) (omega arith) (bit_or-shl 21 (a / 2 ^ 21) x (omega arith))

-- `byte |= 1 << k`, `byte &= (uint8_t)~(1 << k)` and `byte & (1 << k)` on the bits of a byte.
unfoldable pub set_bit : ℕ → ℕ → ℕ
set_bit byte k = bit_or byte (2 ^ k)

unfoldable pub clear_bit : ℕ → ℕ → ℕ
clear_bit byte k = bit_and byte (255 - 2 ^ k)

unfoldable pub test_bit : ℕ → ℕ → Bool
test_bit byte k = not (bit_and byte (2 ^ k) == 0)

infix 50 ◌<=>◌
◌<=>◌ : Bool → Bool → Bool
true <=> b = b
false <=> b = not b

bits_at : ℕ → ℕ → ℕ → Bool
bits_at byte k j =
    ltb (set_bit byte k) 256
    && ltb (clear_bit byte k) 256
    && (test_bit (set_bit byte k) j <=> (test_bit byte j || k == j))
    && (test_bit (clear_bit byte k) j <=> (test_bit byte j && not (k == j)))

bits_table : checked (λ byte. checked (λ k. checked (λ j. bits_at byte k j) 8) 8) 256 ≡ true
unfolding checked bits_at set_bit clear_bit test_bit ◌<=>◌
bits_table = refl

bits_at-true : (byte k j : ℕ) → byte < 256 → k < 8 → j < 8 → bits_at byte k j ≡ true
bits_at-true byte k j hb hk hj =
    of_checked (λ j. bits_at byte k j) 8
      (of_checked (λ k. checked (λ j. bits_at byte k j) 8) 8
        (of_checked (λ byte. checked (λ k. checked (λ j. bits_at byte k j) 8) 8) 256 bits_table byte
          hb)
        k hk)
      j hj

-- Each operation acts on its own bit, and leaves a byte a byte.
pub set_bit-lt : (byte k : ℕ) → byte < 256 → k < 8 → set_bit byte k < 256
unfolding bits_at
set_bit-lt byte k hb hk = ground (arith, bits_at-true byte k 0)

pub clear_bit-lt : (byte k : ℕ) → byte < 256 → k < 8 → clear_bit byte k < 256
unfolding bits_at
clear_bit-lt byte k hb hk = ground (arith, bits_at-true byte k 0)

pub test_bit-set_bit :
    (byte k j : ℕ)
    → byte < 256
    → k < 8
    → j < 8
    → test_bit (set_bit byte k) j ≡ (test_bit byte j || k == j)
unfolding bits_at ◌<=>◌
test_bit-set_bit byte k j hb hk hj = ground (arith, bits_at-true byte k j)

pub test_bit-clear_bit :
    (byte k j : ℕ)
    → byte < 256
    → k < 8
    → j < 8
    → test_bit (clear_bit byte k) j ≡ (test_bit byte j && not (k == j))
unfolding bits_at ◌<=>◌
test_bit-clear_bit byte k j hb hk hj = ground (arith, bits_at-true byte k j)

zeros_table : checked (λ j. not (test_bit 0 j)) 8 ≡ true
unfolding checked test_bit
zeros_table = refl

pub test_bit-zero : (j : ℕ) → j < 8 → test_bit 0 j ≡ false
test_bit-zero j h = ground (arith, of_checked (λ j. not (test_bit 0 j)) 8 zeros_table j h)
