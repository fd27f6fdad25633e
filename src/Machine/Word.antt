-- ===== src/Machine/Word.antt =====
-- 64-bit words in byte memory.
use notux_kernel.Base.{ℕ, ◌+◌, ◌-◌, ◌%◌, ◌^◌, ◌<◌, ◌≡◌, ◌≢◌, true, arith, ltb, leb}
use native.Mathlib.Nat.{add-zero}
use notux_kernel.Machine.{load64, store64, byte_of}

store64-byte : (mem : ℕ → ℕ) (a v k : ℕ) → k < 8 → store64 mem a v (a + k) ≡ byte_of v k
unfolding store64
store64-byte mem a v k h =
    let e : a + k - a ≡ k = omega arith in
    let low : leb a (a + k) ≡ true = ground arith in
    let high : ltb (a + k) (a + 8) ≡ true = ground arith in rw (low, high, e)

pub load64-store64_self : (mem : ℕ → ℕ) (a v : ℕ) → v < 2 ^ 64 → load64 (store64 mem a v) a ≡ v
unfolding load64
load64-store64_self mem a v h =
    let byte = store64-byte mem a v in
    let zeroth : store64 mem a v a ≡ byte_of v 0 = (rw add-zero at (byte 0 (omega arith))) in
    omega (
      arith,
      zeroth,
      byte 1 (omega arith),
      byte 2 (omega arith),
      byte 3 (omega arith),
      byte 4 (omega arith),
      byte 5 (omega arith),
      byte 6 (omega arith),
      byte 7 (omega arith),
    )

-- Words at different multiples of 8 do not overlap.
pub load64-store64_ne :
    (mem : ℕ → ℕ) (a b v : ℕ)
    → a % 8 ≡ 0
    → b % 8 ≡ 0
    → a ≢ b
    → load64 (store64 mem a v) b ≡ load64 mem b
unfolding load64 store64
load64-store64_ne mem a b v ha hb ne = ground arith
