-- ===== src/Mkfs/Words.antt =====
-- The sectors of mkfs.c as arrays of `uint`.
use notux_kernel.Base.{
  ℕ, ◌+◌, ◌*◌, ◌/◌, ◌%◌, ◌^◌, ◌<◌, ◌≡◌, refl, Bool-cases, inl, inr, true, false, arith, ◌==◌,
  if◌then◌else◌,
}
use notux_kernel.Machine.{byte_of}
use notux_kernel.Mkfs.{Sector, word, set_word}

byte-set_word :
    (x : Sector) (i v j k : ℕ)
    → k < 4
    → set_word x i v (4 * j + k) ≡ (if j == i then byte_of v k else x (4 * j + k))
unfolding set_word
byte-set_word x i v j k lt =
    let q : (4 * j + k) / 4 ≡ j = omega arith in
    let r : (4 * j + k) % 4 ≡ k = omega arith in rw (q, r) refl

pub word-set_word :
    (x : Sector) (i v j : ℕ)
    → v < 2 ^ 32
    → word (set_word x i v) j ≡ (if i == j then v else word x j)
unfolding word
word-set_word x i v j small =
    let b0 : set_word x i v (4 * j) ≡ (if j == i then byte_of v 0 else x (4 * j)) =
      (let e : 4 * j + 0 ≡ 4 * j = omega arith in
        rw e at (byte-set_word x i v j 0 (omega arith))) in
    let b1 = byte-set_word x i v j 1 (omega arith) in
    let b2 = byte-set_word x i v j 2 (omega arith) in
    let b3 = byte-set_word x i v j 3 (omega arith) in
    elim (Bool-cases (i == j)) [
      | inl same ↦
          let here : (j == i) ≡ true = ground arith in
          rw same
            (omega (arith, (rw here at b0), (rw here at b1), (rw here at b2), (rw here at b3)))
      | inr other ↦
          let there : (j == i) ≡ false = ground arith in
          rw other
            (omega (arith, (rw there at b0), (rw there at b1), (rw there at b2), (rw there at b3)))
    ]

pub word-zero : (x : Sector) (i : ℕ) → ((k : ℕ) → x k ≡ 0) → word x i ≡ 0
unfolding word
word-zero x i z = omega (arith, z (4 * i), z (4 * i + 1), z (4 * i + 2), z (4 * i + 3))

pub word-lt : (x : Sector) (i : ℕ) → ((k : ℕ) → x k < 256) → word x i < 2 ^ 32
unfolding word
word-lt x i b = omega (arith, b (4 * i), b (4 * i + 1), b (4 * i + 2), b (4 * i + 3))
