-- ===== src/Console/Strings.antt =====
-- The two loops of kernel/console.c over a string.
use notux_kernel.Base.{
  ℕ, zero, suc, ◌+◌, ◌<◌, ◌≤◌, ◌≡◌, ◌≢◌, refl, true, false, arith, ◌==◌, for_loop,
}
use notux_kernel.Console.{Console, put_char, kprint_from, kprint, kprintn}

module _ (font_8x8 : ℕ → ℕ → ℕ) (s : ℕ → ℕ) (color : ℕ) where
  kprint_from-for_loop :
      (limit len i : ℕ) (c : Console)
      → len < limit
      → s (i + len) ≡ 0
      → ((j : ℕ) → i ≤ j → j < i + len → s j ≢ 0)
      → kprint_from font_8x8 limit i s color c
        ≡ for_loop (λ i c. put_char font_8x8 (s i) color c) i len c
  unfolding kprint_from for_loop
  kprint_from-for_loop zero len i c lt last before = absurd (omega arith)
  kprint_from-for_loop (suc limit) zero i c lt last before =
      let stop : (s i == 0) ≡ true = ground (arith, last) in rw stop refl
  kprint_from-for_loop (suc limit) (suc len) i c lt last before =
      let on : (s i == 0) ≡ false = ground (arith, before i) in
      let e : i + 1 + len ≡ i + suc len = omega arith in
      rw on (
        kprint_from-for_loop limit len (i + 1) (put_char font_8x8 (s i) color c) (omega arith)
          (rw e last) (λ j lo hi. before j (omega arith) (omega arith)))

  -- For a string that ends at its first 0, the loop of kprint ends there, so that any limit above the
  -- length gives the same, and it leaves the console as kprintn of that length does.
  pub kprint-kprintn :
      (limit len : ℕ) (c : Console)
      → len < limit
      → s len ≡ 0
      → ((j : ℕ) → j < len → s j ≢ 0)
      → kprint font_8x8 limit s color c ≡ kprintn font_8x8 s len color c
  unfolding kprint kprintn
  kprint-kprintn limit len c lt last before =
      let e : 0 + len ≡ len = omega arith in
      kprint_from-for_loop limit len 0 c lt (rw e last) (λ j lo hi. before j (omega arith))
