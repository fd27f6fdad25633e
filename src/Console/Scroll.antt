-- ===== src/Console/Scroll.antt =====
-- scroll of kernel/console.c: what it leaves in the frame buffer.
use notux_kernel.Base.{
  ℕ, ◌+◌, ◌-◌, ◌*◌, ◌%◌, ◌^◌, ◌≡◌, refl, ◌&&◌, arith, ltb, leb, if◌then◌else◌, for_loop,
  for_loop_inv, update,
}
use notux_kernel.Console.{Console, row_pixels, white, scroll}

-- Below `k` the pixels have moved; from there on they are as before.
abbrev Moved : (ℕ → ℕ) → ℕ → (ℕ → ℕ) → Type 0
Moved old k fb = (p : ℕ) → fb p ≡ (if ltb p k then old (p + row_pixels) else old p)

move_loop :
    (old : ℕ → ℕ) (n : ℕ)
    → Moved old n (for_loop (λ i fb. update fb i (fb (i + row_pixels))) 0 n old)
move_loop old n =
    for_loop_inv (λ i fb. update fb i (fb (i + row_pixels))) (λ k. Moved old k) n 0 n old
      (omega arith) (λ k fb lo hi moved p. ground (arith, moved p, moved (k + row_pixels)))
      (λ p. ground arith)

abbrev Cleared : (ℕ → ℕ) → ℕ → ℕ → (ℕ → ℕ) → Type 0
Cleared old start k fb = (p : ℕ) → fb p ≡ (if leb start p && ltb p k then white else old p)

clear_loop :
    (old : ℕ → ℕ) (start n : ℕ)
    → Cleared old start (start + n) (for_loop (λ i fb. update fb i white) start n old)
clear_loop old start n =
    for_loop_inv (λ i fb. update fb i white) (λ k. Cleared old start k) (start + n) start n old refl
      (λ k fb lo hi cleared p. ground (arith, cleared p)) (λ p. ground arith)

-- scroll moves every line of text up by one, makes the last line white, leaves every word of the frame
-- buffer after the 37 lines, and takes the cursor up by one line.
pub scroll_lem :
    (c : Console)
    → ((scroll c).cursor_x ≡ c.cursor_x)
      × ((scroll c).cursor_y ≡ (c.cursor_y + 2 ^ 32 - 1) % 2 ^ 32)
      × ((p : ℕ)
          → (scroll c).fb p ≡ (
              if ltb p (row_pixels * 36)
              then c.fb (p + row_pixels)
              else if ltb p (row_pixels * 37)
              then white
              else c.fb p))
unfolding scroll
scroll_lem c =
    let moved = move_loop c.fb (row_pixels * 36) in
    let half = for_loop (λ i fb. update fb i (fb (i + row_pixels))) 0 (row_pixels * 36) c.fb in
    let cleared = clear_loop half (row_pixels * 36) row_pixels in
    (refl, refl, λ p. ground (arith, moved p, cleared p))
