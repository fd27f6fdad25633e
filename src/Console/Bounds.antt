-- ===== src/Console/Bounds.antt =====
-- kernel/console.c, kernel/font.c and kernel/gfx.c: where the cursor goes and which words are written.
use notux_kernel.Base.{
  ℕ, zero, suc, ◌+◌, ◌-◌, ◌*◌, ◌/◌, ◌%◌, ◌^◌, ◌<◌, ◌≤◌, ◌≡◌, refl, arith, ◌==◌, if◌then◌else◌,
  for_loop_inv, Bool-cases, inl, inr,
}
use notux_kernel.Console.{
  Console, rows, cols, screen_w, screen_h, is_at_least, putpixel, glyph_index, scroll, newline,
  scroll_while, console_set_pos, draw_row, drawchar, put_char, kprint_from, kprint, kprintn,
}
use notux_kernel.Console.Scroll.{scroll_lem}

-- The words after the frame, and before it, are as they were.
abbrev pub Outside : (before fb : ℕ → ℕ) → Type 0
Outside before fb = (p : ℕ) → screen_w * screen_h ≤ p → fb p ≡ before p

-- The cursor is on the screen, and only the frame has been written.
pub record IsSound (before : ℕ → ℕ) (c : Console) : Type 0 where
  pub x : c.cursor_x < cols
  pub y : c.cursor_y < rows
  pub frame : Outside before c.fb

module _ {before : ℕ → ℕ} where
  scroll-Outside : (c : Console) → Outside before c.fb → Outside before (scroll c).fb
  scroll-Outside c o p far = ground (arith, o p far, (scroll_lem c).2 p)

  newline-IsSound :
      (c : Console) → c.cursor_y < rows → Outside before c.fb → IsSound before (newline c)
  unfolding newline
  newline-IsSound c y o =
      let down = record c { cursor_x = 0; cursor_y = (c.cursor_y + 1) % 2 ^ 32 } in
      elim (Bool-cases (is_at_least rows ((c.cursor_y + 1) % 2 ^ 32))) [
        | inl full ↦
            let s = scroll_lem down in
            let col = s.0 in
            let row = s.1 in
            simp full record {
              x = omega (arith, col);
              y = omega (arith, row);
              frame = scroll-Outside down o;
            }
        | inr room ↦ simp room record { x = omega arith; y = ground arith; frame = o }
      ]

  scroll_while-IsSound :
      (rounds : ℕ) (c : Console)
      → c.cursor_x < cols
      → c.cursor_y < rows + rounds
      → c.cursor_y < 2 ^ 31
      → Outside before c.fb
      → IsSound before (scroll_while rounds c)
  unfolding scroll_while
  scroll_while-IsSound zero c x y small o = record { x = x; y = omega arith; frame = o }
  scroll_while-IsSound (suc rounds) c x y small o =
      let s = scroll_lem c in
      let col = s.0 in
      let row = s.1 in
      elim (Bool-cases (is_at_least rows c.cursor_y)) [
        | inl full ↦ simp full (
            scroll_while-IsSound rounds (scroll c) (omega (arith, col)) (ground (arith, row))
              (ground (arith, row)) (scroll-Outside c o))
        | inr room ↦ simp room record { x = x; y = ground arith; frame = o }
      ]

  module _ (font_8x8 : ℕ → ℕ → ℕ) where
    draw_row-Outside :
        (x y ch row color : ℕ) (fb : ℕ → ℕ)
        → x < 800
        → x % 8 ≡ 0
        → y + row < 600
        → Outside before fb
        → Outside before (draw_row font_8x8 x y ch row color fb)
    unfolding draw_row putpixel
    draw_row-Outside x y ch row color fb hx hx' hy o =
        for_loop_inv
          (λ col fb.
            if font_8x8 (glyph_index ch) row / 2 ^ (7 - col) % 2 == 1
            then putpixel fb (x + col) (y + row) color
            else fb)
          (λ k. Outside before) 8 0 8 fb refl (λ k t lo hi kept p far. ground (arith, kept p far)) o

    drawchar-Outside :
        (x y ch color : ℕ) (fb : ℕ → ℕ)
        → x < 800
        → x % 8 ≡ 0
        → y + 8 ≤ 600
        → Outside before fb
        → Outside before (drawchar font_8x8 x y ch color fb)
    unfolding drawchar
    drawchar-Outside x y ch color fb hx hx' hy o =
        for_loop_inv (λ row fb. draw_row font_8x8 x y ch row color fb) (λ k. Outside before) 8 0 8
          fb refl (λ k t lo hi. draw_row-Outside x y ch k color t hx hx' (omega arith)) o

    put_char-IsSound :
        (ch color : ℕ) (c : Console)
        → IsSound before c
        → IsSound before (put_char font_8x8 ch color c)
    unfolding put_char
    put_char-IsSound ch color c s =
        let drawn =
          drawchar-Outside (c.cursor_x * 8) (c.cursor_y * 16) ch color c.fb (omega (arith, s.x))
            (omega arith) (omega (arith, s.y)) s.frame in
        let next = record c {
          fb = drawchar font_8x8 (c.cursor_x * 8) (c.cursor_y * 16) ch color c.fb;
          cursor_x = (c.cursor_x + 1) % 2 ^ 32;
        } in
        elim (Bool-cases (ch == 10)) [
          | inl line ↦ simp line (newline-IsSound c s.y s.frame)
          | inr plain ↦ elim (Bool-cases (is_at_least cols ((c.cursor_x + 1) % 2 ^ 32))) [
            | inl full ↦ simp (plain, full) (newline-IsSound next s.y drawn)
            | inr room ↦ simp (plain, room) record { x = ground arith; y = s.y; frame = drawn }
          ]
        ]

    kprint_from-IsSound :
        (limit i : ℕ) (s : ℕ → ℕ) (color : ℕ) (c : Console)
        → IsSound before c
        → IsSound before (kprint_from font_8x8 limit i s color c)
    unfolding kprint_from
    kprint_from-IsSound zero i s color c sound = sound
    kprint_from-IsSound (suc limit) i s color c sound = elim (Bool-cases (s i == 0)) [
      | inl stop ↦ simp stop sound
      | inr on ↦ simp on (
          kprint_from-IsSound limit (i + 1) s color (put_char font_8x8 (s i) color c)
            (put_char-IsSound (s i) color c sound))
    ]

-- Whatever the glyphs and the string, kprint and kprintn leave the cursor in the 100 columns and 37 rows
-- if it was there, and write no word of memory outside the 800 by 600 of the frame; console_set_pos
-- does so for every row that is not negative, also one below the screen, and every column on the screen.
pub console_calls-IsSound :
    (font_8x8 : ℕ → ℕ → ℕ) (c : Console)
    → IsSound c.fb c
    → ((limit : ℕ) (s : ℕ → ℕ) (color : ℕ) → IsSound c.fb (kprint font_8x8 limit s color c))
      × ((s : ℕ → ℕ) (len color : ℕ) → IsSound c.fb (kprintn font_8x8 s len color c))
      × ((col row : ℕ) → col < cols → row < 2 ^ 31 → IsSound c.fb (console_set_pos c col row))
unfolding kprint kprintn console_set_pos
console_calls-IsSound font_8x8 c sound = (
  λ limit s color. kprint_from-IsSound font_8x8 limit 0 s color c sound,
  λ s len color.
      for_loop_inv (λ i c. put_char font_8x8 (s i) color c) (λ k. IsSound c.fb) (0 + len) 0 len c
        refl (λ k t lo hi. put_char-IsSound font_8x8 (s k) color t) sound,
  λ col row on small.
      scroll_while-IsSound row (record c { cursor_x = col; cursor_y = row }) on (omega arith) small
        sound.frame,
)
