-- ===== src/Console.antt =====
-- kernel/console.c, with drawchar of kernel/font.c and putpixel of kernel/gfx.c. The frame buffer is
-- words by index, and a string its bytes by index. The glyphs of kernel/font8x8.h are an argument.
-- An `int` is its 32 bits: -1 is 2^32 - 1, and so is the index of the word before the frame buffer.
pub mod Bounds
pub mod Scroll
pub mod Strings
mod Examples
use notux_kernel.Base.{
  ℕ, zero, suc, ◌+◌, ◌-◌, ◌*◌, ◌/◌, ◌%◌, ◌^◌, Bool, true, false, ◌&&◌, ltb, leb, ◌==◌,
  if◌then◌else◌, for_loop, update,
}

pub record Console : Type 0 where
  pub cursor_x : ℕ
  pub cursor_y : ℕ
  -- vbeaddr()[0..]
  pub fb : ℕ → ℕ

abbrev pub screen_w : ℕ
screen_w = 800

abbrev pub screen_h : ℕ
screen_h = 600

abbrev pub cols : ℕ
cols = 100

abbrev pub rows : ℕ
rows = 37

-- SCREEN_W * CHAR_H
abbrev pub row_pixels : ℕ
row_pixels = 12800

abbrev pub white : ℕ
white = 0xFFFF_FFFF

-- `i >= n` of an `int`, for a small `n` from 0 on
abbrev pub is_at_least : (n i : ℕ) → Bool
is_at_least n i = leb n i && ltb i (2 ^ 31)

pub putpixel : (ℕ → ℕ) → (x y color : ℕ) → ℕ → ℕ
putpixel fb x y color = update fb ((y * screen_w + x) % 2 ^ 32) color

abbrev pub glyph_index : ℕ → ℕ
glyph_index ch = if leb 0x20 ch && leb ch 0x7E then ch - 0x20 else 0

pub cinit : Console → Console
cinit c = record c { cursor_x = 0; cursor_y = 0 }

pub scroll : Console → Console
scroll c =
    let moved =
      for_loop (λ i fb. update fb i (fb (i + row_pixels))) 0 (row_pixels * (rows - 1)) c.fb in
    let cleared = for_loop (λ i fb. update fb i white) (row_pixels * (rows - 1)) row_pixels moved in
    record c { fb = cleared; cursor_y = (c.cursor_y + 2 ^ 32 - 1) % 2 ^ 32 }

pub newline : Console → Console
newline c =
    let down = record c { cursor_x = 0; cursor_y = (c.cursor_y + 1) % 2 ^ 32 } in
    if is_at_least rows down.cursor_y then scroll down else down

-- `while (cursor_y >= ROWS) scroll();`, on a number of rounds. A negative row stays, off the screen.
pub scroll_while : ℕ → Console → Console
scroll_while zero c = c
scroll_while (suc rounds) c =
    let rest = scroll_while rounds (scroll c) in if is_at_least rows c.cursor_y then rest else c

pub console_set_pos : Console → (col row : ℕ) → Console
console_set_pos c col row = scroll_while row (record c { cursor_x = col; cursor_y = row })

module _ (font_8x8 : ℕ → ℕ → ℕ) where
  pub draw_row : (x y ch row color : ℕ) → (ℕ → ℕ) → ℕ → ℕ
  draw_row x y ch row color fb =
      for_loop
        (λ col fb.
          if font_8x8 (glyph_index ch) row / 2 ^ (7 - col) % 2 == 1
          then putpixel fb (x + col) (y + row) color
          else fb)
        0 8 fb

  pub drawchar : (x y ch color : ℕ) → (ℕ → ℕ) → ℕ → ℕ
  drawchar x y ch color fb = for_loop (λ row fb. draw_row x y ch row color fb) 0 8 fb

  -- What both loops do with one character.
  pub put_char : (ch color : ℕ) → Console → Console
  put_char ch color c =
      let drawn = drawchar (c.cursor_x * 8) (c.cursor_y * 16) ch color c.fb in
      let next = record c { fb = drawn; cursor_x = (c.cursor_x + 1) % 2 ^ 32 } in
      if ch == 10 then newline c else if is_at_least cols next.cursor_x then newline next else next

  -- The loop of kprint from index `i` on, on a limit.
  pub kprint_from : (limit i : ℕ) → (ℕ → ℕ) → (color : ℕ) → Console → Console
  kprint_from zero i s color c = c
  kprint_from (suc limit) i s color c =
      let rest = kprint_from limit (i + 1) s color (put_char (s i) color c) in
      if s i == 0 then c else rest

  pub kprint : (limit : ℕ) → (ℕ → ℕ) → (color : ℕ) → Console → Console
  kprint limit s color c = kprint_from limit 0 s color c

  pub kprintn : (ℕ → ℕ) → (len color : ℕ) → Console → Console
  kprintn s len color c = for_loop (λ i c. put_char (s i) color c) 0 len c

  -- The loop of drawstring of kernel/font.c from index `i` on, on a limit.
  pub drawstring_from : (limit i cx y : ℕ) → (ℕ → ℕ) → (color : ℕ) → (ℕ → ℕ) → ℕ → ℕ
  drawstring_from zero i cx y s color fb = fb
  drawstring_from (suc limit) i cx y s color fb =
      let rest = drawstring_from limit (i + 1) (cx + 8) y s color (drawchar cx y (s i) color fb) in
      if s i == 0 then fb else rest

  pub drawstring : (limit x y : ℕ) → (ℕ → ℕ) → (color : ℕ) → (ℕ → ℕ) → ℕ → ℕ
  drawstring limit x y s color fb = drawstring_from limit 0 x y s color fb

-- vbefill of kernel/vbe.c
pub vbefill : ℕ → (ℕ → ℕ) → ℕ → ℕ
vbefill color fb = for_loop (λ i fb. update fb i color) 0 (screen_w * screen_h) fb
