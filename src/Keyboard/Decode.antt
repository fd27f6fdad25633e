-- ===== src/Keyboard/Decode.antt =====
-- The characters that the scancode table of kernel/keyboard.c can give.
use notux_kernel.Base.{
  ℕ, ◌<◌, ◌≡◌, refl, ◌≢◌, Bool, true, false, ◌&&◌, ◌||◌, arith, ltb, ◌==◌, checked, of_checked,
  length, get_or,
}
use notux_kernel.Keyboard.{scancode_ascii, shift_key, shifted_symbol}

-- A character that kgetc can tell from an empty ring: 7 bits, and not 0.
abbrev pub IsChar : ℕ → Type 0
IsChar c = (0 < c) × (c < 128)

decodes_to_char : Bool → ℕ → Bool
decodes_to_char shift scancode =
    let c = get_or scancode_ascii scancode 0 in
    c == 0 || (ltb 0 (shift_key shift c) && ltb (shift_key shift c) 128)

decode_table : checked (λ sc. decodes_to_char true sc && decodes_to_char false sc) 58 ≡ true
unfolding checked decodes_to_char shift_key shifted_symbol
decode_table = refl

-- Every key of the table that has a character has one under shift as well, and neither is 0.
pub shift_key-IsChar :
    (shift : Bool) (scancode : ℕ)
    → scancode < length scancode_ascii
    → get_or scancode_ascii scancode 0 ≢ 0
    → IsChar (shift_key shift (get_or scancode_ascii scancode 0))
shift_key-IsChar shift sc h ne =
    go shift
      (of_checked (λ sc. decodes_to_char true sc && decodes_to_char false sc) 58 decode_table sc h)
  where
    go :
        (shift : Bool)
        → (decodes_to_char true sc && decodes_to_char false sc) ≡ true
        → IsChar (shift_key shift (get_or scancode_ascii sc 0))
    go true e = unfold decodes_to_char in ground arith
    go false e = unfold decodes_to_char in ground arith
