-- ===== src/Console/Examples.antt =====
-- The theorems on kernel/console.c at a console whose cursor is at the end of the last line.
use notux_kernel.Base.{ℕ, ◌^◌, ◌≡◌, ◌<◌, refl, arith, ◌==◌, if◌then◌else◌}
use notux_kernel.Console.{Console, kprint, kprintn, console_set_pos}
use notux_kernel.Console.Bounds.{IsSound, console_calls-IsSound}
use notux_kernel.Console.Strings.{kprint-kprintn}

abbrev glyphs : ℕ → ℕ → ℕ
glyphs index row = if index == 0 then 0 else 0x7E

abbrev console : Console
console = record { cursor_x = 99; cursor_y = 36; fb = λ p. p }

console-IsSound : IsSound console.fb console
console-IsSound = record { x = omega arith; y = omega arith; frame = λ p far. refl }

console_calls-IsSound_example :
    ((limit : ℕ) (s : ℕ → ℕ) (color : ℕ) → IsSound console.fb (kprint glyphs limit s color console))
    × ((s : ℕ → ℕ) (len color : ℕ) → IsSound console.fb (kprintn glyphs s len color console))
    × ((col row : ℕ)
        → col < 100
        → row < 2 ^ 31
        → IsSound console.fb (console_set_pos console col row))
console_calls-IsSound_example = console_calls-IsSound glyphs console console-IsSound

-- "hi"
abbrev hi : ℕ → ℕ
hi i = if i == 0 then 0x68 else if i == 1 then 0x69 else 0

kprint-kprintn_example : kprint glyphs 10 hi 0 console ≡ kprintn glyphs hi 2 0 console
kprint-kprintn_example =
    kprint-kprintn glyphs hi 0 10 2 console (omega arith) refl (λ j lt. ground arith)
