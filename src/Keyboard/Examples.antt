-- ===== src/Keyboard/Examples.antt =====
-- The theorems on kernel/keyboard.c at concrete drivers, and a typed line.
use notux_kernel.Base.{◌≡◌, refl, false, List, [], ◌∷◌, arith, update}
use notux_kernel.Keyboard.{
  Keyboard, on_scancode, piceoi, shift_key, store_char, irqhandler, kgetc, kflush,
}
use notux_kernel.Keyboard.Ring.{IsValid}
use notux_kernel.Keyboard.Refine.{Op, interrupt, getc, flush, run, run_queue, view, run-run_queue}
use notux_kernel.Keyboard.Chars.{IsSound, irqhandler-IsSound}

-- The indices are about to go round; one character waits.
abbrev keyboard : Keyboard
keyboard = record {
  kb_buf = update (λ i. 0) 62 b'x';
  kb_head = 63;
  kb_tail = 62;
  e0_prefix = false;
  shift_pressed = false;
}

-- Shift down, a, shift up, b, an arrow key, flush, enter.
abbrev script : List Op
script =
    interrupt 33 0x2A
    ∷ interrupt 33 0x1E
    ∷ interrupt 33 0xAA
    ∷ interrupt 33 0x30
    ∷ interrupt 33 0xE0
    ∷ interrupt 33 0x48
    ∷ getc
    ∷ getc
    ∷ getc
    ∷ getc
    ∷ interrupt 33 0x1E
    ∷ flush
    ∷ interrupt 33 0x1C
    ∷ interrupt 32 0x1E
    ∷ getc
    ∷ getc
    ∷ []

script_output : run keyboard script ≡ b'x' ∷ b'A' ∷ b'b' ∷ 0 ∷ 10 ∷ 0 ∷ []
unfolding run irqhandler on_scancode shift_key store_char kgetc kflush piceoi
script_output = refl

keyboard-IsValid : IsValid keyboard
keyboard-IsValid = omega arith

keyboard-IsSound : IsSound keyboard
keyboard-IsSound = record { valid = keyboard-IsValid; chars = (omega arith, tt) }

run-run_queue_example : run keyboard script ≡ run_queue (view keyboard) script
run-run_queue_example = run-run_queue script keyboard keyboard-IsValid

irqhandler-IsSound_example : IsSound (irqhandler keyboard 33 0x1E).0
irqhandler-IsSound_example = irqhandler-IsSound keyboard 33 0x1E keyboard-IsSound
