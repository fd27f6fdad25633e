-- ===== src/Keyboard/Chars.antt =====
-- What the ring of kernel/keyboard.c holds: characters only, so that kgetc's 0 is no character.
use notux_kernel.Base.{
  ℕ, ◌≡◌, refl, Bool, true, false, not, ◌&&◌, List, [], ◌∷◌, ◌++◌, arith, ltb, ◌==◌, if◌then◌else◌,
  length, get_or, Bool-cases, inl, inr, ◌↔◌,
}
use mathlib.Core.Path.{subst, sym, ◌∙◌}
use notux_kernel.Keyboard.{Keyboard, scancode_ascii, shift_key, irqhandler, kgetc}
use notux_kernel.Keyboard.Ring.{IsValid, contents, enqueue, dequeue, kgetc-IsValid, kgetc-dequeue}
use notux_kernel.Keyboard.Decode.{IsChar, shift_key-IsChar}
use notux_kernel.Keyboard.Refine.{
  Driver, view, Key, extended, shift_down, shift_up, ignored, character, classify, press, act,
  swallow, irqhandler-press,
}

abbrev pub All : (ℕ → Type 0) → List ℕ → Type 0
All P [] = Unit
All P (c ∷ cs) = P c × All P cs

All-append : (P : ℕ → Type 0) (cs : List ℕ) (c : ℕ) → All P cs → P c → All P (cs ++ (c ∷ []))
All-append P [] c h p = (p, tt)
All-append P (x ∷ cs) c h p = (h.0, All-append P cs c h.1 p)

All-enqueue : (cs : List ℕ) (c : ℕ) → All IsChar cs → IsChar c → All IsChar (enqueue cs c)
unfolding enqueue
All-enqueue cs c h p = elim (Bool-cases (ltb (length cs) 63)) [
  | inl room ↦ rw room (All-append IsChar cs c h p)
  | inr full ↦ rw full h
]

-- A key that gives a character gives one with and without shift.
abbrev GivesChar : Key → Type 0
GivesChar (character c) = (shift : Bool) → IsChar (shift_key shift c)
GivesChar _ = Unit

GivesChar-if :
    (b : Bool) (x y : Key)
    → GivesChar x
    → (b ≡ false → GivesChar y)
    → GivesChar (if b then x else y)
GivesChar-if true x y g h = g
GivesChar-if false x y g h = h refl

classify-GivesChar : (sc : ℕ) → GivesChar (classify sc)
unfolding classify
classify-GivesChar sc = GivesChar-if (sc == 0xE0) extended _ tt λ _.
    GivesChar-if (sc == 0x2A) shift_down _ tt λ _. GivesChar-if (sc == 0x36) shift_down _ tt λ _.
      GivesChar-if (sc == 0xAA) shift_up _ tt λ _. GivesChar-if (sc == 0xB6) shift_up _ tt λ _.
        elim (Bool-cases (ltb sc 58 && not (get_or scancode_ascii sc 0 == 0))) [
          | inl e ↦ rw e (λ shift. shift_key-IsChar shift sc (ground arith) (ground arith))
          | inr e ↦ rw e tt
        ]

All-act :
    (d : Driver) (key : Key) → GivesChar key → All IsChar d.queue → All IsChar (act d key).queue
unfolding act
All-act d extended g h = h
All-act d shift_down g h = h
All-act d shift_up g h = h
All-act d ignored g h = h
All-act d (character c) g h = All-enqueue d.queue (shift_key d.shift c) h (g d.shift)

All-swallow : (d : Driver) (key : Key) → All IsChar d.queue → All IsChar (swallow d key).queue
unfolding swallow
All-swallow d extended h = h
All-swallow d _ h = h

All-press : (d : Driver) (sc : ℕ) → All IsChar d.queue → All IsChar (press d sc).queue
unfolding press
All-press d sc h = elim (Bool-cases d.prefixed) [
  | inl e ↦ simp e (All-swallow d (classify sc) h)
  | inr e ↦ simp e (All-act d (classify sc) (classify-GivesChar sc) h)
]

-- The driver's invariant.
pub record IsSound (k : Keyboard) : Type 0 where
  pub valid : IsValid k
  pub chars : All IsChar (contents k)

-- The interrupt handler keeps both indices inside the buffer, and stores nothing but
-- characters from 1 to 127, whatever the interrupt and the byte at the port.
pub irqhandler-IsSound :
    (k : Keyboard) (irq_no scancode : ℕ) → IsSound k → IsSound (irqhandler k irq_no scancode).0
irqhandler-IsSound k n sc s =
    let p = irqhandler-press k n sc s.valid in
    record {
      valid = p.0;
      chars =
          subst (λ (d : Driver). All IsChar d.queue) (sym p.1)
            (elim (Bool-cases (n == 33)) [
              | inl e ↦ rw e (All-press (view k) sc s.chars)
              | inr e ↦ rw e s.chars
            ]);
    }

All-dequeue : (q : List ℕ) → All IsChar q → All IsChar (dequeue q).1
unfolding dequeue
All-dequeue [] h = h
All-dequeue (c ∷ q) h = h.1

dequeue-zero_iff : (q : List ℕ) → All IsChar q → ((dequeue q).0 ≡ 0) ↔ (q ≡ [])
unfolding dequeue
dequeue-zero_iff [] h = (λ e. refl, λ e. refl)
dequeue-zero_iff (c ∷ q) h = (λ e. absurd (omega (arith, h.0)), λ e. cc)

-- kgetc keeps the driver's invariant, and returns 0 exactly when no character waits.
pub kgetc-IsSound :
    (k : Keyboard) → IsSound k → IsSound (kgetc k).1 × (((kgetc k).0 ≡ 0) ↔ (contents k ≡ []))
kgetc-IsSound k s =
    let d = kgetc-dequeue k s.valid in
    let z = dequeue-zero_iff (contents k) s.chars in
    (
      record {
        valid = kgetc-IsValid k s.valid;
        chars = subst (All IsChar) (sym d.1) (All-dequeue (contents k) s.chars);
      },
      (λ e. z.0 (sym d.0 ∙ e), λ e. d.0 ∙ z.1 e),
    )
