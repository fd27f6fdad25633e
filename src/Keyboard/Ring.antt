-- ===== src/Keyboard/Ring.antt =====
-- The ring of kernel/keyboard.c as a queue of at most 63 characters, oldest first.
use notux_kernel.Base.{
  ℕ, zero, suc, ◌+◌, ◌-◌, ◌%◌, ◌<◌, ◌≡◌, refl, ◌≢◌, ap, List, [], ◌∷◌, ◌++◌, arith, ltb,
  if◌then◌else◌, update, length,
}
use mathlib.Core.Path.{ap₂}
use notux_kernel.Keyboard.{Keyboard, kb_buf_size, lapic_eoi, store_char, kgetc, kflush}

-- Both indices stay inside the buffer.
pub record IsValid (k : Keyboard) : Type 0 where
  pub head_in : k.kb_head < kb_buf_size
  pub tail_in : k.kb_tail < kb_buf_size

-- The `n` characters from index `h` on, going round at the end of the buffer.
abbrev window : (ℕ → ℕ) → ℕ → ℕ → List ℕ
window buf h zero = []
window buf h (suc n) = buf h ∷ window buf ((h + 1) % kb_buf_size) n

abbrev pub waiting : Keyboard → ℕ
waiting k = (k.kb_head + kb_buf_size - k.kb_tail) % kb_buf_size

abbrev pub contents : Keyboard → List ℕ
contents k = window k.kb_buf k.kb_tail (waiting k)

length-window : (buf : ℕ → ℕ) (h n : ℕ) → length (window buf h n) ≡ n
length-window buf h zero = refl
length-window buf h (suc n) = ap suc (length-window buf ((h + 1) % kb_buf_size) n)

-- Writing just past a window extends it by that character.
window-update :
    (buf : ℕ → ℕ) (c n h i : ℕ)
    → h < 64
    → n < 64
    → i ≡ (h + n) % 64
    → window (update buf i c) h (suc n) ≡ window buf h n ++ (c ∷ [])
window-update buf c zero h i hh hn e = ground arith
window-update buf c (suc n) h i hh hn e =
    ap₂ ◌∷◌ (ground arith)
      (window-update buf c n ((h + 1) % 64) i (omega arith) (omega arith) (omega arith))

window_of_pos :
    (buf : ℕ → ℕ) (h n : ℕ)
    → n ≢ 0
    → window buf h n ≡ buf h ∷ window buf ((h + 1) % kb_buf_size) (n - 1)
window_of_pos buf h zero p = absurd (p refl)
window_of_pos buf h (suc n) p = ap (λ k. window buf h (suc k)) (omega arith)

-- A queue of bounded length, which drops what does not fit.
unfoldable pub enqueue : List ℕ → ℕ → List ℕ
enqueue q c = if ltb (length q) 63 then q ++ (c ∷ []) else q

-- 0 where the queue is empty.
unfoldable pub dequeue : List ℕ → ℕ × List ℕ
dequeue [] = (0, [])
dequeue (c ∷ q) = (c, q)

pub store_char-IsValid : (k : Keyboard) (c : ℕ) → IsValid k → IsValid (store_char k c).0
unfolding store_char
store_char-IsValid k c v = ground arith

pub kgetc-IsValid : (k : Keyboard) → IsValid k → IsValid (kgetc k).1
unfolding kgetc
kgetc-IsValid k v = ground arith

-- The store into the ring puts the character at the end of the queue, or drops it where 63 wait,
-- and the local APIC is sent its end of interrupt exactly when the character is kept.
pub store_char-enqueue :
    (k : Keyboard) (c : ℕ)
    → IsValid k
    → (contents (store_char k c).0 ≡ enqueue (contents k) c)
      × ((store_char k c).1 ≡ (if ltb (length (contents k)) 63 then lapic_eoi ∷ [] else []))
unfolding store_char enqueue
store_char-enqueue k c v = ground (
  arith,
  length-window k.kb_buf k.kb_tail (waiting k),
  window-update k.kb_buf c (waiting k) k.kb_tail k.kb_head,
)

-- kgetc takes the oldest character, and says 0 on an empty queue.
pub kgetc-dequeue :
    (k : Keyboard)
    → IsValid k
    → ((kgetc k).0 ≡ (dequeue (contents k)).0) × (contents (kgetc k).1 ≡ (dequeue (contents k)).1)
unfolding kgetc dequeue
kgetc-dequeue k v = ground (arith, window_of_pos k.kb_buf k.kb_tail (waiting k))

-- kflush empties the queue.
pub kflush_empties : (k : Keyboard) → IsValid k → IsValid (kflush k) × (contents (kflush k) ≡ [])
unfolding kflush
kflush_empties k v = ground arith

pub store_char-flags :
    (k : Keyboard) (c : ℕ)
    → ((store_char k c).0.e0_prefix ≡ k.e0_prefix)
      × ((store_char k c).0.shift_pressed ≡ k.shift_pressed)
unfolding store_char
store_char-flags k c = ground arith
