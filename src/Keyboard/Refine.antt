-- ===== src/Keyboard/Refine.antt =====
-- The whole keyboard driver of kernel/keyboard.c, against a description without a ring: a queue of
-- characters and two flags.
use notux_kernel.Base.{
  ℕ, ◌≡◌, refl, ap, Bool, true, false, not, ◌&&◌, List, [], ◌∷◌, arith, ltb, ◌==◌, if◌then◌else◌,
  get_or, ◌∙◌,
}
use mathlib.Core.Path.{ap₂}
use notux_kernel.Keyboard.{
  Keyboard, scancode_ascii, shift_key, on_scancode, irqhandler, kgetc, kflush,
}
use notux_kernel.Keyboard.Ring.{
  IsValid, contents, enqueue, dequeue, store_char-IsValid, kgetc-IsValid, store_char-enqueue,
  store_char-flags, kgetc-dequeue, kflush_empties,
}

pub record Driver : Type 0 where
  pub queue : List ℕ
  pub prefixed : Bool
  pub shift : Bool

-- What a byte from the keyboard means.
pub data Key : Type 0 where
  extended shift_down shift_up ignored : Key
  character : ℕ → Key

unfoldable pub classify : ℕ → Key
classify scancode =
    if scancode == 0xE0
    then extended
    else if scancode == 0x2A
    then shift_down
    else if scancode == 0x36
    then shift_down
    else if scancode == 0xAA
    then shift_up
    else if scancode == 0xB6
    then shift_up
    else if ltb scancode 58 && not (get_or scancode_ascii scancode 0 == 0)
    then character (get_or scancode_ascii scancode 0)
    else ignored

unfoldable pub act : Driver → Key → Driver
act d extended = record d { prefixed = true }
act d shift_down = record d { shift = true }
act d shift_up = record d { shift = false }
act d ignored = d
act d (character c) = record d { queue = enqueue d.queue (shift_key d.shift c) }

-- The byte after a prefix is swallowed, unless it is a prefix again.
unfoldable pub swallow : Driver → Key → Driver
swallow d extended = d
swallow d _ = record d { prefixed = false }

unfoldable pub press : Driver → ℕ → Driver
unfolding act swallow
press d scancode = if d.prefixed then swallow d (classify scancode) else act d (classify scancode)

abbrev pub view : Keyboard → Driver
view k = record { queue = contents k; prefixed = k.e0_prefix; shift = k.shift_pressed }

-- One byte from the keyboard does to the ring what it does to the queue.
pub on_scancode-press :
    (k : Keyboard) (scancode : ℕ)
    → IsValid k
    → IsValid (on_scancode k scancode).0
      × (view (on_scancode k scancode).0 ≡ press (view k) scancode)
unfolding on_scancode press classify
on_scancode-press k sc v =
    let c : ℕ = shift_key k.shift_pressed (get_or scancode_ascii sc 0) in
    ground (arith, store_char-enqueue k c v, store_char-IsValid k c v, store_char-flags k c)

-- What happens to the driver: an interrupt with the byte at port 0x60, a kgetc, a kflush.
pub data Op : Type 0 where
  interrupt : ℕ → ℕ → Op
  getc flush : Op

-- What each kgetc returns.
unfoldable pub run : Keyboard → List Op → List ℕ
run k [] = []
run k (interrupt irq_no scancode ∷ ops) = run (irqhandler k irq_no scancode).0 ops
run k (getc ∷ ops) = (kgetc k).0 ∷ run (kgetc k).1 ops
run k (flush ∷ ops) = run (kflush k) ops

unfoldable pub run_queue : Driver → List Op → List ℕ
run_queue d [] = []
run_queue d (interrupt irq_no scancode ∷ ops) =
    run_queue (if irq_no == 33 then press d scancode else d) ops
run_queue d (getc ∷ ops) =
    let (c, q) = dequeue d.queue in c ∷ run_queue (record d { queue = q }) ops
run_queue d (flush ∷ ops) = run_queue (record d { queue = [] }) ops

pub irqhandler-press :
    (k : Keyboard) (irq_no scancode : ℕ)
    → IsValid k
    → IsValid (irqhandler k irq_no scancode).0
      × (view (irqhandler k irq_no scancode).0
          ≡ (if irq_no == 33 then press (view k) scancode else view k))
unfolding irqhandler
irqhandler-press k n sc v = ground (arith, on_scancode-press k sc v)

kgetc-view :
    (k : Keyboard)
    → IsValid k
    → view (kgetc k).1 ≡ record (view k) { queue = (dequeue (contents k)).1 }
unfolding kgetc
kgetc-view k v = ground (arith, kgetc-dequeue k v)

kflush-view : (k : Keyboard) → IsValid k → view (kflush k) ≡ record (view k) { queue = [] }
unfolding kflush
kflush-view k v = ground (arith, kflush_empties k v)

-- No sequence of interrupts, kgetc and kflush tells the driver from a queue of at most 63
-- characters with two flags: every kgetc returns what it returns there.
pub run-run_queue : (ops : List Op) (k : Keyboard) → IsValid k → run k ops ≡ run_queue (view k) ops
unfolding run run_queue
run-run_queue [] k v = refl
run-run_queue (interrupt n sc ∷ ops) k v =
    let s = irqhandler-press k n sc v in
    run-run_queue ops (irqhandler k n sc).0 s.0 ∙ ap (λ d. run_queue d ops) s.1
run-run_queue (getc ∷ ops) k v =
    ap₂ ◌∷◌ (kgetc-dequeue k v).0 (
      run-run_queue ops (kgetc k).1 (kgetc-IsValid k v)
      ∙ ap (λ d. run_queue d ops) (kgetc-view k v))
run-run_queue (flush ∷ ops) k v =
    run-run_queue ops (kflush k) (kflush_empties k v).0
    ∙ ap (λ d. run_queue d ops) (kflush-view k v)
