-- ===== src/Keyboard.antt =====
-- kernel/keyboard.c and piceoi of kernel/pic.c: the keyboard interrupt, the table of scancodes and
-- the ring of 64 characters that read() of fd 0 takes from. What the hardware supplies, the scancode
-- at port 0x60, is an argument; what the code sends to it is a list of effects.
pub mod Ring
pub mod Decode
pub mod Refine
pub mod Chars
mod Examples
use notux_kernel.Base.{
  ℕ, ◌+◌, ◌-◌, ◌/◌, ◌%◌, ◌<◌, Bool, true, false, not, ◌&&◌, List, [], ◌∷◌, ◌++◌, ltb, leb, ◌==◌,
  if◌then◌else◌, update, get_or, length,
}

abbrev pub kb_buf_size : ℕ
kb_buf_size = 64

pub record Keyboard : Type 0 where
  pub kb_buf : ℕ → ℕ
  pub kb_head : ℕ
  pub kb_tail : ℕ
  pub e0_prefix : Bool
  pub shift_pressed : Bool

-- A write to an I/O port, or the write to the end-of-interrupt register of the local APIC.
pub data Effect : Type 0 where
  outb : ℕ → ℕ → Effect
  lapic_eoi : Effect

abbrev pub scancode_ascii : List ℕ
scancode_ascii =
    0 ∷ 27 ∷ b'1' ∷ b'2' ∷ b'3' ∷ b'4' ∷ b'5' ∷ b'6' ∷ b'7' ∷ b'8' ∷ b'9' ∷ b'0' ∷ b'-' ∷ b'=' ∷ 8
    ∷ 9 ∷ b'q' ∷ b'w' ∷ b'e' ∷ b'r' ∷ b't' ∷ b'y' ∷ b'u' ∷ b'i' ∷ b'o' ∷ b'p' ∷ b'[' ∷ b']' ∷ 10 ∷ 0
    ∷ b'a' ∷ b's' ∷ b'd' ∷ b'f' ∷ b'g' ∷ b'h' ∷ b'j' ∷ b'k' ∷ b'l' ∷ b';' ∷ 39 ∷ b'`' ∷ 0 ∷ 92
    ∷ b'z' ∷ b'x' ∷ b'c' ∷ b'v' ∷ b'b' ∷ b'n' ∷ b'm' ∷ b',' ∷ b'.' ∷ b'/' ∷ 0 ∷ b'*' ∷ 0 ∷ b' ' ∷ []

-- The `switch` on a shifted key that is no letter.
pub shifted_symbol : ℕ → ℕ
shifted_symbol c =
    if c == b'1'
    then b'!'
    else if c == b'2'
    then b'@'
    else if c == b'3'
    then b'#'
    else if c == b'4'
    then b'$'
    else if c == b'5'
    then b'%'
    else if c == b'6'
    then b'^'
    else if c == b'7'
    then b'&'
    else if c == b'8'
    then b'*'
    else if c == b'9'
    then b'('
    else if c == b'0'
    then b')'
    else if c == b'-'
    then b'_'
    else if c == b'='
    then b'+'
    else if c == b'['
    then b'{'
    else if c == b']'
    then b'}'
    else if c == b';'
    then b':'
    else if c == 39
    then 34
    else if c == b'`'
    then b'~'
    else if c == 92
    then b'|'
    else if c == b','
    then b'<'
    else if c == b'.'
    then b'>'
    else if c == b'/'
    then b'?'
    else c

pub shift_key : Bool → ℕ → ℕ
shift_key shift c =
    if shift && leb b'a' c && leb c b'z'
    then c - b'a' + b'A'
    else (if shift then shifted_symbol c else c)

-- The store into the ring, which drops the character if the ring is full.
pub store_char : Keyboard → ℕ → Keyboard × List Effect
store_char k c =
    let next = (k.kb_head + 1) % kb_buf_size in
    if not (next == k.kb_tail)
    then (record k { kb_buf = update k.kb_buf k.kb_head c; kb_head = next }, lapic_eoi ∷ [])
    else (k, [])

-- The chain of tests on the scancode in irqhandler.
pub on_scancode : Keyboard → ℕ → Keyboard × List Effect
on_scancode k scancode =
    if scancode == 0xE0
    then (record k { e0_prefix = true }, [])
    else if k.e0_prefix
    then (record k { e0_prefix = false }, [])
    else if scancode == 0x2A
    then (record k { shift_pressed = true }, [])
    else if scancode == 0xAA
    then (record k { shift_pressed = false }, [])
    else if scancode == 0x36
    then (record k { shift_pressed = true }, [])
    else if scancode == 0xB6
    then (record k { shift_pressed = false }, [])
    else if scancode / 0x80 % 2 == 0 && ltb scancode (length scancode_ascii)
    then (let c = get_or scancode_ascii scancode 0 in
        if not (c == 0) then store_char k (shift_key k.shift_pressed c) else (k, []))
    else (k, [])

pub piceoi : ℕ → List Effect
piceoi irq = if leb 8 irq then outb 0xA0 0x20 ∷ outb 0x20 0x20 ∷ [] else outb 0x20 0x20 ∷ []

-- `irq_no` is 32 or more, as the interrupt stubs pass it.
pub irqhandler : Keyboard → ℕ → ℕ → Keyboard × List Effect
irqhandler k irq_no scancode =
    let (k', sent) = if irq_no == 33 then on_scancode k scancode else (k, []) in
    (k', sent ++ piceoi (irq_no - 32))

-- 0 says that the ring is empty.
pub kgetc : Keyboard → ℕ × Keyboard
kgetc k =
    if k.kb_head == k.kb_tail
    then (0, k)
    else (k.kb_buf k.kb_tail, record k { kb_tail = (k.kb_tail + 1) % kb_buf_size })

pub kflush : Keyboard → Keyboard
kflush k = record k { kb_tail = k.kb_head }
