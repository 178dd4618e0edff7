-- ===== src/Keyboard.antt =====
-- Kernel/keyboard.c: the PS/2 keyboard. Two rings of 256 places, one for characters and one for key
-- events, and the interrupt handler that decodes scancodes. Kernel/keyboard.h has `KeyEvent`.
pub mod Rings
pub mod Keys
mod Tests
use vibecoded_os.Prelude.{
  ℕ, zero, suc, ◌+◌, ◌-◌, ◌*◌, ◌/◌, ◌%◌, Bool, true, false, not, Option, none, some, List, [], ◌∷◌,
  ◌&&◌, ◌||◌, ltb, leb, ◌==◌, if◌then◌else◌, get_or, set, length,
}
use mathlib.Core.Bool.{xor}

-- A ring: the array, `read_pos` and `write_pos`. It is empty where they are equal.
pub record Ring (A : Type 0) : Type 0 where
  pub buffer : List A
  pub read_pos : ℕ
  pub write_pos : ℕ

-- `KBD_BUFFER_SIZE` and `KBD_EVENT_BUFFER_SIZE`
abbrev pub buffer_size : ℕ
buffer_size = 256

module _ {A : Type 0} where
  -- `IsBufferEmpty`, `IsEventBufferEmpty`
  unfoldable pub is_empty : Ring A → Bool
  is_empty r = r.read_pos == r.write_pos

  -- `BufferPut`, `EventBufferPut`: what does not fit is dropped.
  unfoldable pub put : A → Ring A → Ring A
  put c r =
      let next = (r.write_pos + 1) % buffer_size in
      if next == r.read_pos
      then r
      else record r { buffer = set r.buffer r.write_pos c; write_pos = next }

  -- `BufferGet`, and `KeyboardGetKeyEvent` through its pointer: `d` is what an empty ring gives.
  unfoldable pub get : A → Ring A → Option A × Ring A
  get d r = if is_empty r then (none, r) else (
    some (get_or r.buffer r.read_pos d),
    record r { read_pos = (r.read_pos + 1) % buffer_size },
  )

pub record KeyEvent : Type 0 where
  pub scancode : ℕ
  pub pressed : Bool

-- The globals of the driver.
pub record Keyboard : Type 0 where
  pub chars : Ring ℕ
  pub events : Ring KeyEvent
  pub shift_state : Bool
  pub ctrl_state : Bool
  pub caps_lock : Bool
  pub extended : Bool

-- `g_scancode_to_ascii`
abbrev pub scancode_to_ascii : List ℕ
scancode_to_ascii =
    0 ∷ 27 ∷ b'1' ∷ b'2' ∷ b'3' ∷ b'4' ∷ b'5' ∷ b'6' ∷ b'7' ∷ b'8' ∷ b'9' ∷ b'0' ∷ b'-' ∷ b'=' ∷ 8
    ∷ 9 ∷ b'q' ∷ b'w' ∷ b'e' ∷ b'r' ∷ b't' ∷ b'y' ∷ b'u' ∷ b'i' ∷ b'o' ∷ b'p' ∷ b'[' ∷ b']' ∷ 10 ∷ 0
    ∷ b'a' ∷ b's' ∷ b'd' ∷ b'f' ∷ b'g' ∷ b'h' ∷ b'j' ∷ b'k' ∷ b'l' ∷ b';' ∷ 39 ∷ b'`' ∷ 0 ∷ 92
    ∷ b'z' ∷ b'x' ∷ b'c' ∷ b'v' ∷ b'b' ∷ b'n' ∷ b'm' ∷ b',' ∷ b'.' ∷ b'/' ∷ 0 ∷ b'*' ∷ 0 ∷ b' ' ∷ []

-- `g_scancode_shift_ascii`
abbrev pub scancode_shift_ascii : List ℕ
scancode_shift_ascii =
    0 ∷ 27 ∷ b'!' ∷ b'@' ∷ b'#' ∷ b'$' ∷ b'%' ∷ b'^' ∷ b'&' ∷ b'*' ∷ b'(' ∷ b')' ∷ b'_' ∷ b'+' ∷ 8
    ∷ 9 ∷ b'Q' ∷ b'W' ∷ b'E' ∷ b'R' ∷ b'T' ∷ b'Y' ∷ b'U' ∷ b'I' ∷ b'O' ∷ b'P' ∷ b'{' ∷ b'}' ∷ 10 ∷ 0
    ∷ b'A' ∷ b'S' ∷ b'D' ∷ b'F' ∷ b'G' ∷ b'H' ∷ b'J' ∷ b'K' ∷ b'L' ∷ b':' ∷ 34 ∷ b'~' ∷ 0 ∷ b'|'
    ∷ b'Z' ∷ b'X' ∷ b'C' ∷ b'V' ∷ b'B' ∷ b'N' ∷ b'M' ∷ b'<' ∷ b'>' ∷ b'?' ∷ 0 ∷ b'*' ∷ 0 ∷ b' ' ∷ []

abbrev pub put_event : ℕ → Bool → Keyboard → Keyboard
put_event code pressed k = record k {
  events = put (record { scancode = code; pressed = pressed }) k.events;
}

abbrev pub put_char : ℕ → Keyboard → Keyboard
put_char c k = record k { chars = put c k.chars }

-- The branch of the handler behind `if (g_extended)`, with the flag cleared. `0x100 | raw` is a sum,
-- since `raw` is below 128.
unfoldable pub extended_key : (raw : ℕ) (released : Bool) → Keyboard → Keyboard
extended_key raw released k' =
    let k = record k' { extended = false } in
    let down = not released in
    if raw == 0x2A || raw == 0x36
    then put_event (0x100 + raw) down k
    else if raw == 0x1D
    then put_event 0x11D down (record k { ctrl_state = down })
    else if raw == 0x38
    then put_event 0x138 down k
    else if raw == 0x48
    then put_event 0x148 down (put_char 72 k)
    else if raw == 0x50
    then put_event 0x150 down (put_char 80 k)
    else if raw == 0x4B
    then put_event 0x14B down (put_char 75 k)
    else if raw == 0x4D
    then put_event 0x14D down (put_char 77 k)
    else if raw == 0x52
    then put_event 0x152 down k
    else if raw == 0x53
    then put_event 0x153 down (if released then k else put_char 8 k)
    else put_event (0x100 + raw) down k

-- `g_ctrl_state && c >= 'a' && c <= 'z'`, then the same for the capitals.
unfoldable pub with_ctrl : Bool → ℕ → ℕ
with_ctrl ctrl c =
    let c' = if ctrl && (leb b'a' c && leb c b'z') then c - 0x60 else c in
    if ctrl && (leb b'A' c' && leb c' b'Z') then c' - 0x40 else c'

-- The character of a pressed key, 0 for none.
unfoldable pub key_char : (shift caps ctrl : Bool) → ℕ → ℕ
unfolding with_ctrl
key_char shift caps ctrl raw =
    let shifted = xor shift caps in
    let c =
      if shifted && ltb raw (length scancode_shift_ascii)
      then get_or scancode_shift_ascii raw 0
      else get_or scancode_to_ascii raw 0 in
    with_ctrl ctrl c

-- The rest of the handler, behind the extended keys.
unfoldable pub plain_key : (raw : ℕ) (released : Bool) → Keyboard → Keyboard
plain_key raw released k =
    let down = not released in
    let c = key_char k.shift_state k.caps_lock k.ctrl_state raw in
    let k' = put_event raw down k in
    if raw == 0x2A || raw == 0x36
    then put_event raw down (record k { shift_state = down })
    else if raw == 0x1D
    then put_event raw down (record k { ctrl_state = down })
    else if raw == 0x3A
    then put_event raw down
        (record k { caps_lock = if released then k.caps_lock else not k.caps_lock })
    else if released
    then k'
    else if ltb raw (length scancode_to_ascii)
    then (if c == 0 then k' else put_char c k')
    else k'

-- `KeyboardIrqHandler`: the byte of the data port and the process identifier of the current thread,
-- if it has one. The Boolean says that SyscallKillCurrentProcess is called.
unfoldable pub irq_handler : (scancode : ℕ) → Option ℕ → Keyboard → Bool × Keyboard
irq_handler scancode pid k =
    let raw = scancode % 128 in
    let released = scancode / 128 % 2 == 1 in
    let kills =
      k.ctrl_state
      && (not released && (raw == 0x2E && elim pid [ none ↦ false | some n ↦ ltb 1 n ])) in
    if kills
    then (true, k)
    else if raw == 0xE0
    then (false, record k { extended = true })
    else (false, if k.extended then extended_key raw released k else plain_key raw released k)

-- `KeInitKeyboard`, without the port traffic: the event ring keeps its positions.
pub init_keyboard : Keyboard → Keyboard
init_keyboard k = record k {
  chars = record { buffer = k.chars.buffer; read_pos = 0; write_pos = 0 };
  shift_state = false;
  ctrl_state = false;
  caps_lock = false;
  extended = false;
}

-- `KeyboardGetKey`; -1 is `none`.
pub get_key : Keyboard → Option ℕ × Keyboard
get_key k = let (c, r) = get 0 k.chars in (c, record k { chars = r })
