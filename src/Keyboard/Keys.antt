-- ===== src/Keyboard/Keys.antt =====
-- What the interrupt handler of Kernel/keyboard.c makes of scancodes.
use vibecoded_os.Prelude.{
  ℕ, zero, suc, ◌+◌, ◌-◌, ◌/◌, ◌%◌, ◌<◌, ◌≡◌, refl, Bool, true, false, not, Option, List, [], ◌∷◌,
  ◌++◌, arith, ltb, leb, ◌==◌, ◌&&◌, ◌||◌, if◌then◌else◌, get_or, length, Bool-cases, inl, inr,
}
use mathlib.Core.Bool.{xor}
use vibecoded_os.Keyboard.{
  KeyEvent, Keyboard, put, extended_key, plain_key, irq_handler, key_char, put_event, put_char,
  scancode_to_ascii,
}
use vibecoded_os.Keyboard.Rings.{IsRing, put-IsRing, contents, put-contents}

abbrev pub IsKeyboard : Keyboard → Type 0
IsKeyboard k = IsRing k.chars × IsRing k.events

abbrev pub no_event : KeyEvent
no_event = record { scancode = 0; pressed = false }

put_event-IsKeyboard :
    (n : ℕ) (b : Bool) (k : Keyboard) → IsKeyboard k → IsKeyboard (put_event n b k)
put_event-IsKeyboard n b k v = (v.0, put-IsRing no_event v.1 _)

put_char-IsKeyboard : (c : ℕ) (k : Keyboard) → IsKeyboard k → IsKeyboard (put_char c k)
put_char-IsKeyboard c k v = (put-IsRing 0 v.0 c, v.1)

-- The handler's branch for plain keys never sets the extended flag.
plain_key-extended :
    (raw : ℕ) (rel : Bool) (k : Keyboard) → (plain_key raw rel k).extended ≡ k.extended
unfolding plain_key
plain_key-extended raw rel k = ground arith

-- A sequence of interrupts, each with its scancode and the process that it interrupts.
pub run : List (ℕ × Option ℕ) → Keyboard → Keyboard
run [] k = k
run ((code, pid) ∷ rest) k = run rest (irq_handler code pid k).1

irq_handler-extended :
    (code : ℕ) (pid : Option ℕ) (k : Keyboard)
    → k.extended ≡ false
    → (irq_handler code pid k).1.extended ≡ false
unfolding irq_handler
irq_handler-extended code pid k h =
    ground (arith, plain_key-extended (code % 128) (code / 128 % 2 == 1) k)

-- The handler looks for the prefix 0xE0 in the scancode without its top bit, where 0xE0 cannot
-- stand: from KeInitKeyboard on, no sequence of scancodes ever sets the extended flag, and so the
-- code for the arrow keys, for Delete and for the other extended keys never runs.
pub run-extended :
    (codes : List (ℕ × Option ℕ)) (k : Keyboard)
    → k.extended ≡ false
    → (run codes k).extended ≡ false
unfolding run
run-extended [] k h = h
run-extended ((code, pid) ∷ rest) k h =
    run-extended rest (irq_handler code pid k).1 (irq_handler-extended code pid k h)

-- A letter of the unshifted table.
abbrev pub is_letter : ℕ → Bool
is_letter c = leb b'a' c && leb c b'z'

-- What the handler should make of a letter key.
abbrev pub letter : (shift caps ctrl : Bool) → ℕ → ℕ
letter shift caps ctrl c = if ctrl then c - 0x60 else if xor shift caps then c - 32 else c

agrees : (shift caps ctrl : Bool) → ℕ → Bool
agrees shift caps ctrl raw =
    let c = get_or scancode_to_ascii raw 0 in
    if is_letter c then key_char shift caps ctrl raw == letter shift caps ctrl c else true

all_agree : (shift caps ctrl : Bool) → ℕ → Bool
all_agree shift caps ctrl zero = true
all_agree shift caps ctrl (suc n) = agrees shift caps ctrl n && all_agree shift caps ctrl n

all_agree_sound :
    (s c t : Bool) (n raw : ℕ) → all_agree s c t n ≡ true → raw < n → agrees s c t raw ≡ true
unfolding all_agree
all_agree_sound s c t zero raw h lt = absurd (omega arith)
all_agree_sound s c t (suc n) raw h lt = elim (Bool-cases (raw == n)) [
  | inl e ↦ let e' : raw ≡ n = ground arith in rw e' (ground arith)
  | inr e ↦ all_agree_sound s c t n raw (ground arith) (ground arith)
]

table : (s c t : Bool) → all_agree s c t 58 ≡ true
unfolding all_agree agrees key_char xor
table true true true = refl
table true true false = refl
table true false true = refl
table true false false = refl
table false true true = refl
table false true false = refl
table false false true = refl
table false false false = refl

-- For every key that has a letter, the character is the letter; its capital where exactly one of
-- Shift and Caps Lock is on; and with Ctrl, whatever those two are, the control code 1 to 26.
pub key_char-letter :
    (shift caps ctrl : Bool) (raw : ℕ)
    → raw < 58
    → is_letter (get_or scancode_to_ascii raw 0) ≡ true
    → key_char shift caps ctrl raw ≡ letter shift caps ctrl (get_or scancode_to_ascii raw 0)
unfolding agrees
key_char-letter s c t raw h l =
    let a = all_agree_sound s c t 58 raw (table s c t) h in
    elim (Bool-cases (key_char s c t raw == letter s c t (get_or scancode_to_ascii raw 0))) [
      | inl e ↦ ground arith
      | inr e ↦ absurd (let z : ⊥ = ground arith in z)
    ]

-- The scancodes of Shift, Ctrl and Caps Lock.
abbrev pub is_modifier : ℕ → Bool
is_modifier raw = raw == 0x2A || (raw == 0x36 || (raw == 0x1D || raw == 0x3A))

-- An interrupt that kills no process, outside the extended mode, changes the modifiers as follows:
-- Shift and Ctrl are on from the press of one of their keys to a release, Caps Lock is switched by
-- each press and by no release, and no other key changes a modifier.
pub irq_handler-modifiers :
    (code : ℕ) (pid : Option ℕ) (k : Keyboard)
    → k.extended ≡ false
    → (irq_handler code pid k).0 ≡ false
    → let raw = code % 128 in
      let down = not (code / 128 % 2 == 1) in
      let k' = (irq_handler code pid k).1 in
      (k'.shift_state ≡ (if raw == 0x2A || raw == 0x36 then down else k.shift_state))
      × (k'.ctrl_state ≡ (if raw == 0x1D then down else k.ctrl_state))
      × (k'.caps_lock ≡ (if down && raw == 0x3A then not k.caps_lock else k.caps_lock))
unfolding irq_handler plain_key
irq_handler-modifiers code pid k h alive = ground arith

-- What such an interrupt types: one character for the press of a key that has one and is no
-- modifier, nothing for a release. It is appended to the queue of characters if that has room. The
-- event, of any key, is appended to the queue of events.
pub irq_handler-contents :
    (code : ℕ) (pid : Option ℕ) (k : Keyboard)
    → IsKeyboard k
    → k.extended ≡ false
    → (irq_handler code pid k).0 ≡ false
    → let raw = code % 128 in
      let down = not (code / 128 % 2 == 1) in
      let k' = (irq_handler code pid k).1 in
      let c = key_char k.shift_state k.caps_lock k.ctrl_state raw in
      let typed = contents 0 k.chars in
      let seen = contents no_event k.events in
      (contents 0 k'.chars ≡ (
        if down
          && (not (is_modifier raw) && (ltb raw 58 && (not (c == 0) && ltb (length typed) 255)))
        then typed ++ (c ∷ [])
        else typed))
      × (contents no_event k'.events ≡ (
          if ltb (length seen) 255
          then seen ++ (record { scancode = raw; pressed = down } ∷ [])
          else seen))
unfolding irq_handler plain_key
irq_handler-contents code pid k v h alive = ground (
  arith,
  put-contents 0 v.0 (key_char k.shift_state k.caps_lock k.ctrl_state (code % 128)),
  put-contents no_event v.1 (record { scancode = code % 128; pressed = not (code / 128 % 2 == 1) }),
)

plain_key-IsKeyboard :
    (raw : ℕ) (rel : Bool) (k : Keyboard) → IsKeyboard k → IsKeyboard (plain_key raw rel k)
unfolding plain_key
plain_key-IsKeyboard raw rel k v =
    let e = put-IsRing no_event v.1 (record { scancode = raw; pressed = not rel }) in
    let c = put-IsRing 0 v.0 (key_char k.shift_state k.caps_lock k.ctrl_state raw) in ground arith

extended_key-IsKeyboard :
    (raw : ℕ) (rel : Bool) (k : Keyboard) → IsKeyboard k → IsKeyboard (extended_key raw rel k)
unfolding extended_key
extended_key-IsKeyboard raw rel k v = ground (
  arith,
  event (0x100 + raw),
  event 0x11D,
  event 0x138,
  event 0x148,
  event 0x150,
  event 0x14B,
  event 0x14D,
  event 0x152,
  event 0x153,
  put-IsRing 0 v.0 72,
  put-IsRing 0 v.0 80,
  put-IsRing 0 v.0 75,
  put-IsRing 0 v.0 77,
  put-IsRing 0 v.0 8,
)
  where
    event : (n : ℕ) → IsRing (put (record { scancode = n; pressed = not rel }) k.events)
    event n = put-IsRing no_event v.1 _

-- The handler keeps both rings well formed, on every branch.
pub irq_handler-IsKeyboard :
    (code : ℕ) (pid : Option ℕ) (k : Keyboard)
    → IsKeyboard k
    → IsKeyboard (irq_handler code pid k).1
unfolding irq_handler
irq_handler-IsKeyboard code pid k v = ground (
  arith,
  plain_key-IsKeyboard (code % 128) (code / 128 % 2 == 1) k v,
  extended_key-IsKeyboard (code % 128) (code / 128 % 2 == 1) k v,
)
