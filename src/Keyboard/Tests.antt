-- ===== src/Keyboard/Tests.antt =====
-- Runs of Kernel/keyboard.c.
use vibecoded_os.Prelude.{
  ℕ, ◌≡◌, refl, true, false, not, Option, none, some, List, [], ◌∷◌, ◌++◌, arith, ltb, ◌==◌, ◌&&◌,
  if◌then◌else◌, length, replicate, ◌⊎◌,
}
use mathlib.Core.Bool.{xor}
use vibecoded_os.Keyboard.{Ring, KeyEvent, Keyboard, put, get, irq_handler, key_char, plain_key}
use vibecoded_os.Keyboard.Rings.{IsRing, contents, put-contents, get-contents}
use vibecoded_os.Keyboard.Keys.{
  IsKeyboard, no_event, is_modifier, irq_handler-modifiers, irq_handler-contents,
}

-- A ring with two characters, at the end of its array.
abbrev chars : Ring ℕ
chars = record { buffer = replicate 256 120; read_pos = 254; write_pos = 0 }

abbrev events : Ring KeyEvent
events = record { buffer = replicate 256 no_event; read_pos = 0; write_pos = 0 }

abbrev keyboard : Keyboard
keyboard = record {
  chars = chars;
  events = events;
  shift_state = true;
  ctrl_state = false;
  caps_lock = false;
  extended = false;
}

chars-IsRing : IsRing chars
chars-IsRing = record { size = refl; read_in = omega arith; write_in = omega arith }

keyboard-IsKeyboard : IsKeyboard keyboard
keyboard-IsKeyboard =
    (chars-IsRing, record { size = refl; read_in = omega arith; write_in = omega arith })

alive : (irq_handler 0x1E (some 2) keyboard).0 ≡ false
unfolding irq_handler plain_key
alive = refl

capital : key_char true false false 0x1E ≡ b'A'
unfolding key_char xor
capital = refl

put-contents_example : contents 0 (put 97 chars) ≡ (
    if ltb (length (contents 0 chars)) 255 then contents 0 chars ++ (97 ∷ []) else contents 0 chars)
put-contents_example = put-contents 0 {r = chars} chars-IsRing 97

get-contents_example :
    (((get 0 chars).0 ≡ none) × (contents 0 chars ≡ []) × ((get 0 chars).1 ≡ chars))
    ⊎ ((x : ℕ) × ((get 0 chars).0 ≡ some x) × (contents 0 chars ≡ x ∷ contents 0 (get 0 chars).1))
get-contents_example = get-contents 0 {r = chars} chars-IsRing

irq_handler-modifiers_example :
    let k' = (irq_handler 0x1E (some 2) keyboard).1 in
    (k'.shift_state ≡ true) × (k'.ctrl_state ≡ false) × (k'.caps_lock ≡ false)
irq_handler-modifiers_example = irq_handler-modifiers 0x1E (some 2) keyboard refl alive

irq_handler-contents_example :
    let k' = (irq_handler 0x1E (some 2) keyboard).1 in
    let c = key_char true false false 0x1E in
    (contents 0 k'.chars ≡ (
      if true
        && (not (is_modifier 0x1E)
            && (ltb 0x1E 58 && (not (c == 0) && ltb (length (contents 0 chars)) 255)))
      then contents 0 chars ++ (c ∷ [])
      else contents 0 chars))
    × (contents no_event k'.events ≡ (
        if ltb (length (contents no_event events)) 255
        then contents no_event events ++ (record { scancode = 0x1E; pressed = true } ∷ [])
        else contents no_event events))
irq_handler-contents_example =
    irq_handler-contents 0x1E (some 2) keyboard keyboard-IsKeyboard refl alive

abbrev codes : List (ℕ × Option ℕ)
codes = (0xE0, none) ∷ (0x48, none) ∷ (0xE0, none) ∷ (0xC8, none) ∷ []
