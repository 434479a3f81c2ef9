-- ===== src/Shell/Keys.antt =====
-- Decoding of keys: kernel/src/drivers/keyboard.rs (scancode set 1) and the key decoding of
-- kernel/src/drivers/serial.rs. A character is its code. The port reads are the arguments.
pub mod Ascii
use wasm_os.Base.{
  ℕ, ◌≤◌, ◌<◌, Bool, true, false, ◌&&◌, ◌||◌, not, List, [], ◌∷◌, Option, none, some, if◌then◌else◌,
  ltb, leb, ◌==◌, bit_and,
}

pub data Key : Type 0 where
  char : (c : ℕ) → Key
  backspace : Key
  enter : Key
  arrow_left : Key
  arrow_right : Key
  arrow_up : Key
  arrow_down : Key
  delete : Key
  home : Key
  end : Key
  tab : Key
  unknown : Key

-- The arms of the match: the scancode, its character, and its character with Shift.
abbrev pub scancodes : List (ℕ × ℕ × ℕ)
scancodes =
    (0x02, 49, 33)
    ∷ (0x03, 50, 64)
    ∷ (0x04, 51, 35)
    ∷ (0x05, 52, 36)
    ∷ (0x06, 53, 37)
    ∷ (0x07, 54, 94)
    ∷ (0x08, 55, 38)
    ∷ (0x09, 56, 42)
    ∷ (0x0a, 57, 40)
    ∷ (0x0b, 48, 41)
    ∷ (0x0c, 45, 95)
    ∷ (0x0d, 61, 43)
    ∷ (0x10, 113, 81)
    ∷ (0x11, 119, 87)
    ∷ (0x12, 101, 69)
    ∷ (0x13, 114, 82)
    ∷ (0x14, 116, 84)
    ∷ (0x15, 121, 89)
    ∷ (0x16, 117, 85)
    ∷ (0x17, 105, 73)
    ∷ (0x18, 111, 79)
    ∷ (0x19, 112, 80)
    ∷ (0x1a, 91, 123)
    ∷ (0x1b, 93, 125)
    ∷ (0x1e, 97, 65)
    ∷ (0x1f, 115, 83)
    ∷ (0x20, 100, 68)
    ∷ (0x21, 102, 70)
    ∷ (0x22, 103, 71)
    ∷ (0x23, 104, 72)
    ∷ (0x24, 106, 74)
    ∷ (0x25, 107, 75)
    ∷ (0x26, 108, 76)
    ∷ (0x27, 59, 58)
    ∷ (0x28, 39, 34)
    ∷ (0x29, 96, 126)
    ∷ (0x2b, 92, 124)
    ∷ (0x2c, 122, 90)
    ∷ (0x2d, 120, 88)
    ∷ (0x2e, 99, 67)
    ∷ (0x2f, 118, 86)
    ∷ (0x30, 98, 66)
    ∷ (0x31, 110, 78)
    ∷ (0x32, 109, 77)
    ∷ (0x33, 44, 60)
    ∷ (0x34, 46, 62)
    ∷ (0x35, 47, 63)
    ∷ []

-- The first arm for a scancode.
unfoldable pub find_arm : List (ℕ × ℕ × ℕ) → ℕ → Bool → Option ℕ
find_arm [] sc shift = none
find_arm ((code, plain, shifted) ∷ arms) sc shift =
    let further = find_arm arms sc shift in
    if sc == code then some (if shift then shifted else plain) else further

-- The space bar has one character.
unfoldable pub scancode_to_char : ℕ → Bool → Option ℕ
unfolding find_arm
scancode_to_char sc shift = if sc == 0x39 then some 32 else find_arm scancodes sc shift

unfoldable pub char_key : Option ℕ → Key
char_key none = Key.unknown
char_key (some c) = Key.char c

unfoldable pub key_of : ℕ → Bool → Key
unfolding scancode_to_char char_key
key_of sc shift =
    if sc == 0x0e
    then Key.backspace
    else if sc == 0x1c
    then Key.enter
    else if sc == 0x4b
    then Key.arrow_left
    else if sc == 0x4d
    then Key.arrow_right
    else if sc == 0x48
    then Key.arrow_up
    else if sc == 0x50
    then Key.arrow_down
    else if sc == 0x53
    then Key.delete
    else if sc == 0x47
    then Key.home
    else if sc == 0x4f
    then Key.end
    else if sc == 0x0f
    then Key.tab
    else char_key (scancode_to_char sc shift)

-- What the status port and the data port answer, and whether Shift is held; whether it is held
-- afterwards, and the key.
unfoldable pub try_next_key : ℕ → ℕ → Bool → Bool × Option Key
unfolding key_of
try_next_key status sc shift =
    if bit_and status 0x01 == 0
    then (shift, none)
    else if sc == 0x2a || (sc == 0x36)
    then (true, none)
    else if sc == 0xaa || (sc == 0xb6)
    then (false, none)
    else if not (bit_and sc 0x80 == 0)
    then (shift, none)
    else (shift, some (key_of sc shift))

unfoldable pub serial_byte_to_key : ℕ → Key
serial_byte_to_key b =
    if b == 0x08 || (b == 0x7f)
    then Key.backspace
    else if b == 0x0d || (b == 0x0a)
    then Key.enter
    else if leb 0x20 b && leb b 0x7e
    then Key.char b
    else Key.unknown
