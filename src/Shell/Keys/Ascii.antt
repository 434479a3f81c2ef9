-- ===== src/Shell/Keys/Ascii.antt =====
-- The characters that keys decode to.
use wasm_os.Base.{
  ℕ, ◌≤◌, Bool, true, false, ◌&&◌, ◌||◌, not, List, [], ◌∷◌, Option, none, some, if◌then◌else◌,
  if_both, if_split, leb, leb→le, ◌==◌, bit_and, ◌≡◌, refl, subst, arith,
}
use wasm_os.Shell.Keys.{
  Key, find_arm, scancodes, scancode_to_char, char_key, key_of, try_next_key, serial_byte_to_key,
}

-- A printable ASCII character, if it is a character at all.
pub data IsAscii : Key → Type 0 where
  printable : (c : ℕ) → 32 ≤ c → c ≤ 126 → IsAscii (Key.char c)
  backspace : IsAscii Key.backspace
  enter : IsAscii Key.enter
  arrow_left : IsAscii Key.arrow_left
  arrow_right : IsAscii Key.arrow_right
  arrow_up : IsAscii Key.arrow_up
  arrow_down : IsAscii Key.arrow_down
  delete : IsAscii Key.delete
  home : IsAscii Key.home
  end : IsAscii Key.end
  tab : IsAscii Key.tab
  unknown : IsAscii Key.unknown

abbrev IsPrintable : ℕ → Type 0
IsPrintable c = (32 ≤ c) × (c ≤ 126)

arm_test : ℕ × ℕ × ℕ → Bool
arm_test (code, plain, shifted) =
    leb 32 plain && leb plain 126 && (leb 32 shifted && leb shifted 126)

arms_table : List (ℕ × ℕ × ℕ) → Bool
arms_table [] = true
arms_table (arm ∷ arms) = arm_test arm && arms_table arms

and_true : (a b : Bool) → a && b ≡ true → (a ≡ true) × (b ≡ true)
and_true true b h = (refl, h)
and_true false b h = ground arith

range : (c : ℕ) → leb 32 c && leb c 126 ≡ true → IsPrintable c
range c h =
    let (low, high) = and_true (leb 32 c) (leb c 126) h in (leb→le 32 c low, leb→le c 126 high)

arm_characters :
    (code plain shifted : ℕ) (shift : Bool)
    → arm_test (code, plain, shifted) ≡ true
    → IsAscii (Key.char (if shift then shifted else plain))
unfolding arm_test
arm_characters code plain shifted shift h =
    let (unshifted, with_shift) =
      and_true (leb 32 plain && leb plain 126) (leb 32 shifted && leb shifted 126) h in
    let p = range plain unshifted in
    let q = range shifted with_shift in
    if_both (λ c. IsAscii (Key.char c)) shift (IsAscii.printable shifted q.0 q.1)
      (IsAscii.printable plain p.0 p.1)

char_key-IsAscii :
    (arms : List (ℕ × ℕ × ℕ)) (sc : ℕ) (shift : Bool)
    → arms_table arms ≡ true
    → IsAscii (char_key (find_arm arms sc shift))
unfolding char_key find_arm arms_table
char_key-IsAscii [] sc shift h = IsAscii.unknown
char_key-IsAscii ((code, plain, shifted) ∷ arms) sc shift h =
    let (first, others) = and_true (arm_test (code, plain, shifted)) (arms_table arms) h in
    if_both (λ o. IsAscii (char_key o)) (sc == code) (arm_characters code plain shifted shift first)
      (char_key-IsAscii arms sc shift others)

key_of-IsAscii : (sc : ℕ) (shift : Bool) → IsAscii (key_of sc shift)
unfolding key_of scancode_to_char arms_table arm_test
key_of-IsAscii sc shift = if_both IsAscii (sc == 0x0e) IsAscii.backspace (
    if_both IsAscii (sc == 0x1c) IsAscii.enter (
      if_both IsAscii (sc == 0x4b) IsAscii.arrow_left (
        if_both IsAscii (sc == 0x4d) IsAscii.arrow_right (
          if_both IsAscii (sc == 0x48) IsAscii.arrow_up (
            if_both IsAscii (sc == 0x50) IsAscii.arrow_down (
              if_both IsAscii (sc == 0x53) IsAscii.delete (
                if_both IsAscii (sc == 0x47) IsAscii.home (
                  if_both IsAscii (sc == 0x4f) IsAscii.end (
                    if_both IsAscii (sc == 0x0f) IsAscii.tab (
                      if_both (λ o. IsAscii (char_key o)) (sc == 0x39)
                        (IsAscii.printable 32 (omega arith) (omega arith))
                        (char_key-IsAscii scancodes sc shift refl)))))))))))

data Decoded : Bool × Option Key → Type 0 where
  no_key : (shift : Bool) → Decoded (shift, none)
  key : (shift : Bool) (k : Key) → IsAscii k → Decoded (shift, some k)

try_next_key-Decoded : (status sc : ℕ) (shift : Bool) → Decoded (try_next_key status sc shift)
unfolding try_next_key
try_next_key-Decoded status sc shift =
    if_both Decoded (bit_and status 0x01 == 0) (Decoded.no_key shift) (
      if_both Decoded (sc == 0x2a || (sc == 0x36)) (Decoded.no_key true) (
        if_both Decoded (sc == 0xaa || (sc == 0xb6)) (Decoded.no_key false) (
          if_both Decoded (not (bit_and sc 0x80 == 0)) (Decoded.no_key shift)
            (Decoded.key shift (key_of sc shift) (key_of-IsAscii sc shift)))))

Decoded-IsAscii : (r : Bool × Option Key) (k : Key) → Decoded r → r.1 ≡ some k → IsAscii k
Decoded-IsAscii r k (Decoded.no_key shift) h = ground (arith, h)
Decoded-IsAscii r k (Decoded.key shift j p) h = subst IsAscii (ground (arith, h)) p

-- Whatever the ports answer, the key decoded from a scancode and the key decoded from a byte of the
-- serial line are, if they are characters, printable ASCII characters.
pub keys-IsAscii :
    (status sc b : ℕ) (shift : Bool) (k : Key)
    → (try_next_key status sc shift).1 ≡ some k
    → IsAscii k × IsAscii (serial_byte_to_key b)
unfolding serial_byte_to_key
keys-IsAscii status sc b shift k h = (
  Decoded-IsAscii (try_next_key status sc shift) k (try_next_key-Decoded status sc shift) h,
  if_both IsAscii (b == 0x08 || (b == 0x7f)) IsAscii.backspace (
      if_both IsAscii (b == 0x0d || (b == 0x0a)) IsAscii.enter (
        if_split IsAscii (leb 0x20 b && leb b 0x7e)
          (λ t. IsAscii.printable b (range b t).0 (range b t).1) (λ t. IsAscii.unknown))),
)
