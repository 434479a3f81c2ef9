-- ===== src/Wasm/Interp/Num.antt =====
-- The integer instructions of `run`, as functions of the 64-bit patterns on the value stack.
pub mod Laws
use wasm_os.Base.{
  ℕ, zero, suc, ◌+◌, ◌-◌, ◌*◌, ◌/◌, ◌%◌, ◌^◌, Bool, not, ◌&&◌, List, [], ◌∷◌, Option, none, some,
  ltb, leb, ◌==◌, if◌then◌else◌, bit_and, bit_or, bit_xor,
}

-- `as i32` and `as u32` keep the low 32 bits.
abbrev pub low32 : ℕ → ℕ
low32 x = x % 2 ^ 32

-- `as iW as i64`: the low `w` bits, sign-extended.
abbrev pub sext : ℕ → ℕ → ℕ
sext w x = if ltb (x % 2 ^ w) (2 ^ (w - 1)) then x % 2 ^ w else x % 2 ^ w + (2 ^ 64 - 2 ^ w)

abbrev pub flag : Bool → ℕ
flag b = if b then 1 else 0

-- `<` on signed words of `w` bits.
abbrev pub slt : ℕ → ℕ → ℕ → Bool
slt w a b = ltb ((a + 2 ^ (w - 1)) % 2 ^ w) ((b + 2 ^ (w - 1)) % 2 ^ w)

-- `leading_zeros`, `trailing_zeros` and `count_ones` of a word of `w` bits.
unfoldable pub leading_zeros : ℕ → ℕ → ℕ
leading_zeros zero x = 0
leading_zeros (suc w) x = if ltb x (2 ^ w) then suc (leading_zeros w x) else 0

unfoldable pub trailing_zeros : ℕ → ℕ → ℕ
trailing_zeros zero x = 0
trailing_zeros (suc w) x = if x % 2 == 0 then suc (trailing_zeros w (x / 2)) else 0

unfoldable pub count_ones : ℕ → ℕ → ℕ
count_ones zero x = 0
count_ones (suc w) x = x % 2 + count_ones w (x / 2)

abbrev pub is_negative : ℕ → ℕ → Bool
is_negative w a = leb (2 ^ (w - 1)) a

-- The magnitude of a signed word, and a word negated.
abbrev pub magnitude : ℕ → ℕ → ℕ
magnitude w a = if is_negative w a then 2 ^ w - a else a

abbrev pub negated : ℕ → ℕ → ℕ
negated w a = (2 ^ w - a) % 2 ^ w

abbrev pub same_sign : ℕ → ℕ → ℕ → Bool
same_sign w a b = if is_negative w a then is_negative w b else not (is_negative w b)

-- `wrapping_div` and `wrapping_rem` on signed words; `/` rounds towards zero.
unfoldable pub wrapping_div : ℕ → ℕ → ℕ → ℕ
wrapping_div w a b =
    let q = magnitude w a / magnitude w b in if same_sign w a b then q else negated w q

unfoldable pub wrapping_rem : ℕ → ℕ → ℕ → ℕ
wrapping_rem w a b =
    let r = magnitude w a % magnitude w b in if is_negative w a then negated w r else r

-- `wrapping_shr` on a signed word
unfoldable pub shift_signed : ℕ → ℕ → ℕ → ℕ
shift_signed w a k = if is_negative w a then 2 ^ w - 1 - (2 ^ w - 1 - a) / 2 ^ k else a / 2 ^ k

unfoldable pub rotate_left : ℕ → ℕ → ℕ → ℕ
rotate_left w a k = (a * 2 ^ k + a / 2 ^ (w - k)) % 2 ^ w

unfoldable pub rotate_right : ℕ → ℕ → ℕ → ℕ
rotate_right w a k = (a / 2 ^ k + a * 2 ^ (w - k)) % 2 ^ w

-- `to_le_bytes` folded from the first byte on, then `swap_bytes`.
unfoldable pub reinterpret_i32 : ℕ → ℕ
reinterpret_i32 a =
    let folded =
      ((a % 256 * 256 + a / 256 % 256) * 256 + a / 65536 % 256) * 256 + a / 16777216 % 256 in
    ((folded % 256 * 256 + folded / 256 % 256) * 256 + folded / 65536 % 256) * 256
    + folded / 16777216 % 256

-- An instruction of one or two operands; the operand pushed last is the second. `none` is
-- `InterpError::DivisionByZero`.
pub data Numeric : Type 0 where
  unary : (ℕ → ℕ) → Numeric
  binary : (ℕ → ℕ → ℕ) → Numeric
  partial : (ℕ → ℕ → Option ℕ) → Numeric

abbrev pub unary32 : (ℕ → ℕ) → Numeric
unary32 f = unary (λ a. f (low32 a))

abbrev pub binary32 : (ℕ → ℕ → ℕ) → Numeric
binary32 f = binary (λ a b. f (low32 a) (low32 b))

abbrev pub partial32 : (ℕ → ℕ → ℕ) → Numeric
partial32 f = partial (λ a b. if low32 b == 0 then none else some (f (low32 a) (low32 b)))

abbrev pub partial64 : (ℕ → ℕ → ℕ) → Numeric
partial64 f = partial (λ a b. if b == 0 then none else some (f a b))

-- `i64.div_s` also refuses i64::MIN / -1.
unfoldable pub div_s64 : ℕ → ℕ → Option ℕ
unfolding wrapping_div
div_s64 a b =
    if b == 0
    then none
    else if a == 2 ^ 63 && b == 2 ^ 64 - 1
    then none
    else some (wrapping_div 64 a b)

unfoldable pub comparisons32 : List (ℕ × Numeric)
comparisons32 =
    (0x45, unary32 (λ a. flag (a == 0)))
    ∷ (0x46, binary32 (λ a b. flag (a == b)))
    ∷ (0x47, binary32 (λ a b. flag (not (a == b))))
    ∷ (0x48, binary32 (λ a b. flag (slt 32 a b)))
    ∷ (0x49, binary32 (λ a b. flag (ltb a b)))
    ∷ (0x4A, binary32 (λ a b. flag (slt 32 b a)))
    ∷ (0x4B, binary32 (λ a b. flag (ltb b a)))
    ∷ (0x4C, binary32 (λ a b. flag (not (slt 32 b a))))
    ∷ (0x4D, binary32 (λ a b. flag (leb a b)))
    ∷ (0x4E, binary32 (λ a b. flag (not (slt 32 a b))))
    ∷ (0x4F, binary32 (λ a b. flag (leb b a)))
    ∷ []

unfoldable pub comparisons64 : List (ℕ × Numeric)
comparisons64 =
    (0x50, unary (λ a. flag (a == 0)))
    ∷ (0x51, binary (λ a b. flag (a == b)))
    ∷ (0x52, binary (λ a b. flag (not (a == b))))
    ∷ (0x53, binary (λ a b. flag (slt 64 a b)))
    ∷ (0x54, binary (λ a b. flag (ltb a b)))
    ∷ (0x55, binary (λ a b. flag (slt 64 b a)))
    ∷ (0x56, binary (λ a b. flag (ltb b a)))
    ∷ (0x57, binary (λ a b. flag (not (slt 64 b a))))
    ∷ (0x58, binary (λ a b. flag (leb a b)))
    ∷ (0x59, binary (λ a b. flag (not (slt 64 a b))))
    ∷ (0x5A, binary (λ a b. flag (leb b a)))
    ∷ []

-- The unsigned results (`div_u`, `rem_u`, `shr_u`) are pushed zero-extended, the others
-- sign-extended.
unfoldable pub arithmetic32 : List (ℕ × Numeric)
unfolding wrapping_div wrapping_rem shift_signed rotate_left rotate_right leading_zeros
    trailing_zeros count_ones
arithmetic32 =
    (0x67, unary32 (leading_zeros 32))
    ∷ (0x68, unary32 (trailing_zeros 32))
    ∷ (0x69, unary32 (count_ones 32))
    ∷ (0x6A, binary32 (λ a b. sext 32 (a + b)))
    ∷ (0x6B, binary32 (λ a b. sext 32 (a + 2 ^ 32 - b)))
    ∷ (0x6C, binary32 (λ a b. sext 32 (a * b)))
    ∷ (0x6D, partial32 (λ a b. sext 32 (wrapping_div 32 a b)))
    ∷ (0x6E, partial32 (λ a b. a / b))
    ∷ (0x6F, partial32 (λ a b. sext 32 (wrapping_rem 32 a b)))
    ∷ (0x70, partial32 (λ a b. a % b))
    ∷ (0x71, binary32 (λ a b. sext 32 (bit_and a b)))
    ∷ (0x72, binary32 (λ a b. sext 32 (bit_or a b)))
    ∷ (0x73, binary32 (λ a b. sext 32 (bit_xor a b)))
    ∷ (0x74, binary32 (λ a b. sext 32 (a * 2 ^ bit_and b 31)))
    ∷ (0x75, binary32 (λ a b. sext 32 (shift_signed 32 a (bit_and b 31))))
    ∷ (0x76, binary32 (λ a b. a / 2 ^ bit_and b 31))
    ∷ (0x77, binary32 (λ a b. sext 32 (rotate_left 32 a (bit_and b 31))))
    ∷ (0x78, binary32 (λ a b. sext 32 (rotate_right 32 a (bit_and b 31))))
    ∷ []

unfoldable pub arithmetic64 : List (ℕ × Numeric)
unfolding wrapping_rem shift_signed rotate_left rotate_right div_s64 leading_zeros trailing_zeros
    count_ones
arithmetic64 =
    (0x79, unary (leading_zeros 64))
    ∷ (0x7A, unary (trailing_zeros 64))
    ∷ (0x7B, unary (count_ones 64))
    ∷ (0x7C, binary (λ a b. (a + b) % 2 ^ 64))
    ∷ (0x7D, binary (λ a b. (a + 2 ^ 64 - b) % 2 ^ 64))
    ∷ (0x7E, binary (λ a b. a * b % 2 ^ 64))
    ∷ (0x7F, partial div_s64)
    ∷ (0x80, partial64 (λ a b. a / b))
    ∷ (0x81, partial64 (wrapping_rem 64))
    ∷ (0x82, partial64 (λ a b. a % b))
    ∷ (0x83, binary bit_and)
    ∷ (0x84, binary bit_or)
    ∷ (0x85, binary bit_xor)
    ∷ (0x86, binary (λ a b. a * 2 ^ bit_and b 63 % 2 ^ 64))
    ∷ (0x87, binary (λ a b. shift_signed 64 a (bit_and b 63)))
    ∷ (0x88, binary (λ a b. a / 2 ^ bit_and b 63))
    ∷ (0x89, binary (λ a b. rotate_left 64 a (bit_and b 63)))
    ∷ (0x8A, binary (λ a b. rotate_right 64 a (bit_and b 63)))
    ∷ []

-- Type conversions, sign extension, and the reinterpretation that is coded as arithmetic.
unfoldable pub conversions : List (ℕ × Numeric)
unfolding reinterpret_i32
conversions =
    (0xA7, unary (sext 32))
    ∷ (0xAC, unary (sext 32))
    ∷ (0xAD, unary low32)
    ∷ (0xC0, unary32 (sext 8))
    ∷ (0xC1, unary32 (sext 16))
    ∷ (0xC2, unary (sext 8))
    ∷ (0xC3, unary (sext 16))
    ∷ (0xC4, unary (sext 32))
    ∷ (0xBC, unary32 reinterpret_i32)
    ∷ []
