-- ===== src/Shell/Asm/Strings.antt =====
-- unescape_wat_string of kernel/src/shell/commands/asm.rs. A string is its list of bytes; the index is
-- the list of the bytes left.
use wasm_os.Base.{
  ℕ, ◌+◌, ◌-◌, ◌*◌, ◌/◌, ◌%◌, ◌<◌, ◌≤◌, ◌^◌, bit_or, Bool, true, false, ◌&&◌, ◌||◌, List, [], ◌∷◌,
  ◌≢◌, All, ◌==◌, ltb, leb, if◌then◌else◌, ◌≡◌, refl, ap, ◌∙◌, arith, Bool-cases, inl, inr, ltb→lt,
  ltb_false→le,
}
use wasm_os.Base.Bits.{join_nibbles}

abbrev pub between : ℕ → ℕ → ℕ → Bool
between low high b = leb low b && leb b high

-- `u8::is_ascii_hexdigit`
unfoldable pub is_ascii_hexdigit : ℕ → Bool
is_ascii_hexdigit b = between 48 57 b || between 97 102 b || between 65 70 b

unfoldable pub hex_digit : ℕ → ℕ
hex_digit b =
    if between 48 57 b
    then b - 48
    else if between 97 102 b
    then b - 97 + 10
    else if between 65 70 b
    then b - 65 + 10
    else 0

-- The escapes of one letter: what the letter behind the backslash stands for.
unfoldable pub letter : ℕ → List ℕ
letter b =
    if b == 110
    then 10 ∷ []
    else if b == 116
    then 9 ∷ []
    else if b == 114
    then 13 ∷ []
    else if b == 34
    then 34 ∷ []
    else if b == 92
    then 92 ∷ []
    else if b == 48
    then 0 ∷ []
    else []

-- A backslash that begins no escape stands for itself.
unfoldable pub unescape_wat_string : List ℕ → List ℕ
unescape_wat_string [] = []
unescape_wat_string (b ∷ []) = b ∷ []
unescape_wat_string (b ∷ c ∷ []) =
    let plain = b ∷ unescape_wat_string (c ∷ []) in
    elim (letter c) [ [] ↦ plain | e ∷ es ↦ if b == 92 then e ∷ [] else plain ]
unescape_wat_string (b ∷ c ∷ d ∷ rest) =
    let plain = b ∷ unescape_wat_string (c ∷ d ∷ rest) in
    let behind_letter = unescape_wat_string (d ∷ rest) in
    let behind_hex = unescape_wat_string rest in
    elim (letter c) [
      | [] ↦
          if b == 92 && (is_ascii_hexdigit c && is_ascii_hexdigit d)
          then bit_or (hex_digit c * 2 ^ 4) (hex_digit d) ∷ behind_hex
          else plain
      | e ∷ es ↦ if b == 92 then e ∷ behind_letter else plain
    ]

-- A digit as the assembler's users write it.
abbrev pub digit : ℕ → ℕ
digit n = if ltb n 10 then 48 + n else 97 + (n - 10)

-- Bytes, each as a backslash and two digits.
abbrev pub escape_hex : List ℕ → List ℕ
escape_hex [] = []
escape_hex (b ∷ bs) = 92 ∷ digit (b / 16) ∷ digit (b % 16) ∷ escape_hex bs

-- What becomes of them: a byte below 16 becomes a zero and the second digit's character.
abbrev pub misread : List ℕ → List ℕ
misread [] = []
misread (b ∷ bs) = if ltb b 16 then 0 ∷ digit b ∷ misread bs else b ∷ misread bs

every_digit : (n : ℕ) → n < 16 → (is_ascii_hexdigit (digit n) ≡ true) × (hex_digit (digit n) ≡ n)
unfolding is_ascii_hexdigit hex_digit
every_digit n h = (ground arith, ground arith)

letter-digit : (n : ℕ) → 0 < n → n < 16 → letter (digit n) ≡ []
unfolding letter
letter-digit n p h = ground arith

high_digit :
    (b : ℕ) (rest : List ℕ)
    → 16 ≤ b
    → b < 256
    → unescape_wat_string (92 ∷ digit (b / 16) ∷ digit (b % 16) ∷ rest)
      ≡ b ∷ unescape_wat_string rest
unfolding unescape_wat_string
high_digit b rest h k =
    let (hex, value) = every_digit (b / 16) (omega arith) in
    let (hex', value') = every_digit (b % 16) (omega arith) in
    rw
      (
        unescape_wat_string,
        letter-digit (b / 16) (omega arith) (omega arith),
        hex,
        hex',
        value,
        value',
        join_nibbles b k,
      )
      refl

low_digit :
    (b : ℕ) (rest : List ℕ)
    → b < 16
    → unescape_wat_string (92 ∷ digit (b / 16) ∷ digit (b % 16) ∷ rest)
      ≡ 0 ∷ unescape_wat_string (digit b ∷ rest)
unfolding unescape_wat_string letter
low_digit b rest h =
    let zero_ : b / 16 ≡ 0 = omega arith in
    let low : b % 16 ≡ b = omega arith in
    rw zero_ (ap (λ n. 0 ∷ unescape_wat_string (digit n ∷ rest)) low)

-- Two cases with one result.
either_way :
    (ls : List ℕ) (x y z : List ℕ) (f : ℕ → List ℕ)
    → x ≡ z
    → ((e : ℕ) → f e ≡ z)
    → (elim ls [ [] ↦ x | e ∷ es ↦ f e ]) ≡ z
either_way [] x y z f h k = h
either_way (e ∷ es) x y z f h k = k e

plain_first :
    (b : ℕ) (rest : List ℕ) → b ≢ 92 → unescape_wat_string (b ∷ rest) ≡ b ∷ unescape_wat_string rest
unfolding unescape_wat_string
plain_first b [] h = refl
plain_first b (c ∷ []) h =
    let other : (b == 92) ≡ false = ground (arith, h) in
    either_way (letter c) _ [] _ _ refl (λ e. rw other refl)
plain_first b (c ∷ d ∷ rest) h =
    let other : (b == 92) ≡ false = ground (arith, h) in
    either_way (letter c) _ [] _ _ (rw other refl) (λ e. rw other refl)

digit-ne-backslash : (b : ℕ) → b < 16 → digit b ≢ 92
digit-ne-backslash b h = λ e. ground (arith, e)

-- A string of bytes written as a backslash and two hexadecimal digits each is read back where no byte
-- is below 16; each byte below 16 becomes a zero byte and the character of its second digit.
pub unescape_wat_string-escape_hex :
    (bytes : List ℕ)
    → All (λ b. b < 256) bytes
    → unescape_wat_string (escape_hex bytes) ≡ misread bytes
unfolding unescape_wat_string
unescape_wat_string-escape_hex [] h = refl
unescape_wat_string-escape_hex (b ∷ bs) h = elim (Bool-cases (ltb b 16)) [
  | inl t ↦
      let small = ltb→lt b 16 t in
      low_digit b (escape_hex bs) small
      ∙ ap (λ l. 0 ∷ l)
          (plain_first (digit b) (escape_hex bs) (digit-ne-backslash b small)
            ∙ ap (λ l. digit b ∷ l) (unescape_wat_string-escape_hex bs h.1))
      ∙ rw t refl
  | inr t ↦
      high_digit b (escape_hex bs) (ltb_false→le b 16 t) h.0
      ∙ ap (λ l. b ∷ l) (unescape_wat_string-escape_hex bs h.1)
      ∙ rw t refl
]
