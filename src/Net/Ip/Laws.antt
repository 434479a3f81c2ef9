-- ===== src/Net/Ip/Laws.antt =====
-- The checksum: the loops and what a receiver computes.
use mathlib.Core.Option
use wasm_os.Base.{
  ℕ, ◌+◌, ◌-◌, ◌*◌, ◌/◌, ◌%◌, ◌^◌, ◌≤◌, ◌<◌, Bool-cases, ltb→lt, List, [], ◌∷◌, ◌++◌, Option, some,
  ltb, length, All, ◌≡◌, refl, sym, inl, inr, ap, ◌∙◌, arith,
}
use wasm_os.Net.Ip.{add_words, fold_sum, fold_fuel, complement, ip_chksum}

-- The sum of the words without a bound.
unfoldable pub words : List ℕ → ℕ
words [] = 0
words (a ∷ []) = 256 * a
words (a ∷ b ∷ rest) = 256 * a + b + words rest

pub add_words-words :
    (sum : ℕ) (bytes : List ℕ)
    → sum + words bytes < 2 ^ 32
    → add_words sum bytes ≡ sum + words bytes
unfolding add_words words
add_words-words sum [] h = omega arith
add_words-words sum (a ∷ []) h = omega arith
add_words-words sum (a ∷ b ∷ rest) h =
    omega (arith, add_words-words ((sum + (256 * a + b)) % 2 ^ 32) rest (omega arith))

-- What folding answers for a u32.
pub fold_sum-value :
    (sum : ℕ)
    → sum < 2 ^ 32
    → (f : ℕ) × (fold_sum fold_fuel sum ≡ some f)
      × (f < 65536)
      × ((q : ℕ) × (sum ≡ f + 65535 * q))
      × (0 < sum → 0 < f)
unfolding fold_sum
fold_sum-value sum h = elim (Bool-cases (ltb 65535 sum)) [
  | inr e ↦ (sum, rw e refl, ground arith, (0, omega arith), λ p. p)
  | inl e ↦
      let s1 = sum % 65536 + sum / 65536 in
      elim (Bool-cases (ltb 65535 s1)) [
        | inr e1 ↦
            (s1, rw (e, e1) refl, ground arith, (sum / 65536, omega arith), λ p. ground arith)
        | inl e1 ↦
            let lt = ltb→lt 65535 s1 e1 in
            (
              s1 % 65536 + s1 / 65536,
              ground arith,
              omega arith,
              (sum / 65536 + s1 / 65536, omega arith),
              λ p. omega arith,
            )
      ]
]

-- A sum and the complement of its fold make, folded, all ones.
pub fold_sum-complement :
    (sum f : ℕ)
    → 0 < sum
    → sum + 65535 < 2 ^ 32
    → fold_sum fold_fuel sum ≡ some f
    → fold_sum fold_fuel (sum + complement f) ≡ some 65535
unfolding complement
fold_sum-complement sum f pos h e =
    let (g, eg, lt, (q, eq), gpos) = fold_sum-value sum (omega arith) in
    let (k, ek, ltk, (r, er), kpos) = fold_sum-value (sum + complement f) (omega arith) in
    let same : f ≡ g = ground (arith, e, eg) in
    let all_ones : k ≡ 65535 = omega (arith, er, eq, same, kpos (omega arith), gpos pos) in
    ek ∙ ap some all_ones

-- The words of a list written out in front, where their number is even.
pub words-even :
    (front : List ℕ) (n : ℕ) (rest : List ℕ)
    → length front ≡ 2 * n
    → words (front ++ rest) ≡ words front + words rest
unfolding words
words-even [] n rest e = omega arith
words-even (a ∷ []) n rest e = absurd (omega arith)
words-even (a ∷ b ∷ front) n rest e = omega (arith, words-even front (n - 1) rest (omega arith))

pub words-bound : (bytes : List ℕ) → All (λ b. b < 256) bytes → words bytes ≤ 65535 * length bytes
unfolding words
words-bound [] h = omega arith
words-bound (a ∷ []) h = omega (arith, h.0)
words-bound (a ∷ b ∷ rest) h = omega (arith, h.0, h.1.0, words-bound rest h.1.1)

pub add_words-bound : (sum : ℕ) (bytes : List ℕ) → sum < 2 ^ 32 → add_words sum bytes < 2 ^ 32
unfolding add_words
add_words-bound sum [] h = h
add_words-bound sum (a ∷ []) h = omega arith
add_words-bound sum (a ∷ b ∷ rest) h =
    add_words-bound ((sum + (256 * a + b)) % 2 ^ 32) rest (omega arith)

-- The checksum of any bytes is a u16.
pub ip_chksum-total : (bytes : List ℕ) → (sum : ℕ) × (ip_chksum bytes ≡ some sum) × (sum < 65536)
unfolding ip_chksum complement
ip_chksum-total bytes =
    let (f, e, lt, q, pos) =
      fold_sum-value (add_words 0 bytes) (add_words-bound 0 bytes (omega arith)) in
    (complement f, ap (Option.map complement) e, omega arith)

pub complement-bound : (f : ℕ) → complement f ≤ 65535
unfolding complement
complement-bound f = omega arith

-- A block of bytes with the complement of its folded sum filled in sums to all ones.
pub filled_sum :
    (seed f : ℕ) (before after : List ℕ)
    → 0 < seed + words before
    → seed + words before + 65535 < 2 ^ 32
    → fold_sum fold_fuel (add_words seed before) ≡ some f
    → words after ≡ words before + complement f
    → fold_sum fold_fuel (add_words seed after) ≡ some 65535
filled_sum seed f before after pos h e filled =
    let small = complement-bound f in
    let sum_before = add_words-words seed before (omega arith) in
    let sum_after : add_words seed after ≡ seed + words before + complement f =
      omega (arith, filled, add_words-words seed after (omega (arith, filled, small))) in
    ap (fold_sum fold_fuel) sum_after
    ∙ fold_sum-complement (seed + words before) f pos h
        (sym (ap (fold_sum fold_fuel) sum_before) ∙ e)

ip_chksum-fold :
    (bytes : List ℕ)
    → ip_chksum bytes ≡ Option.map complement (fold_sum fold_fuel (add_words 0 bytes))
unfolding ip_chksum
ip_chksum-fold bytes = refl

complement-all_ones : complement 65535 ≡ 0
unfolding complement
complement-all_ones = refl

complement_found :
    {o : Option ℕ} {f sum : ℕ}
    → Option.map complement o ≡ some sum
    → o ≡ some f
    → sum ≡ complement f
complement_found h e = ground (arith, h, e)

-- Bytes whose checksum is filled in have the checksum zero.
pub ip_chksum-filled :
    (sum : ℕ) (before after : List ℕ)
    → 0 < words before
    → words before + 65535 < 2 ^ 32
    → ip_chksum before ≡ some sum
    → words after ≡ words before + sum
    → ip_chksum after ≡ some 0
ip_chksum-filled sum before after pos h e filled =
    let (f, ef, lt, q, p) =
      fold_sum-value (add_words 0 before) (add_words-bound 0 before (omega arith)) in
    let same = complement_found (sym (ip_chksum-fold before) ∙ e) ef in
    ip_chksum-fold after
    ∙ ap (Option.map complement) (
        filled_sum 0 f before after (omega arith) (omega arith) ef
          (filled ∙ ap (λ x. words before + x) same))
    ∙ ap some complement-all_ones
