-- ===== src/Wasm/Interp/Num/Laws.antt =====
-- Division, remainder and the ranges of the integer instructions.
use wasm_os.Base.{
  ℕ, ◌+◌, ◌-◌, ◌*◌, ◌/◌, ◌%◌, ◌^◌, ◌≤◌, ◌<◌, Bool, true, false, not, ◌≡◌, ◌≢◌, refl, ◌⊎◌, inr,
  arith, if◌then◌else◌,
}
use native.Mathlib.Decide.{dec_lt}
use native.Mathlib.Nat.{mod-lt, div-add-mod}
use wasm_os.Wasm.Interp.Num.{
  is_negative, magnitude, negated, same_sign, wrapping_div, wrapping_rem, reinterpret_i32,
}

magnitude-le : (a : ℕ) → a < 2 ^ 32 → magnitude 32 a ≤ 2 ^ 31
magnitude-le a h = ground arith

magnitude-pos : (a : ℕ) → a < 2 ^ 32 → a ≢ 0 → 1 ≤ magnitude 32 a
magnitude-pos a h nz = ground arith

negated_lem :
    (q : ℕ)
    → q ≤ 2 ^ 31
    → (magnitude 32 (negated 32 q) ≡ q)
      × ((negated 32 q ≡ 0) ⊎ (is_negative 32 (negated 32 q) ≡ true))
negated_lem q h = (ground arith, ground arith)

plain_lem : (q : ℕ) → q < 2 ^ 31 → (magnitude 32 q ≡ q) × (is_negative 32 q ≡ false)
plain_lem q h = (ground arith, ground arith)

-- A magnitude put under a sign.
rem_sign :
    (neg : Bool) (r : ℕ)
    → r < 2 ^ 31
    → let p = if neg then negated 32 r else r in
      (magnitude 32 p ≡ r) × ((p ≡ 0) ⊎ (is_negative 32 p ≡ neg))
rem_sign true r h = negated_lem r (omega arith)
rem_sign false r h = (ground (arith, plain_lem r h), inr (ground (arith, plain_lem r h)))

quot_sign :
    (same : Bool) (q : ℕ)
    → q ≤ 2 ^ 31
    → (same ≡ true → q < 2 ^ 31)
    → let p = if same then q else negated 32 q in
      (magnitude 32 p ≡ q) × ((p ≡ 0) ⊎ (is_negative 32 p ≡ not same))
quot_sign true q h k =
    (ground (arith, plain_lem q (k refl)), inr (ground (arith, plain_lem q (k refl))))
quot_sign false q h k = negated_lem q h

rem-lt : (m n : ℕ) → 1 ≤ n → n ≤ 2 ^ 31 → m % n < 2 ^ 31
rem-lt m n h k = omega (arith, mod-lt m h)

quot-le : (m n : ℕ) → 1 ≤ n → m / n ≤ m
quot-le m n h = grind (arith, div-add-mod m n)

-- A quotient as large as 2 ^ 31 has the dividend i32::MIN and a divisor of magnitude one.
quot-max : (m n : ℕ) → 1 ≤ n → m ≤ 2 ^ 31 → 2 ^ 31 ≤ m / n → (m ≡ 2 ^ 31) × (n ≡ 1)
quot-max m n h k l = (grind (arith, div-add-mod m n), grind (arith, div-add-mod m n))

quot_small :
    (a b : ℕ)
    → a < 2 ^ 32
    → b < 2 ^ 32
    → b ≢ 0
    → (a ≢ 2 ^ 31) ⊎ (b ≢ 2 ^ 32 - 1)
    → same_sign 32 a b ≡ true
    → magnitude 32 a / magnitude 32 b < 2 ^ 31
quot_small a b ha hb nz fits same = elim (dec_lt (m / n) (2 ^ 31)) [
  | yes small ↦ small
  | no large ↦
      let (em, en) = quot-max m n (magnitude-pos b hb nz) (magnitude-le a ha) (omega arith) in
      absurd (no_overflow em en)
]
  where
    m : ℕ
    m = magnitude 32 a

    n : ℕ
    n = magnitude 32 b

    no_overflow : magnitude 32 a ≡ 2 ^ 31 → magnitude 32 b ≡ 1 → ⊥
    no_overflow em en = ground arith

-- Signed division of 32-bit words, away from a zero divisor and from i32::MIN / -1: quotient and
-- remainder recombine to the dividend in magnitude, the remainder is smaller than the divisor and
-- takes the dividend's sign, and the quotient is negative only where the signs differ.
pub wrapping_div_lem :
    (a b : ℕ)
    → a < 2 ^ 32
    → b < 2 ^ 32
    → b ≢ 0
    → (a ≢ 2 ^ 31) ⊎ (b ≢ 2 ^ 32 - 1)
    → (magnitude 32 (wrapping_div 32 a b) * magnitude 32 b + magnitude 32 (wrapping_rem 32 a b)
        ≡ magnitude 32 a)
      × (magnitude 32 (wrapping_rem 32 a b) < magnitude 32 b)
      × ((wrapping_rem 32 a b ≡ 0) ⊎ (is_negative 32 (wrapping_rem 32 a b) ≡ is_negative 32 a))
      × ((wrapping_div 32 a b ≡ 0)
          ⊎ (is_negative 32 (wrapping_div 32 a b) ≡ not (same_sign 32 a b)))
unfolding wrapping_div wrapping_rem
wrapping_div_lem a b ha hb nz fits =
    let r =
      rem_sign (is_negative 32 a) (m % n)
        (rem-lt m n (magnitude-pos b hb nz) (magnitude-le b hb)) in
    let q =
      quot_sign (same_sign 32 a b) (m / n)
        (omega (arith, quot-le m n (magnitude-pos b hb nz), magnitude-le a ha))
        (quot_small a b ha hb nz fits) in
    (
      rw (q.0, r.0) (omega (arith, div-add-mod m n)),
      rw r.0 (mod-lt m (magnitude-pos b hb nz)),
      r.1,
      q.1,
    )
  where
    m : ℕ
    m = magnitude 32 a

    n : ℕ
    n = magnitude 32 b

-- The bits stay as they are.
pub reinterpret_i32_lem : (a : ℕ) → a < 2 ^ 32 → reinterpret_i32 a ≡ a
unfolding reinterpret_i32
reinterpret_i32_lem a h = omega arith
