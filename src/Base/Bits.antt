-- ===== src/Base/Bits.antt =====
-- Masks, shifted fields and flags as arithmetic.
use Prim.Native.Nat.{bit_and, bit_or, digits, bit_and-bitwise, bit_or-bitwise}
use Prim.Native.Nat.{ℕ, zero, suc, ◌≤◌, ◌<◌, max, min, ◌-◌, ◌+◌, ◌*◌, ◌/◌, ◌%◌, ◌^◌}
use mathlib.Core.Path.{◌≡◌, refl, ap, ap₂, ◌∙◌}
use mathlib.Core.Bool.{Bool, true, ◌&&◌}
use native.Mathlib.Nat.{pow-suc, one-le-pow, div-add-mod, mod-lt}
use native.Mathlib.Omega.{arith}
use wasm_os.Base.Tests.{◌==◌, ==→eq}

-- A property of all numbers below a bound, by evaluation.
every_below : ℕ → (ℕ → Bool) → Bool
every_below zero p = true
every_below (suc n) p = p n && every_below n p

every_below→ : (n : ℕ) (p : ℕ → Bool) (x : ℕ) → every_below n p ≡ true → x < n → p x ≡ true
unfolding every_below
every_below→ zero p x h lt = absurd (omega arith)
every_below→ (suc n) p x h lt = ground (arith, every_below→ n p x)

eq_by_table :
    (n : ℕ) (f g : ℕ → ℕ) → every_below n (λ x. f x == g x) ≡ true → (x : ℕ) → x < n → f x ≡ g x
eq_by_table n f g t x h = ==→eq (f x) (g x) (every_below→ n _ x t h)

-- `byte & 0x7F`
pub low_seven : (b : ℕ) → b < 256 → bit_and b 0x7f ≡ b % 128
unfolding every_below
low_seven = eq_by_table 256 _ _ refl

-- `byte & 0x80`
pub high_bit : (b : ℕ) → b < 256 → bit_and b 0x80 ≡ b / 128 * 128
unfolding every_below
high_bit = eq_by_table 256 _ _ refl

-- `byte & 0x40`
pub sign_bit : (b : ℕ) → b < 256 → bit_and b 0x40 ≡ b / 64 % 2 * 64
unfolding every_below
sign_bit = eq_by_table 256 _ _ refl

-- `(hi << 4) | lo`
pub join_nibbles : (b : ℕ) → b < 256 → bit_or (b / 16 * 2 ^ 4) (b % 16) ≡ b
unfolding every_below
join_nibbles = eq_by_table 256 _ _ refl

-- The fuel of the library's digit recursion does not matter once it is enough.
module _ (base : ℕ → ℕ) (digit : ℕ → ℕ → ℕ) where
  digits_fuel : (n m x y : ℕ) → x ≤ n → x ≤ m → digits base digit n x y ≡ digits base digit m x y
  digits_fuel zero zero x y p q = refl
  digits_fuel zero (suc m) zero y p q = refl
  digits_fuel zero (suc m) (suc x) y p q = absurd (omega arith)
  digits_fuel (suc n) zero zero y p q = refl
  digits_fuel (suc n) zero (suc x) y p q = absurd (omega arith)
  digits_fuel (suc n) (suc m) zero y p q = refl
  digits_fuel (suc n) (suc m) (suc x) y p q =
      let halves = digits_fuel n m (suc x / 2) (y / 2) (omega arith) (omega arith) in
      omega (arith, halves)

zero-bit_or : (y : ℕ) → bit_or 0 y ≡ y
zero-bit_or y = simp bit_or-bitwise

bit_or-halves : (x y : ℕ) → bit_or x y ≡ max (x % 2) (y % 2) + 2 * bit_or (x / 2) (y / 2)
bit_or-halves zero y = omega (arith, zero-bit_or y, zero-bit_or (y / 2))
bit_or-halves (suc x) y =
    let enough =
      digits_fuel (λ y. y) max x (suc x / 2) (suc x / 2) (y / 2) (omega arith) (omega arith) in
    omega (arith, enough, bit_or-bitwise (suc x / 2) (y / 2), bit_or-bitwise (suc x) y)

double_shift : (m k : ℕ) → m * 2 ^ suc k ≡ 2 * (m * 2 ^ k)
double_shift m k = omega (arith, ap (λ (t : ℕ). m * t) (pow-suc 2 k))

-- `a | (m << k)` is a sum where `a` has at most `k` bits.
pub bit_or-shifted : (k a m : ℕ) → a < 2 ^ k → bit_or a (m * 2 ^ k) ≡ a + m * 2 ^ k
bit_or-shifted zero a m h = let e : a ≡ 0 = omega arith in rw (e, zero-bit_or) (omega arith)
bit_or-shifted (suc k) a m h = omega (
  arith,
  bit_or-halves a (m * 2 ^ suc k),
  double_shift m k,
  pow-suc 2 k,
  ap (λ (t : ℕ). bit_or (a / 2) t) (halved m k),
  bit_or-shifted k (a / 2) m (omega (arith, pow-suc 2 k)),
)
  where
    halved : (m k : ℕ) → m * 2 ^ suc k / 2 ≡ m * 2 ^ k
    halved m k = omega (arith, double_shift m k)

zero-bit_and : (y : ℕ) → bit_and 0 y ≡ 0
zero-bit_and y = simp bit_and-bitwise

bit_and-halves : (x y : ℕ) → bit_and x y ≡ min (x % 2) (y % 2) + 2 * bit_and (x / 2) (y / 2)
bit_and-halves zero y = omega (arith, zero-bit_and y, zero-bit_and (y / 2))
bit_and-halves (suc x) y =
    let enough =
      digits_fuel (λ y. 0) min x (suc x / 2) (suc x / 2) (y / 2) (omega arith) (omega arith) in
    omega (arith, enough, bit_and-bitwise (suc x / 2) (y / 2), bit_and-bitwise (suc x) y)

bit_and-zero_upto : (n a : ℕ) → a ≤ n → bit_and a 0 ≡ 0
bit_and-zero_upto n zero h = zero-bit_and 0
bit_and-zero_upto zero (suc a) h = absurd (omega arith)
bit_and-zero_upto (suc n) (suc a) h =
    omega (arith, bit_and-halves (suc a) 0, bit_and-zero_upto n (suc a / 2) (omega arith))

-- A mask of `k` ones keeps the lowest `k` bits.
bit_and-low : (k r q : ℕ) → r < 2 ^ k → bit_and (r + q * 2 ^ k) (2 ^ k - 1) ≡ r
bit_and-low zero r q h = omega (arith, bit_and-zero_upto (r + q * 1) (r + q * 1) (omega arith))
bit_and-low (suc k) r q h = omega (
  arith,
  bit_and-halves (r + q * 2 ^ suc k) (2 ^ suc k - 1),
  double_shift q k,
  pow-suc 2 k,
  one-le-pow k 2,
  ap₂ bit_and halved masked,
  bit_and-low k (r / 2) q (omega (arith, pow-suc 2 k)),
)
  where
    halved : (r + q * 2 ^ suc k) / 2 ≡ r / 2 + q * 2 ^ k
    halved = omega (arith, double_shift q k)

    masked : (2 ^ suc k - 1) / 2 ≡ 2 ^ k - 1
    masked = omega (arith, pow-suc 2 k, one-le-pow k 2)

pub bit_and_mask : (k a : ℕ) → bit_and a (2 ^ k - 1) ≡ a % 2 ^ k
bit_and_mask k a =
    ap (λ (t : ℕ). bit_and t (2 ^ k - 1)) parts
    ∙ bit_and-low k (a % 2 ^ k) (a / 2 ^ k) (mod-lt a positive)
  where
    positive : 0 < 2 ^ k
    positive = omega (arith, one-le-pow k 2)

    parts : a ≡ a % 2 ^ k + a / 2 ^ k * 2 ^ k
    parts = omega (arith, div-add-mod a (2 ^ k))

pub bit_and_mask-lt : (k a : ℕ) → bit_and a (2 ^ k - 1) < 2 ^ k
bit_and_mask-lt k a =
    let positive : 0 < 2 ^ k = omega (arith, one-le-pow k 2) in rw bit_and_mask (mod-lt a positive)
