-- ===== src/Net/Bytes.antt =====
-- Numbers in network byte order (`u16::to_be_bytes`, `u32::from_be_bytes` and the like of Rust's core
-- library), and arrays of a fixed length as lists.
use wasm_os.Base.{
  ℕ, zero, suc, ◌+◌, ◌*◌, ◌/◌, ◌%◌, ◌≤◌, ◌<◌, List, [], ◌∷◌, ◌++◌, length, get_or, take, overwrite,
  All, All-get_or, ◌≡◌, refl, ap, ◌∙◌, arith,
}

-- A byte string: every element fits in eight bits.
abbrev pub IsByte : ℕ → Type 0
IsByte b = b < 256

abbrev pub be16 : ℕ → List ℕ
be16 v = v / 256 % 256 ∷ v % 256 ∷ []

abbrev pub be32 : ℕ → List ℕ
be32 v = v / 16777216 % 256 ∷ v / 65536 % 256 ∷ v / 256 % 256 ∷ v % 256 ∷ []

-- The number at an offset whose bounds the caller has checked.
abbrev pub be16_at : List ℕ → ℕ → ℕ
be16_at b i = 256 * get_or b i 0 + get_or b (1 + i) 0

abbrev pub be32_at : List ℕ → ℕ → ℕ
be32_at b i = 65536 * be16_at b i + be16_at b (2 + i)

pub be16_value : (v : ℕ) → v < 65536 → 256 * (v / 256 % 256) + v % 256 ≡ v
be16_value v h = omega arith

pub be32_value :
    (v : ℕ)
    → v < 4294967296
    → 65536 * (256 * (v / 16777216 % 256) + v / 65536 % 256) + (256 * (v / 256 % 256) + v % 256) ≡ v
be32_value v h = omega arith

-- What holds of every list of four, or six, elements written out holds of the lists of that length.
pub by_four {κ} :
    (P : List ℕ → Type κ)
    → ((a b c d : ℕ) → P (a ∷ b ∷ c ∷ d ∷ []))
    → (xs : List ℕ) → length xs ≡ 4
    → P xs
by_four P f [] e = absurd (omega arith)
by_four P f (a ∷ []) e = absurd (omega arith)
by_four P f (a ∷ b ∷ []) e = absurd (omega arith)
by_four P f (a ∷ b ∷ c ∷ []) e = absurd (omega arith)
by_four P f (a ∷ b ∷ c ∷ d ∷ []) e = f a b c d
by_four P f (a ∷ b ∷ c ∷ d ∷ x ∷ xs) e = absurd (omega arith)

pub by_six {κ} :
    (P : List ℕ → Type κ)
    → ((a b c d e f : ℕ) → P (a ∷ b ∷ c ∷ d ∷ e ∷ f ∷ []))
    → (xs : List ℕ) → length xs ≡ 6
    → P xs
by_six P p [] h = absurd (omega arith)
by_six P p (a ∷ []) h = absurd (omega arith)
by_six P p (a ∷ b ∷ xs) h = by_four (λ ys. P (a ∷ b ∷ ys)) (p a b) xs (omega arith)

module _ {ℓ} {A : Type ℓ} where
  -- Up to the end of what was written, the list is its own beginning and what was written.
  take-overwrite_end :
      (n : ℕ) (xs : List A) (i : ℕ) (ys : List A)
      → n ≡ i + length ys
      → i + length ys ≤ length xs
      → take n (overwrite xs i ys) ≡ take i xs ++ ys
  take-overwrite_end zero xs zero [] e h = refl
  take-overwrite_end zero xs zero (y ∷ ys) e h = absurd (omega arith)
  take-overwrite_end zero xs (suc i) ys e h = absurd (omega arith)
  take-overwrite_end (suc n) [] i ys e h = absurd (omega arith)
  take-overwrite_end (suc n) (x ∷ xs) (suc i) ys e h =
      ap (◌∷◌ x) (take-overwrite_end n xs i ys (omega arith) (omega arith))
  take-overwrite_end (suc n) (x ∷ xs) zero [] e h = absurd (omega arith)
  take-overwrite_end (suc n) (x ∷ xs) zero (y ∷ ys) e h =
      ap (◌∷◌ y) (take-overwrite_end n xs zero ys (omega arith) (omega arith))

  -- A write right behind a known beginning extends it.
  pub take-overwrite_next :
      (xs : List A) (i : ℕ) (ys : List A) (n : ℕ) {front : List A}
      → length ys ≡ n
      → i + n ≤ length xs
      → take i xs ≡ front
      → take (i + n) (overwrite xs i ys) ≡ front ++ ys
  take-overwrite_next xs i ys n {front} e h f =
      take-overwrite_end (i + n) xs i ys (omega (arith, e)) (omega (arith, e)) ∙ ap (λ l. l ++ ys) f

pub be16_at-bound : (xs : List ℕ) (i : ℕ) → All IsByte xs → be16_at xs i < 65536
be16_at-bound xs i h = omega (
  arith,
  All-get_or IsByte xs i 0 h (omega arith),
  All-get_or IsByte xs (1 + i) 0 h (omega arith),
)
