-- ===== src/Base/Lists.antt =====
-- Slices, arrays and vectors as lists with native indices.
use Prim.Native.Nat.{ℕ, zero, suc, ◌+◌, ◌-◌, ◌≤◌, ◌<◌, min}
use mathlib.Core.Path.{◌≡◌, refl, ap}
use mathlib.Core.Logic.{◌≢◌, ◌⊎◌, inl, inr}
use mathlib.Core.List.{List, [], ◌∷◌, ◌++◌}
use mathlib.Core.Option.{Option, none, some}
use native.Mathlib.Omega.{arith}

module _ {ℓ} {A : Type ℓ} where
  abbrev pub length : List A → ℕ
  length [] = 0
  length (x ∷ xs) = suc (length xs)

  abbrev pub get_elem? : List A → ℕ → Option A
  get_elem? [] i = none
  get_elem? (x ∷ xs) zero = some x
  get_elem? (x ∷ xs) (suc i) = get_elem? xs i

  -- A read with a default, for reads whose bounds the code has checked.
  abbrev pub get_or : List A → ℕ → A → A
  get_or [] i d = d
  get_or (x ∷ xs) zero d = x
  get_or (x ∷ xs) (suc i) d = get_or xs i d

  -- A write out of bounds changes nothing.
  abbrev pub set : List A → ℕ → A → List A
  set [] i v = []
  set (x ∷ xs) zero v = v ∷ xs
  set (x ∷ xs) (suc i) v = x ∷ set xs i v

  abbrev pub take : ℕ → List A → List A
  take zero xs = []
  take (suc n) [] = []
  take (suc n) (x ∷ xs) = x ∷ take n xs

  abbrev pub drop : ℕ → List A → List A
  drop zero xs = xs
  drop (suc n) [] = []
  drop (suc n) (x ∷ xs) = drop n xs

  abbrev pub replicate : ℕ → A → List A
  replicate zero a = []
  replicate (suc n) a = a ∷ replicate n a

  -- `xs[from .. from + n]`
  abbrev pub slice : List A → ℕ → ℕ → List A
  slice xs from n = take n (drop from xs)

  -- `xs[from .. from + ys.len()].copy_from_slice(ys)`, as far as it lies inside `xs`.
  abbrev pub overwrite : List A → ℕ → List A → List A
  overwrite [] from ys = []
  overwrite (x ∷ xs) (suc from) ys = x ∷ overwrite xs from ys
  overwrite (x ∷ xs) zero [] = x ∷ xs
  overwrite (x ∷ xs) zero (y ∷ ys) = y ∷ overwrite xs zero ys

  abbrev pub All {κ} : (A → Type κ) → List A → Type κ
  All P [] = Unit {κ}
  All P (x ∷ xs) = P x × All P xs

  pub length-append : (xs ys : List A) → length (xs ++ ys) ≡ length xs + length ys
  length-append [] ys = omega arith
  length-append (x ∷ xs) ys = omega (arith, length-append xs ys)

  pub length-set : (xs : List A) (i : ℕ) (v : A) → length (set xs i v) ≡ length xs
  length-set [] i v = refl
  length-set (x ∷ xs) zero v = refl
  length-set (x ∷ xs) (suc i) v = ap suc (length-set xs i v)

  pub length-drop : (n : ℕ) (xs : List A) → length (drop n xs) ≡ length xs - n
  length-drop zero xs = omega arith
  length-drop (suc n) [] = omega arith
  length-drop (suc n) (x ∷ xs) = omega (arith, length-drop n xs)

  pub length-take : (n : ℕ) (xs : List A) → length (take n xs) ≡ min n (length xs)
  length-take zero xs = omega arith
  length-take (suc n) [] = omega arith
  length-take (suc n) (x ∷ xs) = omega (arith, length-take n xs)

  pub length-replicate : (n : ℕ) (a : A) → length (replicate n a) ≡ n
  length-replicate zero a = refl
  length-replicate (suc n) a = ap suc (length-replicate n a)

  pub length-overwrite :
      (xs : List A) (i : ℕ) (ys : List A) → length (overwrite xs i ys) ≡ length xs
  length-overwrite [] i ys = refl
  length-overwrite (x ∷ xs) (suc i) ys = ap suc (length-overwrite xs i ys)
  length-overwrite (x ∷ xs) zero [] = refl
  length-overwrite (x ∷ xs) zero (y ∷ ys) = ap suc (length-overwrite xs zero ys)

module _ {ℓ} {A : Type ℓ} where
  pub get_or-set_self :
      (xs : List A) (i : ℕ) (v d : A) → i < length xs → get_or (set xs i v) i d ≡ v
  get_or-set_self [] i v d h = elim h [ ]
  get_or-set_self (x ∷ xs) zero v d h = refl
  get_or-set_self (x ∷ xs) (suc i) v d h = get_or-set_self xs i v d (omega arith)

  pub get_or-set_ne :
      (xs : List A) (i j : ℕ) (v d : A) → i ≢ j → get_or (set xs i v) j d ≡ get_or xs j d
  get_or-set_ne [] i j v d h = refl
  get_or-set_ne (x ∷ xs) zero zero v d h = absurd (h refl)
  get_or-set_ne (x ∷ xs) zero (suc j) v d h = refl
  get_or-set_ne (x ∷ xs) (suc i) zero v d h = refl
  get_or-set_ne (x ∷ xs) (suc i) (suc j) v d h = get_or-set_ne xs i j v d (λ e. h (ap suc e))

  pub drop-append : (xs ys : List A) → drop (length xs) (xs ++ ys) ≡ ys
  drop-append [] ys = refl
  drop-append (x ∷ xs) ys = drop-append xs ys

  pub take-append : (xs ys : List A) → take (length xs) (xs ++ ys) ≡ xs
  take-append [] ys = refl
  take-append (x ∷ xs) ys = ap (◌∷◌ x) (take-append xs ys)

  pub drop_all : (n : ℕ) (xs : List A) → length xs ≤ n → drop n xs ≡ []
  drop_all zero [] h = refl
  drop_all zero (x ∷ xs) h = absurd (omega arith)
  drop_all (suc n) [] h = refl
  drop_all (suc n) (x ∷ xs) h = drop_all n xs (omega arith)

  pub take_all : (n : ℕ) (xs : List A) → length xs ≤ n → take n xs ≡ xs
  take_all zero [] h = refl
  take_all zero (x ∷ xs) h = absurd (omega arith)
  take_all (suc n) [] h = refl
  take_all (suc n) (x ∷ xs) h = ap (◌∷◌ x) (take_all n xs (omega arith))

pub All-append {ℓ κ} :
    {A : Type ℓ} (P : A → Type κ) (xs ys : List A) → All P xs → All P ys → All P (xs ++ ys)
All-append P [] ys h k = k
All-append P (x ∷ xs) ys h k = (h.0, All-append P xs ys h.1 k)

pub All-drop {ℓ κ} :
    {A : Type ℓ} (P : A → Type κ) (n : ℕ) (xs : List A) → All P xs → All P (drop n xs)
All-drop P zero xs h = h
All-drop P (suc n) [] h = h
All-drop P (suc n) (x ∷ xs) h = All-drop P n xs h.1

module _ {ℓ} {A : Type ℓ} where
  pub get_or-append :
      (xs : List A) (y : A) (ys : List A) (d : A) → get_or (xs ++ y ∷ ys) (length xs) d ≡ y
  get_or-append [] y ys d = refl
  get_or-append (x ∷ xs) y ys d = get_or-append xs y ys d

  -- After a write every place holds what was written or what it held.
  pub get_or-set_either :
      (xs : List A) (i j : ℕ) (v d : A)
      → (get_or (set xs i v) j d ≡ v) ⊎ (get_or (set xs i v) j d ≡ get_or xs j d)
  get_or-set_either [] i j v d = inr refl
  get_or-set_either (x ∷ xs) zero zero v d = inl refl
  get_or-set_either (x ∷ xs) zero (suc j) v d = inr refl
  get_or-set_either (x ∷ xs) (suc i) zero v d = inr refl
  get_or-set_either (x ∷ xs) (suc i) (suc j) v d = get_or-set_either xs i j v d

  pub get_or-replicate : (n : ℕ) (d : A) (i : ℕ) → get_or (replicate n d) i d ≡ d
  get_or-replicate zero d i = refl
  get_or-replicate (suc n) d zero = refl
  get_or-replicate (suc n) d (suc i) = get_or-replicate n d i

module _ {ℓ κ} {A : Type ℓ} (P : A → Type κ) where
  pub All-set : (xs : List A) (i : ℕ) (v : A) → All P xs → P v → All P (set xs i v)
  All-set [] i v h k = h
  All-set (x ∷ xs) zero v h k = (k, h.1)
  All-set (x ∷ xs) (suc i) v h k = (h.0, All-set xs i v h.1 k)

  pub All-get_or : (xs : List A) (i : ℕ) (d : A) → All P xs → P d → P (get_or xs i d)
  All-get_or [] i d h k = k
  All-get_or (x ∷ xs) zero d h k = h.0
  All-get_or (x ∷ xs) (suc i) d h k = All-get_or xs i d h.1 k

module _ {ℓ} {A : Type ℓ} where
  pub drop-set_lt : (k : ℕ) (xs : List A) (i : ℕ) (v : A) → i < k → drop k (set xs i v) ≡ drop k xs
  drop-set_lt k [] i v h = refl
  drop-set_lt zero (x ∷ xs) i v h = absurd (omega arith)
  drop-set_lt (suc k) (x ∷ xs) zero v h = refl
  drop-set_lt (suc k) (x ∷ xs) (suc i) v h = drop-set_lt k xs i v (omega arith)

  pub take-set_self : (k : ℕ) (xs : List A) (v : A) → take k (set xs k v) ≡ take k xs
  take-set_self zero xs v = refl
  take-set_self (suc k) [] v = refl
  take-set_self (suc k) (x ∷ xs) v = ap (◌∷◌ x) (take-set_self k xs v)

  pub take-take : (k : ℕ) (xs : List A) → take k (take (suc k) xs) ≡ take k xs
  take-take zero xs = refl
  take-take (suc k) [] = refl
  take-take (suc k) (x ∷ xs) = ap (◌∷◌ x) (take-take k xs)

  pub get_or-take : (k : ℕ) (xs : List A) (d : A) → get_or (take (suc k) xs) k d ≡ get_or xs k d
  get_or-take k [] d = refl
  get_or-take zero (x ∷ xs) d = refl
  get_or-take (suc k) (x ∷ xs) d = get_or-take k xs d

  -- A slice with at least one element in range.
  pub slice-suc :
      (xs : List A) (i n : ℕ) (d : A)
      → i < length xs
      → slice xs i (suc n) ≡ get_or xs i d ∷ slice xs (suc i) n
  slice-suc [] i n d h = absurd (omega arith)
  slice-suc (x ∷ xs) zero n d h = refl
  slice-suc (x ∷ xs) (suc i) n d h = slice-suc xs i n d (omega arith)

  pub overwrite-nil : (xs : List A) (i : ℕ) → overwrite xs i [] ≡ xs
  overwrite-nil [] i = refl
  overwrite-nil (x ∷ xs) zero = refl
  overwrite-nil (x ∷ xs) (suc i) = ap (◌∷◌ x) (overwrite-nil xs i)

  -- What was written is read back.
  pub slice-overwrite :
      (xs : List A) (i : ℕ) (ys : List A)
      → i + length ys ≤ length xs
      → slice (overwrite xs i ys) i (length ys) ≡ ys
  slice-overwrite xs i [] h = refl
  slice-overwrite [] i (y ∷ ys) h = absurd (omega arith)
  slice-overwrite (x ∷ xs) zero (y ∷ ys) h = ap (◌∷◌ y) (slice-overwrite xs zero ys (omega arith))
  slice-overwrite (x ∷ xs) (suc i) (y ∷ ys) h = slice-overwrite xs i (y ∷ ys) (omega arith)

  take-overwrite :
      (n : ℕ) (xs : List A) (i : ℕ) (ys : List A) → n ≤ i → take n (overwrite xs i ys) ≡ take n xs
  take-overwrite zero xs i ys h = refl
  take-overwrite (suc n) [] i ys h = refl
  take-overwrite (suc n) (x ∷ xs) zero ys h = absurd (omega arith)
  take-overwrite (suc n) (x ∷ xs) (suc i) ys h = ap (◌∷◌ x) (take-overwrite n xs i ys (omega arith))

  -- What lies in front of a write is untouched, and so is what lies behind it.
  pub slice-overwrite_before :
      (xs : List A) (i : ℕ) (ys : List A) (j n : ℕ)
      → j + n ≤ i
      → slice (overwrite xs i ys) j n ≡ slice xs j n
  slice-overwrite_before xs i ys zero n h = take-overwrite n xs i ys (omega arith)
  slice-overwrite_before [] i ys (suc j) n h = refl
  slice-overwrite_before (x ∷ xs) zero ys (suc j) n h = absurd (omega arith)
  slice-overwrite_before (x ∷ xs) (suc i) ys (suc j) n h =
      slice-overwrite_before xs i ys j n (omega arith)

  pub drop-overwrite :
      (j : ℕ) (xs : List A) (i : ℕ) (ys : List A)
      → i + length ys ≤ j
      → drop j (overwrite xs i ys) ≡ drop j xs
  drop-overwrite j [] i ys h = refl
  drop-overwrite j (x ∷ xs) zero [] h = refl
  drop-overwrite zero (x ∷ xs) zero (y ∷ ys) h = absurd (omega arith)
  drop-overwrite (suc j) (x ∷ xs) zero (y ∷ ys) h = drop-overwrite j xs zero ys (omega arith)
  drop-overwrite zero (x ∷ xs) (suc i) ys h = absurd (omega arith)
  drop-overwrite (suc j) (x ∷ xs) (suc i) ys h = drop-overwrite j xs i ys (omega arith)

  pub set-set : (xs : List A) (i : ℕ) (v w : A) → set (set xs i v) i w ≡ set xs i w
  set-set [] i v w = refl
  set-set (x ∷ xs) zero v w = refl
  set-set (x ∷ xs) (suc i) v w = ap (◌∷◌ x) (set-set xs i v w)

pub All-get_elem? {ℓ κ} :
    {A : Type ℓ} (P : A → Type κ) (xs : List A) (i : ℕ)
    → All P xs
    → i < length xs
    → (x : A) × (get_elem? xs i ≡ some x) × P x
All-get_elem? P [] i h k = absurd (omega arith)
All-get_elem? P (x ∷ xs) zero h k = (x, refl, h.0)
All-get_elem? P (x ∷ xs) (suc i) h k = All-get_elem? P xs i h.1 (omega arith)

pub All-replicate {ℓ κ} :
    {A : Type ℓ} (P : A → Type κ) (n : ℕ) (a : A) → P a → All P (replicate n a)
All-replicate P zero a h = tt
All-replicate P (suc n) a h = (h, All-replicate P n a h)

pub get_or-get_elem? {ℓ} :
    {A : Type ℓ} (xs : List A) (i : ℕ) (x d : A)
    → get_elem? xs i ≡ some x
    → (get_or xs i d ≡ x) × (i < length xs)
get_or-get_elem? [] i x d h = ground arith
get_or-get_elem? (y ∷ xs) zero x d h = (ground arith, omega arith)
get_or-get_elem? (y ∷ xs) (suc i) x d h =
    let (e, lt) = get_or-get_elem? xs i x d h in (e, omega arith)

pub get_elem?-lt {ℓ} :
    {A : Type ℓ} (xs : List A) (i : ℕ) → i < length xs → (x : A) × (get_elem? xs i ≡ some x)
get_elem?-lt [] i h = absurd (omega arith)
get_elem?-lt (x ∷ xs) zero h = (x, refl)
get_elem?-lt (x ∷ xs) (suc i) h = get_elem?-lt xs i (omega arith)

pub get_elem?-append {ℓ} :
    {A : Type ℓ} (xs : List A) (y : A) (ys : List A) → get_elem? (xs ++ y ∷ ys) (length xs) ≡ some y
get_elem?-append [] y ys = refl
get_elem?-append (x ∷ xs) y ys = get_elem?-append xs y ys
