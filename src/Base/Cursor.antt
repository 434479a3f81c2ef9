-- ===== src/Base/Cursor.antt =====
-- A cursor into a list: what is left from a position on.
use Prim.Native.Nat.{ℕ, zero, suc, ◌+◌, ◌≤◌, ◌<◌}
use mathlib.Core.Path.{◌≡◌, refl, sym, ap, subst, ◌∙◌}
use mathlib.Core.List.{List, [], ◌∷◌, ◌++◌, append_assoc}
use native.Mathlib.Omega.{arith}
use wasm_os.Base.Lists.{
  length, drop, take, slice, get_or, length-append, length-drop, drop-append, take-append,
}

module _ {ℓ} {A : Type ℓ} where
  drop_nil : (j : ℕ) → drop {A = A} j [] ≡ []
  drop_nil zero = refl
  drop_nil (suc j) = refl

  drop-drop : (i j : ℕ) (xs : List A) → drop (i + j) xs ≡ drop j (drop i xs)
  drop-drop zero j xs = let e : 0 + j ≡ j = omega arith in rw e refl
  drop-drop (suc i) j [] = let e : suc i + j ≡ suc (i + j) = omega arith in rw e (sym (drop_nil j))
  drop-drop (suc i) j (x ∷ xs) =
      let e : suc i + j ≡ suc (i + j) = omega arith in rw e (drop-drop i j xs)

  pub record At (xs : List A) (cur : ℕ) (left : List A) : Type ℓ where
    pub left_eq : drop cur xs ≡ left
    pub inside : cur ≤ length xs

  pub At-start : (xs : List A) → At xs 0 xs
  At-start xs = record { left_eq = refl; inside = omega arith }

  pub At-first : (a rest : List A) → At (a ++ rest) (length a) rest
  At-first a rest = record {
    left_eq = drop-append a rest;
    inside = omega (arith, length-append a rest);
  }

  pub At-length : {xs left : List A} {cur : ℕ} → At xs cur left → length xs ≡ cur + length left
  At-length {xs = xs} {cur = cur} h =
      let e = ap length h.left_eq in omega (arith, length-drop cur xs, h.inside, e)

  pub At-advance :
      {xs : List A} {cur : ℕ} (a rest : List A)
      → At xs cur (a ++ rest)
      → At xs (cur + length a) rest
  At-advance {xs = xs} {cur = cur} a rest h = record {
    left_eq = drop-drop cur (length a) xs ∙ (ap (drop (length a)) h.left_eq ∙ drop-append a rest);
    inside = omega (arith, At-length h, length-append a rest);
  }

  pub At-assoc :
      {xs : List A} {cur : ℕ} (a b rest : List A)
      → At xs cur ((a ++ b) ++ rest)
      → At xs cur (a ++ (b ++ rest))
  At-assoc {xs = xs} {cur = cur} a b rest h = subst (At xs cur) (append_assoc a b rest) h

  pub At-slice :
      {xs : List A} {cur : ℕ} (a rest : List A)
      → At xs cur (a ++ rest)
      → slice xs cur (length a) ≡ a
  At-slice a rest h = ap (take (length a)) h.left_eq ∙ take-append a rest

  pub At-next : {xs rest : List A} {cur : ℕ} {b : A} → At xs cur (b ∷ rest) → At xs (cur + 1) rest
  At-next {rest = rest} {b = b} h = At-advance (b ∷ []) rest h

  get_or-drop : (xs : List A) (cur : ℕ) (d : A) → get_or xs cur d ≡ get_or (drop cur xs) 0 d
  get_or-drop [] zero d = refl
  get_or-drop [] (suc cur) d = refl
  get_or-drop (x ∷ xs) zero d = refl
  get_or-drop (x ∷ xs) (suc cur) d = get_or-drop xs cur d

  pub At-get_or :
      {xs rest : List A} {cur : ℕ} {b : A} (d : A) → At xs cur (b ∷ rest) → get_or xs cur d ≡ b
  At-get_or {xs = xs} {cur = cur} d h = get_or-drop xs cur d ∙ ap (λ ys. get_or ys 0 d) h.left_eq

  pub At-lt : {xs rest : List A} {cur : ℕ} {b : A} → At xs cur (b ∷ rest) → cur < length xs
  At-lt h = omega (arith, At-length h)
