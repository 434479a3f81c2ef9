-- ===== src/Shell/Asm/Locals.antt =====
-- compress_locals of the assembler: runs of one type.
use wasm_os.Base.{
  ℕ, zero, suc, ◌+◌, ◌≤◌, ◌<◌, ◌^◌, true, List, [], ◌∷◌, ◌++◌, All, length, length-append,
  length-replicate, replicate, Bool-cases, inl, inr, ◌≡◌, refl, sym, ap, ◌∙◌, arith,
}
use mathlib.Core.List.{append_assoc, append-nil}
use wasm_os.Shell.Asm.{ValType, byte, i32, i64, f32, f64}
use wasm_os.Shell.Asm.Emit.{same_type, add_local, compress_loop, compress_locals, reverse}

-- What the groups stand for.
abbrev pub expand : List (ℕ × ValType) → List ValType
expand [] = []
expand ((n, ty) ∷ groups) = replicate n ty ++ expand groups

expand-append : (a b : List (ℕ × ValType)) → expand (a ++ b) ≡ expand a ++ expand b
expand-append [] b = refl
expand-append ((n, ty) ∷ a) b =
    ap (λ t. replicate n ty ++ t) (expand-append a b)
    ∙ sym (append_assoc (replicate n ty) (expand a) (expand b))

replicate-end : {A : Type 0} (n : ℕ) (x : A) → replicate (n + 1) x ≡ replicate n x ++ x ∷ []
replicate-end zero x = refl
replicate-end (suc n) x =
    let e : suc n + 1 ≡ suc (n + 1) = omega arith in rw e (ap (λ t. x ∷ t) (replicate-end n x))

same_type→eq : (a b : ValType) → same_type a b ≡ true → a ≡ b
unfolding same_type byte
same_type→eq i32 i32 h = refl
same_type→eq i64 i64 h = refl
same_type→eq f32 f32 h = refl
same_type→eq f64 f64 h = refl
same_type→eq _ _ h = ground (arith, h)

expand-end :
    (groups : List (ℕ × ValType)) (n : ℕ) (ty : ValType)
    → expand (groups ++ (n, ty) ∷ []) ≡ expand groups ++ replicate n ty
expand-end groups n ty =
    expand-append groups ((n, ty) ∷ []) ∙ ap (λ t. expand groups ++ t) (append-nil (replicate n ty))

add_local-expand :
    (groups : List (ℕ × ValType)) (ty : ValType)
    → expand (reverse (add_local groups ty)) ≡ expand (reverse groups) ++ ty ∷ []
unfolding add_local
add_local-expand [] ty = refl
add_local-expand ((n, last) ∷ groups) ty = elim (Bool-cases (same_type last ty)) [
  | inl t ↦
      let same = same_type→eq last ty t in
      rw t (
        expand-end (reverse groups) (n + 1) last
        ∙ ap (λ l. expand (reverse groups) ++ l)
            (replicate-end n last ∙ ap (λ x. replicate n last ++ x ∷ []) same)
        ∙ sym (append_assoc (expand (reverse groups)) (replicate n last) (ty ∷ []))
        ∙ ap (λ l. l ++ ty ∷ []) (sym (expand-end (reverse groups) n last)))
  | inr t ↦ rw t (expand-end (reverse groups ++ (n, last) ∷ []) 1 ty)
]

compress_loop-expand :
    (groups : List (ℕ × ValType)) (locals : List ValType)
    → expand (reverse (compress_loop groups locals)) ≡ expand (reverse groups) ++ locals
unfolding compress_loop
compress_loop-expand groups [] = sym (append-nil (expand (reverse groups)))
compress_loop-expand groups (ty ∷ locals) =
    compress_loop-expand (add_local groups ty) locals
    ∙ ap (λ l. l ++ locals) (add_local-expand groups ty)
    ∙ append_assoc (expand (reverse groups)) (ty ∷ []) locals

-- The groups, each type repeated as often as its group says, list the locals in order.
pub compress_locals-expand : (locals : List ValType) → expand (compress_locals locals) ≡ locals
unfolding compress_locals
compress_locals-expand locals = compress_loop-expand [] locals

length-reverse : {A : Type 0} (xs : List A) → length (reverse xs) ≡ length xs
length-reverse [] = refl
length-reverse (x ∷ xs) = omega (arith, length-append (reverse xs) (x ∷ []), length-reverse xs)

length-add_local :
    (groups : List (ℕ × ValType)) (ty : ValType) → length (add_local groups ty) ≤ length groups + 1
unfolding add_local
length-add_local [] ty = omega arith
length-add_local ((n, last) ∷ groups) ty = ground arith

length-compress_loop :
    (groups : List (ℕ × ValType)) (locals : List ValType)
    → length (compress_loop groups locals) ≤ length groups + length locals
unfolding compress_loop
length-compress_loop groups [] = omega arith
length-compress_loop groups (ty ∷ locals) =
    omega (arith, length-compress_loop (add_local groups ty) locals, length-add_local groups ty)

pub length-compress_locals :
    (locals : List ValType) → length (compress_locals locals) ≤ length locals
unfolding compress_locals
length-compress_locals locals =
    omega (arith, length-reverse (compress_loop [] locals), length-compress_loop [] locals)

-- The sum of the counts, by which the runtime makes room.
abbrev pub total : List (ℕ × ValType) → ℕ
total [] = 0
total ((n, ty) ∷ groups) = n + total groups

total-expand : (groups : List (ℕ × ValType)) → total groups ≡ length (expand groups)
total-expand [] = refl
total-expand ((n, ty) ∷ groups) = omega (
  arith,
  total-expand groups,
  length-append (replicate n ty) (expand groups),
  length-replicate n ty,
)

pub total-compress_locals : (locals : List ValType) → total (compress_locals locals) ≡ length locals
total-compress_locals locals =
    total-expand (compress_locals locals) ∙ ap length (compress_locals-expand locals)

pub counts-below :
    (groups : List (ℕ × ValType)) → total groups < 2 ^ 32 → All (λ g. g.0 < 2 ^ 32) groups
counts-below [] h = tt
counts-below ((n, ty) ∷ groups) h = (omega (arith, h), counts-below groups (omega (arith, h)))
