-- ===== src/Shell/Asm/Signatures.antt =====
-- The signatures of all functions of an assembled module, as Interpreter::new gathers them.
use wasm_os.Base.{
  ℕ, zero, suc, ◌+◌, ◌≤◌, Bool-cases, inl, inr, List, [], ◌∷◌, ◌++◌, ltb, ltb_false→le, length, map,
  replicate, set, drop, overwrite, overwrite-nil, length-set, length-replicate, length-overwrite,
  ◌≡◌, refl, sym, subst, ap, ◌∙◌, arith,
}
use wasm_os.Base.Cursor.{At, At-start, At-next, At-get_or}
use wasm_os.Wasm.Interp.State.{max_funcs}
use wasm_os.Wasm.Instance.{define_types}
use wasm_os.Shell.Asm.{FuncDef, Import, WatModule}
use wasm_os.Shell.Asm.Sections.{overwrite-set}
use wasm_os.Shell.Asm.Names.{length-map}

set-beyond : (xs : List ℕ) (i v : ℕ) → length xs ≤ i → set xs i v ≡ xs
set-beyond [] i v h = refl
set-beyond (x ∷ xs) zero v h = absurd (omega (arith, h))
set-beyond (x ∷ xs) (suc i) v h = ap (λ t. x ∷ t) (set-beyond xs i v (omega (arith, h)))

-- The entries from `i` on go behind the imported ones.
define_types-At :
    (ts rest : List ℕ) (i import_count : ℕ) {types : List ℕ} (out : List ℕ)
    → length out ≡ max_funcs
    → At types i (ts ++ rest)
    → define_types (length ts) i import_count types out ≡ overwrite out (import_count + i) ts
unfolding define_types
define_types-At [] rest i import_count out len at = sym (overwrite-nil out (import_count + i))
define_types-At (t ∷ ts) rest i import_count {types} out len at =
    let next : import_count + (i + 1) ≡ import_count + i + 1 = omega arith in
    let held = At-get_or 0 at in
    let out' = set out (import_count + i) t in
    let later =
      define_types-At ts rest (i + 1) import_count out' (length-set out (import_count + i) t ∙ len)
        (At-next at)
      ∙ ap (λ j. overwrite out' j ts) next
      ∙ overwrite-set out (import_count + i) t ts in
    elim (Bool-cases (ltb (import_count + i) max_funcs)) [
      | inl b ↦ rw (define_types, b, held) later
      | inr b ↦
          let same =
            set-beyond out (import_count + i) t
              (omega (arith, len, ltb_false→le (import_count + i) max_funcs b)) in
          rw (define_types, b)
            (subst
              (λ o.
                define_types (length ts) (i + 1) import_count types o
                ≡ overwrite out (import_count + i) (t ∷ ts))
              same later)
    ]

overwrite-At :
    (xs ys : List ℕ) → length ys ≤ length xs → overwrite xs 0 ys ≡ ys ++ drop (length ys) xs
overwrite-At [] [] h = refl
overwrite-At (x ∷ xs) [] h = refl
overwrite-At [] (y ∷ ys) h = absurd (omega (arith, h))
overwrite-At (x ∷ xs) (y ∷ ys) h = ap (λ t. y ∷ t) (overwrite-At xs ys (omega (arith, h)))

overwrite-behind :
    (out xs ys : List ℕ)
    → overwrite (overwrite out 0 xs) (length xs) ys ≡ overwrite out 0 (xs ++ ys)
overwrite-behind [] xs ys = refl
overwrite-behind (o ∷ out) [] ys = refl
overwrite-behind (o ∷ out) (x ∷ xs) ys = ap (λ t. x ∷ t) (overwrite-behind out xs ys)

pub define_types-signatures :
    (m : WatModule)
    → length m.funcs ≤ max_funcs
    → define_types
        (length m.funcs)
        0
        (length m.imports)
        (overwrite (replicate max_funcs 0) 0 (map (λ f. f.type_idx) m.funcs))
        (overwrite (replicate max_funcs 0) 0 (map (λ i. i.type_idx) m.imports))
      ≡ overwrite
          (replicate max_funcs 0)
          0
          (map (λ i. i.type_idx) m.imports ++ map (λ f. f.type_idx) m.funcs)
define_types-signatures m h =
    let none_yet = replicate max_funcs 0 in
    let imported = map (λ (i : Import). i.type_idx) m.imports in
    let defined = map (λ (f : FuncDef). f.type_idx) m.funcs in
    let size = length-replicate {A = ℕ} max_funcs 0 in
    let count = length-map (λ (f : FuncDef). f.type_idx) m.funcs in
    let placed : At (overwrite none_yet 0 defined) 0 (defined ++ drop (length defined) none_yet) =
      subst (At (overwrite none_yet 0 defined) 0)
        (overwrite-At none_yet defined (omega (arith, h, count, size)))
        (At-start (overwrite none_yet 0 defined)) in
    ap
      (λ n.
        define_types n 0 (length m.imports) (overwrite none_yet 0 defined)
          (overwrite none_yet 0 imported))
      (sym count)
    ∙ define_types-At defined (drop (length defined) none_yet) 0 (length m.imports)
        (overwrite none_yet 0 imported) (length-overwrite none_yet 0 imported ∙ size) placed
    ∙ ap (λ j. overwrite (overwrite none_yet 0 imported) j defined)
        (omega (arith, length-map (λ (i : Import). i.type_idx) m.imports))
    ∙ overwrite-behind none_yet imported defined
