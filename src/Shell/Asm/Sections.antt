-- ===== src/Shell/Asm/Sections.antt =====
-- The sections that the assembler emits, as the runtime's parsers read them.
use wasm_os.Base.{
  ℕ, zero, suc, ◌+◌, ◌^◌, ◌≤◌, ◌<◌, List, [], ◌∷◌, ◌++◌, All, ltb, leb, false, length, set,
  overwrite, overwrite-nil, map, ◌≡◌, refl, sym, subst, ap, ap₂, ◌∙◌, arith,
}
use wasm_os.Base.Cursor.{At, At-start, At-first, At-assoc, At-advance, At-next, At-lt}
use wasm_os.Wasm.Leb.{read_u32_leb128}
use wasm_os.Wasm.Leb.RoundTrip.{read_u32_leb128-encode}
use wasm_os.Wasm.Interp.State.{max_types, max_funcs}
use wasm_os.Wasm.Sections.{
  parsed, read_at, type_loop, parse_type_section, function_loop, parse_function_section,
}
use wasm_os.Shell.Asm.{ValType, byte, FuncType, FuncDef, WatModule}
use wasm_os.Shell.Asm.Emit.{
  write_leb128_u32, count, each, type_entry, type_contents, function_contents,
}
use wasm_os.Shell.Asm.Leb.{write_leb128_u32-encode}

-- A number at the cursor is read, and the cursor moves behind it.
pub read_at-write_leb128_u32 :
    {bytes : List ℕ} {cur : ℕ} (v : ℕ) (rest : List ℕ)
    → v < 2 ^ 32
    → At bytes cur (write_leb128_u32 v ++ rest)
    → read_at read_u32_leb128 bytes cur ≡ parsed (v, length (write_leb128_u32 v))
read_at-write_leb128_u32 {bytes} {cur} v rest h at =
    let inside : ltb (length bytes) cur ≡ false = ground (arith, at.inside) in
    rw (inside, at.left_eq, write_leb128_u32-encode v h, read_u32_leb128-encode v rest h) refl

pub count-small {ℓ} :
    {A : Type ℓ} (xs : List A) → length xs < 2 ^ 32 → count xs ≡ write_leb128_u32 (length xs)
count-small xs h = ap write_leb128_u32 (omega (arith, h))

-- A write of a whole list, one element at a time.
pub overwrite-set :
    {A : Type 0} (xs : List A) (i : ℕ) (v : A) (vs : List A)
    → overwrite (set xs i v) (i + 1) vs ≡ overwrite xs i (v ∷ vs)
overwrite-set [] i v vs = refl
overwrite-set (x ∷ xs) zero v vs = refl
overwrite-set (x ∷ xs) (suc i) v vs =
    let e : suc i + 1 ≡ suc (i + 1) = omega arith in
    rw e (ap (λ t. x ∷ t) (overwrite-set xs i v vs))

function_loop-each :
    (fs : List FuncDef) (i : ℕ) {cur : ℕ} {bytes : List ℕ} (out : List ℕ)
    → All (λ f. f.type_idx < 2 ^ 32) fs
    → At bytes cur (each (λ f. write_leb128_u32 f.type_idx) fs)
    → function_loop (length fs) i cur bytes out
      ≡ parsed (overwrite out i (map (λ f. f.type_idx) fs))
unfolding function_loop
function_loop-each [] i out h at = ap parsed (sym (overwrite-nil out i))
function_loop-each (f ∷ fs) i {cur} {bytes} out h at =
    let v = write_leb128_u32 f.type_idx in
    let left = each (λ f. write_leb128_u32 f.type_idx) fs in
    rw (function_loop, read_at-write_leb128_u32 f.type_idx left h.0 at)
      (function_loop-each fs (i + 1) (set out i f.type_idx) h.1 (At-advance v left at)
        ∙ ap parsed (overwrite-set out i f.type_idx _))

pub parse_function_section-emit :
    (m : WatModule) (out : List ℕ)
    → All (λ f. f.type_idx < 2 ^ 32) m.funcs
    → length m.funcs ≤ max_funcs
    → parse_function_section (function_contents m) out
      ≡ parsed (overwrite out 0 (map (λ f. f.type_idx) m.funcs))
unfolding parse_function_section function_contents
parse_function_section-emit m out h k =
    let entries = each (λ f. write_leb128_u32 f.type_idx) m.funcs in
    let n = write_leb128_u32 (length m.funcs) in
    let few : ltb max_funcs (length m.funcs) ≡ false = ground (arith, k) in
    rw
      (
        count-small m.funcs (omega (arith, k)),
        read_at-write_leb128_u32 (length m.funcs) entries (omega (arith, k))
            (At-start (n ++ entries)),
        few,
      )
      (function_loop-each m.funcs 0 out h (At-first n entries))

-- The bytes of value types are as many as the types.
length-each-byte : (ts : List ValType) → length (each (λ vt. byte vt ∷ []) ts) ≡ length ts
length-each-byte [] = refl
length-each-byte (t ∷ ts) = ap suc (length-each-byte ts)

-- Types whose numbers of parameters and results are words.
pub record IsFuncType (ft : FuncType) : Type 0 where
  pub params : length ft.params < 2 ^ 32
  pub results : length ft.results < 2 ^ 32

type_entry-counts :
    (t : FuncType)
    → IsFuncType t
    → type_entry t
      ≡ 0x60
        ∷ (write_leb128_u32 (length t.params)
            ++ (each (λ vt. byte vt ∷ []) t.params
                ++ (write_leb128_u32 (length t.results) ++ each (λ vt. byte vt ∷ []) t.results)))
unfolding type_entry
type_entry-counts t h = rw (count-small t.params h.params, count-small t.results h.results) refl

type_loop-each :
    (ts : List FuncType) (i : ℕ) {cur : ℕ} {bytes : List ℕ} (out : List ℕ × List ℕ)
    → All IsFuncType ts
    → At bytes cur (each type_entry ts)
    → type_loop (length ts) i cur bytes out
      ≡ parsed (
        overwrite out.0 i (map (λ t. length t.params) ts),
        overwrite out.1 i (map (λ t. length t.results) ts),
      )
unfolding type_loop type_entry
type_loop-each [] i out h at =
    ap₂ (λ p r. parsed (p, r)) (sym (overwrite-nil out.0 i)) (sym (overwrite-nil out.1 i))
type_loop-each (t ∷ ts) i {cur} {bytes} out h at =
    let left = each type_entry ts in
    let n = write_leb128_u32 (length t.params) in
    let k = write_leb128_u32 (length t.results) in
    let ps = each (λ vt. byte vt ∷ []) t.params in
    let rs = each (λ vt. byte vt ∷ []) t.results in
    let room : leb (length bytes) cur ≡ false = ground (arith, At-lt at) in
    let entry : At bytes cur (0x60 ∷ ((n ++ (ps ++ (k ++ rs))) ++ left)) =
      subst (λ e. At bytes cur (e ++ left)) (type_entry-counts t h.0) at in
    let at_n = At-assoc n (ps ++ (k ++ rs)) left (At-next entry) in
    let at_ps = At-assoc ps (k ++ rs) left (At-advance n ((ps ++ (k ++ rs)) ++ left) at_n) in
    let behind = At-advance ps ((k ++ rs) ++ left) at_ps in
    let at_k : At bytes (cur + 1 + length n + length t.params) (k ++ (rs ++ left)) =
      At-assoc k rs left (
        subst (λ p. At bytes (cur + 1 + length n + p) ((k ++ rs) ++ left))
          (length-each-byte t.params) behind) in
    let at_left : At bytes (cur + 1 + length n + length t.params + length k + length t.results)
        left =
      subst (λ p. At bytes (cur + 1 + length n + length t.params + length k + p) left)
        (length-each-byte t.results) (At-advance rs left (At-advance k (rs ++ left) at_k)) in
    rw
      (
        room,
        read_at-write_leb128_u32 (length t.params) ((ps ++ (k ++ rs)) ++ left) h.0.params at_n,
        read_at-write_leb128_u32 (length t.results) (rs ++ left) h.0.results at_k,
      )
      (type_loop-each ts (i + 1) (set out.0 i (length t.params), set out.1 i (length t.results)) h.1
          at_left
        ∙ ap₂ (λ p r. parsed (p, r)) (overwrite-set out.0 i (length t.params) _)
            (overwrite-set out.1 i (length t.results) _))

pub parse_type_section-emit :
    (m : WatModule) (out : List ℕ × List ℕ)
    → All IsFuncType m.types
    → length m.types ≤ max_types
    → parse_type_section (type_contents m) out
      ≡ parsed (
        length m.types,
        (
          overwrite out.0 0 (map (λ t. length t.params) m.types),
          overwrite out.1 0 (map (λ t. length t.results) m.types),
        ),
      )
unfolding parse_type_section type_contents
parse_type_section-emit m out h k =
    let entries = each type_entry m.types in
    let n = write_leb128_u32 (length m.types) in
    let few : ltb max_types (length m.types) ≡ false = ground (arith, k) in
    rw
      (
        count-small m.types (omega (arith, k)),
        read_at-write_leb128_u32 (length m.types) entries (omega (arith, k))
            (At-start (n ++ entries)),
        few,
        type_loop-each m.types 0 out h (At-first n entries),
      )
      refl
