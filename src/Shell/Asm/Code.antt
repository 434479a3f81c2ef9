-- ===== src/Shell/Asm/Code.antt =====
-- The code section that the assembler emits, as the runtime's parser reads it.
use wasm_os.Base.{
  ℕ, ◌+◌, ◌^◌, ◌≤◌, ◌<◌, List, [], ◌∷◌, ◌++◌, All, ltb, false, length, length-append, set,
  overwrite, overwrite-nil, map, ◌≡◌, refl, sym, subst, ap₂, ◌∙◌, arith,
}
use native.Mathlib.Nat.{zero-add}
use wasm_os.Base.Cursor.{At, At-start, At-first, At-assoc, At-advance, At-slice, At-next}
use wasm_os.Wasm.Interp.State.{max_funcs}
use wasm_os.Wasm.Sections.{parsed, group_loop, code_loop, parse_code_section}
use wasm_os.Shell.Asm.{ValType, byte, FuncDef, WatModule}
use wasm_os.Shell.Asm.Emit.{
  write_leb128_u32, write_bytes, each, compress_locals, emit_instr, local_group, body_bytes,
  code_contents,
}
use wasm_os.Shell.Asm.Sections.{read_at-write_leb128_u32, count-small, overwrite-set}
use wasm_os.Shell.Asm.Locals.{total, total-compress_locals, counts-below, length-compress_locals}

group_loop-each :
    (gs : List (ℕ × ValType)) {lc : ℕ} {entry : List ℕ} (sum : ℕ) (rest : List ℕ)
    → All (λ g. g.0 < 2 ^ 32) gs
    → At entry lc (each local_group gs ++ rest)
    → group_loop (length gs) lc sum entry
      ≡ parsed (lc + length (each local_group gs), sum + total gs)
unfolding group_loop local_group
group_loop-each [] {lc} sum rest h at = ap₂ (λ l t. parsed (l, t)) (omega arith) (omega arith)
group_loop-each ((n, ty) ∷ gs) {lc} {entry} sum rest h at =
    let left = each local_group gs in
    let w = write_leb128_u32 n in
    let at_n =
      At-assoc w (byte ty ∷ []) (left ++ rest) (At-assoc (w ++ byte ty ∷ []) left rest at) in
    let behind = At-next (At-advance w (byte ty ∷ (left ++ rest)) at_n) in
    rw
      (
        read_at-write_leb128_u32 n (byte ty ∷ (left ++ rest)) h.0 at_n,
        group_loop-each gs (sum + n) rest h.1 behind,
      )
      (let split = length-append (local_group (n, ty)) left in
        ap₂ (λ l t. parsed (l, t)) (omega (arith, split, length-append w (byte ty ∷ [])))
          (omega arith))

module _ (widen : ℕ → ℕ) where
  abbrev pub instructions : FuncDef → List ℕ
  instructions f = each (emit_instr widen) f.body ++ 0x0B ∷ []

  -- A function whose body and locals can be counted.
  pub record IsFunc (f : FuncDef) : Type 0 where
    pub locals : length f.locals < 2 ^ 32
    pub bytes : length (body_bytes widen f) < 2 ^ 32

  body_bytes-groups :
      (f : FuncDef)
      → length f.locals < 2 ^ 32
      → body_bytes widen f
        ≡ write_leb128_u32 (length (compress_locals f.locals))
          ++ (each local_group (compress_locals f.locals) ++ instructions f)
  unfolding body_bytes
  body_bytes-groups f h =
      rw
        (count-small (compress_locals f.locals) (omega (arith, h, length-compress_locals f.locals)))
        refl

  code_loop-each :
      (fs : List FuncDef) (i : ℕ) {cur : ℕ} {bytes : List ℕ} (out : List (List ℕ) × List ℕ)
      → All IsFunc fs
      → At bytes cur (each (λ f. write_bytes (body_bytes widen f)) fs)
      → code_loop (length fs) i cur bytes out
        ≡ parsed (
          overwrite out.0 i (map instructions fs),
          overwrite out.1 i (map (λ f. length f.locals) fs),
        )
  unfolding code_loop write_bytes
  code_loop-each [] i out h at =
      ap₂ (λ p r. parsed (p, r)) (sym (overwrite-nil out.0 i)) (sym (overwrite-nil out.1 i))
  code_loop-each (f ∷ fs) i {cur} {bytes} out h at =
      let left = each (λ f. write_bytes (body_bytes widen f)) fs in
      let body = body_bytes widen f in
      let n = write_leb128_u32 (length body) in
      let entry : At bytes cur ((n ++ body) ++ left) =
        subst (λ c. At bytes cur ((c ++ body) ++ left)) (count-small body h.0.bytes) at in
      let at_n = At-assoc n body left entry in
      let at_body = At-advance n (body ++ left) at_n in
      let at_left = At-advance body left at_body in
      let groups = compress_locals f.locals in
      let g = write_leb128_u32 (length groups) in
      let held : At body 0 (g ++ (each local_group groups ++ instructions f)) =
        subst (At body 0) (body_bytes-groups f h.0.locals) (At-start body) in
      let declared = each local_group groups in
      let at_groups : At body (length g) (declared ++ instructions f) =
        subst (λ p. At body p (declared ++ instructions f)) (omega arith)
          (At-advance g (declared ++ instructions f) held) in
      let at_code = At-advance declared (instructions f) at_groups in
      let few : length groups < 2 ^ 32 =
        omega (arith, h.0.locals, length-compress_locals f.locals) in
      let sum = total-compress_locals f.locals in
      let counts = counts-below groups (omega (arith, sum, h.0.locals)) in
      let inside : ltb (length bytes) (cur + length n + length body) ≡ false =
        ground (arith, at_left.inside) in
      let within : ltb (length body) (length g + length declared) ≡ false =
        ground (arith, at_code.inside) in
      rw
        (
          read_at-write_leb128_u32 (length body) (body ++ left) h.0.bytes at_n,
          inside,
          At-slice body left at_body,
          read_at-write_leb128_u32 (length groups) (declared ++ instructions f) few held,
          group_loop-each groups 0 (instructions f) counts at_groups,
          within,
          at_code.left_eq,
          zero-add (total groups),
          sum,
        )
        (code_loop-each fs (i + 1) (set out.0 i (instructions f), set out.1 i (length f.locals)) h.1
            at_left
          ∙ ap₂ (λ p r. parsed (p, r)) (overwrite-set out.0 i (instructions f) _)
              (overwrite-set out.1 i (length f.locals) _))

  pub parse_code_section-emit :
      (m : WatModule) (out : List (List ℕ) × List ℕ)
      → All IsFunc m.funcs
      → length m.funcs ≤ max_funcs
      → parse_code_section (code_contents widen m) out
        ≡ parsed (
          length m.funcs,
          (
            overwrite out.0 0 (map instructions m.funcs),
            overwrite out.1 0 (map (λ f. length f.locals) m.funcs),
          ),
        )
  unfolding parse_code_section code_contents
  parse_code_section-emit m out h k =
      let entries = each (λ f. write_bytes (body_bytes widen f)) m.funcs in
      let n = write_leb128_u32 (length m.funcs) in
      let few : ltb max_funcs (length m.funcs) ≡ false = ground (arith, k) in
      rw
        (
          count-small m.funcs (omega (arith, k)),
          read_at-write_leb128_u32 (length m.funcs) entries (omega (arith, k))
              (At-start (n ++ entries)),
          few,
          code_loop-each m.funcs 0 out h (At-first n entries),
        )
        refl
