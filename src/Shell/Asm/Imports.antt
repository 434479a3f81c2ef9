-- ===== src/Shell/Asm/Imports.antt =====
-- The import section that the assembler emits, as the runtime's parser reads it.
use wasm_os.Base.{
  ℕ, ◌+◌, ◌^◌, ◌≤◌, ◌<◌, List, [], ◌∷◌, ◌++◌, All, ltb, leb, true, false, length, set, overwrite,
  overwrite-nil, map, ◌≡◌, sym, subst, ap, ap₂, ◌∙◌, arith,
}
use wasm_os.Base.Cursor.{At, At-start, At-first, At-assoc, At-advance, At-next, At-get_or, At-lt}
use wasm_os.Wasm.Interp.State.{max_funcs}
use wasm_os.Wasm.Sections.{parsed, import_loop, import_description, parse_import_func_types}
use wasm_os.Shell.Asm.{Import, WatModule}
use wasm_os.Shell.Asm.Emit.{write_leb128_u32, write_bytes, each, import_entry, import_contents}
use wasm_os.Shell.Asm.Sections.{read_at-write_leb128_u32, count-small, overwrite-set}

pub record IsImport (i : Import) : Type 0 where
  pub module_short : length i.module_name < 2 ^ 32
  pub name_short : length i.name < 2 ^ 32
  pub word : i.type_idx < 2 ^ 32

-- A string with its length in front, at the cursor.
pub record Strings (bytes : List ℕ) (cur : ℕ) (s rest : List ℕ) : Type 0 where
  pub len : At bytes cur (write_leb128_u32 (length s) ++ (s ++ rest))
  pub behind : At bytes (cur + length (write_leb128_u32 (length s)) + length s) rest

pub write_bytes-Strings :
    {bytes : List ℕ} {cur : ℕ} (s rest : List ℕ)
    → length s < 2 ^ 32
    → At bytes cur (write_bytes s ++ rest)
    → Strings bytes cur s rest
unfolding write_bytes
write_bytes-Strings {bytes} {cur} s rest h at =
    let n = write_leb128_u32 (length s) in
    let at_n =
      At-assoc n s rest (subst (λ c. At bytes cur ((c ++ s) ++ rest)) (count-small s h) at) in
    record { len = at_n; behind = At-advance s rest (At-advance n (s ++ rest) at_n) }

import_loop-each :
    (is : List Import) {cur : ℕ} {bytes : List ℕ} (n : ℕ) (out : List ℕ)
    → All IsImport is
    → n + length is ≤ max_funcs
    → At bytes cur (each import_entry is)
    → import_loop (length is) cur bytes (n, out)
      ≡ parsed (n + length is, overwrite out n (map (λ i. i.type_idx) is))
unfolding import_loop import_description import_entry
import_loop-each [] n out h k at =
    ap₂ (λ m o. parsed (m, o)) (omega arith) (sym (overwrite-nil out n))
import_loop-each (i ∷ is) {cur} {bytes} n out h k at =
    let left = each import_entry is in
    let idx = write_leb128_u32 i.type_idx in
    let at_module =
      write_bytes-Strings i.module_name ((write_bytes i.name ++ 0x00 ∷ idx) ++ left)
        h.0.module_short
        (At-assoc (write_bytes i.module_name) (write_bytes i.name ++ 0x00 ∷ idx) left at) in
    let at_name =
      write_bytes-Strings i.name (0x00 ∷ (idx ++ left)) h.0.name_short
        (At-assoc (write_bytes i.name) (0x00 ∷ idx) left at_module.behind) in
    let kind = At-get_or 0 at_name.behind in
    let at_idx = At-next at_name.behind in
    let pos =
      cur
      + length (write_leb128_u32 (length i.module_name))
      + length i.module_name
      + length (write_leb128_u32 (length i.name))
      + length i.name in
    let here : leb (length bytes) pos ≡ false = ground (arith, At-lt at_name.behind) in
    let few : ltb n max_funcs ≡ true = ground (arith, k) in
    rw
      (
        read_at-write_leb128_u32 (length i.module_name) _ h.0.module_short at_module.len,
        read_at-write_leb128_u32 (length i.name) _ h.0.name_short at_name.len,
        here,
        kind,
        read_at-write_leb128_u32 i.type_idx left h.0.word at_idx,
        few,
        import_loop-each is (n + 1) (set out n i.type_idx) h.1 (omega (arith, k))
            (At-advance idx left at_idx),
        overwrite-set out n i.type_idx (map (λ i. i.type_idx) is),
      )
      (ap (λ m. parsed (m, overwrite out n (map (λ i. i.type_idx) (i ∷ is)))) (omega arith))

pub parse_import_func_types-emit :
    (m : WatModule) (out : List ℕ)
    → All IsImport m.imports
    → length m.imports ≤ max_funcs
    → parse_import_func_types (import_contents m) out
      ≡ parsed (length m.imports, overwrite out 0 (map (λ i. i.type_idx) m.imports))
unfolding parse_import_func_types import_contents
parse_import_func_types-emit m out h k =
    let entries = each import_entry m.imports in
    let n = write_leb128_u32 (length m.imports) in
    rw
      (
        count-small m.imports (omega (arith, k)),
        read_at-write_leb128_u32 (length m.imports) entries (omega (arith, k))
            (At-start (n ++ entries)),
      )
      (import_loop-each m.imports 0 out h (omega (arith, k)) (At-first n entries)
        ∙ ap (λ c. parsed (c, overwrite out 0 (map (λ i. i.type_idx) m.imports))) (omega arith))
