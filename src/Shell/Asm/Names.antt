-- ===== src/Shell/Asm/Names.antt =====
-- The import section that the assembler emits, as the engine's walk over the names reads it.
use wasm_os.Base.{
  suc, ℕ, ◌+◌, ◌^◌, ◌<◌, Bool, true, false, List, [], ◌∷◌, ◌++◌, All, some, ltb, leb, length, map,
  ◌≡◌, refl, sym, subst, ap, ◌∙◌, arith, none,
}
use mathlib.Core.Option
use wasm_os.Base.Cursor.{
  At, At-start, At-first, At-assoc, At-advance, At-slice, At-next, At-get_or, At-lt,
}
use wasm_os.Wasm.Sections.{parsed, import_description}
use wasm_os.Wasm.Engine.Memory.{
  name_at, import_at, names_loop, for_each_func_import, count_func_imports,
}
use wasm_os.Shell.Asm.{Import, WatModule}
use wasm_os.Shell.Asm.Emit.{write_leb128_u32, write_bytes, each, import_entry, import_contents}
use wasm_os.Shell.Asm.Sections.{read_at-write_leb128_u32, count-small}
use wasm_os.Shell.Asm.Binary.{contents_of}
use wasm_os.Shell.Asm.Imports.{IsImport, write_bytes-Strings}

name_at-Strings :
    (is_text : List ℕ → Bool) {bytes : List ℕ} {cur : ℕ} (name rest : List ℕ)
    → length name < 2 ^ 32
    → is_text name ≡ true
    → At bytes cur (write_bytes name ++ rest)
    → name_at is_text bytes cur
      ≡ parsed (name, cur + length (write_leb128_u32 (length name)) + length name)
unfolding name_at
name_at-Strings is_text {bytes} {cur} name rest h text at =
    let placed = write_bytes-Strings name rest h at in
    let held = At-advance (write_leb128_u32 (length name)) (name ++ rest) placed.len in
    let pos = cur + length (write_leb128_u32 (length name)) in
    let inside : ltb (length bytes) (pos + length name) ≡ false =
      ground (arith, placed.behind.inside) in
    rw
      (
        read_at-write_leb128_u32 (length name) (name ++ rest) h placed.len,
        At-slice name rest held,
        inside,
        text,
      )
      refl

-- Entries whose names pass the test.
abbrev pub AreTexts : (List ℕ → Bool) → List Import → Type 0
AreTexts is_text is = All (λ i. (is_text i.module_name ≡ true) × (is_text i.name ≡ true)) is

names_loop-each :
    (is_text : List ℕ → Bool) (is : List Import) {cur : ℕ} {bytes : List ℕ}
    → All IsImport is
    → AreTexts is_text is
    → At bytes cur (each import_entry is)
    → names_loop is_text (length is) cur bytes ≡ some (map (λ i. (i.module_name, i.name)) is)
unfolding names_loop import_at import_description import_entry
names_loop-each is_text [] h text at = refl
names_loop-each is_text (i ∷ is) {cur} {bytes} h text at =
    let left = each import_entry is in
    let idx = write_leb128_u32 i.type_idx in
    let at_module =
      At-assoc (write_bytes i.module_name) (write_bytes i.name ++ 0x00 ∷ idx) left at in
    let behind_module =
      (write_bytes-Strings i.module_name ((write_bytes i.name ++ 0x00 ∷ idx) ++ left)
        h.0.module_short at_module).behind in
    let at_name = At-assoc (write_bytes i.name) (0x00 ∷ idx) left behind_module in
    let behind =
      (write_bytes-Strings i.name (0x00 ∷ (idx ++ left)) h.0.name_short at_name).behind in
    let pos =
      cur
      + length (write_leb128_u32 (length i.module_name))
      + length i.module_name
      + length (write_leb128_u32 (length i.name))
      + length i.name in
    let here : leb (length bytes) pos ≡ false = ground (arith, At-lt behind) in
    rw
      (
        names_loop,
        import_at,
        name_at-Strings is_text i.module_name _ h.0.module_short text.0.0 at_module,
        name_at-Strings is_text i.name _ h.0.name_short text.0.1 at_name,
        here,
        At-get_or 0 behind,
        read_at-write_leb128_u32 i.type_idx left h.0.word (At-next behind),
        names_loop-each is_text is h.1 text.1 (At-advance idx left (At-next behind)),
      )
      refl

import_contents-count :
    (m : WatModule)
    → length m.imports < 2 ^ 32
    → import_contents m ≡ write_leb128_u32 (length m.imports) ++ each import_entry m.imports
unfolding import_contents
import_contents-count m k = rw (count-small m.imports k) refl

-- The engine finds the imported functions of an assembled module by the names given, when their lengths,
-- their number and their type indices fit 32 bits and the names pass the test for UTF-8.
pub for_each_func_import-emit :
    (is_utf8 : List ℕ → Bool) (m : WatModule)
    → All IsImport m.imports
    → AreTexts is_utf8 m.imports
    → length m.imports < 2 ^ 32
    → for_each_func_import is_utf8 (import_contents m)
      ≡ some (map (λ i. (i.module_name, i.name)) m.imports)
unfolding for_each_func_import
for_each_func_import-emit is_utf8 m h text k =
    let entries = each import_entry m.imports in
    let n = write_leb128_u32 (length m.imports) in
    let whole = map (λ i. (i.module_name, i.name)) m.imports in
    subst (λ bytes. for_each_func_import is_utf8 bytes ≡ some whole)
      (sym (import_contents-count m k))
      (rw
        (
          for_each_func_import,
          read_at-write_leb128_u32 (length m.imports) entries k (At-start (n ++ entries)),
        )
        (names_loop-each is_utf8 m.imports h text (At-first n entries)))

every_text : (is : List Import) → AreTexts (λ name. Bool.true) is
every_text [] = tt
every_text (i ∷ is) = ((refl, refl), every_text is)

pub length-map {ℓ κ} :
    {A : Type ℓ} {B : Type κ} (f : A → B) (xs : List A) → length (map f xs) ≡ length xs
length-map f [] = refl
length-map f (x ∷ xs) = ap suc (length-map f xs)

count_func_imports-emit :
    (m : WatModule)
    → All IsImport m.imports
    → length m.imports < 2 ^ 32
    → count_func_imports (some (import_contents m)) ≡ some (length m.imports)
unfolding count_func_imports
count_func_imports-emit m h k =
    ap (Option.map (λ names. length names))
      (for_each_func_import-emit (λ name. Bool.true) m h (every_text m.imports) k)
    ∙ ap some (length-map (λ i. (i.module_name, i.name)) m.imports)

none_counted : count_func_imports none ≡ some 0
unfolding count_func_imports
none_counted = refl

-- The engine counts the imports of an assembled module; without a section there are none.
pub count_func_imports-contents_of :
    (m : WatModule)
    → All IsImport m.imports
    → length m.imports < 2 ^ 32
    → count_func_imports (contents_of m.imports (import_contents m)) ≡ some (length m.imports)
count_func_imports-contents_of m h k = by_imports m.imports refl
  where
    by_imports :
        (is : List Import)
        → is ≡ m.imports
        → count_func_imports (contents_of is (import_contents m)) ≡ some (length is)
    by_imports [] e = none_counted
    by_imports (i ∷ is) e =
        count_func_imports-emit m h k ∙ ap (λ (l : List Import). some (length l)) (sym e)
