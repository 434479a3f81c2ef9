-- ===== src/Shell/Asm/Binary.antt =====
-- The whole binary that the assembler emits, as the runtime's loader splits it.
use wasm_os.Base.{
  ℕ, ◌^◌, ◌<◌, List, [], ◌∷◌, ◌++◌, All, Option, none, some, length, length-append, ◌≡◌, refl, sym,
  subst, ap, ◌∙◌, arith,
}
use mathlib.Core.List.{append_assoc, append-nil}
use wasm_os.Wasm.Leb.Spec.{encode}
use wasm_os.Wasm.Loader.{Module, empty_module, loaded, store_section, load, magic, version}
use wasm_os.Wasm.Loader.Framing.{emit, store_all, load-emit}
use wasm_os.Shell.Asm.{WatModule}
use wasm_os.Shell.Asm.Emit.{
  count, emit_section, unless_empty, type_contents, import_contents, function_contents,
  memory_contents, export_contents, data_count_contents, code_contents, data_contents, emit_module,
}
use wasm_os.Shell.Asm.Leb.{write_leb128_u32-encode}
use wasm_os.Shell.Asm.Sections.{count-small}

-- A section in front of others, if there is something to put in it.
abbrev pub listed {ℓ} : {A : Type ℓ} → List A → ℕ × List ℕ → List (ℕ × List ℕ) → List (ℕ × List ℕ)
listed [] section rest = rest
listed (x ∷ xs) section rest = section ∷ rest

abbrev pub contents_of {ℓ} : {A : Type ℓ} → List A → List ℕ → Option (List ℕ)
contents_of [] bytes = none
contents_of (x ∷ xs) bytes = some bytes

abbrev AreShort : List (ℕ × List ℕ) → Type 0
AreShort sections = All (λ (s : ℕ × List ℕ). length s.1 < 2 ^ 32) sections

emit_section-emit :
    (id : ℕ) (d rest : List ℕ)
    → length (emit_section id d ++ rest) < 2 ^ 32
    → (length d < 2 ^ 32) × (emit_section id d ++ rest ≡ id ∷ (encode 4 (length d) ++ (d ++ rest)))
unfolding emit_section
emit_section-emit id d rest h =
    let short : length d < 2 ^ 32 =
      omega (arith, h, length-append (count d ++ d) rest, length-append (count d) d) in
    (
      short,
      rw (count-small d short, write_leb128_u32-encode (length d) short)
          (ap (λ t. id ∷ t) (append_assoc (encode 4 (length d)) d rest)),
    )

-- The bytes of the sections emitted so far, behind one more.
emit-listed {ℓ} :
    {A : Type ℓ} (xs : List A) (id : ℕ) (d bytes : List ℕ) (sections : List (ℕ × List ℕ))
    → (length bytes < 2 ^ 32 → AreShort sections × (bytes ≡ emit sections))
    → length (unless_empty xs (emit_section id d) ++ bytes) < 2 ^ 32
    → AreShort (listed xs (id, d) sections)
      × (unless_empty xs (emit_section id d) ++ bytes ≡ emit (listed xs (id, d) sections))
emit-listed [] id d bytes sections behind h = behind h
emit-listed (x ∷ xs) id d bytes sections behind h =
    let (short, written) = emit_section-emit id d bytes h in
    let (rest_short, rest) = behind (omega (arith, h, length-append (emit_section id d) bytes)) in
    ((short, rest_short), written ∙ ap (λ t. id ∷ (encode 4 (length d) ++ (d ++ t))) rest)

-- The data count goes out only with memories and segments.
abbrev pub listed_both {ℓ κ} :
    {A : Type ℓ} {B : Type κ} → List A → List B → ℕ × List ℕ → List (ℕ × List ℕ) → List (ℕ × List ℕ)
listed_both [] ys section rest = rest
listed_both (x ∷ xs) ys section rest = listed ys section rest

emit-listed_both {ℓ κ} :
    {A : Type ℓ} {B : Type κ} (xs : List A) (ys : List B) (id : ℕ) (d bytes : List ℕ)
    (sections : List (ℕ × List ℕ))
    → (length bytes < 2 ^ 32 → AreShort sections × (bytes ≡ emit sections))
    → length (unless_empty xs (unless_empty ys (emit_section id d)) ++ bytes) < 2 ^ 32
    → AreShort (listed_both xs ys (id, d) sections)
      × (unless_empty xs (unless_empty ys (emit_section id d)) ++ bytes
          ≡ emit (listed_both xs ys (id, d) sections))
emit-listed_both [] ys id d bytes sections behind h = behind h
emit-listed_both (x ∷ xs) ys id d bytes sections behind h =
    emit-listed ys id d bytes sections behind h

-- Each store fills its own field.
store_type {ℓ} :
    {A : Type ℓ} (xs : List A) (d : List ℕ) (rest : List (ℕ × List ℕ)) (m : Module)
    → m.type_section ≡ none
    → store_all (listed xs (1, d) rest) m
      ≡ store_all rest (record m { type_section = contents_of xs d })
unfolding store_section
store_type [] d rest m h = ap (λ o. store_all rest (record m { type_section = o })) h
store_type (x ∷ xs) d rest m h = refl

store_import {ℓ} :
    {A : Type ℓ} (xs : List A) (d : List ℕ) (rest : List (ℕ × List ℕ)) (m : Module)
    → m.import_section ≡ none
    → store_all (listed xs (2, d) rest) m
      ≡ store_all rest (record m { import_section = contents_of xs d })
unfolding store_section
store_import [] d rest m h = ap (λ o. store_all rest (record m { import_section = o })) h
store_import (x ∷ xs) d rest m h = refl

store_function {ℓ} :
    {A : Type ℓ} (xs : List A) (d : List ℕ) (rest : List (ℕ × List ℕ)) (m : Module)
    → m.function_section ≡ none
    → store_all (listed xs (3, d) rest) m
      ≡ store_all rest (record m { function_section = contents_of xs d })
unfolding store_section
store_function [] d rest m h = ap (λ o. store_all rest (record m { function_section = o })) h
store_function (x ∷ xs) d rest m h = refl

store_memory {ℓ} :
    {A : Type ℓ} (xs : List A) (d : List ℕ) (rest : List (ℕ × List ℕ)) (m : Module)
    → m.memory_section ≡ none
    → store_all (listed xs (5, d) rest) m
      ≡ store_all rest (record m { memory_section = contents_of xs d })
unfolding store_section
store_memory [] d rest m h = ap (λ o. store_all rest (record m { memory_section = o })) h
store_memory (x ∷ xs) d rest m h = refl

store_export {ℓ} :
    {A : Type ℓ} (xs : List A) (d : List ℕ) (rest : List (ℕ × List ℕ)) (m : Module)
    → m.export_section ≡ none
    → store_all (listed xs (7, d) rest) m
      ≡ store_all rest (record m { export_section = contents_of xs d })
unfolding store_section
store_export [] d rest m h = ap (λ o. store_all rest (record m { export_section = o })) h
store_export (x ∷ xs) d rest m h = refl

store_code {ℓ} :
    {A : Type ℓ} (xs : List A) (d : List ℕ) (rest : List (ℕ × List ℕ)) (m : Module)
    → m.code_section ≡ none
    → store_all (listed xs (10, d) rest) m
      ≡ store_all rest (record m { code_section = contents_of xs d })
unfolding store_section
store_code [] d rest m h = ap (λ o. store_all rest (record m { code_section = o })) h
store_code (x ∷ xs) d rest m h = refl

store_data {ℓ} :
    {A : Type ℓ} (xs : List A) (d : List ℕ) (rest : List (ℕ × List ℕ)) (m : Module)
    → m.data_section ≡ none
    → store_all (listed xs (11, d) rest) m
      ≡ store_all rest (record m { data_section = contents_of xs d })
unfolding store_section
store_data [] d rest m h = ap (λ o. store_all rest (record m { data_section = o })) h
store_data (x ∷ xs) d rest m h = refl

skip_data_count {ℓ κ} :
    {A : Type ℓ} {B : Type κ} (xs : List A) (ys : List B) (d : List ℕ) (rest : List (ℕ × List ℕ))
    (m : Module)
    → store_all (listed_both xs ys (12, d) rest) m ≡ store_all rest m
unfolding store_section
skip_data_count [] ys d rest m = refl
skip_data_count (x ∷ xs) [] d rest m = refl
skip_data_count (x ∷ xs) (y ∷ ys) d rest m = refl

module _ (widen : ℕ → ℕ) (m : WatModule) where
  abbrev from_code : List (ℕ × List ℕ)
  from_code =
      listed m.funcs (0x0A, code_contents widen m) (listed m.segments (0x0B, data_contents m) [])

  abbrev from_memories : List (ℕ × List ℕ)
  from_memories =
      listed m.memories (0x05, memory_contents m)
        (listed m.exports (0x07, export_contents m)
          (listed_both m.segments m.memories (0x0C, data_count_contents m) from_code))

  abbrev sections : List (ℕ × List ℕ)
  sections =
      listed m.types (0x01, type_contents m)
        (listed m.imports (0x02, import_contents m)
          (listed m.funcs (0x03, function_contents m) from_memories))

  -- What the loader finds in the binary of a module.
  unfoldable pub binary : Module
  binary = record {
    type_section = contents_of m.types (type_contents m);
    import_section = contents_of m.imports (import_contents m);
    function_section = contents_of m.funcs (function_contents m);
    table_section = none;
    memory_section = contents_of m.memories (memory_contents m);
    global_section = none;
    export_section = contents_of m.exports (export_contents m);
    element_section = none;
    code_section = contents_of m.funcs (code_contents widen m);
    data_section = contents_of m.segments (data_contents m);
  }

  store_all-sections : store_all sections empty_module ≡ binary
  unfolding binary
  store_all-sections =
      store_type m.types (type_contents m) _ empty_module refl
      ∙ store_import m.imports (import_contents m) _ _ refl
      ∙ store_function m.funcs (function_contents m) from_memories _ refl
      ∙ store_memory m.memories (memory_contents m) _ _ refl
      ∙ store_export m.exports (export_contents m) _ _ refl
      ∙ skip_data_count m.segments m.memories (data_count_contents m) from_code _
      ∙ store_code m.funcs (code_contents widen m) _ _ refl
      ∙ store_data m.segments (data_contents m) [] _ refl

  last_section :
      length (unless_empty m.segments (emit_section 0x0B (data_contents m))) < 2 ^ 32
      → AreShort (listed m.segments (0x0B, data_contents m) [])
        × (unless_empty m.segments (emit_section 0x0B (data_contents m))
            ≡ emit (listed m.segments (0x0B, data_contents m) []))
  last_section h =
      let whole = append-nil (unless_empty m.segments (emit_section 0x0B (data_contents m))) in
      subst
        (λ b.
          AreShort (listed m.segments (0x0B, data_contents m) [])
          × (b ≡ emit (listed m.segments (0x0B, data_contents m) [])))
        whole
        (emit-listed m.segments 0x0B (data_contents m) [] [] (λ _. (tt, refl))
          (subst (λ b. length b < 2 ^ 32) (sym whole) h))

  -- The binary of a module, shorter than 2 ^ 32 bytes, loads as its sections: one for each part that
  -- is not empty.
  pub load-emit_module :
      length (emit_module widen m) < 2 ^ 32 → load (emit_module widen m) ≡ loaded binary
  unfolding emit_module
  load-emit_module h =
      let (short, written) =
        emit-listed m.types 0x01 (type_contents m) _ _
          (emit-listed m.imports 0x02 (import_contents m) _ _ (
            emit-listed m.funcs 0x03 (function_contents m) _ _ (
              emit-listed m.memories 0x05 (memory_contents m) _ _ (
                emit-listed m.exports 0x07 (export_contents m) _ _ (
                  emit-listed_both m.segments m.memories 0x0C (data_count_contents m) _ _
                    (emit-listed m.funcs 0x0A (code_contents widen m) _ _ last_section))))))
          (omega (arith, h)) in
      ap (λ b. load (magic ++ (version ++ b))) written
      ∙ load-emit sections short
      ∙ ap loaded store_all-sections
