-- ===== src/Shell/Asm/Instance.antt =====
-- What the runtime makes of an assembled module: its lookups and its interpreter.
use wasm_os.Base.{
  arith, ℕ, ◌^◌, ◌≤◌, ◌<◌, Bool, List, [], ◌∷◌, ◌++◌, All, Option, some, length, map, replicate,
  overwrite, ◌≡◌, ◌≢◌, refl, sym, ap, ap₂, ◌∙◌,
}
use mathlib.Core.List.{append_assoc}
use wasm_os.Wasm.Loader.{Module, find_export}
use wasm_os.Wasm.Loader.Exports.{
  Export, IsExport, emit_entries, emit_exports, first_function, find_export-emit,
}
use wasm_os.Wasm.Interp.State.{Interpreter, HostFn, max_types, max_funcs}
use wasm_os.Wasm.Sections.{
  Parsed, parsed, parse_type_section, parse_function_section, parse_import_func_types,
}
use wasm_os.Wasm.Instance.{if_present, new}
use wasm_os.Shell.Asm.{FuncType, FuncDef, Import, WatModule}
use wasm_os.Shell.Asm.Emit.{
  write_bytes, each, export_entry, export_contents, type_contents, function_contents,
  import_contents, code_contents, emit_module,
}
use wasm_os.Shell.Asm.Leb.{write_leb128_u32-encode}
use wasm_os.Shell.Asm.Sections.{
  IsFuncType, count-small, parse_type_section-emit, parse_function_section-emit,
}
use wasm_os.Shell.Asm.Code.{IsFunc, instructions, parse_code_section-emit}
use wasm_os.Shell.Asm.Imports.{IsImport, parse_import_func_types-emit}
use wasm_os.Wasm.Engine.Memory.{count_func_imports}
use wasm_os.Shell.Asm.Names.{count_func_imports-contents_of}
use wasm_os.Shell.Asm.Signatures.{define_types-signatures}
use wasm_os.Shell.Asm.Binary.{contents_of, binary}

export_entry-emit :
    (is_utf8 : List ℕ → Bool) (es : List Export)
    → All (IsExport is_utf8) es
    → each export_entry es ≡ emit_entries es
unfolding export_entry write_bytes
export_entry-emit is_utf8 [] h = refl
export_entry-emit is_utf8 (e ∷ es) h =
    rw
      (
        export_entry-emit is_utf8 es h.1,
        count-small e.name h.0.short,
        write_leb128_u32-encode (length e.name) h.0.short,
        write_leb128_u32-encode e.index h.0.word,
      )
      (simp append_assoc)

-- A section that is there gives what its parser answers; one that is not gives the default.
if_present-eq {ℓ} :
    {A : Type ℓ} {B : Type 0} (xs : List A) (bytes : List ℕ) (parse : List ℕ → Parsed B)
    (otherwise result : B)
    → parse bytes ≡ parsed result
    → (xs ≡ [] → otherwise ≡ result)
    → if_present (contents_of xs bytes) parse otherwise ≡ parsed result
if_present-eq [] bytes parse otherwise result h k = ap parsed (k refl)
if_present-eq (x ∷ xs) bytes parse otherwise result h k = h

find_export-of :
    (is_utf8 : List ℕ → Bool) (m : Module) (es : List Export) (bytes name : List ℕ)
    → All (IsExport is_utf8) es
    → length es < 2 ^ 32
    → m.export_section ≡ contents_of es bytes
    → bytes ≡ emit_exports es
    → find_export is_utf8 m name ≡ first_function es name
unfolding find_export
find_export-of is_utf8 m [] bytes name h k e b = rw e refl
find_export-of is_utf8 m (x ∷ xs) bytes name h k e b =
    find_export-emit is_utf8 m (x ∷ xs) name h k (e ∙ ap some b)

types-eq :
    (m : WatModule)
    → All IsFuncType m.types
    → length m.types ≤ max_types
    → if_present
        (contents_of m.types (type_contents m))
        (λ b. parse_type_section b (replicate max_types 0, replicate max_types 0))
        (0, (replicate max_types 0, replicate max_types 0))
      ≡ parsed (
        length m.types,
        (
          overwrite (replicate max_types 0) 0 (map (λ t. length t.params) m.types),
          overwrite (replicate max_types 0) 0 (map (λ t. length t.results) m.types),
        ),
      )
types-eq m h k =
    if_present-eq m.types (type_contents m) _ _ _ (parse_type_section-emit m _ h k) λ e.
      ap
        (λ (ts : List FuncType). (
          length ts,
          (
            overwrite (replicate max_types 0) 0 (map (λ t. length t.params) ts),
            overwrite (replicate max_types 0) 0 (map (λ t. length t.results) ts),
          ),
        ))
        (sym e)

functions-eq :
    (m : WatModule)
    → All (λ f. f.type_idx < 2 ^ 32) m.funcs
    → length m.funcs ≤ max_funcs
    → if_present
        (contents_of m.funcs (function_contents m))
        (λ b. parse_function_section b (replicate max_funcs 0))
        (replicate max_funcs 0)
      ≡ parsed (overwrite (replicate max_funcs 0) 0 (map (λ f. f.type_idx) m.funcs))
functions-eq m h k =
    if_present-eq m.funcs (function_contents m) _ _ _ (parse_function_section-emit m _ h k) λ e.
      ap (λ (fs : List FuncDef). overwrite (replicate max_funcs 0) 0 (map (λ f. f.type_idx) fs))
        (sym e)

imports-eq :
    (m : WatModule)
    → All IsImport m.imports
    → length m.imports ≤ max_funcs
    → if_present
        (contents_of m.imports (import_contents m))
        (λ b. parse_import_func_types b (replicate max_funcs 0))
        (0, replicate max_funcs 0)
      ≡ parsed
          (length m.imports, overwrite (replicate max_funcs 0) 0 (map (λ i. i.type_idx) m.imports))
imports-eq m h k =
    if_present-eq m.imports (import_contents m) _ _ _ (parse_import_func_types-emit m _ h k) λ e.
      ap
        (λ (is : List Import).
          (length is, overwrite (replicate max_funcs 0) 0 (map (λ i. i.type_idx) is)))
        (sym e)

contents_of-some {ℓ} :
    {A : Type ℓ} (xs : List A) (bytes : List ℕ) → xs ≢ [] → contents_of xs bytes ≡ some bytes
contents_of-some [] bytes h = absurd (h refl)
contents_of-some (x ∷ xs) bytes h = refl

module _ (widen : ℕ → ℕ) (is_utf8 : List ℕ → Bool) where
  -- A module within the runtime's limits.
  pub record Fits (m : WatModule) : Type 0 where
    pub types : All IsFuncType m.types
    pub type_count : length m.types ≤ max_types
    pub imports : All IsImport m.imports
    pub import_count : length m.imports ≤ max_funcs
    pub funcs : All (IsFunc widen) m.funcs
    pub words : All (λ f. f.type_idx < 2 ^ 32) m.funcs
    pub func_count : length m.funcs ≤ max_funcs
    pub some_func : m.funcs ≢ []
    pub exports : All (IsExport is_utf8) m.exports
    pub export_count : length m.exports < 2 ^ 32
    pub short : length (emit_module widen m) < 2 ^ 32

  -- An export of an assembled module is found by its name.
  find_export-binary :
      (m : WatModule) (name : List ℕ)
      → Fits m
      → find_export is_utf8 (binary widen m) name ≡ first_function m.exports name
  unfolding binary export_contents
  find_export-binary m name h =
      find_export-of is_utf8 (binary widen m) m.exports (export_contents m) name h.exports
        h.export_count refl
        (ap₂ (λ n es. n ++ es)
          (count-small m.exports h.export_count
            ∙ write_leb128_u32-encode (length m.exports) h.export_count)
          (export_entry-emit is_utf8 m.exports h.exports))

  -- The interpreter of an assembled module.
  pub data Instantiates (m : WatModule) : Parsed Interpreter → Type 0 where
    instantiates :
        {s : Interpreter}
        → s.code.body_count ≡ length m.funcs
        → s.code.bodies ≡ overwrite (replicate max_funcs []) 0 (map (instructions widen) m.funcs)
        → s.code.local_counts
          ≡ overwrite (replicate max_funcs 0) 0 (map (λ f. length f.locals) m.funcs)
        → s.code.type_count ≡ length m.types
        → s.code.type_param_counts
          ≡ overwrite (replicate max_types 0) 0 (map (λ t. length t.params) m.types)
        → s.code.type_result_counts
          ≡ overwrite (replicate max_types 0) 0 (map (λ t. length t.results) m.types)
        → s.code.func_type_indices
          ≡ overwrite (replicate max_funcs 0) 0 (map (λ f. f.type_idx) m.funcs)
        → s.code.import_count ≡ length m.imports
        → s.code.all_func_types
          ≡ overwrite
              (replicate max_funcs 0)
              0
              (map (λ i. i.type_idx) m.imports ++ map (λ f. f.type_idx) m.funcs)
        → Instantiates m (parsed s)

  new-Instantiates :
      (m : WatModule) (mem : List ℕ) (host_fns : List (Option HostFn)) (pages : ℕ)
      → Fits m
      → Instantiates m (new (binary widen m) (length m.imports) mem host_fns pages)
  unfolding binary new
  new-Instantiates m mem host_fns pages h =
      rw
        (
          new,
          binary,
          types-eq m h.types h.type_count,
          functions-eq m h.words h.func_count,
          contents_of-some m.funcs (code_contents widen m) h.some_func,
          parse_code_section-emit widen m (replicate max_funcs [], replicate max_funcs 0) h.funcs
              h.func_count,
          imports-eq m h.imports h.import_count,
        )
        (instantiates refl refl refl refl refl refl refl refl
          (define_types-signatures m h.func_count))

  -- The engine counts the imports of an assembled module that fits the runtime's limits and has a
  -- function, and with that count the runtime makes the module's interpreter: as many bodies, types
  -- and signatures as the module has, each function with the bytes of its instructions and the number of
  -- its locals, and the table of all functions' signatures holds those of the imported ones, in order, and
  -- behind them those of the module's own.
  pub new-binary :
      (m : WatModule) (mem : List ℕ) (host_fns : List (Option HostFn)) (pages : ℕ)
      → Fits m
      → (count_func_imports (binary widen m).import_section ≡ some (length m.imports))
        × Instantiates m (new (binary widen m) (length m.imports) mem host_fns pages)
  unfolding binary
  new-binary m mem host_fns pages h = (
    count_func_imports-contents_of m h.imports (omega (arith, h.import_count)),
    new-Instantiates m mem host_fns pages h,
  )
