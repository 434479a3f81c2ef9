-- ===== src/Wasm/Loader/Exports.antt =====
-- Looking a name up in an export section that lists its entries.
use wasm_os.Base.{
  ℕ, ◌<◌, ◌^◌, Bool, true, ◌&&◌, List, [], ◌∷◌, ◌++◌, Option, none, some, ◌==◌, if◌then◌else◌,
  length, bytes_eq, All, length-append, drop-append, take-append, ◌≡◌, refl, arith,
}
use wasm_os.Wasm.Leb.Spec.{encode}
use wasm_os.Wasm.Leb.RoundTrip.{read_u32_leb128-encode}
use wasm_os.Wasm.Loader.{Module, read_export, export_loop, find_export}

-- An entry, in the form of the assembler (kernel/src/shell/commands/asm.rs).
pub record Export : Type 0 where
  pub name : List ℕ
  pub kind : ℕ
  pub index : ℕ

-- What a writer may put into an entry.
pub record IsExport (is_utf8 : List ℕ → Bool) (e : Export) : Type 0 where
  pub short : length e.name < 2 ^ 32
  pub text : is_utf8 e.name ≡ true
  pub word : e.index < 2 ^ 32

abbrev pub emit_entry : Export → List ℕ → List ℕ
emit_entry e rest = encode 4 (length e.name) ++ (e.name ++ (e.kind ∷ (encode 4 e.index ++ rest)))

abbrev pub emit_entries : List Export → List ℕ
emit_entries [] = []
emit_entries (e ∷ es) = emit_entry e (emit_entries es)

abbrev pub emit_exports : List Export → List ℕ
emit_exports es = encode 4 (length es) ++ emit_entries es

-- The index of the first function of that name.
abbrev pub first_function : List Export → List ℕ → Option ℕ
first_function [] name = none
first_function (e ∷ es) name =
    if e.kind == 0 && bytes_eq e.name name then some e.index else first_function es name

read_export-emit :
    (is_utf8 : List ℕ → Bool) (e : Export) (rest : List ℕ)
    → IsExport is_utf8 e
    → read_export is_utf8 (emit_entry e rest) ≡ some ((e.name, e.kind), (e.index, rest))
unfolding read_export
read_export-emit is_utf8 e rest h =
    let tail = e.kind ∷ (encode 4 e.index ++ rest) in
    rw
      (
        read_export,
        read_u32_leb128-encode (length e.name) (e.name ++ tail) h.short,
        drop-append (encode 4 (length e.name)) (e.name ++ tail),
        drop-append e.name tail,
        take-append e.name tail,
        h.text,
        read_u32_leb128-encode e.index rest h.word,
        drop-append (encode 4 e.index) rest,
      )
      (let k = length-append e.name tail in ground (arith, k))

export_loop-emit :
    (is_utf8 : List ℕ → Bool) (es : List Export) (name : List ℕ)
    → All (IsExport is_utf8) es
    → export_loop is_utf8 (length es) (emit_entries es) name ≡ first_function es name
unfolding export_loop
export_loop-emit is_utf8 [] name h = refl
export_loop-emit is_utf8 (e ∷ es) name h =
    rw
      (
        export_loop,
        read_export-emit is_utf8 e (emit_entries es) h.0,
        export_loop-emit is_utf8 es name h.1,
      )
      refl

-- In a module whose export section lists entries with valid names, fewer than 2 ^ 32 of them, the
-- lookup answers the index of the first function of that name, and None if there is none.
pub find_export-emit :
    (is_utf8 : List ℕ → Bool) (m : Module) (es : List Export) (name : List ℕ)
    → All (IsExport is_utf8) es
    → length es < 2 ^ 32
    → m.export_section ≡ some (emit_exports es)
    → find_export is_utf8 m name ≡ first_function es name
unfolding find_export
find_export-emit is_utf8 m es name h k e =
    rw
      (
        find_export,
        e,
        read_u32_leb128-encode (length es) (emit_entries es) k,
        drop-append (encode 4 (length es)) (emit_entries es),
      )
      (export_loop-emit is_utf8 es name h)
