-- ===== src/Wasm/Loader.antt =====
-- kernel/src/wasm/loader.rs: splitting a binary into its sections, and the lookups in them. The
-- cursor into the buffer is the list of the bytes that are left.
pub mod Framing
pub mod Exports
mod Tests
use wasm_os.Base.{
  ℕ, zero, suc, ◌+◌, ◌-◌, ◌*◌, Bool, not, ◌&&◌, true, List, [], ◌∷◌, ◌++◌, Option, none, some, ltb,
  leb, ◌==◌, if◌then◌else◌, length, take, drop, bytes_eq,
}
use wasm_os.Base.Opt.{◌>>=◌}
use wasm_os.Wasm.Leb.{read_u32_leb128}

abbrev pub section_type : ℕ
section_type = 1

abbrev pub section_import : ℕ
section_import = 2

abbrev pub section_function : ℕ
section_function = 3

abbrev pub section_table : ℕ
section_table = 4

abbrev pub section_memory : ℕ
section_memory = 5

abbrev pub section_global : ℕ
section_global = 6

abbrev pub section_export : ℕ
section_export = 7

abbrev pub section_element : ℕ
section_element = 9

abbrev pub section_code : ℕ
section_code = 10

abbrev pub section_data : ℕ
section_data = 11

abbrev pub magic : List ℕ
magic = 0x00 ∷ 0x61 ∷ 0x73 ∷ 0x6D ∷ []

abbrev pub version : List ℕ
version = 0x01 ∷ 0x00 ∷ 0x00 ∷ 0x00 ∷ []

pub data LoadError : Type 0 where
  too_short bad_magic bad_version invalid_leb128 unexpected_eof : LoadError

pub record Module : Type 0 where
  pub type_section : Option (List ℕ)
  pub import_section : Option (List ℕ)
  pub function_section : Option (List ℕ)
  pub table_section : Option (List ℕ)
  pub memory_section : Option (List ℕ)
  pub global_section : Option (List ℕ)
  pub export_section : Option (List ℕ)
  pub element_section : Option (List ℕ)
  pub code_section : Option (List ℕ)
  pub data_section : Option (List ℕ)

abbrev pub empty_module : Module
empty_module = record {
  type_section = none;
  import_section = none;
  function_section = none;
  table_section = none;
  memory_section = none;
  global_section = none;
  export_section = none;
  element_section = none;
  code_section = none;
  data_section = none;
}

pub data Loaded : Type 0 where
  loaded : Module → Loaded
  rejected : LoadError → Loaded

-- The arms of the `match` on the section's number.
unfoldable pub store_section : ℕ → List ℕ → Module → Module
store_section id d m =
    if id == section_type
    then record m { type_section = some d }
    else if id == section_import
    then record m { import_section = some d }
    else if id == section_function
    then record m { function_section = some d }
    else if id == section_table
    then record m { table_section = some d }
    else if id == section_memory
    then record m { memory_section = some d }
    else if id == section_global
    then record m { global_section = some d }
    else if id == section_export
    then record m { export_section = some d }
    else if id == section_element
    then record m { element_section = some d }
    else if id == section_code
    then record m { code_section = some d }
    else if id == section_data
    then record m { data_section = some d }
    else m

-- The section loop, one section each round.
unfoldable pub load_loop : ℕ → List ℕ → Module → Loaded
unfolding store_section
load_loop fuel [] m = loaded m
load_loop zero (id ∷ rest) m = loaded m
load_loop (suc fuel) (id ∷ rest) m = elim (read_u32_leb128 rest) [
  | none ↦ rejected invalid_leb128
  | some (size, consumed) ↦
      let at = drop consumed rest in
      let further = load_loop fuel (drop size at) (store_section id (take size at) m) in
      if ltb (length at) size then rejected unexpected_eof else further
]

unfoldable pub load : List ℕ → Loaded
unfolding load_loop
load bytes =
    if ltb (length bytes) 8
    then rejected too_short
    else if not (bytes_eq (take 4 bytes) magic)
    then rejected bad_magic
    else if not (bytes_eq (take 4 (drop 4 bytes)) version)
    then rejected bad_version
    else load_loop (length bytes) (drop 8 bytes) empty_module

-- The first byte and what is left, if there is one.
abbrev pub next_byte : List ℕ → Option (ℕ × List ℕ)
next_byte [] = none
next_byte (b ∷ rest) = some (b, rest)

unfoldable pub read_memory_min_pages : List ℕ → ℕ
read_memory_min_pages section =
    elim (read_u32_leb128 section >>= λ c.
    if c.0 == 0
    then some 0
    else (next_byte (drop c.1 section) >>= λ f. read_u32_leb128 f.1 >>= λ p. some p.0)) [
      | none ↦ 0
      | some pages ↦ pages
    ]

-- One entry of the export section: name, kind, index, and what is left. `is_utf8` is the test of
-- `core::str::from_utf8`.
unfoldable pub read_export : (List ℕ → Bool) → List ℕ → Option ((List ℕ × ℕ) × (ℕ × List ℕ))
read_export is_utf8 bytes = read_u32_leb128 bytes >>= λ l.
    let at = drop l.1 bytes in
    let name = take l.0 at in
    if ltb (length at) l.0
    then none
    else if not (is_utf8 name)
    then none
    else (next_byte (drop l.0 at) >>= λ k.
        read_u32_leb128 k.1 >>= λ i. some ((name, k.0), (i.0, drop i.1 k.1)))

unfoldable pub export_loop : (List ℕ → Bool) → ℕ → List ℕ → List ℕ → Option ℕ
unfolding read_export
export_loop is_utf8 zero bytes name = none
export_loop is_utf8 (suc count) bytes name = read_export is_utf8 bytes >>= λ e.
    if e.0.1 == 0 && bytes_eq e.0.0 name then some e.1.0 else export_loop is_utf8 count e.1.1 name

unfoldable pub find_export : (List ℕ → Bool) → Module → List ℕ → Option ℕ
unfolding export_loop
find_export is_utf8 m name = m.export_section >>= λ bytes.
    read_u32_leb128 bytes >>= λ c. export_loop is_utf8 c.0 (drop c.1 bytes) name
