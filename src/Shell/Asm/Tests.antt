-- ===== src/Shell/Asm/Tests.antt =====
-- A small module through the assembler's emitter and the runtime's readers.
use wasm_os.Base.{
  ℕ, ◌^◌, Bool, true, List, [], ◌∷◌, ◌++◌, All, none, some, length, replicate, ◌≡◌, ◌-◌, ap, refl,
  arith,
}
use wasm_os.Wasm.Leb.{read_i32_leb128}
use wasm_os.Wasm.Loader.{loaded, load}
use wasm_os.Wasm.Loader.Exports.{Export}
use wasm_os.Wasm.Instance.{new}
use wasm_os.Wasm.Engine.Memory.{init_memory, for_each_func_import, count_func_imports}
use wasm_os.Shell.Asm.{Instr, Plain, FuncDef, Import, DataSeg, WatModule, i32, i64, byte}
use wasm_os.Shell.Asm.Emit.{
  u32_rounds, write_leb128_u32, i32_rounds, write_leb128_i32, write_bytes, emit_section, type_entry,
  type_contents, import_entry, import_contents, function_contents, limits, memory_contents,
  export_entry, export_contents, data_count_contents, same_type, add_local, compress_loop,
  compress_locals, plain_opcode, local_group, data_entry, data_contents, emit_instr, body_bytes,
  code_contents, emit_module,
}
use wasm_os.Shell.Asm.Leb.{read_i32_leb128-write_leb128_i32}
use wasm_os.Shell.Asm.Imports.{IsImport}
use wasm_os.Shell.Asm.Binary.{binary, load-emit_module}
use wasm_os.Shell.Asm.Instance.{Fits, Instantiates, new-binary}
use wasm_os.Shell.Asm.Strings.{
  unescape_wat_string, escape_hex, misread, unescape_wat_string-escape_hex,
}
use wasm_os.Shell.Asm.Data.{write_segments, init_memory-emit}
use wasm_os.Shell.Asm.Names.{for_each_func_import-emit}

abbrev no_float : ℕ → ℕ
no_float f = 0

abbrev all_text : List ℕ → Bool
all_text name = true

-- A function that adds one to its argument, exported as `f`; `env.print` imported; two bytes at 4.
abbrev add_one : FuncDef
add_one = record {
  type_idx = 0;
  locals = i32 ∷ i32 ∷ i64 ∷ [];
  body = Instr.local_get 0 ∷ Instr.i32_const 1 ∷ Instr.plain Plain.i32_add ∷ [];
}

abbrev print_import : Import
print_import = record { module_name = 101 ∷ []; name = 112 ∷ []; type_idx = 0 }

abbrev f_export : Export
f_export = record { name = 102 ∷ []; kind = 0; index = 1 }

abbrev two_bytes : DataSeg
two_bytes = record { offset = 4; bytes = 72 ∷ 105 ∷ [] }

abbrev sample : WatModule
sample = record {
  types = record { params = i32 ∷ []; results = i32 ∷ [] } ∷ [];
  imports = print_import ∷ [];
  funcs = add_one ∷ [];
  memories = record { low = 1; high = none } ∷ [];
  exports = f_export ∷ [];
  segments = two_bytes ∷ [];
}

sample_size : length (emit_module no_float sample) ≡ 69
unfolding u32_rounds write_leb128_u32 i32_rounds write_leb128_i32 write_bytes emit_section
    type_entry type_contents import_entry import_contents function_contents limits memory_contents
    export_entry export_contents data_count_contents same_type add_local compress_loop
    compress_locals plain_opcode local_group data_entry data_contents emit_instr body_bytes
    code_contents emit_module byte
sample_size = refl

add_one_size : length (body_bytes no_float add_one) ≡ 11
unfolding u32_rounds write_leb128_u32 i32_rounds write_leb128_i32 same_type add_local compress_loop
    compress_locals plain_opcode local_group emit_instr body_bytes byte
add_one_size = refl

sample-IsImport : All IsImport (print_import ∷ [])
sample-IsImport =
    (record { module_short = omega arith; name_short = omega arith; word = omega arith }, tt)

sample-Fits : Fits no_float all_text sample
sample-Fits = record {
  types = (record { params = omega arith; results = omega arith }, tt);
  type_count = omega arith;
  imports = sample-IsImport;
  import_count = omega arith;
  funcs = (record { locals = omega arith; bytes = omega (arith, add_one_size) }, tt);
  words = (omega arith, tt);
  func_count = omega arith;
  some_func = λ e. omega (arith, ap (λ (fs : List FuncDef). length fs) e);
  exports = (record { short = omega arith; text = refl; word = omega arith }, tt);
  export_count = omega arith;
  short = omega (arith, sample_size);
}

load-emit_module_example : load (emit_module no_float sample) ≡ loaded (binary no_float sample)
load-emit_module_example = load-emit_module no_float sample (omega (arith, sample_size))

new-binary_example :
    (count_func_imports (binary no_float sample).import_section ≡ some 1)
    × Instantiates no_float all_text sample
        (new (binary no_float sample) 1 (replicate 16 0) (none ∷ []) 0)
new-binary_example = new-binary no_float all_text sample (replicate 16 0) (none ∷ []) 0 sample-Fits

-- -129 is written in two bytes.
read_i32_leb128-write_leb128_i32_example :
    read_i32_leb128 (write_leb128_i32 (2 ^ 32 - 129) ++ 7 ∷ [])
    ≡ some (2 ^ 32 - 129, length (write_leb128_i32 (2 ^ 32 - 129)))
read_i32_leb128-write_leb128_i32_example =
    read_i32_leb128-write_leb128_i32 (2 ^ 32 - 129) (7 ∷ []) (omega arith)

minus_129 : write_leb128_i32 (2 ^ 32 - 129) ≡ 0xFF ∷ 0x7E ∷ []
unfolding write_leb128_i32 i32_rounds
minus_129 = refl

compress_locals_lem : compress_locals add_one.locals ≡ (2, i32) ∷ (1, i64) ∷ []
unfolding compress_locals compress_loop add_local same_type byte
compress_locals_lem = refl

unescape_wat_string-escape_hex_example :
    unescape_wat_string (escape_hex (10 ∷ 200 ∷ [])) ≡ misread (10 ∷ 200 ∷ [])
unescape_wat_string-escape_hex_example =
    unescape_wat_string-escape_hex (10 ∷ 200 ∷ []) (omega arith, (omega arith, tt))

init_memory-emit_example :
    init_memory (data_contents sample) (replicate 16 0)
    ≡ write_segments (two_bytes ∷ []) (replicate 16 0)
init_memory-emit_example =
    init_memory-emit sample (replicate 16 0)
      (record { offset = omega arith; size = omega arith }, tt) (omega arith) (omega arith)

imported_names :
    for_each_func_import all_text (import_contents sample) ≡ some ((101 ∷ [], 112 ∷ []) ∷ [])
imported_names =
    for_each_func_import-emit all_text sample sample-IsImport ((refl, refl), tt) (omega arith)
