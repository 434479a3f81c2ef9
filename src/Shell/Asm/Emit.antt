-- ===== src/Shell/Asm/Emit.antt =====
-- WasmEmitter in kernel/src/shell/commands/asm.rs. A writer is the bytes that it appends to the buffer.
use wasm_os.Base.{
  ℕ, zero, suc, ◌+◌, ◌-◌, ◌/◌, ◌%◌, ◌^◌, bit_and, bit_or, Bool, ◌||◌, List, [], ◌∷◌, ◌++◌, Option,
  none, some, ◌==◌, if◌then◌else◌, length,
}
use wasm_os.Wasm.Loader.{magic, version}
use wasm_os.Wasm.Loader.Exports.{Export}
use wasm_os.Wasm.Interp.Num.{shift_signed}
use wasm_os.Wasm.Interp.Mem.{to_le_bytes}
use wasm_os.Shell.Asm.{ValType, byte, FuncType, Plain, Instr, FuncDef, Import, DataSeg, WatModule}

-- A round for each seven bits: five are enough for 32.
unfoldable pub u32_rounds : ℕ → ℕ → List ℕ
u32_rounds zero val = []
u32_rounds (suc rounds) val =
    let low = bit_and val 0x7F in
    let rest = u32_rounds rounds (val / 2 ^ 7) in
    if val / 2 ^ 7 == 0 then low ∷ [] else bit_or low 0x80 ∷ rest

unfoldable pub write_leb128_u32 : ℕ → List ℕ
unfolding u32_rounds
write_leb128_u32 val = u32_rounds 5 val

-- `val` is a bit pattern; `-1` is all ones.
unfoldable pub i32_rounds : ℕ → ℕ → List ℕ
unfolding shift_signed
i32_rounds zero val = []
i32_rounds (suc rounds) val =
    let low = bit_and val 0x7F in
    let high = shift_signed 32 val 6 in
    let rest = i32_rounds rounds (shift_signed 32 high 1) in
    if high == 0 || high == 2 ^ 32 - 1 then bit_and low 0x7F ∷ [] else bit_or low 0x80 ∷ rest

unfoldable pub write_leb128_i32 : ℕ → List ℕ
unfolding i32_rounds
write_leb128_i32 val = i32_rounds 5 val

-- `x.len() as u32`
abbrev pub count {ℓ} : {A : Type ℓ} → List A → List ℕ
count xs = write_leb128_u32 (length xs % 2 ^ 32)

unfoldable pub write_bytes : List ℕ → List ℕ
write_bytes bytes = count bytes ++ bytes

unfoldable pub emit_section : ℕ → List ℕ → List ℕ
emit_section id inner = id ∷ (count inner ++ inner)

-- `for x in xs { … }`
abbrev pub each {ℓ} : {A : Type ℓ} → (A → List ℕ) → List A → List ℕ
each f [] = []
each f (x ∷ xs) = f x ++ each f xs

unfoldable pub type_entry : FuncType → List ℕ
type_entry ft =
    0x60
    ∷ (count ft.params
        ++ (each (λ vt. byte vt ∷ []) ft.params
            ++ (count ft.results ++ each (λ vt. byte vt ∷ []) ft.results)))

unfoldable pub type_contents : WatModule → List ℕ
type_contents m = count m.types ++ each type_entry m.types

unfoldable pub import_entry : Import → List ℕ
import_entry imp =
    write_bytes imp.module_name ++ (write_bytes imp.name ++ 0x00 ∷ write_leb128_u32 imp.type_idx)

unfoldable pub import_contents : WatModule → List ℕ
import_contents m = count m.imports ++ each import_entry m.imports

unfoldable pub function_contents : WatModule → List ℕ
function_contents m = count m.funcs ++ each (λ f. write_leb128_u32 f.type_idx) m.funcs

unfoldable pub limits : ℕ → Option ℕ → List ℕ
limits low none = 0x00 ∷ write_leb128_u32 low
limits low (some high) = 0x01 ∷ (write_leb128_u32 low ++ write_leb128_u32 high)

unfoldable pub memory_contents : WatModule → List ℕ
memory_contents m = count m.memories ++ each (λ mem. limits mem.low mem.high) m.memories

unfoldable pub export_entry : Export → List ℕ
export_entry e = write_bytes e.name ++ e.kind ∷ write_leb128_u32 e.index

unfoldable pub export_contents : WatModule → List ℕ
export_contents m = count m.exports ++ each export_entry m.exports

unfoldable pub data_count_contents : WatModule → List ℕ
data_count_contents m = count m.segments

-- `last.1 == local.ty`
unfoldable pub same_type : ValType → ValType → Bool
same_type a b = byte a == byte b

-- A local into the groups so far, the last of them first.
unfoldable pub add_local : List (ℕ × ValType) → ValType → List (ℕ × ValType)
add_local [] ty = (1, ty) ∷ []
add_local ((n, last) ∷ groups) ty =
    if same_type last ty then (n + 1, last) ∷ groups else (1, ty) ∷ (n, last) ∷ groups

unfoldable pub compress_loop : List (ℕ × ValType) → List ValType → List (ℕ × ValType)
compress_loop groups [] = groups
compress_loop groups (ty ∷ locals) = compress_loop (add_local groups ty) locals

abbrev pub reverse {ℓ} : {A : Type ℓ} → List A → List A
reverse [] = []
reverse (x ∷ xs) = reverse xs ++ x ∷ []

unfoldable pub compress_locals : List ValType → List (ℕ × ValType)
compress_locals locals = reverse (compress_loop [] locals)

unfoldable pub plain_opcode : Plain → ℕ
plain_opcode Plain.unreachable = 0x00
plain_opcode Plain.nop = 0x01
plain_opcode Plain.return = 0x0F
plain_opcode Plain.drop = 0x1A
plain_opcode Plain.select = 0x1B
plain_opcode Plain.end = 0x0B
plain_opcode Plain.else_arm = 0x05
plain_opcode Plain.i32_add = 0x6A
plain_opcode Plain.i32_sub = 0x6B
plain_opcode Plain.i32_mul = 0x6C
plain_opcode Plain.i32_div_s = 0x6D
plain_opcode Plain.i32_div_u = 0x6E
plain_opcode Plain.i32_rem_s = 0x6F
plain_opcode Plain.i32_rem_u = 0x70
plain_opcode Plain.i32_and = 0x71
plain_opcode Plain.i32_or = 0x72
plain_opcode Plain.i32_xor = 0x73
plain_opcode Plain.i32_shl = 0x74
plain_opcode Plain.i32_shr_s = 0x75
plain_opcode Plain.i32_shr_u = 0x76
plain_opcode Plain.i32_eqz = 0x45
plain_opcode Plain.i32_eq = 0x46
plain_opcode Plain.i32_ne = 0x47
plain_opcode Plain.i32_lt_s = 0x48
plain_opcode Plain.i32_lt_u = 0x49
plain_opcode Plain.i32_gt_s = 0x4A
plain_opcode Plain.i32_gt_u = 0x4B
plain_opcode Plain.i32_le_s = 0x4C
plain_opcode Plain.i32_le_u = 0x4D
plain_opcode Plain.i32_ge_s = 0x4E
plain_opcode Plain.i32_ge_u = 0x4F
plain_opcode Plain.i64_add = 0x7C
plain_opcode Plain.i64_sub = 0x7D
plain_opcode Plain.i64_mul = 0x7E
plain_opcode Plain.i64_and = 0x83
plain_opcode Plain.i64_or = 0x84
plain_opcode Plain.i64_xor = 0x85
plain_opcode Plain.i64_eqz = 0x50
plain_opcode Plain.i64_eq = 0x51
plain_opcode Plain.i64_ne = 0x52
plain_opcode Plain.f32_add = 0x92
plain_opcode Plain.f32_sub = 0x93
plain_opcode Plain.f32_mul = 0x94
plain_opcode Plain.f32_div = 0x95
plain_opcode Plain.f64_add = 0xA0
plain_opcode Plain.f64_sub = 0xA1
plain_opcode Plain.f64_mul = 0xA2
plain_opcode Plain.f64_div = 0xA3

unfoldable pub local_group : ℕ × ValType → List ℕ
local_group (n, ty) = write_leb128_u32 n ++ byte ty ∷ []

unfoldable pub data_entry : DataSeg → List ℕ
data_entry seg = 0x00 ∷ 0x41 ∷ (write_leb128_i32 seg.offset ++ 0x0B ∷ write_bytes seg.bytes)

unfoldable pub data_contents : WatModule → List ℕ
data_contents m = count m.segments ++ each data_entry m.segments

-- `if !xs.is_empty() { … }`
abbrev pub unless_empty {ℓ} : {A : Type ℓ} → List A → List ℕ → List ℕ
unless_empty [] bytes = []
unless_empty (x ∷ xs) bytes = bytes

-- `*f as f64` on bit patterns is the argument `widen`.
module _ (widen : ℕ → ℕ) where
  unfoldable pub emit_instr : Instr → List ℕ
  emit_instr (Instr.plain p) = plain_opcode p ∷ []
  emit_instr (Instr.block ty) = 0x02 ∷ ty ∷ []
  emit_instr (Instr.loop ty) = 0x03 ∷ ty ∷ []
  emit_instr (Instr.if_block ty) = 0x04 ∷ ty ∷ []
  emit_instr (Instr.br l) = 0x0C ∷ write_leb128_u32 l
  emit_instr (Instr.br_if l) = 0x0D ∷ write_leb128_u32 l
  emit_instr (Instr.call idx) = 0x10 ∷ write_leb128_u32 idx
  emit_instr (Instr.local_get i) = 0x20 ∷ write_leb128_u32 i
  emit_instr (Instr.local_set i) = 0x21 ∷ write_leb128_u32 i
  emit_instr (Instr.local_tee i) = 0x22 ∷ write_leb128_u32 i
  emit_instr (Instr.i32_const n) = 0x41 ∷ write_leb128_i32 n
  emit_instr (Instr.i64_const n) = 0x42 ∷ write_leb128_i32 n
  emit_instr (Instr.f32_const f) = 0x43 ∷ to_le_bytes 4 f
  emit_instr (Instr.f64_const f) = 0x44 ∷ to_le_bytes 8 (widen f)
  emit_instr (Instr.i32_load offset align) =
      0x28 ∷ (write_leb128_u32 align ++ write_leb128_u32 offset)
  emit_instr (Instr.i32_store offset align) =
      0x36 ∷ (write_leb128_u32 align ++ write_leb128_u32 offset)
  emit_instr (Instr.i32_load8_s offset align) =
      0x2C ∷ (write_leb128_u32 align ++ write_leb128_u32 offset)
  emit_instr (Instr.i32_load8_u offset align) =
      0x2D ∷ (write_leb128_u32 align ++ write_leb128_u32 offset)
  emit_instr (Instr.i32_store8 offset align) =
      0x3A ∷ (write_leb128_u32 align ++ write_leb128_u32 offset)

  unfoldable pub body_bytes : FuncDef → List ℕ
  body_bytes f =
      let groups = compress_locals f.locals in
      count groups ++ (each local_group groups ++ (each emit_instr f.body ++ 0x0B ∷ []))

  unfoldable pub code_contents : WatModule → List ℕ
  code_contents m = count m.funcs ++ each (λ f. write_bytes (body_bytes f)) m.funcs

  unfoldable pub emit_module : WatModule → List ℕ
  emit_module m =
      magic
      ++ (version
          ++ (unless_empty m.types (emit_section 0x01 (type_contents m))
              ++ (unless_empty m.imports (emit_section 0x02 (import_contents m))
                  ++ (unless_empty m.funcs (emit_section 0x03 (function_contents m))
                      ++ (unless_empty m.memories (emit_section 0x05 (memory_contents m))
                          ++ (unless_empty m.exports (emit_section 0x07 (export_contents m))
                              ++ (unless_empty m.segments (
                                    unless_empty m.memories
                                      (emit_section 0x0C (data_count_contents m)))
                                  ++ (unless_empty m.funcs (emit_section 0x0A (code_contents m))
                                      ++ unless_empty m.segments
                                          (emit_section 0x0B (data_contents m))))))))))
