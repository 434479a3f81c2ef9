-- ===== src/Shell/Asm.antt =====
-- The assembler's modules in kernel/src/shell/commands/asm.rs. An i32 is its bit pattern; so is an f32. A
-- string is its list of bytes, a local its type. A data segment has no memory index, which is unused.
pub mod Emit
pub mod Leb
pub mod Sections
pub mod Locals
pub mod Code
pub mod Binary
pub mod Imports
pub mod Instance
pub mod Strings
pub mod Data
pub mod Names
pub mod Signatures
mod Tests
use wasm_os.Base.{ℕ, Bool, true, false, List, Option, none, some}
use wasm_os.Wasm.Loader.Exports.{Export}

pub data ValType : Type 0 where
  i32 i64 f32 f64 : ValType

unfoldable pub byte : ValType → ℕ
byte i32 = 0x7F
byte i64 = 0x7E
byte f32 = 0x7D
byte f64 = 0x7C

pub record FuncType : Type 0 where
  pub params : List ValType
  pub results : List ValType

-- The instructions without an operand.
pub data Plain : Type 0 where
  unreachable nop return drop select end else_arm i32_add i32_sub i32_mul i32_div_s : Plain
  i32_div_u i32_rem_s i32_rem_u i32_and i32_or i32_xor i32_shl i32_shr_s i32_shr_u i32_eqz : Plain
  i32_eq i32_ne i32_lt_s i32_lt_u i32_gt_s i32_gt_u i32_le_s i32_le_u i32_ge_s i32_ge_u : Plain
  i64_add i64_sub i64_mul i64_and i64_or i64_xor i64_eqz i64_eq i64_ne f32_add f32_sub : Plain
  f32_mul f32_div f64_add f64_sub f64_mul f64_div : Plain

-- An operand that is not a number: the block type `0x40` and the like is its byte.
pub data Instr : Type 0 where
  plain : Plain → Instr
  block loop if_block : ℕ → Instr
  br br_if call local_get local_set local_tee : ℕ → Instr
  i32_const i64_const f32_const f64_const : ℕ → Instr
  i32_load i32_store i32_load8_s i32_load8_u i32_store8 : ℕ → ℕ → Instr

pub record FuncDef : Type 0 where
  pub type_idx : ℕ
  pub locals : List ValType
  pub body : List Instr

pub record Import : Type 0 where
  pub module_name : List ℕ
  pub name : List ℕ
  pub type_idx : ℕ

pub record Memory : Type 0 where
  pub low : ℕ
  pub high : Option ℕ

pub record DataSeg : Type 0 where
  pub offset : ℕ
  pub bytes : List ℕ

pub record WatModule : Type 0 where
  pub types : List FuncType
  pub imports : List Import
  pub funcs : List FuncDef
  pub memories : List Memory
  pub exports : List Export
  pub segments : List DataSeg
