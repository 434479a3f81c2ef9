-- ===== src/Wasm/Sections.antt =====
-- The section parsers of kernel/src/wasm/interp.rs. A cursor is a position in the section, since the
-- code may move it past the end, where the slice `bytes[cur..]` panics.
pub mod Contents
use wasm_os.Base.{
  ℕ, zero, suc, ◌+◌, ◌*◌, ◌/◌, ◌^◌, Bool, not, ◌||◌, List, [], ◌∷◌, Option, none, some, ltb, leb,
  ◌==◌, if◌then◌else◌, get_or, set, take, drop, slice, length, max,
}
use wasm_os.Wasm.Leb.{read_u32_leb128, read_i32_leb128, read_i64_leb128}
use wasm_os.Wasm.Interp.Num.{sext}
use wasm_os.Wasm.Interp.State.{
  InterpError, malformed_code, too_many_types, too_many_funcs, too_many_globals, max_types,
  max_funcs, max_globals, max_table,
}

pub data Parsed (A : Type 0) : Type 0 where
  parsed : A → Parsed A
  refused : InterpError → Parsed A
  crashed : Parsed A

infixl 5 ◌>>=◌ ◌>>◌
abbrev pub ◌>>=◌ : {A B : Type 0} → Parsed A → (A → Parsed B) → Parsed B
parsed a >>= f = f a
refused e >>= f = refused e
crashed >>= f = crashed

abbrev pub ◌>>◌ : {B : Type 0} → Parsed (Unit {0}) → Parsed B → Parsed B
m >> k = m >>= λ _. k

abbrev pub refuse_if : Bool → InterpError → Parsed (Unit {0})
refuse_if test e = if test then refused e else parsed tt

-- `read(&bytes[cur..]).ok_or(MalformedCode)?`
abbrev pub read_at : (List ℕ → Option (ℕ × ℕ)) → List ℕ → ℕ → Parsed (ℕ × ℕ)
read_at read bytes cur =
    if ltb (length bytes) cur
    then crashed
    else elim (read (drop cur bytes)) [ none ↦ refused malformed_code | some r ↦ parsed r ]

-- `if cur >= bytes.len() { return Err(MalformedCode) }; bytes[cur]`
abbrev pub byte_at : List ℕ → ℕ → Parsed ℕ
byte_at bytes cur =
    if leb (length bytes) cur then refused malformed_code else parsed (get_or bytes cur 0)

-- A byte that has to be this one.
abbrev pub expect : List ℕ → ℕ → ℕ → Parsed (Unit {0})
expect bytes cur b =
    if leb (length bytes) cur || not (get_or bytes cur 0 == b)
    then refused malformed_code
    else parsed tt

-- The counts of parameters and of results.
unfoldable pub type_loop : ℕ → ℕ → ℕ → List ℕ → List ℕ × List ℕ → Parsed (List ℕ × List ℕ)
type_loop zero i cur bytes out = parsed out
type_loop (suc left) i cur bytes out = do
  refuse_if (leb (length bytes) cur) malformed_code
  (param_count, n) ← read_at read_u32_leb128 bytes (cur + 1)
  let at = cur + 1 + n + param_count
  (result_count, k) ← read_at read_u32_leb128 bytes at
  type_loop left (i + 1) (at + k + result_count) bytes
      (set out.0 i param_count, set out.1 i result_count)

unfoldable pub parse_type_section : List ℕ → List ℕ × List ℕ → Parsed (ℕ × (List ℕ × List ℕ))
unfolding type_loop
parse_type_section bytes out = do
  (count, n) ← read_at read_u32_leb128 bytes 0
  refuse_if (ltb max_types count) too_many_types
  filled ← type_loop count 0 n bytes out
  parsed (count, filled)

unfoldable pub function_loop : ℕ → ℕ → ℕ → List ℕ → List ℕ → Parsed (List ℕ)
function_loop zero i cur bytes out = parsed out
function_loop (suc left) i cur bytes out = do
  (type_idx, n) ← read_at read_u32_leb128 bytes cur
  function_loop left (i + 1) (cur + n) bytes (set out i type_idx)

unfoldable pub parse_function_section : List ℕ → List ℕ → Parsed (List ℕ)
unfolding function_loop
parse_function_section bytes out = do
  (count, n) ← read_at read_u32_leb128 bytes 0
  refuse_if (ltb max_funcs count) too_many_funcs
  function_loop count 0 n bytes out

-- The groups of declared locals: the cursor behind them, and their number.
unfoldable pub group_loop : ℕ → ℕ → ℕ → List ℕ → Parsed (ℕ × ℕ)
group_loop zero lc total entry = parsed (lc, total)
group_loop (suc left) lc total entry = do
  (group_count, n) ← read_at read_u32_leb128 entry lc
  group_loop left (lc + n + 1) (total + group_count) entry

unfoldable pub code_loop :
    ℕ → ℕ → ℕ → List ℕ → List (List ℕ) × List ℕ → Parsed (List (List ℕ) × List ℕ)
unfolding group_loop
code_loop zero i cur bytes out = parsed out
code_loop (suc left) i cur bytes out = do
  (body_size, n) ← read_at read_u32_leb128 bytes cur
  let entry = slice bytes (cur + n) body_size
  refuse_if (ltb (length bytes) (cur + n + body_size)) malformed_code
  (local_groups, k) ← read_at read_u32_leb128 entry 0
  (lc, total) ← group_loop local_groups k 0 entry
  refuse_if (ltb (length entry) lc) malformed_code
  code_loop left (i + 1) (cur + n + body_size) bytes
      (set out.0 i (drop lc entry), set out.1 i total)

unfoldable pub parse_code_section :
    List ℕ → List (List ℕ) × List ℕ → Parsed (ℕ × (List (List ℕ) × List ℕ))
unfolding code_loop
parse_code_section bytes out = do
  (count, n) ← read_at read_u32_leb128 bytes 0
  refuse_if (ltb max_funcs count) too_many_funcs
  filled ← code_loop count 0 n bytes out
  parsed (count, filled)

-- The limits of a table or a memory: a flag, a minimum, and a maximum if the flag says so.
unfoldable pub skip_limits : List ℕ → ℕ → Parsed ℕ
skip_limits bytes cur = do
  flag ← byte_at bytes cur
  (low, n) ← read_at read_u32_leb128 bytes (cur + 1)
  if flag == 0
      then parsed (cur + 1 + n)
      else (do (high, k) ← read_at read_u32_leb128 bytes (cur + 1 + n); parsed (cur + 1 + n + k))

-- What stands behind the kind of an import; a type index comes with the cursor.
unfoldable pub import_description : List ℕ → ℕ → ℕ → Parsed (Option ℕ × ℕ)
unfolding skip_limits
import_description bytes kind cur =
    if kind == 0
    then (do (type_idx, n) ← read_at read_u32_leb128 bytes cur; parsed (some type_idx, cur + n))
    else if kind == 1
    then (do at ← skip_limits bytes (cur + 1); parsed (none, at))
    else if kind == 2
    then (do at ← skip_limits bytes cur; parsed (none, at))
    else if kind == 3
    then parsed (none, cur + 2)
    else refused malformed_code

-- `if func_count < MAX_FUNCS { out[func_count] = type_idx }; func_count += 1`
abbrev pub note_import : Option ℕ → ℕ × List ℕ → ℕ × List ℕ
note_import none out = out
note_import (some type_idx) out =
    (out.0 + 1, if ltb out.0 max_funcs then set out.1 out.0 type_idx else out.1)

unfoldable pub import_loop : ℕ → ℕ → List ℕ → ℕ × List ℕ → Parsed (ℕ × List ℕ)
unfolding import_description
import_loop zero cur bytes out = parsed out
import_loop (suc left) cur bytes out = do
  (mod_len, n) ← read_at read_u32_leb128 bytes cur
  let field = cur + n + mod_len
  (name_len, k) ← read_at read_u32_leb128 bytes field
  let at = field + k + name_len
  kind ← byte_at bytes at
  (type_idx, next) ← import_description bytes kind (at + 1)
  import_loop left next bytes (note_import type_idx out)

unfoldable pub parse_import_func_types : List ℕ → List ℕ → Parsed (ℕ × List ℕ)
unfolding import_loop
parse_import_func_types bytes out = do
  (count, n) ← read_at read_u32_leb128 bytes 0
  import_loop count n bytes (0, out)
