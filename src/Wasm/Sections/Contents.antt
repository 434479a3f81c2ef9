-- ===== src/Wasm/Sections/Contents.antt =====
-- The element and the global section of kernel/src/wasm/interp.rs.
use wasm_os.Base.{
  ℕ, zero, suc, ◌+◌, ◌^◌, Bool, List, ltb, leb, ◌==◌, if◌then◌else◌, get_or, set, length, max,
}
use wasm_os.Wasm.Leb.{read_u32_leb128, read_i32_leb128, read_i64_leb128}
use wasm_os.Wasm.Interp.Num.{sext}
use wasm_os.Wasm.Interp.State.{malformed_code, too_many_globals, max_globals, max_table}
use wasm_os.Wasm.Sections.{
  Parsed, parsed, refused, crashed, ◌>>=◌, ◌>>◌, refuse_if, read_at, byte_at, expect,
}

-- The table, and the number of its places in use.
abbrev pub Table : Type 0
Table = List ℕ × ℕ

abbrev pub put_element : ℕ → ℕ → Table → Table
put_element ti func_idx t = if ltb ti max_table then (set t.0 ti func_idx, max t.1 (ti + 1)) else t

-- The place `base + j` is a 64-bit sum, which may overflow.
abbrev pub crash_if : Bool → Parsed (Unit {0})
crash_if test = if test then crashed else parsed tt

-- `left` function indices from the place `ti` on, and the cursor behind them.
unfoldable pub element_loop : ℕ → ℕ → ℕ → List ℕ → Table → Parsed (ℕ × Table)
element_loop zero ti cur bytes t = parsed (cur, t)
element_loop (suc left) ti cur bytes t = do
  (func_idx, n) ← read_at read_u32_leb128 bytes cur
  crash_if (leb (2 ^ 64) ti)
  element_loop left (ti + 1) (cur + n) bytes (put_element ti func_idx t)

-- An active segment: `i32.const offset end`, then the indices. A negative offset is sign-extended.
unfoldable pub active_segment : ℕ → List ℕ → Table → Parsed (ℕ × Table)
unfolding element_loop
active_segment cur bytes t = do
  expect bytes cur 0x41
  (offset, n) ← read_at read_i32_leb128 bytes (cur + 1)
  expect bytes (cur + 1 + n) 0x0B
  let at = cur + 1 + n + 1
  (elem_count, k) ← read_at read_u32_leb128 bytes at
  element_loop elem_count (sext 32 offset) (at + k) bytes t

-- The loop stops at a segment of another kind.
unfoldable pub segment_loop : ℕ → ℕ → List ℕ → Table → Parsed Table
unfolding active_segment
segment_loop zero cur bytes t = parsed t
segment_loop (suc left) cur bytes t = do
  (kind, n) ← read_at read_u32_leb128 bytes cur
  if kind == 0
      then (do (next, t') ← active_segment (cur + n) bytes t; segment_loop left next bytes t')
      else parsed t

unfoldable pub parse_element_section : List ℕ → Table → Parsed Table
unfolding segment_loop
parse_element_section bytes t = do
  (seg_count, n) ← read_at read_u32_leb128 bytes 0
  segment_loop seg_count n bytes t

-- The value of an initialiser, and the cursor behind its immediate.
unfoldable pub read_init : List ℕ → ℕ → Parsed (ℕ × ℕ)
read_init bytes cur = do
  init_op ← byte_at bytes cur
  if init_op == 0x41
      then (do (v, n) ← read_at read_i32_leb128 bytes (cur + 1); parsed (sext 32 v, cur + 1 + n))
      else if init_op == 0x42
      then (do (v, n) ← read_at read_i64_leb128 bytes (cur + 1); parsed (v, cur + 1 + n))
      else refused malformed_code

unfoldable pub global_loop : ℕ → ℕ → ℕ → List ℕ → List ℕ × List Bool → Parsed (List ℕ × List Bool)
unfolding read_init
global_loop zero i cur bytes out = parsed out
global_loop (suc left) i cur bytes out = do
  refuse_if (ltb (length bytes) (cur + 2)) malformed_code
  let mutable = get_or bytes (cur + 1) 0 == 1
  (val, at) ← read_init bytes (cur + 2)
  expect bytes at 0x0B
  global_loop left (i + 1) (at + 1) bytes (set out.0 i val, set out.1 i mutable)

unfoldable pub parse_global_section :
    List ℕ → List ℕ × List Bool → Parsed (ℕ × (List ℕ × List Bool))
unfolding global_loop
parse_global_section bytes out = do
  (count, n) ← read_at read_u32_leb128 bytes 0
  refuse_if (ltb max_globals count) too_many_globals
  filled ← global_loop count 0 n bytes out
  parsed (count, filled)
