-- ===== src/Wasm/Engine/Memory.antt =====
-- init_memory and count_func_imports of kernel/src/wasm/engine.rs, and for_each_func_import of
-- kernel/src/wasm/loader.rs. A cursor that passes the end panics at the next slice.
use wasm_os.Base.{
  ℕ, zero, suc, ◌+◌, ◌-◌, ◌^◌, min, Bool, not, List, [], ◌∷◌, Option, none, some, ltb, ◌==◌,
  if◌then◌else◌, length, slice, overwrite,
}
use mathlib.Core.Option
use wasm_os.Wasm.Leb.{read_u32_leb128, read_i32_leb128}
use wasm_os.Wasm.Interp.State.{malformed_code}
use wasm_os.Wasm.Sections.{
  Parsed, parsed, refused, crashed, ◌>>=◌, ◌>>◌, read_at, byte_at, expect, refuse_if,
  import_description,
}

-- `offset as usize` of an i32.
abbrev pub address : ℕ → ℕ
address offset = if ltb offset (2 ^ 31) then offset else offset + (2 ^ 64 - 2 ^ 32)

-- `mem[dst..dst_end].copy_from_slice(..)`, where `dst_end - dst` may be less than nothing.
unfoldable pub copy_segment : ℕ → ℕ → ℕ → List ℕ → List ℕ → Parsed (List ℕ)
copy_segment dst len cur section mem =
    let dst_end = min (min (dst + len) (2 ^ 64 - 1)) (length mem) in
    if ltb dst_end dst
    then crashed
    else parsed (overwrite mem dst (slice section cur (dst_end - dst)))

-- One active segment: the memory, and the cursor behind the segment.
unfoldable pub init_segment : ℕ → List ℕ → List ℕ → Parsed (List ℕ × ℕ)
unfolding copy_segment
init_segment cur section mem = do
  expect section cur 0x41
  (offset, n) ← read_at read_i32_leb128 section (cur + 1)
  expect section (cur + 1 + n) 0x0B
  (len, k) ← read_at read_u32_leb128 section (cur + 1 + n + 1)
  let at = cur + 1 + n + 1 + k
  refuse_if (ltb (length section) (at + len)) malformed_code
  filled ← copy_segment (address offset) len at section mem
  parsed (filled, at + len)

unfoldable pub init_loop : ℕ → ℕ → List ℕ → List ℕ → Parsed (List ℕ)
unfolding init_segment
init_loop zero cur section mem = parsed mem
init_loop (suc left) cur section mem = do
  (kind, n) ← read_at read_u32_leb128 section cur
  if kind == 0
      then (do (filled, at) ← init_segment (cur + n) section mem; init_loop left at section filled)
      else init_loop left (cur + n) section mem

-- `false` is `refused`; the memory is then of no further use.
unfoldable pub init_memory : List ℕ → List ℕ → Parsed (List ℕ)
unfolding init_loop
init_memory section mem = do
  (count, n) ← read_at read_u32_leb128 section 0
  init_loop count n section mem

-- A name with its length in front: the name, and the cursor behind it. `is_text` is the test that
-- `from_utf8` makes, or nothing.
unfoldable pub name_at : (List ℕ → Bool) → List ℕ → ℕ → Parsed (List ℕ × ℕ)
name_at is_text bytes cur = do
  (len, n) ← read_at read_u32_leb128 bytes cur
  let name = slice bytes (cur + n) len
  refuse_if (ltb (length bytes) (cur + n + len)) malformed_code
  refuse_if (not (is_text name)) malformed_code
  parsed (name, cur + n + len)

-- One entry: the names of a function, and the cursor behind the entry.
unfoldable pub import_at : (List ℕ → Bool) → List ℕ → ℕ → Parsed (Option (List ℕ × List ℕ) × ℕ)
unfolding name_at
import_at is_text bytes cur = do
  (module_name, at) ← name_at is_text bytes cur
  (func_name, behind) ← name_at is_text bytes at
  kind ← byte_at bytes behind
  (type_idx, next) ← import_description bytes kind (behind + 1)
  parsed (Option.map (λ _. (module_name, func_name)) type_idx, next)

abbrev pub add_name : Option (List ℕ × List ℕ) → List (List ℕ × List ℕ) → List (List ℕ × List ℕ)
add_name none names = names
add_name (some names) more = names ∷ more

-- The functions up to the first entry that is malformed; `none` is a panic.
unfoldable pub names_loop : (List ℕ → Bool) → ℕ → ℕ → List ℕ → Option (List (List ℕ × List ℕ))
unfolding import_at
names_loop is_text zero cur bytes = some []
names_loop is_text (suc left) cur bytes = elim (import_at is_text bytes cur) [
  | parsed (names, next) ↦ Option.map (add_name names) (names_loop is_text left next bytes)
  | refused e ↦ some []
  | crashed ↦ none
]

-- The names that the callback gets, in this order.
unfoldable pub for_each_func_import : (List ℕ → Bool) → List ℕ → Option (List (List ℕ × List ℕ))
unfolding names_loop
for_each_func_import is_utf8 section = elim (read_at read_u32_leb128 section 0) [
  | parsed (count, n) ↦ names_loop is_utf8 count n section
  | refused e ↦ some []
  | crashed ↦ none
]

-- The same walk, which counts the functions and takes names that are not text as well.
unfoldable pub count_func_imports : Option (List ℕ) → Option ℕ
unfolding for_each_func_import
count_func_imports none = some 0
count_func_imports (some bytes) =
    Option.map (λ names. length names) (for_each_func_import (λ name. Bool.true) bytes)
