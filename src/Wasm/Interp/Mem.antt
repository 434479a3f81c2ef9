-- ===== src/Wasm/Interp/Mem.antt =====
-- Linear memory: loads, stores, growth, and the bulk operations.
pub mod Laws
pub mod Invariant
use wasm_os.Base.{
  ℕ, zero, suc, ◌+◌, ◌-◌, ◌*◌, ◌/◌, ◌%◌, ◌^◌, Bool, ◌||◌, List, [], ◌∷◌, Option, none, some, ltb,
  leb, ◌==◌, if◌then◌else◌, slice, overwrite, replicate, length, drop, min,
}
use mathlib.Core.Option
use wasm_os.Wasm.Leb.{read_u32_leb128}
use wasm_os.Wasm.Interp.Control.{Next, advance}
use wasm_os.Wasm.Interp.Num.{sext, low32}
use wasm_os.Wasm.Interp.State.{
  Interpreter, malformed_code, mem_out_of_bounds, unknown_opcode, M, Res, ok, err, panic, pure,
  fail, ◌>>=◌, ◌>>◌, gets, modify, fail_if, ok_or, v_push, v_pop, read_u32_at, page_size, low_word,
}

-- `n` bytes of a number, lowest first, and the number that they make.
unfoldable pub to_le_bytes : ℕ → ℕ → List ℕ
to_le_bytes zero v = []
to_le_bytes (suc n) v = v % 256 ∷ to_le_bytes n (v / 256)

unfoldable pub from_le_bytes : List ℕ → ℕ
from_le_bytes [] = 0
from_le_bytes (b ∷ bs) = b + 256 * from_le_bytes bs

-- The offset, and the bytes of both immediates.
unfoldable pub read_memarg : List ℕ → ℕ → M (ℕ × ℕ)
read_memarg body pc = do
  (align, n1) ← read_u32_at body pc
  (offset, n2) ← read_u32_at body (pc + n1)
  pure (offset, n1 + n2)

-- `addr.wrapping_add(offset as usize)` in 64-bit words
abbrev pub effective : ℕ → ℕ → ℕ
effective addr offset = (addr + offset) % 2 ^ 64

-- `self.mem[ea .. ea + n]`: an access past the slice panics.
unfoldable pub mem_read : ℕ → ℕ → M (List ℕ)
mem_read ea n s = if ltb (length s.mem) (ea + n) then panic else ok (slice s.mem ea n) s

unfoldable pub mem_write : ℕ → List ℕ → M (Unit {0})
mem_write ea bytes s =
    if ltb (length s.mem) (ea + length bytes)
    then panic
    else ok tt (record s { mem = overwrite s.mem ea bytes })

-- `if ea + n > active_mem { return Err(MemOutOfBounds) }`; for one byte `ea >= active_mem`.
unfoldable pub check_bounds : ℕ → ℕ → M (Unit {0})
check_bounds ea n s = if ltb s.active_mem (ea + n) then err mem_out_of_bounds s else ok tt s

-- A load of `n` bytes; `extend` makes the value on the stack of the number read.
unfoldable pub load_op : ℕ → (ℕ → ℕ) → List ℕ → ℕ → M Next
unfolding read_memarg check_bounds mem_read
load_op n extend body pc = do
  (offset, consumed) ← read_memarg body pc
  v ← v_pop
  let ea = effective (low_word v) offset
  check_bounds ea n
  bytes ← mem_read ea n
  v_push (extend (from_le_bytes bytes))
  pure (advance (pc + consumed))

-- A store of the low `n` bytes.
unfoldable pub store_op : ℕ → List ℕ → ℕ → M Next
unfolding read_memarg check_bounds mem_write to_le_bytes
store_op n body pc = do
  (offset, consumed) ← read_memarg body pc
  val ← v_pop
  v ← v_pop
  let ea = effective (low_word v) offset
  check_bounds ea n
  mem_write ea (to_le_bytes n val)
  pure (advance (pc + consumed))

abbrev pub zero_extend : ℕ → ℕ
zero_extend v = v

-- The load instructions: opcode, bytes read, extension.
unfoldable pub loads : List (ℕ × (ℕ × (ℕ → ℕ)))
loads =
    (0x28, (4, sext 32))
    ∷ (0x29, (8, zero_extend))
    ∷ (0x2A, (4, zero_extend))
    ∷ (0x2B, (8, zero_extend))
    ∷ (0x2C, (1, sext 8))
    ∷ (0x2D, (1, zero_extend))
    ∷ (0x2E, (2, sext 16))
    ∷ (0x2F, (2, zero_extend))
    ∷ (0x30, (1, sext 8))
    ∷ (0x31, (1, zero_extend))
    ∷ (0x32, (2, sext 16))
    ∷ (0x33, (2, zero_extend))
    ∷ (0x34, (4, sext 32))
    ∷ (0x35, (4, zero_extend))
    ∷ []

-- The store instructions: opcode and bytes written.
unfoldable pub stores : List (ℕ × ℕ)
stores =
    (0x36, 4)
    ∷ (0x37, 8)
    ∷ (0x38, 4)
    ∷ (0x39, 8)
    ∷ (0x3A, 1)
    ∷ (0x3B, 2)
    ∷ (0x3C, 1)
    ∷ (0x3D, 2)
    ∷ (0x3E, 4)
    ∷ []

unfoldable pub memory_size_op : ℕ → M Next
memory_size_op pc = do pages ← gets (λ s. s.current_pages); v_push pages; pure (advance (pc + 1))

-- `old.saturating_add(delta)` in 32-bit words
abbrev pub saturating_add32 : ℕ → ℕ → ℕ
saturating_add32 a b = min (a + b) 0xffff_ffff

unfoldable pub grow_to : ℕ → ℕ → M (Unit {0})
unfolding mem_write
grow_to old new = do
  mem_write (old * page_size) (replicate (new * page_size - old * page_size) 0)
  modify (λ s. record s { current_pages = new; active_mem = new * page_size })

unfoldable pub memory_grow_op : ℕ → M Next
unfolding grow_to
memory_grow_op pc = do
  v ← v_pop
  s ← gets (λ s. s)
  let delta = low_word v
  if leb (saturating_add32 s.current_pages delta) s.code.max_pages
      then (do grow_to s.current_pages (s.current_pages + delta); v_push s.current_pages)
      else v_push 0xffff_ffff_ffff_ffff
  pure (advance (pc + 1))

-- `src.saturating_add(n) > active_mem`, in 64-bit words
abbrev pub past_end : ℕ → ℕ → Interpreter → Bool
past_end at n s = ltb s.active_mem (min (at + n) 0xffff_ffff_ffff_ffff)

unfoldable pub memory_init_op : List ℕ → ℕ → M Next
memory_init_op body pc = do
  (seg, n) ← read_u32_at body pc
  count ← v_pop
  src ← v_pop
  dst ← v_pop
  if count == 0 then pure (advance (pc + n + 1)) else fail (unknown_opcode 0xFC)

unfoldable pub data_drop_op : List ℕ → ℕ → M Next
data_drop_op body pc = do (seg, n) ← read_u32_at body pc; pure (advance (pc + n))

unfoldable pub memory_copy_op : ℕ → M Next
unfolding mem_read mem_write
memory_copy_op pc = do
  n ← v_pop
  src ← v_pop
  dst ← v_pop
  s ← gets (λ s. s)
  fail_if (past_end src n s || past_end dst n s) mem_out_of_bounds
  bytes ← mem_read src n
  mem_write dst bytes
  pure (advance (pc + 2))

unfoldable pub memory_fill_op : ℕ → M Next
unfolding mem_write
memory_fill_op pc = do
  n ← v_pop
  val ← v_pop
  dst ← v_pop
  s ← gets (λ s. s)
  fail_if (past_end dst n s) mem_out_of_bounds
  mem_write dst (replicate n (val % 256))
  pure (advance (pc + 1))
