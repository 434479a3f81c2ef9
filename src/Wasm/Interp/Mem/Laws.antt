-- ===== src/Wasm/Interp/Mem/Laws.antt =====
-- Guarded accesses to linear memory, and numbers as bytes.
use wasm_os.Base.{
  ℕ, zero, suc, ◌-◌, ◌==◌, leb, Bool-cases, inl, inr, false, ltb_false→le, set, get_or,
  get_or-set_self, ◌+◌, ◌*◌, ◌/◌, ◌%◌, ◌^◌, ◌≤◌, ◌<◌, List, length, slice, overwrite, ltb,
  if◌then◌else◌, slice-overwrite, slice-overwrite_before, drop-overwrite, drop, subst,
  length-overwrite, ◌≡◌, refl, ap, ◌∙◌, sym, arith,
}
use native.Mathlib.Nat.{
  mul-add-mod_self_left, mod-eq_of_lt, mod-lt, mul_assoc, div-add-mod, pow-succ', one-le-pow,
}
use wasm_os.Wasm.Interp.State.{
  Interpreter, ok, err, mem_out_of_bounds, ◌>>◌, v_push, v_pop, stack_depth, low_word,
}
use wasm_os.Wasm.Interp.Valid.{IsValid}
use wasm_os.Wasm.Interp.Mem.{
  to_le_bytes, from_le_bytes, mem_read, mem_write, check_bounds, read_memarg, effective, load_op,
  store_op,
}
use wasm_os.Wasm.Interp.Control.{advance}

pub length-to_le_bytes : (n v : ℕ) → length (to_le_bytes n v) ≡ n
unfolding to_le_bytes
length-to_le_bytes zero v = refl
length-to_le_bytes (suc n) v = ap suc (length-to_le_bytes n (v / 256))

low_byte : (v m : ℕ) → 0 < m → v % 256 + 256 * (v / 256 % m) ≡ v % (256 * m)
low_byte v m positive = sym (
    ap (λ x. x % (256 * m)) parts
    ∙ mul-add-mod_self_left (256 * m) (v / 256 / m) (v % 256 + 256 * (v / 256 % m))
    ∙ mod-eq_of_lt (omega (arith, mod-lt (v / 256) positive)))
  where
    parts : v ≡ 256 * m * (v / 256 / m) + (v % 256 + 256 * (v / 256 % m))
    parts = omega (arith, mul_assoc 256 m (v / 256 / m), div-add-mod (v / 256) m)

-- The bytes of a number, lowest first, make its value modulo 256 ^ n.
pub from_le_bytes-to_le_bytes : (n v : ℕ) → from_le_bytes (to_le_bytes n v) ≡ v % 256 ^ n
unfolding to_le_bytes from_le_bytes
from_le_bytes-to_le_bytes zero v = omega arith
from_le_bytes-to_le_bytes (suc n) v =
    rw (from_le_bytes-to_le_bytes n (v / 256), pow-succ' 256 n)
      (low_byte v (256 ^ n) (one-le-pow n 256 (omega arith)))

-- In a well-formed state a guarded read answers the bytes, or reports that they lie out of bounds.
pub read_guarded :
    (ea n : ℕ) (s : Interpreter)
    → IsValid s
    → (check_bounds ea n >> mem_read ea n) s
      ≡ (if ltb s.active_mem (ea + n) then err mem_out_of_bounds s else ok (slice s.mem ea n) s)
unfolding check_bounds mem_read
read_guarded ea n s h = ground (arith, h.memory.inside)

pub write_guarded :
    (ea : ℕ) (bytes : List ℕ) (s : Interpreter)
    → IsValid s
    → (check_bounds ea (length bytes) >> mem_write ea bytes) s ≡ (
        if ltb s.active_mem (ea + length bytes)
        then err mem_out_of_bounds s
        else ok tt (record s { mem = overwrite s.mem ea bytes }))
unfolding check_bounds mem_write
write_guarded ea bytes s h = ground (arith, h.memory.inside)

-- In a well-formed state with an address and a value on the stack, a store of `n` bytes at the address
-- plus the offset pops both and reports that the bytes lie outside the memory in use, or puts the low
-- bytes of the value there. In the state that it leaves, the address pushed again, a load of `n` bytes
-- with the same offset reports the same, or replaces the address by the value modulo 256 ^ n, extended.
-- The bytes before and behind those written are untouched.
pub store_then_load :
    (n offset k k' pc pc' : ℕ) (extend : ℕ → ℕ) (body body' : List ℕ) (s : Interpreter)
    → IsValid s
    → 2 ≤ s.vsp
    → ((t : Interpreter) → read_memarg body pc t ≡ ok (offset, k) t)
    → ((t : Interpreter) → read_memarg body' pc' t ≡ ok (offset, k') t)
    → let v = get_or s.vstack (s.vsp - 1) 0 in
      let addr = get_or s.vstack (s.vsp - 2) 0 in
      let ea = effective (low_word addr) offset in
      let stored = record s { vsp = s.vsp - 2; mem = overwrite s.mem ea (to_le_bytes n v) } in
      let pushed = set s.vstack (s.vsp - 2) addr in
      (store_op n body pc s ≡ (
        if ltb s.active_mem (ea + n)
        then err mem_out_of_bounds (record s { vsp = s.vsp - 2 })
        else ok (advance (pc + k)) stored))
      × ((v_push addr >> load_op n extend body' pc') stored ≡ (
          if ltb s.active_mem (ea + n)
          then err mem_out_of_bounds (record stored { vstack = pushed })
          else ok (advance (pc' + k')) (record stored {
            vstack = set pushed (s.vsp - 2) (extend (v % 256 ^ n));
            vsp = s.vsp - 2 + 1;
          })))
      × (slice stored.mem 0 ea ≡ slice s.mem 0 ea)
      × (drop (ea + n) stored.mem ≡ drop (ea + n) s.mem)
unfolding store_op load_op v_pop v_push check_bounds mem_read mem_write
store_then_load n offset k k' pc pc' extend body body' s h two arg arg' =
    let v = get_or s.vstack (s.vsp - 1) 0 in
    let addr = get_or s.vstack (s.vsp - 2) 0 in
    let ea = effective (low_word addr) offset in
    let bytes = to_le_bytes n v in
    let stored = record s { vsp = s.vsp - 2; mem = overwrite s.mem ea bytes } in
    let pushed = set s.vstack (s.vsp - 2) addr in
    let len = length-to_le_bytes n v in
    let some_value : (s.vsp == 0) ≡ false = ground (arith, two) in
    let some_address : (s.vsp - 1 == 0) ≡ false = ground (arith, two) in
    let second : s.vsp - 1 - 1 ≡ s.vsp - 2 = omega arith in
    let room : leb stack_depth (s.vsp - 2) ≡ false = ground (arith, two, h.stack.bound) in
    let some_top : (s.vsp - 2 + 1 == 0) ≡ false = ground arith in
    let top : s.vsp - 2 + 1 - 1 ≡ s.vsp - 2 = omega arith in
    let held : get_or pushed (s.vsp - 2) 0 ≡ addr =
      get_or-set_self s.vstack (s.vsp - 2) addr 0
        (omega (arith, two, h.stack.bound, h.stack.size_eq)) in
    (
      elim (Bool-cases (ltb s.active_mem (ea + n))) [
        | inl t ↦ rw (arg s, some_value, some_address, second, t) refl
        | inr t ↦
            let fits = ltb_false→le s.active_mem (ea + n) t in
            let inside : ltb (length s.mem) (ea + length bytes) ≡ false =
              ground (arith, fits, len, h.memory.inside) in
            rw (arg s, some_value, some_address, second, t, inside) refl
      ],
      elim (Bool-cases (ltb s.active_mem (ea + n))) [
        | inl t ↦
            rw
              (
                room,
                arg' (record stored { vstack = pushed; vsp = s.vsp - 2 + 1 }),
                some_top,
                top,
                held,
                t,
              )
              refl
        | inr t ↦
            let fits = ltb_false→le s.active_mem (ea + n) t in
            let inside : ltb (length (overwrite s.mem ea bytes)) (ea + n) ≡ false =
              ground (arith, fits, length-overwrite s.mem ea bytes, h.memory.inside) in
            let same : slice (overwrite s.mem ea bytes) ea n ≡ bytes =
              subst (λ m. slice (overwrite s.mem ea bytes) ea m ≡ bytes) len
                (slice-overwrite s.mem ea bytes (omega (arith, fits, len, h.memory.inside))) in
            rw
              (
                room,
                arg' (record stored { vstack = pushed; vsp = s.vsp - 2 + 1 }),
                some_top,
                top,
                held,
                t,
                inside,
                same,
                from_le_bytes-to_le_bytes n v,
                room,
              )
              refl
      ],
      slice-overwrite_before s.mem ea bytes 0 ea (omega arith),
      drop-overwrite (ea + n) s.mem ea bytes (omega (arith, len)),
    )
