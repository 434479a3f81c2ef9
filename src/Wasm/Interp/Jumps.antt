-- ===== src/Wasm/Interp/Jumps.antt =====
-- The jump table: an open-addressing hash table that remembers what `scan_block_end` answers.
pub mod Laws
use wasm_os.Base.{
  ℕ, zero, suc, ◌+◌, ◌-◌, ◌*◌, ◌/◌, ◌%◌, ◌^◌, ◌&&◌, ◌||◌, List, [], ◌∷◌, Option, none, some, ltb,
  leb, ◌==◌, if◌then◌else◌, get_or, set, drop, length, bit_and, bit_xor,
}
use mathlib.Core.Option
use wasm_os.Wasm.Leb.{read_u32_leb128, skip_leb128}
use wasm_os.Wasm.Interp.Scan.{no_else, has_one_leb, in_range, opens_block, scan_block_end}
use wasm_os.Wasm.Interp.State.{JumpSlot}

abbrev pub jump_slots : ℕ
jump_slots = 4096

-- `u16::MAX`, the key of an empty slot
abbrev pub empty_key : ℕ
empty_key = 0xffff

-- `u32::MAX`
abbrev pub no_else_u32 : ℕ
no_else_u32 = 0xffff_ffff

abbrev pub empty_jump_slot : JumpSlot
empty_jump_slot = record { key_body = empty_key; key_pc = 0; end_pc = 0; else_pc = no_else_u32 }

-- In 64-bit words.
unfoldable pub jump_hash : ℕ → ℕ → ℕ
jump_hash body_idx scan_start =
    let h = bit_xor (body_idx * 2654435761 % 2 ^ 64) (scan_start * 2246822519 % 2 ^ 64) in
    bit_and (bit_xor h (h / 2 ^ 16)) (jump_slots - 1)

abbrev pub next_slot : ℕ → ℕ
next_slot i = bit_and (i + 1) (jump_slots - 1)

abbrev pub slot_at : List JumpSlot → ℕ → JumpSlot
slot_at table i = get_or table i empty_jump_slot

-- What a slot holds of `(end_pc, else_pc)`, in its 32-bit fields.
abbrev pub new_slot : ℕ → ℕ → ℕ → ℕ → JumpSlot
new_slot body_idx scan_start end_pc else_pc = record {
  key_body = body_idx % 2 ^ 16;
  key_pc = scan_start % 2 ^ 32;
  end_pc = end_pc % 2 ^ 32;
  else_pc = if else_pc == no_else then no_else_u32 else else_pc % 2 ^ 32;
}

-- The probes that are left, from slot `i` on.
unfoldable pub insert_probe : ℕ → List JumpSlot → JumpSlot → ℕ → List JumpSlot
insert_probe zero table s i = table
insert_probe (suc n) table s i =
    let further = insert_probe n table s (next_slot i) in
    if (slot_at table i).key_body == empty_key then set table i s else further

unfoldable pub jump_insert : List JumpSlot → ℕ → ℕ → ℕ → ℕ → List JumpSlot
unfolding insert_probe
jump_insert table body_idx scan_start end_pc else_pc =
    if leb empty_key body_idx
    then table
    else insert_probe jump_slots table (new_slot body_idx scan_start end_pc else_pc)
        (jump_hash body_idx scan_start)

-- The answer of a lookup. After a whole round of the table with no empty slot and no match, the
-- loop of the code goes round for ever.
pub data Lookup : Type 0 where
  hit : ℕ → ℕ → Lookup
  miss spins : Lookup

unfoldable pub lookup_probe : ℕ → List JumpSlot → ℕ → ℕ → ℕ → Lookup
lookup_probe zero table body_idx scan_start i = spins
lookup_probe (suc n) table body_idx scan_start i =
    let s = slot_at table i in
    let further = lookup_probe n table body_idx scan_start (next_slot i) in
    if s.key_body == empty_key
    then miss
    else if s.key_body == body_idx && s.key_pc == scan_start
    then hit s.end_pc (if s.else_pc == no_else_u32 then no_else else s.else_pc)
    else further

unfoldable pub jump_lookup : List JumpSlot → ℕ → ℕ → Lookup
jump_lookup table body_idx scan_start =
    lookup_probe jump_slots table body_idx scan_start (jump_hash body_idx scan_start)

-- `skip_leb128(body, i).unwrap_or(d)`
abbrev pub skip_or : List ℕ → ℕ → ℕ → ℕ
skip_or body i d = Option.get_or (skip_leb128 body i) d

-- `for _ in 0..n { i += skip_leb128(body, i).unwrap_or(1); }`
unfoldable pub walk_labels : ℕ → List ℕ → ℕ → ℕ
walk_labels zero body i = i
walk_labels (suc n) body i = walk_labels n body (i + skip_or body i 1)

-- Past the immediates of a plain opcode; `none` is the early return of a bad br_table.
unfoldable pub walk_immediates : List ℕ → ℕ → ℕ → Option ℕ
unfolding walk_labels
walk_immediates body op i =
    if has_one_leb op
    then some (i + skip_or body i 0)
    else if op == 0x11 || in_range 0x28 0x3E op
    then some (i + skip_or body i 0 + skip_or body (i + skip_or body i 0) 0)
    else if op == 0x0E
    then Option.map (λ r. walk_labels (r.0 + 1) body (i + r.1)) (read_u32_leb128 (drop i body))
    else if op == 0x3F || op == 0x40
    then some (i + 1)
    else if op == 0x43
    then some (i + 4)
    else if op == 0x44
    then some (i + 8)
    else if op == 0xFC
    then some (i + skip_or body i 0)
    else some i

-- `if let Some((end_pc, else_pc)) = scan_block_end(..) { jump_insert(..) }`
unfoldable pub record_block : List ℕ → ℕ → ℕ → List JumpSlot → List JumpSlot
record_block body body_idx scan_start table = elim (scan_block_end body scan_start) [
  | none ↦ table
  | some (end_pc, else_pc) ↦ jump_insert table body_idx scan_start end_pc else_pc
]

-- The `while` loop with fuel.
unfoldable pub walk_loop : ℕ → List ℕ → ℕ → ℕ → List JumpSlot → List JumpSlot
walk_loop zero body body_idx i table = table
walk_loop (suc fuel) body body_idx i table =
    let op = get_or body i 0 in
    let inside =
      walk_loop fuel body body_idx (i + 1 + 1) (record_block body body_idx (i + 1 + 1) table) in
    let plain : List JumpSlot = elim (walk_immediates body op (i + 1)) [
      | none ↦ table
      | some j ↦ walk_loop fuel body body_idx j table
    ] in
    if leb (length body) i
    then table
    else if opens_block op
    then (if leb (length body) (i + 1) then table else inside)
    else plain

unfoldable pub pre_scan_body_jumps : List ℕ → ℕ → List JumpSlot → List JumpSlot
unfolding walk_loop walk_immediates record_block
pre_scan_body_jumps body body_idx table = walk_loop (length body) body body_idx 0 table

-- `for bi in 0..body_count { pre_scan_body_jumps(bodies[bi], bi, &mut jump_table); }`
unfoldable pub pre_scan_all : List (List ℕ) → ℕ → List JumpSlot → List JumpSlot
pre_scan_all [] bi table = table
pre_scan_all (body ∷ rest) bi table = pre_scan_all rest (bi + 1) (pre_scan_body_jumps body bi table)
