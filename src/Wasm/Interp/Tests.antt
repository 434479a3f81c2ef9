-- ===== src/Wasm/Interp/Tests.antt =====
-- The theorems on the parts of the interpreter, at concrete code and states.
use wasm_os.Base.{ℕ, zero, suc, ◌<◌, ◌≡◌, refl, arith, List, [], ◌∷◌, some, replicate, get_or}
use wasm_os.Wasm.Leb.{skip_leb128}
use wasm_os.Wasm.Interp.State.{JumpSlot}
use wasm_os.Wasm.Interp.Scan.{no_else, scan_block_end, skip_immediates}
use wasm_os.Wasm.Interp.Scan.Laws.{IsBlockEnd, scan_block_end-IsBlockEnd}
use wasm_os.Wasm.Interp.Jumps.{
  jump_slots, empty_jump_slot, pre_scan_all, hit, spins, jump_lookup, lookup_probe, jump_hash,
  slot_at, pre_scan_body_jumps, jump_insert,
}
use wasm_os.Wasm.Interp.Jumps.Laws.{IsFullWithout, jump_lookup-scan, jump_lookup_spins}

-- The inside of a block: i32.const 1, drop, else, nop, end.
abbrev inside : List ℕ
inside = 0x41 ∷ 1 ∷ 0x1A ∷ 0x05 ∷ 0x01 ∷ 0x0B ∷ []

inside_ends : scan_block_end inside 0 ≡ some (5, 3)
unfolding scan_block_end skip_immediates skip_leb128
inside_ends = refl

scan_block_end-IsBlockEnd_example : IsBlockEnd inside 0 5 3
scan_block_end-IsBlockEnd_example = scan_block_end-IsBlockEnd inside 0 inside_ends

-- block, end, end
abbrev one_block : List (List ℕ)
one_block = (0x02 ∷ 0x40 ∷ 0x0B ∷ 0x0B ∷ []) ∷ []

one_block_found :
    jump_lookup (pre_scan_all one_block 0 (replicate jump_slots empty_jump_slot)) 0 2
    ≡ hit 2 no_else
unfolding jump_lookup lookup_probe jump_hash pre_scan_all pre_scan_body_jumps scan_block_end
    jump_insert
one_block_found = refl

jump_lookup-scan_example : scan_block_end (get_or one_block 0 []) 2 ≡ some (2, no_else)
jump_lookup-scan_example =
    jump_lookup-scan one_block 0 2 2 no_else (omega arith, tt) one_block_found

-- Every slot taken by the body 1.
abbrev taken : JumpSlot
taken = record { key_body = 1; key_pc = 0; end_pc = 0; else_pc = 0 }

get_or-replicate_lt {ℓ} :
    {A : Type ℓ} (n : ℕ) (a d : A) (i : ℕ) → i < n → get_or (replicate n a) i d ≡ a
get_or-replicate_lt zero a d i h = absurd (omega arith)
get_or-replicate_lt (suc n) a d zero h = refl
get_or-replicate_lt (suc n) a d (suc i) h = get_or-replicate_lt n a d i (omega arith)

full_table : IsFullWithout (replicate jump_slots taken) 0
full_table i h =
    let e : slot_at (replicate jump_slots taken) i ≡ taken =
      get_or-replicate_lt jump_slots taken empty_jump_slot i h in
    rw e (omega arith, omega arith)

jump_lookup_spins_example : jump_lookup (replicate jump_slots taken) 0 7 ≡ spins
jump_lookup_spins_example = jump_lookup_spins (replicate jump_slots taken) 0 7 full_table
