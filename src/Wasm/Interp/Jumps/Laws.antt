-- ===== src/Wasm/Interp/Jumps/Laws.antt =====
-- The jump table beside the scan whose answers it holds.
use wasm_os.Base.{
  ℕ, zero, suc, ◌+◌, ◌^◌, ◌<◌, List, [], ◌∷◌, none, some, ◌≡◌, ◌≢◌, refl, sym, ap, subst, All,
  length-append, get_or-replicate, replicate, if_both, get_or-append, ◌++◌, ◌∙◌, get_or-set_either,
  inl, inr, arith, get_or, set, length, leb, ◌==◌, if◌then◌else◌, Option-cases, Bool-cases,
}
use native.Mathlib.Nat.{mod-eq_of_lt}
use mathlib.Core.List.{append_assoc}
use wasm_os.Base.Bits.{bit_and_mask-lt}
use wasm_os.Wasm.Interp.Scan.{opens_block, no_else, scan_block_end}
use wasm_os.Wasm.Interp.Scan.Laws.{IsBlockEnd, scan_block_end-IsBlockEnd}
use wasm_os.Wasm.Interp.State.{JumpSlot}
use wasm_os.Wasm.Interp.Jumps.{
  jump_slots, empty_key, empty_jump_slot, no_else_u32, jump_hash, next_slot, slot_at, new_slot,
  insert_probe, jump_insert, hit, spins, lookup_probe, jump_lookup, walk_immediates, record_block,
  walk_loop, pre_scan_body_jumps, pre_scan_all,
}

-- What a slot stands for.
abbrev else_of : JumpSlot → ℕ
else_of s = if s.else_pc == no_else_u32 then no_else else s.else_pc

-- Every entry of the table is an answer of the scan.
pub record IsSound (bodies : List (List ℕ)) (table : List JumpSlot) : Type 0 where
  pub answers :
      (i : ℕ)
      → (slot_at table i).key_body ≢ empty_key
      → scan_block_end (get_or bodies (slot_at table i).key_body []) (slot_at table i).key_pc
        ≡ some ((slot_at table i).end_pc, else_of (slot_at table i))

-- A hit is an answer of the scan, whatever slot it was found in.
lookup_probe-scan :
    (bodies : List (List ℕ)) (table : List JumpSlot)
    → IsSound bodies table
    → (n b p i e l : ℕ) → lookup_probe n table b p i ≡ hit e l
    → scan_block_end (get_or bodies b []) p ≡ some (e, l)
unfolding lookup_probe
lookup_probe-scan bodies table sound zero b p i e l h = ground arith
lookup_probe-scan bodies table sound (suc n) b p i e l h =
    ground (arith, sound.answers i, lookup_probe-scan bodies table sound n b p (next_slot i) e l)

-- What a new entry has to be.
abbrev Fits : List (List ℕ) → JumpSlot → Type 0
Fits bodies s = scan_block_end (get_or bodies s.key_body []) s.key_pc ≡ some (s.end_pc, else_of s)

set-IsSound :
    (bodies : List (List ℕ)) (table : List JumpSlot) (i : ℕ) (s : JumpSlot)
    → Fits bodies s
    → IsSound bodies table
    → IsSound bodies (set table i s)
set-IsSound bodies table i s fits sound = record {
  answers = λ j used. elim (get_or-set_either table i j s empty_jump_slot) [
    | inl e ↦ rw e fits
    | inr e ↦ rw e (sound.answers j (rw e at used))
  ];
}

insert_probe-IsSound :
    (bodies : List (List ℕ)) (n : ℕ) (table : List JumpSlot) (s : JumpSlot) (i : ℕ)
    → Fits bodies s
    → IsSound bodies table
    → IsSound bodies (insert_probe n table s i)
unfolding insert_probe
insert_probe-IsSound bodies zero table s i fits sound = sound
insert_probe-IsSound bodies (suc n) table s i fits sound =
    elim (Bool-cases ((slot_at table i).key_body == empty_key)) [
      | inl e ↦ rw e (set-IsSound bodies table i s fits sound)
      | inr e ↦ rw e (insert_probe-IsSound bodies n table s (next_slot i) fits sound)
    ]

-- The 32-bit fields lose nothing of a body below 4 GiB.
new_slot-Fits :
    (bodies : List (List ℕ)) (b p e l : ℕ)
    → b < empty_key
    → length (get_or bodies b []) < 2 ^ 32
    → scan_block_end (get_or bodies b []) p ≡ some (e, l)
    → Fits bodies (new_slot b p e l)
new_slot-Fits bodies b p e l hb hlen h =
    rw (mod-eq_of_lt hb', mod-eq_of_lt hp, mod-eq_of_lt he) (h ∙ ap (λ x. some (e, x)) same_else)
  where
    found : IsBlockEnd (get_or bodies b []) p e l
    found = scan_block_end-IsBlockEnd (get_or bodies b []) p h

    hb' : b < 2 ^ 16
    hb' = omega arith

    hp : p < 2 ^ 32
    hp = omega (arith, found)

    he : e < 2 ^ 32
    he = omega (arith, found)

    same_else : l ≡ else_of (new_slot b p e l)
    same_else = ground (arith, found)

jump_insert-IsSound :
    (bodies : List (List ℕ)) (table : List JumpSlot) (b p e l : ℕ)
    → length (get_or bodies b []) < 2 ^ 32
    → scan_block_end (get_or bodies b []) p ≡ some (e, l)
    → IsSound bodies table
    → IsSound bodies (jump_insert table b p e l)
unfolding jump_insert
jump_insert-IsSound bodies table b p e l hlen h sound = elim (Bool-cases (leb empty_key b)) [
  | inl big ↦ rw big sound
  | inr small ↦ rw small (
      insert_probe-IsSound bodies jump_slots table (new_slot b p e l) (jump_hash b p)
        (new_slot-Fits bodies b p e l (ground arith) hlen h) sound)
]

module _ (bodies : List (List ℕ)) (b : ℕ) (hlen : length (get_or bodies b []) < 2 ^ 32) where
  record_block-IsSound :
      (p : ℕ) (table : List JumpSlot)
      → IsSound bodies table
      → IsSound bodies (record_block (get_or bodies b []) b p table)
  unfolding record_block
  record_block-IsSound p table sound = elim (Option-cases (scan_block_end (get_or bodies b []) p)) [
    | inl e ↦ rw (e, record_block) sound
    | inr ((e, l), h) ↦ rw (h, record_block) (jump_insert-IsSound bodies table b p e l hlen h sound)
  ]

  walk_loop-IsSound :
      (fuel i : ℕ) (table : List JumpSlot)
      → IsSound bodies table
      → IsSound bodies (walk_loop fuel (get_or bodies b []) b i table)
  unfolding walk_loop
  walk_loop-IsSound zero i table sound = sound
  walk_loop-IsSound (suc fuel) i table sound =
      if_both (IsSound bodies) (leb (length body) i) sound (
        if_both (IsSound bodies) (opens_block op)
          (if_both (IsSound bodies) (leb (length body) (i + 1)) sound
            (walk_loop-IsSound fuel (i + 1 + 1) _ (record_block-IsSound (i + 1 + 1) table sound)))
          (plain (λ j. walk_loop-IsSound fuel j table sound)))
    where
      body : List ℕ
      body = get_or bodies b []

      op : ℕ
      op = get_or body i 0

      plain :
          ((j : ℕ) → IsSound bodies (walk_loop fuel body b j table))
          → IsSound bodies (elim (walk_immediates body op (i + 1)) as (λ _. List JumpSlot) [
            | none ↦ table
            | some j ↦ walk_loop fuel body b j table
          ])
      plain further = elim (Option-cases (walk_immediates body op (i + 1))) [
        | inl e ↦ rw e sound
        | inr (j, e) ↦ rw e (further j)
      ]

  pre_scan_body_jumps-IsSound :
      (table : List JumpSlot)
      → IsSound bodies table
      → IsSound bodies (pre_scan_body_jumps (get_or bodies b []) b table)
  unfolding pre_scan_body_jumps
  pre_scan_body_jumps-IsSound table sound =
      walk_loop-IsSound (length (get_or bodies b [])) 0 table sound

-- The bodies from `bi` on are scanned; `before` holds those that already were.
pre_scan_all-IsSound :
    (bodies before rest : List (List ℕ)) (bi : ℕ) (table : List JumpSlot)
    → bodies ≡ before ++ rest
    → bi ≡ length before
    → All (λ (body : List ℕ). length body < 2 ^ 32) rest
    → IsSound bodies table
    → IsSound bodies (pre_scan_all rest bi table)
unfolding pre_scan_all
pre_scan_all-IsSound bodies before [] bi table split e h sound = sound
pre_scan_all-IsSound bodies before (body ∷ rest) bi table split e (h, hs) sound =
    pre_scan_all-IsSound bodies (before ++ body ∷ []) rest (bi + 1)
      (pre_scan_body_jumps body bi table) (split ∙ sym (append_assoc before (body ∷ []) rest))
      (omega (arith, length-append before (body ∷ []))) hs
      (subst (λ x. IsSound bodies (pre_scan_body_jumps x bi table)) at
        (pre_scan_body_jumps-IsSound bodies bi (rw at h) table sound))
  where
    at : get_or bodies bi [] ≡ body
    at = rw (split, e) (get_or-append before body rest [])

blank-IsSound : (bodies : List (List ℕ)) → IsSound bodies (replicate jump_slots empty_jump_slot)
blank-IsSound bodies = record {
  answers = λ i used.
      absurd
        (used (ap (λ (s : JumpSlot). s.key_body) (get_or-replicate jump_slots empty_jump_slot i)));
}

-- The table that instantiation builds: every hit is what the scan of that body answers.
pub jump_lookup-scan :
    (bodies : List (List ℕ)) (body_idx scan_start e l : ℕ)
    → All (λ (body : List ℕ). length body < 2 ^ 32) bodies
    → jump_lookup (pre_scan_all bodies 0 (replicate jump_slots empty_jump_slot)) body_idx scan_start
      ≡ hit e l
    → scan_block_end (get_or bodies body_idx []) scan_start ≡ some (e, l)
unfolding jump_lookup
jump_lookup-scan bodies b p e l short h =
    lookup_probe-scan bodies _
      (pre_scan_all-IsSound bodies [] bodies 0 _ refl refl short (blank-IsSound bodies)) jump_slots
      b p (jump_hash b p) e l h

next_slot-lt : (i : ℕ) → next_slot i < jump_slots
next_slot-lt i = bit_and_mask-lt 12 (i + 1)

jump_hash-lt : (b p : ℕ) → jump_hash b p < jump_slots
unfolding jump_hash
jump_hash-lt b p = bit_and_mask-lt 12 _

-- Every slot of the table is in use, and none of them by this body.
abbrev pub IsFullWithout : List JumpSlot → ℕ → Type 0
IsFullWithout table body_idx =
    (i : ℕ)
    → i < jump_slots
    → ((slot_at table i).key_body ≢ empty_key) × ((slot_at table i).key_body ≢ body_idx)

lookup_probe_spins :
    (table : List JumpSlot) (b p : ℕ)
    → IsFullWithout table b
    → (n i : ℕ) → i < jump_slots
    → lookup_probe n table b p i ≡ spins
unfolding lookup_probe
lookup_probe_spins table b p full zero i h = refl
lookup_probe_spins table b p full (suc n) i h =
    ground (arith, full i h, lookup_probe_spins table b p full n (next_slot i) (next_slot-lt i))

-- In a table whose slots are all in use, and none by the body asked for, the loop of the lookup
-- never ends.
pub jump_lookup_spins :
    (table : List JumpSlot) (body_idx scan_start : ℕ)
    → IsFullWithout table body_idx
    → jump_lookup table body_idx scan_start ≡ spins
unfolding jump_lookup
jump_lookup_spins table b p full =
    lookup_probe_spins table b p full jump_slots (jump_hash b p) (jump_hash-lt b p)
