-- ===== src/Wasm/Interp/Scan/Laws.antt =====
-- Where `scan_block_end` stops, and its fuel.
use wasm_os.Base.{
  ℕ, zero, suc, ◌+◌, ◌-◌, ◌≤◌, ◌<◌, List, Option, none, some, ◌≡◌, refl, ◌⊎◌, inl, inr, arith, drop,
  get_or, length, ◌==◌, if◌then◌else◌, ◌∙◌, Option-cases,
}
use wasm_os.Base.Opt.{◌>>=◌}
use wasm_os.Wasm.Leb.{read_u32_leb128, skip_leb128}
use wasm_os.Wasm.Interp.Scan.{no_else, skip_labels, skip_immediates, scan_loop, scan_block_end}

skip_labels-le : (n : ℕ) (body : List ℕ) (i j : ℕ) → skip_labels n body i ≡ some j → i ≤ j
unfolding skip_labels
skip_labels-le zero body i j e = ground arith
skip_labels-le (suc n) body i j e = elim (Option-cases (skip_leb128 body i)) [
  | inl m ↦ ground arith
  | inr (k, h) ↦ ground (arith, skip_labels-le n body (i + k) j)
]

-- br_table: a count, then that many labels and one more.
skip_table-le :
    (r : Option (ℕ × ℕ)) (body : List ℕ) (i j : ℕ)
    → (r >>= λ r. skip_labels (r.0 + 1) body (i + r.1)) ≡ some j
    → i ≤ j
skip_table-le none body i j e = ground arith
skip_table-le (some (count, n)) body i j e =
    omega (arith, skip_labels-le (count + 1) body (i + n) j e)

skip_immediates-le : (body : List ℕ) (op i j : ℕ) → skip_immediates body op i ≡ some j → i ≤ j
unfolding skip_immediates
skip_immediates-le body op i j e = ground (
  arith,
  skip_labels-le 1 body i j,
  skip_labels-le 2 body i j,
  skip_table-le (read_u32_leb128 (drop i body)) body i j,
)

-- What a successful scan says of the body: the `end` lies behind the start, and an `else`, if the
-- scan met one, between them.
abbrev pub IsBlockEnd : List ℕ → ℕ → ℕ → ℕ → Type 0
IsBlockEnd body start end_pc else_pc =
    (start ≤ end_pc)
    × (end_pc < length body)
    × (get_or body end_pc 0 ≡ 0x0B)
    × ((else_pc ≡ no_else)
        ⊎ ((start ≤ else_pc) × (else_pc < end_pc) × (get_or body else_pc 0 ≡ 0x05)))

-- The `else` that a round has found so far.
abbrev IsElse : List ℕ → ℕ → ℕ → ℕ → Type 0
IsElse body start i else_pc =
    (else_pc ≡ no_else) ⊎ ((start ≤ else_pc) × (else_pc < i) × (get_or body else_pc 0 ≡ 0x05))

scan_loop-IsBlockEnd :
    (fuel : ℕ) (body : List ℕ) (start i depth else_pc e l : ℕ)
    → start ≤ i
    → IsElse body start i else_pc
    → scan_loop fuel body i depth else_pc ≡ some (e, l)
    → IsBlockEnd body start e l
unfolding scan_loop
scan_loop-IsBlockEnd zero body start i depth else_pc e l h k r = ground arith
scan_loop-IsBlockEnd (suc fuel) body start i depth else_pc e l h k r =
    elim (Option-cases (skip_immediates body (get_or body i 0) (i + 1))) [
      | inl m ↦ ground (
        arith,
        scan_loop-IsBlockEnd fuel body start (i + 1 + 1) (depth + 1) else_pc e l,
        scan_loop-IsBlockEnd fuel body start (i + 1) depth (if depth == 1 then i else else_pc) e l,
        scan_loop-IsBlockEnd fuel body start (i + 1) (depth - 1) else_pc e l,
      )
      | inr (j, m) ↦ ground (
        arith,
        skip_immediates-le body (get_or body i 0) (i + 1) j m,
        scan_loop-IsBlockEnd fuel body start (i + 1 + 1) (depth + 1) else_pc e l,
        scan_loop-IsBlockEnd fuel body start (i + 1) depth (if depth == 1 then i else else_pc) e l,
        scan_loop-IsBlockEnd fuel body start (i + 1) (depth - 1) else_pc e l,
        scan_loop-IsBlockEnd fuel body start j depth else_pc e l,
      )
    ]

-- Where the scan finds the end of a block, that position holds an `end` opcode at or behind the
-- start, and an `else` position that is not the sentinel holds an `else` opcode between them.
pub scan_block_end-IsBlockEnd :
    (body : List ℕ) (start : ℕ) {e l : ℕ}
    → scan_block_end body start ≡ some (e, l)
    → IsBlockEnd body start e l
unfolding scan_block_end
scan_block_end-IsBlockEnd body start {e} {l} r =
    scan_loop-IsBlockEnd (length body) body start start 1 no_else e l (omega arith) (inl refl) r

-- With a round for each byte left, one more changes nothing.
scan_loop-suc :
    (fuel : ℕ) (body : List ℕ) (i depth else_pc : ℕ)
    → length body ≤ fuel + i
    → scan_loop (suc fuel) body i depth else_pc ≡ scan_loop fuel body i depth else_pc
unfolding scan_loop
scan_loop-suc zero body i depth else_pc h = ground arith
scan_loop-suc (suc fuel) body i depth else_pc h =
    elim (Option-cases (skip_immediates body (get_or body i 0) (i + 1))) [
      | inl m ↦ rw m (
          ground (
            arith,
            scan_loop-suc fuel body (i + 1 + 1) (depth + 1) else_pc,
            scan_loop-suc fuel body (i + 1) depth (if depth == 1 then i else else_pc),
            scan_loop-suc fuel body (i + 1) (depth - 1) else_pc,
          ))
      | inr (j, m) ↦ rw m (
          ground (
            arith,
            skip_immediates-le body (get_or body i 0) (i + 1) j m,
            scan_loop-suc fuel body (i + 1 + 1) (depth + 1) else_pc,
            scan_loop-suc fuel body (i + 1) depth (if depth == 1 then i else else_pc),
            scan_loop-suc fuel body (i + 1) (depth - 1) else_pc,
            scan_loop-suc fuel body j depth else_pc,
          ))
    ]

-- The scan ends by itself: with any number of further rounds it gives the same answer.
pub scan_block_end_fuel :
    (extra : ℕ) (body : List ℕ) (start : ℕ)
    → scan_loop (extra + length body) body start 1 no_else ≡ scan_block_end body start
unfolding scan_block_end
scan_block_end_fuel zero body start = let e : 0 + length body ≡ length body = omega arith in rw e
scan_block_end_fuel (suc extra) body start =
    let e : suc extra + length body ≡ suc (extra + length body) = omega arith in
    rw e (
      scan_loop-suc (extra + length body) body start 1 no_else (omega arith)
      ∙ scan_block_end_fuel extra body start)
