-- ===== src/Wasm/Interp/Scan.antt =====
-- `scan_block_end`: the search for the `end` and the `else` that match an open block.
pub mod Laws
use wasm_os.Base.{
  ℕ, zero, suc, ◌+◌, ◌-◌, Bool, ◌&&◌, ◌||◌, List, Option, none, some, ltb, leb, ◌==◌, if◌then◌else◌,
  get_or, drop, length,
}
use wasm_os.Base.Opt.{◌>>=◌}
use wasm_os.Wasm.Leb.{read_u32_leb128, skip_leb128}

-- `usize::MAX`
abbrev pub no_else : ℕ
no_else = 0xffff_ffff_ffff_ffff

-- `for _ in 0..n { i += skip_leb128(body, i)?; }`
unfoldable pub skip_labels : ℕ → List ℕ → ℕ → Option ℕ
skip_labels zero body i = some i
skip_labels (suc n) body i = skip_leb128 body i >>= λ k. skip_labels n body (i + k)

abbrev pub in_range : ℕ → ℕ → ℕ → Bool
in_range lo hi op = leb lo op && leb op hi

-- br, br_if, call, local.get/set/tee, global.get/set, i32.const, i64.const
abbrev pub has_one_leb : ℕ → Bool
has_one_leb op =
    op == 0x0C || op == 0x0D || op == 0x10 || in_range 0x20 0x24 op || op == 0x41 || op == 0x42

-- Past the immediates of a plain opcode; `i` is just behind its byte.
unfoldable pub skip_immediates : List ℕ → ℕ → ℕ → Option ℕ
unfolding skip_labels
skip_immediates body op i =
    if has_one_leb op
    then skip_labels 1 body i
    else if op == 0x11
    then skip_labels 2 body i
    else if op == 0x0E
    then (read_u32_leb128 (drop i body) >>= λ r. skip_labels (r.0 + 1) body (i + r.1))
    else if in_range 0x28 0x3E op
    then skip_labels 2 body i
    else if op == 0x3F || op == 0x40
    then some (i + 1)
    else if op == 0x43
    then some (i + 4)
    else if op == 0x44
    then some (i + 8)
    else if op == 0xFC
    then skip_labels 1 body i
    else some i

-- Nested structured blocks
abbrev pub opens_block : ℕ → Bool
opens_block op = op == 0x02 || op == 0x03 || op == 0x04

-- The `while` loop with fuel.
unfoldable pub scan_loop : ℕ → List ℕ → ℕ → ℕ → ℕ → Option (ℕ × ℕ)
scan_loop zero body i depth else_pc = none
scan_loop (suc fuel) body i depth else_pc =
    let op = get_or body i 0 in
    let nested = scan_loop fuel body (i + 1 + 1) (depth + 1) else_pc in
    let after_else = scan_loop fuel body (i + 1) depth (if depth == 1 then i else else_pc) in
    let after_end = scan_loop fuel body (i + 1) (depth - 1) else_pc in
    let plain = skip_immediates body op (i + 1) >>= λ j. scan_loop fuel body j depth else_pc in
    if leb (length body) i
    then none
    else if opens_block op
    then nested
    else if op == 0x05
    then after_else
    else if op == 0x0B
    then (if depth - 1 == 0 then some (i, else_pc) else after_end)
    else plain

-- Each round passes a byte, so `body.len()` rounds are enough.
unfoldable pub scan_block_end : List ℕ → ℕ → Option (ℕ × ℕ)
unfolding scan_loop skip_immediates
scan_block_end body start = scan_loop (length body) body start 1 no_else
