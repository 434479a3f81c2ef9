-- ===== src/Shell/Asm/Data.antt =====
-- The data section that the assembler emits, as the engine applies it.
use wasm_os.Base.{
  ℕ, zero, suc, ◌+◌, ◌-◌, ◌^◌, ◌≤◌, ◌<◌, min, true, false, List, [], ◌∷◌, ◌++◌, All, ltb, leb,
  if◌then◌else◌, length, slice, take, overwrite, length-overwrite, Bool-cases, inl, inr,
  ltb_false→le, ◌≡◌, refl, subst, ap, ◌∙◌, arith,
}
use mathlib.Core.List.{append_assoc}
use wasm_os.Base.Cursor.{At, At-start, At-first, At-advance, At-next, At-get_or, At-lt}
use wasm_os.Wasm.Leb.{read_i32_leb128}
use wasm_os.Wasm.Sections.{Parsed, parsed, crashed, read_at, expect}
use wasm_os.Wasm.Engine.Memory.{address, copy_segment, init_segment, init_loop, init_memory}
use wasm_os.Shell.Asm.{DataSeg, WatModule}
use wasm_os.Shell.Asm.Emit.{
  u32_rounds, write_leb128_u32, write_leb128_i32, write_bytes, each, data_entry, data_contents,
}
use wasm_os.Shell.Asm.Leb.{read_i32_leb128-write_leb128_i32}
use wasm_os.Shell.Asm.Sections.{read_at-write_leb128_u32, count-small}
use wasm_os.Shell.Asm.Imports.{write_bytes-Strings}

read_at-write_leb128_i32 :
    {bytes : List ℕ} {cur : ℕ} (v : ℕ) (rest : List ℕ)
    → v < 2 ^ 32
    → At bytes cur (write_leb128_i32 v ++ rest)
    → read_at read_i32_leb128 bytes cur ≡ parsed (v, length (write_leb128_i32 v))
read_at-write_leb128_i32 {bytes} {cur} v rest h at =
    let inside : ltb (length bytes) cur ≡ false = ground (arith, at.inside) in
    rw (inside, at.left_eq, read_i32_leb128-write_leb128_i32 v rest h) refl

expect-At :
    {bytes : List ℕ} {cur b : ℕ} {rest : List ℕ}
    → At bytes cur (b ∷ rest)
    → expect bytes cur b ≡ parsed tt
expect-At {bytes} {cur} {b} at =
    let here : leb (length bytes) cur ≡ false = ground (arith, At-lt at) in
    let same = At-get_or 0 at in rw (here, same) (ground arith)

-- Bytes beyond the end of the memory are not copied.
overwrite-take :
    (xs : List ℕ) (i n : ℕ) (ys : List ℕ)
    → min (length ys) (length xs - i) ≤ n
    → overwrite xs i (take n ys) ≡ overwrite xs i ys
overwrite-take [] i n ys h = refl
overwrite-take (x ∷ xs) (suc i) n ys h =
    ap (λ t. x ∷ t) (overwrite-take xs i n ys (omega (arith, h)))
overwrite-take (x ∷ xs) zero zero [] h = refl
overwrite-take (x ∷ xs) zero (suc n) [] h = refl
overwrite-take (x ∷ xs) zero zero (y ∷ ys) h = absurd (omega (arith, h))
overwrite-take (x ∷ xs) zero (suc n) (y ∷ ys) h =
    ap (λ t. y ∷ t) (overwrite-take xs zero n ys (omega (arith, h)))

-- Offsets that are not negative, and bytes that can be counted.
pub record IsSegment (s : DataSeg) : Type 0 where
  pub offset : s.offset < 2 ^ 31
  pub size : length s.bytes < 2 ^ 32

-- The segments written in turn; one that begins beyond the end of the memory stops the kernel.
abbrev pub write_segments : List DataSeg → List ℕ → Parsed (List ℕ)
write_segments [] mem = parsed mem
write_segments (s ∷ ss) mem =
    if ltb (length mem) s.offset
    then crashed
    else write_segments ss (overwrite mem s.offset s.bytes)

take-part : (n : ℕ) (xs ys : List ℕ) → n ≤ length xs → take n (xs ++ ys) ≡ take n xs
take-part zero xs ys h = refl
take-part (suc n) [] ys h = absurd (omega (arith, h))
take-part (suc n) (x ∷ xs) ys h = ap (λ t. x ∷ t) (take-part n xs ys (omega (arith, h)))

copy_segment-At :
    (s : DataSeg) {section : List ℕ} {cur : ℕ} (rest mem : List ℕ)
    → IsSegment s
    → length mem < 2 ^ 63
    → At section cur (s.bytes ++ rest)
    → copy_segment (address s.offset) (length s.bytes) cur section mem
      ≡ (if ltb (length mem) s.offset then crashed else parsed (overwrite mem s.offset s.bytes))
unfolding copy_segment
copy_segment-At s {section} {cur} rest mem h small at =
    let dst_end = min (min (s.offset + length s.bytes) (2 ^ 64 - 1)) (length mem) in
    let positive : ltb s.offset (2 ^ 31) ≡ true = ground (arith, h.offset) in
    elim (Bool-cases (ltb (length mem) s.offset)) [
      | inl t ↦
          let beyond : ltb dst_end s.offset ≡ true = ground (arith, t) in
          rw (positive, t, beyond) refl
      | inr t ↦
          let reaches = ltb_false→le (length mem) s.offset t in
          let ordered : ltb dst_end s.offset ≡ false = ground (arith, reaches, h.offset, h.size) in
          let part : slice section cur (dst_end - s.offset) ≡ take (dst_end - s.offset) s.bytes =
            ap (take (dst_end - s.offset)) at.left_eq
            ∙ take-part (dst_end - s.offset) s.bytes rest (omega (arith, reaches)) in
          let whole =
            overwrite-take mem s.offset (dst_end - s.offset) s.bytes
              (omega (arith, reaches, small, h.offset, h.size)) in
          rw (positive, t, ordered, part, whole) refl
    ]

-- The parts of an entry at their places.
segment-At :
    (s : DataSeg) {section : List ℕ} {cur : ℕ} (rest : List ℕ)
    → IsSegment s
    → At section cur (data_entry s ++ rest)
    → At section cur (
        write_leb128_u32 0
        ++ (0x41 ∷ (write_leb128_i32 s.offset ++ (0x0B ∷ (write_bytes s.bytes ++ rest)))))
unfolding data_entry write_leb128_u32 u32_rounds
segment-At s {section} {cur} rest h at =
    let tail = 0x0B ∷ write_bytes s.bytes in
    subst (λ l. At section cur (0x00 ∷ 0x41 ∷ l))
      (append_assoc (write_leb128_i32 s.offset) tail rest) at

init_loop-each :
    (ss : List DataSeg) {cur : ℕ} {section : List ℕ} (mem : List ℕ)
    → All IsSegment ss
    → length mem < 2 ^ 63
    → At section cur (each data_entry ss)
    → init_loop (length ss) cur section mem ≡ write_segments ss mem
unfolding init_loop init_segment
init_loop-each [] mem h small at = refl
init_loop-each (s ∷ ss) {cur} {section} mem h small at =
    let left = each data_entry ss in
    let o = write_leb128_i32 s.offset in
    let entry = segment-At s left h.0 at in
    let at_op = At-advance (write_leb128_u32 0) _ entry in
    let at_offset = At-next at_op in
    let at_end = At-advance o _ at_offset in
    let data_at = write_bytes-Strings s.bytes left h.0.size (At-next at_end) in
    let n = length (write_leb128_u32 0) in
    let pos = cur + n + 1 + length o + 1 + length (write_leb128_u32 (length s.bytes)) in
    let inside : ltb (length section) (pos + length s.bytes) ≡ false =
      ground (arith, data_at.behind.inside) in
    let bytes_at = At-advance (write_leb128_u32 (length s.bytes)) (s.bytes ++ left) data_at.len in
    rw
      (
        read_at-write_leb128_u32 0 _ (omega arith) entry,
        expect-At at_op,
        read_at-write_leb128_i32 s.offset _ (omega (arith, h.0.offset)) at_offset,
        expect-At at_end,
        read_at-write_leb128_u32 (length s.bytes) (s.bytes ++ left) h.0.size data_at.len,
        inside,
        copy_segment-At s left mem h.0 small bytes_at,
      )
      (elim (Bool-cases (ltb (length mem) s.offset)) [
        | inl t ↦ rw t refl
        | inr t ↦ rw t (
            init_loop-each ss (overwrite mem s.offset s.bytes) h.1
              (omega (arith, length-overwrite mem s.offset s.bytes, small)) data_at.behind)
      ])

-- The data section of a module whose offsets are not negative, applied to a memory shorter than 2 ^ 63
-- bytes, writes its segments in turn, each cut off at the end of the memory. A segment that begins
-- beyond the end stops the kernel. The segments and their bytes are fewer than 2 ^ 32.
pub init_memory-emit :
    (m : WatModule) (mem : List ℕ)
    → All IsSegment m.segments
    → length m.segments < 2 ^ 32
    → length mem < 2 ^ 63
    → init_memory (data_contents m) mem ≡ write_segments m.segments mem
unfolding init_memory data_contents
init_memory-emit m mem h k small =
    let entries = each data_entry m.segments in
    let n = write_leb128_u32 (length m.segments) in
    rw
      (
        count-small m.segments k,
        read_at-write_leb128_u32 (length m.segments) entries k (At-start (n ++ entries)),
      )
      (init_loop-each m.segments mem h small (At-first n entries))
