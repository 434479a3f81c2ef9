-- ===== src/Wasm/Leb.antt =====
-- The LEB-128 readers: `read_u32_leb128` of kernel/src/wasm/loader.rs, `read_i32_leb128`,
-- `read_i64_leb128` and `skip_leb128` of kernel/src/wasm/interp.rs. A byte slice is a list of
-- numbers below 256; an `i32` or `i64` is its bit pattern, a number below 2 ^ 32 or 2 ^ 64.
pub mod Spec
pub mod Value
pub mod RoundTrip
mod Tests
use wasm_os.Base.{
  ℕ, zero, suc, ◌+◌, ◌-◌, ◌*◌, ◌%◌, ◌^◌, bit_and, bit_or, List, [], ◌∷◌, Option, none, some, ◌==◌,
  leb, ltb, not, ◌&&◌, if◌then◌else◌, drop,
}

-- `result | ((byte & 0x7F) << shift)` in a word of `w` bits; a shift drops the bits above the word.
abbrev pub add_group : ℕ → ℕ → ℕ → ℕ → ℕ
add_group w result byte shift = bit_or result (bit_and byte 0x7f * 2 ^ shift % 2 ^ w)

-- The loop at index `i`, over the bytes that it has not reached.
u32_loop : List ℕ → ℕ → ℕ → ℕ → Option (ℕ × ℕ)
u32_loop [] result shift i = none
u32_loop (byte ∷ rest) result shift i =
    let result' = add_group 32 result byte shift in
    let more = u32_loop rest result' (shift + 7) (i + 1) in
    if leb 35 shift then none else if bit_and byte 0x80 == 0 then some (result', i + 1) else more

-- The value and the number of bytes consumed.
unfoldable pub read_u32_leb128 : List ℕ → Option (ℕ × ℕ)
unfolding u32_loop
read_u32_leb128 bytes = u32_loop bytes 0 0 0

-- `if shift < w && byte & 0x40 != 0 { result |= !0 << shift }`
abbrev pub sign_fill : ℕ → ℕ → ℕ → ℕ → ℕ
sign_fill w result byte shift =
    if ltb shift w && not (bit_and byte 0x40 == 0)
    then bit_or result ((2 ^ w - 1) * 2 ^ shift % 2 ^ w)
    else result

-- The loop of both signed readers: words of `w` bits, given up at a shift of `stop`.
unfoldable pub signed_loop : ℕ → ℕ → List ℕ → ℕ → ℕ → ℕ → Option (ℕ × ℕ)
signed_loop w stop [] result shift i = none
signed_loop w stop (byte ∷ rest) result shift i =
    let result' = add_group w result byte shift in
    let more = signed_loop w stop rest result' (shift + 7) (i + 1) in
    if leb stop shift
    then none
    else if bit_and byte 0x80 == 0
    then some (sign_fill w result' byte (shift + 7), i + 1)
    else more

unfoldable pub read_i32_leb128 : List ℕ → Option (ℕ × ℕ)
unfolding signed_loop
read_i32_leb128 bytes = signed_loop 32 35 bytes 0 0 0

unfoldable pub read_i64_leb128 : List ℕ → Option (ℕ × ℕ)
unfolding signed_loop
read_i64_leb128 bytes = signed_loop 64 70 bytes 0 0 0

-- The loop of `skip_leb128` over `bytes[i..]`, with `i - start` bytes taken.
skip_loop : List ℕ → ℕ → Option ℕ
skip_loop [] taken = none
skip_loop (b ∷ rest) taken =
    let more = skip_loop rest (taken + 1) in if bit_and b 0x80 == 0 then some (taken + 1) else more

unfoldable pub skip_leb128 : List ℕ → ℕ → Option ℕ
unfolding skip_loop
skip_leb128 bytes start = skip_loop (drop start bytes) 0
