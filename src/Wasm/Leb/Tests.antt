-- ===== src/Wasm/Leb/Tests.antt =====
-- Runs of the readers, and the theorems at concrete numbers.
use wasm_os.Base.{
  ℕ, ◌%◌, ◌^◌, List, [], ◌∷◌, none, some, leb, if◌then◌else◌, take, ◌≡◌, refl, arith,
}
use wasm_os.Base.Opt.{◌>>=◌}
use wasm_os.Wasm.Leb.{read_u32_leb128, read_i32_leb128, read_i64_leb128}
use wasm_os.Wasm.Leb.Spec.{uleb, leb_length}
use wasm_os.Wasm.Leb.Value.{read_u32_leb128-value}

-- 624485, the usual example.
abbrev three_bytes : List ℕ
three_bytes = 0xe5 ∷ 0x8e ∷ 0x26 ∷ 7 ∷ []

read_three : read_u32_leb128 three_bytes ≡ some (624485, 3)
unfolding read_u32_leb128
read_three = refl

-- A number past 32 bits loses its high bits.
read_too_wide : read_u32_leb128 (0x80 ∷ 0x80 ∷ 0x80 ∷ 0x80 ∷ 0x10 ∷ []) ≡ some (0, 5)
unfolding read_u32_leb128
read_too_wide = refl

read_minus_two : read_i32_leb128 (0x7e ∷ []) ≡ some (0xffff_fffe, 1)
unfolding read_i32_leb128
read_minus_two = refl

read_minus_128 : read_i64_leb128 (0x80 ∷ 0x7f ∷ []) ≡ some (0xffff_ffff_ffff_ff80, 2)
unfolding read_i64_leb128
read_minus_128 = refl

read_u32_leb128-value_example : read_u32_leb128 three_bytes ≡ (
    leb_length three_bytes >>= λ n.
    if leb n 5 then some (uleb (take n three_bytes) % 2 ^ 32, n) else none)
read_u32_leb128-value_example = read_u32_leb128-value three_bytes (omega arith)
