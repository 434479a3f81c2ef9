-- ===== src/Wasm/Leb/RoundTrip.antt =====
-- Reading back what an encoder writes.
use wasm_os.Base.{ℕ, ◌^◌, ◌<◌, List, [], ◌++◌, some, length, ◌≡◌, arith, take_all}
use mathlib.Core.List.{append-nil}
use native.Mathlib.Nat.{le_refl}
use wasm_os.Wasm.Leb.{read_u32_leb128}
use wasm_os.Wasm.Leb.Spec.{
  encode, leb_length-encode, uleb-encode, encode-IsByte, length-encode, leb_length,
}
use wasm_os.Wasm.Leb.Value.{read_u32_leb128-value, read_u32_leb128-append}

read_u32_leb128-alone :
    (v : ℕ) → v < 2 ^ 32 → read_u32_leb128 (encode 4 v) ≡ some (v, length (encode 4 v))
read_u32_leb128-alone v h =
    rw (read_u32_leb128-value (encode 4 v) (encode-IsByte 4 v (omega arith)), whole)
      (rw (take_all _ (encode 4 v) (le_refl _), uleb-encode 4 v (omega arith))
        (ground (arith, length-encode 4 v)))
  where
    whole : leb_length (encode 4 v) ≡ some (length (encode 4 v))
    whole = rw append-nil at (leb_length-encode 4 v [] (omega arith))

-- The shortest encoding of a `u32` is read back, and the bytes behind it are left.
pub read_u32_leb128-encode :
    (v : ℕ) (rest : List ℕ)
    → v < 2 ^ 32
    → read_u32_leb128 (encode 4 v ++ rest) ≡ some (v, length (encode 4 v))
read_u32_leb128-encode v rest h =
    read_u32_leb128-append (encode 4 v) rest (read_u32_leb128-alone v h)
