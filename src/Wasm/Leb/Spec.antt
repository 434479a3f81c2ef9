-- ===== src/Wasm/Leb/Spec.antt =====
-- What an unsigned LEB-128 number stands for, apart from how the readers compute it.
use wasm_os.Base.{
  ℕ, zero, suc, ◌+◌, ◌*◌, ◌/◌, ◌%◌, ◌^◌, ◌<◌, ◌≤◌, List, [], ◌∷◌, ◌++◌, Option, none, some, ltb,
  if◌then◌else◌, All, length, ◌≡◌, arith,
}
use mathlib.Core.Option

abbrev pub IsByte : ℕ → Type 0
IsByte b = b < 256

-- Seven bits a byte, lowest first.
unfoldable pub uleb : List ℕ → ℕ
uleb [] = 0
uleb (b ∷ bs) = b % 128 + 128 * uleb bs

-- How many bytes the number at the front has: up to the first byte with a clear top bit.
unfoldable pub leb_length : List ℕ → Option ℕ
leb_length [] = none
leb_length (b ∷ bs) = if ltb b 128 then some 1 else Option.map suc (leb_length bs)

-- The shortest form of a number below 128 ^ (k + 1).
unfoldable pub encode : ℕ → ℕ → List ℕ
encode zero v = v ∷ []
encode (suc k) v =
    let rest = encode k (v / 128) in if ltb v 128 then v ∷ [] else (v % 128 + 128) ∷ rest

pub leb_length-encode :
    (k v : ℕ) (rest : List ℕ)
    → v < 128 ^ suc k
    → leb_length (encode k v ++ rest) ≡ some (length (encode k v))
unfolding leb_length encode
leb_length-encode zero v rest h = ground arith
leb_length-encode (suc k) v rest h =
    ground (arith, leb_length-encode k (v / 128) rest (omega arith))

pub uleb-encode : (k v : ℕ) → v < 128 ^ suc k → uleb (encode k v) ≡ v
unfolding uleb encode
uleb-encode zero v h = ground arith
uleb-encode (suc k) v h = ground (arith, uleb-encode k (v / 128) (omega arith))

pub encode-IsByte : (k v : ℕ) → v < 128 ^ suc k → All IsByte (encode k v)
unfolding encode
encode-IsByte zero v h = omega arith
encode-IsByte (suc k) v h = ground (arith, encode-IsByte k (v / 128) (omega arith))

pub length-encode : (k v : ℕ) → (1 ≤ length (encode k v)) × (length (encode k v) ≤ k + 1)
unfolding encode
length-encode zero v = omega arith
length-encode (suc k) v = ground (arith, length-encode k (v / 128))
