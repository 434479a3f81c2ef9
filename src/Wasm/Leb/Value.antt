-- ===== src/Wasm/Leb/Value.antt =====
-- The readers against the specification.
use wasm_os.Base.{
  ℕ, zero, suc, ◌+◌, ◌*◌, ◌%◌, ◌^◌, ◌≤◌, ◌<◌, bit_and, List, [], ◌∷◌, Option, none, some, ltb, leb,
  ◌==◌, if◌then◌else◌, All, take, ◌++◌, length, drop, ◌≡◌, ap, refl, arith, Option-cases, inl, inr,
  true, false, Bool-cases, ◌∙◌, sym,
}
use mathlib.Core.Option
use wasm_os.Base.Bits.{low_seven, high_bit, bit_or-shifted}
use native.Mathlib.Numerals.{towards_suc}
use wasm_os.Base.Opt.{◌>>=◌}
use wasm_os.Wasm.Leb.{add_group, u32_loop, read_u32_leb128, skip_loop, skip_leb128}
use wasm_os.Wasm.Leb.Spec.{IsByte, uleb, leb_length}

-- One round: the group, cut to the word, lands above the `s` bits read so far.
pub add_group-cut :
    (w s k r b : ℕ)
    → b < 256
    → r < 2 ^ s
    → b % 128 * 2 ^ s % 2 ^ w ≡ k * 2 ^ s
    → add_group w r b s ≡ r + k * 2 ^ s
add_group-cut w s k r b hb hr e = rw (low_seven b hb, e) (bit_or-shifted s r k hr)

-- The `j`-th group of an unsigned number, for the five that a `u32` has room for.
pub add_group-u32 :
    (j r b : ℕ)
    → j ≤ 4
    → r < 2 ^ (7 * j)
    → b < 256
    → add_group 32 r b (7 * j) ≡ (r + b % 128 * 2 ^ (7 * j)) % 2 ^ 32
add_group-u32 zero r b hj hr hb =
    omega (arith, add_group-cut 32 0 (b % 128) r b hb hr (omega arith))
add_group-u32 (suc zero) r b hj hr hb =
    omega (arith, add_group-cut 32 7 (b % 128) r b hb hr (omega arith))
add_group-u32 (suc (suc zero)) r b hj hr hb =
    omega (arith, add_group-cut 32 14 (b % 128) r b hb hr (omega arith))
add_group-u32 (suc (suc (suc zero))) r b hj hr hb =
    omega (arith, add_group-cut 32 21 (b % 128) r b hb hr (omega arith))
add_group-u32 (suc (suc (suc (suc zero)))) r b hj hr hb =
    omega (arith, add_group-cut 32 28 (b % 16) r b hb hr (omega arith))
add_group-u32 (suc (suc (suc (suc (suc j))))) r b hj hr hb = absurd (omega arith)

add_group-lt :
    (j r b : ℕ) → j ≤ 4 → r < 2 ^ (7 * j) → b < 256 → add_group 32 r b (7 * j) < 2 ^ (7 * suc j)
add_group-lt zero r b hj hr hb = omega (arith, add_group-u32 0 r b hj hr hb)
add_group-lt (suc zero) r b hj hr hb = omega (arith, add_group-u32 1 r b hj hr hb)
add_group-lt (suc (suc zero)) r b hj hr hb = omega (arith, add_group-u32 2 r b hj hr hb)
add_group-lt (suc (suc (suc zero))) r b hj hr hb = omega (arith, add_group-u32 3 r b hj hr hb)
add_group-lt (suc (suc (suc (suc zero)))) r b hj hr hb = omega (arith, add_group-u32 4 r b hj hr hb)
add_group-lt (suc (suc (suc (suc (suc j))))) r b hj hr hb = absurd (omega arith)

-- What a reader returns from its `j`-th byte on, with `r` read and `i` bytes taken.
abbrev found_from : ℕ → ℕ → ℕ → List ℕ → Option (ℕ × ℕ)
found_from j r i bytes = leb_length bytes >>= λ n.
    if leb (j + n) 5 then some ((r + uleb (take n bytes) * 2 ^ (7 * j)) % 2 ^ 32, i + n) else none

leb_length-pos : (bytes : List ℕ) {n : ℕ} → leb_length bytes ≡ some n → 1 ≤ n
unfolding leb_length
leb_length-pos [] h = ground arith
leb_length-pos (b ∷ bs) h = ground (arith, leb_length-pos bs)

shift_seven : (j : ℕ) → 2 ^ (7 * suc j) ≡ 128 * 2 ^ (7 * j)
shift_seven j = let e : 7 * suc j ≡ 7 * j + 7 = omega arith in rw e (simp towards_suc (omega arith))

-- The groups above, seen from one group down.
join_groups :
    (r r' g u p q : ℕ)
    → q ≡ 128 * p
    → r' ≡ (r + g * p) % 2 ^ 32
    → (r' + u * q) % 2 ^ 32 ≡ (r + (g + 128 * u) * p) % 2 ^ 32
join_groups r r' g u p q eq er = omega (arith, ap (λ (t : ℕ). u * t) eq)

clear_top : (b : ℕ) → b < 256 → (bit_and b 0x80 == 0) ≡ ltb b 128
clear_top b h = ground (arith, high_bit b h)

u32_loop-late : (bytes : List ℕ) (r s i : ℕ) → 35 ≤ s → u32_loop bytes r s i ≡ none
unfolding u32_loop
u32_loop-late [] r s i h = refl
u32_loop-late (b ∷ bs) r s i h = ground arith

found_from-late : (bytes : List ℕ) (r i : ℕ) → found_from 5 r i bytes ≡ none
found_from-late bytes r i = elim (Option-cases (leb_length bytes)) [
  | inl e ↦ rw e
  | inr (n, e) ↦ rw e (ground (arith, leb_length-pos bytes e))
]

u32_loop_last :
    (b : ℕ) (bs : List ℕ) (j r i : ℕ)
    → IsByte b
    → j ≤ 4
    → r < 2 ^ (7 * j)
    → ltb b 128 ≡ true
    → u32_loop (b ∷ bs) r (7 * j) i ≡ found_from j r i (b ∷ bs)
unfolding u32_loop leb_length uleb
u32_loop_last b bs j r i hb hj hr last =
    ground (arith, clear_top b hb, add_group-u32 j r b hj hr hb)

u32_loop_step :
    (b : ℕ) (bs : List ℕ) (j r i : ℕ)
    → IsByte b
    → j ≤ 4
    → ltb b 128 ≡ false
    → u32_loop (b ∷ bs) r (7 * j) i ≡ u32_loop bs (add_group 32 r b (7 * j)) (7 * suc j) (i + 1)
unfolding u32_loop
u32_loop_step b bs j r i hb hj more =
    let e : 7 * suc j ≡ 7 * j + 7 = omega arith in rw (e, clear_top b hb, more) (ground arith)

found_from_step :
    (b : ℕ) (bs : List ℕ) (j r r' i : ℕ)
    → ltb b 128 ≡ false
    → r' ≡ (r + b % 128 * 2 ^ (7 * j)) % 2 ^ 32
    → found_from (suc j) r' (i + 1) bs ≡ found_from j r i (b ∷ bs)
unfolding leb_length uleb
found_from_step b bs j r r' i more e = elim (Option-cases (leb_length bs)) [
  | inl e' ↦ rw (more, e')
  | inr (n, e') ↦
      rw
        (
          more,
          e',
          join_groups r r' (b % 128) (uleb (take n bs)) (2 ^ (7 * j)) (2 ^ (7 * suc j))
              (shift_seven j) e,
        )
        (ground arith)
]

u32_loop-found :
    (bytes : List ℕ) (j r i : ℕ)
    → All IsByte bytes
    → j ≤ 5
    → r < 2 ^ (7 * j)
    → u32_loop bytes r (7 * j) i ≡ found_from j r i bytes
u32_loop-found [] j r i h hj hr = unfold u32_loop leb_length in refl
u32_loop-found (b ∷ bs) j r i (hb, hbs) hj hr = elim (Bool-cases (leb 5 j)) [
  | inl late ↦
      let e : j ≡ 5 = ground arith in
      rw e (u32_loop-late (b ∷ bs) r 35 i (omega arith) ∙ sym (found_from-late (b ∷ bs) r i))
  | inr soon ↦ elim (Bool-cases (ltb b 128)) [
    | inl last ↦ u32_loop_last b bs j r i hb (ground arith) hr last
    | inr more ↦
        let hj' : j ≤ 4 = ground arith in
        u32_loop_step b bs j r i hb hj' more
        ∙ u32_loop-found bs (suc j) (add_group 32 r b (7 * j)) (i + 1) hbs (omega arith)
            (add_group-lt j r b hj' hr hb)
        ∙ found_from_step b bs j r _ i more (add_group-u32 j r b hj' hr hb)
  ]
]

-- On bytes, `read_u32_leb128` reads the number that ends at the first byte with a clear top bit.
-- It answers its value modulo 2 ^ 32 and its length, and `None` exactly when no such byte is there
-- or the number has more than five bytes.
pub read_u32_leb128-value :
    (bytes : List ℕ)
    → All IsByte bytes
    → read_u32_leb128 bytes
      ≡ (leb_length bytes >>= λ n. if leb n 5 then some (uleb (take n bytes) % 2 ^ 32, n) else none)
unfolding read_u32_leb128
read_u32_leb128-value bytes h = u32_loop-found bytes 0 0 0 h (omega arith) (omega arith) ∙ same
  where
    same : found_from 0 0 0 bytes ≡ (
        leb_length bytes >>= λ n. if leb n 5 then some (uleb (take n bytes) % 2 ^ 32, n) else none)
    same = elim (Option-cases (leb_length bytes)) [
      | inl e ↦ rw e
      | inr (n, e) ↦ rw e (ground arith)
    ]

skip_loop-length :
    (bytes : List ℕ) (taken : ℕ)
    → All IsByte bytes
    → skip_loop bytes taken ≡ Option.map (λ n. taken + n) (leb_length bytes)
unfolding skip_loop leb_length
skip_loop-length [] taken h = refl
skip_loop-length (b ∷ bs) taken (hb, hbs) =
    ground (arith, clear_top b hb, skip_loop-length bs (taken + 1) hbs)

-- `skip_leb128` moves over the number that starts at `start`, however long it is.
skip_leb128-length :
    (bytes : List ℕ) (start : ℕ)
    → All IsByte (drop start bytes)
    → skip_leb128 bytes start ≡ leb_length (drop start bytes)
unfolding skip_leb128
skip_leb128-length bytes start h =
    skip_loop-length (drop start bytes) 0 h ∙ elim (Option-cases (leb_length (drop start bytes))) [
      | inl e ↦ rw e
      | inr (n, e) ↦ rw e (ground arith)
    ]

u32_loop_takes :
    (bytes : List ℕ) (r s i v n : ℕ)
    → u32_loop bytes r s i ≡ some (v, n)
    → (i < n) × (n ≤ i + length bytes) × (s + 7 * n ≤ 41 + 7 * i)
unfolding u32_loop
u32_loop_takes [] r s i v n e = ground arith
u32_loop_takes (b ∷ bs) r s i v n e =
    ground (arith, u32_loop_takes bs (add_group 32 r b s) (s + 7) (i + 1) v n)

-- Neither reader looks past the number: what follows does not change the answer.
u32_loop-append :
    (bytes more : List ℕ) (r s i v n : ℕ)
    → u32_loop bytes r s i ≡ some (v, n)
    → u32_loop (bytes ++ more) r s i ≡ some (v, n)
unfolding u32_loop
u32_loop-append [] more r s i v n e = ground arith
u32_loop-append (b ∷ bs) more r s i v n e =
    ground (arith, u32_loop-append bs more (add_group 32 r b s) (s + 7) (i + 1) v n)

-- A number that is read takes one to five bytes, all of them there.
pub read_u32_leb128_takes :
    (bytes : List ℕ) {v n : ℕ}
    → read_u32_leb128 bytes ≡ some (v, n)
    → (1 ≤ n) × (n ≤ length bytes) × (n ≤ 5)
unfolding read_u32_leb128
read_u32_leb128_takes bytes {v} {n} e = omega (arith, u32_loop_takes bytes 0 0 0 v n e)

pub read_u32_leb128-append :
    (bytes more : List ℕ) {v n : ℕ}
    → read_u32_leb128 bytes ≡ some (v, n)
    → read_u32_leb128 (bytes ++ more) ≡ some (v, n)
unfolding read_u32_leb128
read_u32_leb128-append bytes more {v} {n} e = u32_loop-append bytes more 0 0 0 v n e
