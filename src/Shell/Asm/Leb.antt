-- ===== src/Shell/Asm/Leb.antt =====
-- The numbers that the assembler writes against the readers of the runtime.
use wasm_os.Base.{
  ltb→lt, ltb_false→le, leb→le, subst, ℕ, zero, suc, ◌+◌, ◌-◌, ◌*◌, ◌/◌, ◌%◌, ◌^◌, ◌<◌, ◌≤◌,
  bit_and, bit_or, true, false, List, [], ◌∷◌, ◌++◌, some, ltb, leb, ◌==◌, length, ◌≡◌, refl, ap,
  ap₂, ◌∙◌, arith, Bool-cases, inl, inr, ◌⊎◌,
}
use wasm_os.Base.Bits.{bit_and_mask, bit_or-shifted, sign_bit, high_bit}
use wasm_os.Wasm.Leb.{signed_loop, read_i32_leb128, sign_fill}
use wasm_os.Wasm.Leb.Spec.{encode}
use wasm_os.Wasm.Leb.Value.{add_group-u32}
use wasm_os.Wasm.Interp.Num.{shift_signed}
use wasm_os.Shell.Asm.Emit.{u32_rounds, write_leb128_u32, i32_rounds, write_leb128_i32}

more_flag : (b : ℕ) → b < 128 → bit_or b 0x80 ≡ b + 128
more_flag b h = bit_or-shifted 7 b 1 h

u32_rounds-encode : (k v : ℕ) → v < 128 ^ suc k → u32_rounds (suc k) v ≡ encode k v
unfolding u32_rounds encode
u32_rounds-encode zero v h = ground (arith, bit_and_mask 7 v)
u32_rounds-encode (suc k) v h = ground (
  arith,
  bit_and_mask 7 v,
  more_flag (v % 128) (omega arith),
  u32_rounds-encode k (v / 128) (omega arith),
)

-- The writer of a u32 is the shortest encoding.
pub write_leb128_u32-encode : (v : ℕ) → v < 2 ^ 32 → write_leb128_u32 v ≡ encode 4 v
unfolding write_leb128_u32
write_leb128_u32-encode v h = u32_rounds-encode 4 v (omega arith)

-- An i32 whose value lies from -2 ^ k to 2 ^ k - 1.
abbrev Fits : ℕ → ℕ → Type 0
Fits k u = (u < 2 ^ k) ⊎ ((2 ^ 32 ≤ u + 2 ^ k) × (u < 2 ^ 32))

-- The arithmetic shift by seven.
abbrev above : ℕ → ℕ
above u = shift_signed 32 (shift_signed 32 u 6) 1

i32_rounds_last : (n u : ℕ) → Fits 6 u → i32_rounds (suc n) u ≡ u % 128 ∷ []
unfolding i32_rounds shift_signed
i32_rounds_last n u (inl h) = ground (arith, bit_and_mask 7 u, bit_and_mask 7 (u % 128))
i32_rounds_last n u (inr h) = ground (arith, bit_and_mask 7 u, bit_and_mask 7 (u % 128))

i32_rounds_more :
    (n u : ℕ)
    → 2 ^ 6 ≤ u
    → u + 2 ^ 6 < 2 ^ 32
    → i32_rounds (suc n) u ≡ (u % 128 + 128) ∷ i32_rounds n (above u)
unfolding i32_rounds shift_signed
i32_rounds_more n u h k =
    ground (arith, bit_and_mask 7 u, bit_and_mask 7 (u % 128), more_flag (u % 128) (omega arith))

-- The sign of the last group.
sign_fill-u32 :
    (j r u : ℕ)
    → j ≤ 3
    → r < 2 ^ (7 * j)
    → Fits 6 u
    → sign_fill 32 ((r + u % 128 * 2 ^ (7 * j)) % 2 ^ 32) (u % 128) (7 * j + 7)
      ≡ (r + u * 2 ^ (7 * j)) % 2 ^ 32
sign_fill-u32 zero r u hj hr (inl h) = ground (arith, sign_bit (u % 128) (omega arith))
sign_fill-u32 zero r u hj hr (inr h) = ground (
  arith,
  sign_bit (u % 128) (omega arith),
  bit_or-shifted 7 (r + u % 128 * 1) 33554431 (omega arith),
)
sign_fill-u32 (suc zero) r u hj hr (inl h) = ground (arith, sign_bit (u % 128) (omega arith))
sign_fill-u32 (suc zero) r u hj hr (inr h) = ground (
  arith,
  sign_bit (u % 128) (omega arith),
  bit_or-shifted 14 (r + u % 128 * 128) 262143 (omega arith),
)
sign_fill-u32 (suc (suc zero)) r u hj hr (inl h) = ground (arith, sign_bit (u % 128) (omega arith))
sign_fill-u32 (suc (suc zero)) r u hj hr (inr h) = ground (
  arith,
  sign_bit (u % 128) (omega arith),
  bit_or-shifted 21 (r + u % 128 * 16384) 2047 (omega arith),
)
sign_fill-u32 (suc (suc (suc zero))) r u hj hr (inl h) =
    ground (arith, sign_bit (u % 128) (omega arith))
sign_fill-u32 (suc (suc (suc zero))) r u hj hr (inr h) = ground (
  arith,
  sign_bit (u % 128) (omega arith),
  bit_or-shifted 28 (r + u % 128 * 2097152) 15 (omega arith),
)
sign_fill-u32 (suc (suc (suc (suc j)))) r u hj hr f = absurd (omega arith)

-- The last group of a number.
i32_last :
    (n j r u i : ℕ) (rest : List ℕ)
    → j ≤ 3
    → r < 2 ^ (7 * j)
    → Fits 6 u
    → signed_loop 32 35 (i32_rounds (suc n) u ++ rest) r (7 * j) i
      ≡ some ((r + u * 2 ^ (7 * j)) % 2 ^ 32, i + length (i32_rounds (suc n) u))
unfolding signed_loop
i32_last n j r u i rest hj hr f =
    let low : u % 128 % 128 ≡ u % 128 = omega arith in
    let room : leb 35 (7 * j) ≡ false = ground arith in
    let ends : (bit_and (u % 128) 0x80 == 0) ≡ true =
      ground (arith, high_bit (u % 128) (omega arith)) in
    rw
      (
        i32_rounds_last n u f,
        signed_loop,
        add_group-u32 j r (u % 128) (omega arith) hr (omega arith),
        low,
        room,
        ends,
        sign_fill-u32 j r u hj hr f,
      )
      refl

uncut :
    (j r b : ℕ)
    → j ≤ 3
    → r < 2 ^ (7 * j)
    → b < 128
    → ((r + b * 2 ^ (7 * j)) % 2 ^ 32 ≡ r + b * 2 ^ (7 * j))
      × (r + b * 2 ^ (7 * j) < 2 ^ (7 * suc j))
uncut zero r b hj hr h = omega arith
uncut (suc zero) r b hj hr h = omega arith
uncut (suc (suc zero)) r b hj hr h = omega arith
uncut (suc (suc (suc zero))) r b hj hr h = omega arith
uncut (suc (suc (suc (suc j)))) r b hj hr h = absurd (omega arith)

i32_more :
    (n j r u i : ℕ) (rest : List ℕ)
    → j ≤ 3
    → r < 2 ^ (7 * j)
    → 2 ^ 6 ≤ u
    → u + 2 ^ 6 < 2 ^ 32
    → signed_loop 32 35 (i32_rounds (suc n) u ++ rest) r (7 * j) i
      ≡ signed_loop 32 35
          (i32_rounds n (above u) ++ rest)
          (r + u % 128 * 2 ^ (7 * j))
          (7 * suc j)
          (i + 1)
unfolding signed_loop
i32_more n j r u i rest hj hr h k =
    let low : (u % 128 + 128) % 128 ≡ u % 128 = omega arith in
    let room : leb 35 (7 * j) ≡ false = ground arith in
    let goes_on : (bit_and (u % 128 + 128) 0x80 == 0) ≡ false =
      ground (arith, high_bit (u % 128 + 128) (omega arith)) in
    let next : 7 * suc j ≡ 7 * j + 7 = omega arith in
    rw
      (
        i32_rounds_more n u h k,
        signed_loop,
        add_group-u32 j r (u % 128 + 128) (omega arith) hr (omega arith),
        low,
        (uncut j r (u % 128) hj hr (omega arith)).0,
        room,
        goes_on,
        next,
      )
      refl

join :
    (j r u : ℕ)
    → j ≤ 3
    → u < 2 ^ 32
    → (r + u % 128 * 2 ^ (7 * j) + above u * 2 ^ (7 * suc j)) % 2 ^ 32
      ≡ (r + u * 2 ^ (7 * j)) % 2 ^ 32
unfolding shift_signed
join zero r u hj h = ground arith
join (suc zero) r u hj h = ground arith
join (suc (suc zero)) r u hj h = ground arith
join (suc (suc (suc zero))) r u hj h = ground arith
join (suc (suc (suc (suc j)))) r u hj h = absurd (omega arith)

Fits-above : (j u : ℕ) → j ≤ 3 → Fits (31 - 7 * j) u → Fits (31 - 7 * suc j) (above u)
unfolding shift_signed
Fits-above zero u hj (inl h) = inl (ground (arith, h))
Fits-above zero u hj (inr h) = inr (ground (arith, h))
Fits-above (suc zero) u hj (inl h) = inl (ground (arith, h))
Fits-above (suc zero) u hj (inr h) = inr (ground (arith, h))
Fits-above (suc (suc zero)) u hj (inl h) = inl (ground (arith, h))
Fits-above (suc (suc zero)) u hj (inr h) = inr (ground (arith, h))
Fits-above (suc (suc (suc zero))) u hj (inl h) = inl (ground (arith, h))
Fits-above (suc (suc (suc zero))) u hj (inr h) = inr (ground (arith, h))
Fits-above (suc (suc (suc (suc j)))) u hj f = absurd (omega arith)

Fits-word : (j u : ℕ) → j ≤ 3 → Fits (31 - 7 * j) u → u < 2 ^ 32
Fits-word zero u hj (inl h) = omega arith
Fits-word (suc zero) u hj (inl h) = omega arith
Fits-word (suc (suc zero)) u hj (inl h) = omega arith
Fits-word (suc (suc (suc zero))) u hj (inl h) = omega arith
Fits-word (suc (suc (suc (suc j)))) u hj (inl h) = absurd (omega arith)
Fits-word j u hj (inr h) = h.1

-- The fifth group has the last four bits.
i32_top :
    (r u i : ℕ) (rest : List ℕ)
    → r < 2 ^ 28
    → Fits 3 u
    → signed_loop 32 35 (i32_rounds 1 u ++ rest) r 28 i
      ≡ some ((r + u * 2 ^ 28) % 2 ^ 32, i + length (i32_rounds 1 u))
unfolding signed_loop
i32_top r u i rest hr f =
    let ends : (bit_and (u % 128) 0x80 == 0) ≡ true =
      ground (arith, high_bit (u % 128) (omega arith)) in
    rw
      (
        i32_rounds_last 0 u (weaker f),
        signed_loop,
        add_group-u32 4 r (u % 128) (omega arith) hr (omega arith),
        ends,
      )
      (ap (λ v. some (v, i + 1)) (value f))
  where
    weaker : Fits 3 u → Fits 6 u
    weaker (inl h) = inl (omega (arith, h))
    weaker (inr h) = inr (omega (arith, h.0), h.1)

    value : Fits 3 u → (r + u % 128 % 128 * 2 ^ 28) % 2 ^ 32 ≡ (r + u * 2 ^ 28) % 2 ^ 32
    value (inl h) = omega arith
    value (inr h) = omega arith

-- An i32 of at most `31 - 7 * j` bits and a sign, from the group `j` on.
i32_from :
    (n j r u i : ℕ) (rest : List ℕ)
    → n + j ≡ 4
    → r < 2 ^ (7 * j)
    → Fits (31 - 7 * j) u
    → signed_loop 32 35 (i32_rounds (suc n) u ++ rest) r (7 * j) i
      ≡ some ((r + u * 2 ^ (7 * j)) % 2 ^ 32, i + length (i32_rounds (suc n) u))
i32_from zero j r u i rest e hr f =
    let four : j ≡ 4 = omega (arith, e) in
    rw four (
      i32_top r u i rest (subst (λ t. r < 2 ^ (7 * t)) four hr)
        (subst (λ t. Fits (31 - 7 * t) u) four f))
i32_from (suc n) j r u i rest e hr f =
    let hj : j ≤ 3 = omega (arith, e) in
    let word = Fits-word j u hj f in
    elim (Bool-cases (ltb u (2 ^ 6))) [
      | inl t ↦ i32_last (suc n) j r u i rest hj hr (inl (ltb→lt u (2 ^ 6) t))
      | inr t ↦ elim (Bool-cases (leb (2 ^ 32) (u + 2 ^ 6))) [
        | inl t' ↦ i32_last (suc n) j r u i rest hj hr (inr (leb→le (2 ^ 32) (u + 2 ^ 6) t', word))
        | inr t' ↦
            let low = ltb_false→le u (2 ^ 6) t in
            let high : u + 2 ^ 6 < 2 ^ 32 = ground (arith, t') in
            let (cut, small) = uncut j r (u % 128) hj hr (omega arith) in
            i32_more (suc n) j r u i rest hj hr low high
            ∙ i32_from n (suc j) (r + u % 128 * 2 ^ (7 * j)) (above u) (i + 1) rest
                (omega (arith, e)) small (Fits-above j u hj f)
            ∙ ap₂ (λ v k. some (v, k)) (join j r u hj word)
                (rw (i32_rounds_more (suc n) u low high) (omega arith))
      ]
    ]

-- An i32, as its bit pattern below 2 ^ 32, that the writer writes is read back by the runtime with the
-- number of its bytes, whatever follows.
pub read_i32_leb128-write_leb128_i32 :
    (v : ℕ) (rest : List ℕ)
    → v < 2 ^ 32
    → read_i32_leb128 (write_leb128_i32 v ++ rest) ≡ some (v, length (write_leb128_i32 v))
unfolding read_i32_leb128 write_leb128_i32
read_i32_leb128-write_leb128_i32 v rest h =
    i32_from 4 0 0 v 0 rest refl (omega arith) (fits v h)
    ∙ ap₂ (λ t n. some (t, n)) (omega arith) (omega arith)
  where
    fits : (v : ℕ) → v < 2 ^ 32 → Fits 31 v
    fits v h = elim (Bool-cases (ltb v (2 ^ 31))) [
      | inl t ↦ inl (ltb→lt v (2 ^ 31) t)
      | inr t ↦ inr (omega (arith, ltb_false→le v (2 ^ 31) t), h)
    ]
