-- ===== src/Net/Ethernet/Laws.antt =====
-- What a composed frame holds.
use wasm_os.Base.{
  ℕ, ◌+◌, ◌≤◌, ◌<◌, List, [], ◌∷◌, ◌++◌, some, length, take, overwrite, length-overwrite, ◌≡◌, refl,
  ap, ◌∙◌, arith,
}
use wasm_os.Net.Bytes.{be16, be16_value, by_six, take-overwrite_next}
use wasm_os.Net.Ethernet.{parse, compose}

abbrev pub frame_bytes : List ℕ → List ℕ → ℕ → List ℕ → List ℕ
frame_bytes dst src ethertype payload = ((dst ++ src) ++ be16 ethertype) ++ payload

abbrev pub composed : List ℕ → List ℕ → List ℕ → ℕ → List ℕ → List ℕ
composed buf dst src ethertype payload =
    overwrite (overwrite (overwrite (overwrite buf 0 dst) 6 src) 12 (be16 ethertype)) 14 payload

module _ (buf dst src : List ℕ) (ethertype : ℕ) (payload : List ℕ) where
  pub take-composed :
      length dst ≡ 6
      → length src ≡ 6
      → 14 + length payload ≤ length buf
      → take (14 + length payload) (composed buf dst src ethertype payload)
        ≡ frame_bytes dst src ethertype payload
  take-composed d s h =
      let l1 = length-overwrite buf 0 dst in
      let l2 = length-overwrite (overwrite buf 0 dst) 6 src in
      let l3 = length-overwrite (overwrite (overwrite buf 0 dst) 6 src) 12 (be16 ethertype) in
      take-overwrite_next _ 14 payload (length payload) refl (omega (arith, l1, l2, l3)) (
        take-overwrite_next _ 12 (be16 ethertype) 2 refl (omega (arith, l1, l2)) (
          take-overwrite_next _ 6 src 6 s (omega (arith, l1))
            (take-overwrite_next buf 0 dst 6 d (omega arith) refl)))

  -- A frame composed in a buffer with room for it is the addresses, the type and the payload.
  pub compose-total :
      14 + length payload ≤ length buf
      → compose buf dst src ethertype payload
        ≡ some (composed buf dst src ethertype payload, 14 + length payload)
  unfolding compose
  compose-total h = ground arith

pub parse-frame_bytes :
    (dst src : List ℕ) (ethertype : ℕ) (payload : List ℕ)
    → length dst ≡ 6
    → length src ≡ 6
    → ethertype < 65536
    → parse (frame_bytes dst src ethertype payload)
      ≡ some (record { dst = dst; src = src; ethertype = ethertype; payload = payload })
unfolding parse
parse-frame_bytes dst src ethertype payload d s t =
    by_six
      (λ dst.
        parse (frame_bytes dst src ethertype payload)
        ≡ some (record { dst = dst; src = src; ethertype = ethertype; payload = payload }))
      (λ a b c e f g.
        by_six
          (λ src.
            parse (frame_bytes (a ∷ b ∷ c ∷ e ∷ f ∷ g ∷ []) src ethertype payload)
            ≡ some (record {
              dst = a ∷ b ∷ c ∷ e ∷ f ∷ g ∷ [];
              src = src;
              ethertype = ethertype;
              payload = payload;
            }))
          (λ a' b' c' e' f' g'. ground (arith, be16_value ethertype t)) src s)
      dst d

-- In a buffer with room for it, a frame with addresses of six bytes and a 16-bit type is composed
-- without a panic, and parsing the bytes of the length answered gives its parts back.
pub parse-compose :
    (buf dst src : List ℕ) (ethertype : ℕ) (payload : List ℕ)
    → length dst ≡ 6
    → length src ≡ 6
    → ethertype < 65536
    → 14 + length payload ≤ length buf
    → (out : List ℕ) × (n : ℕ) × (compose buf dst src ethertype payload ≡ some (out, n))
      × (parse (take n out)
          ≡ some (record { dst = dst; src = src; ethertype = ethertype; payload = payload }))
parse-compose buf dst src ethertype payload d s t h = (
  composed buf dst src ethertype payload,
  14 + length payload,
  compose-total buf dst src ethertype payload h,
  ap parse (take-composed buf dst src ethertype payload d s h)
      ∙ parse-frame_bytes dst src ethertype payload d s t,
)
