-- ===== src/Net/Ip/Emit.antt =====
-- The bytes of a datagram.
use wasm_os.Base.{
  ℕ, ◌-◌, ltb, false, ◌≤◌, ◌+◌, ◌%◌, ◌^◌, ◌<◌, List, [], ◌∷◌, ◌++◌, some, length, take, ◌≡◌, refl,
  arith, length-append, All,
}
use wasm_os.Net.Bytes.{be16_value, by_four, IsByte}
use wasm_os.Net.Ip.{Ipv4Packet, ip_chksum, bytes_with, to_bytes, packet_of, new_packet, parse}
use wasm_os.Net.Ip.Laws.{ip_chksum-total, ip_chksum-filled, words}

module _ (version_ihl tos total_len id flags_offset ttl protocol : ℕ) (payload : List ℕ) where
  packet : List ℕ → List ℕ → Ipv4Packet
  packet src dst = record {
    version_ihl = version_ihl;
    tos = tos;
    total_len = total_len;
    id = id;
    flags_offset = flags_offset;
    ttl = ttl;
    protocol = protocol;
    src = src;
    dst = dst;
    payload = payload;
  }

  Emitted : List ℕ → List ℕ → Type 0
  Emitted src dst =
      (sum : ℕ) × (to_bytes (packet src dst) ≡ some (bytes_with (packet src dst) sum))
      × (sum < 65536)
      × (ip_chksum (take 20 (bytes_with (packet src dst) 0)) ≡ some sum)

  emitted : (src dst : List ℕ) → length src ≡ 4 → length dst ≡ 4 → Emitted src dst
  unfolding to_bytes bytes_with packet Emitted
  emitted src dst s d =
      by_four (λ src. Emitted src dst)
        (λ a b c e.
          by_four (λ dst. Emitted (a ∷ b ∷ c ∷ e ∷ []) dst)
            (λ a' b' c' e'.
              let (sum, eq, lt) =
                ip_chksum-total
                  (take 20 (bytes_with (packet (a ∷ b ∷ c ∷ e ∷ []) (a' ∷ b' ∷ c' ∷ e' ∷ [])) 0)) in
              (sum, rw eq refl, lt, eq))
            dst d)
        src s

pub new_packet-packet_of :
    (src dst : List ℕ) (protocol : ℕ) (payload : List ℕ)
    → length payload ≤ 65515
    → new_packet src dst protocol payload ≡ some (packet_of src dst protocol payload)
unfolding new_packet
new_packet-packet_of src dst protocol payload h =
    let small : ltb (2 ^ 16 - 1) (20 + length payload % 2 ^ 16) ≡ false = ground (arith, h) in
    rw small refl

-- The datagram as it stands on the wire.
pub wire : List ℕ → List ℕ → ℕ → List ℕ → ℕ → List ℕ
unfolding bytes_with packet_of
wire src dst protocol payload sum = bytes_with (packet_of src dst protocol payload) sum

module _ (protocol : ℕ) (payload : List ℕ) where
  length-wire :
      (src dst : List ℕ) (sum : ℕ)
      → length src ≡ 4
      → length dst ≡ 4
      → length (wire src dst protocol payload sum) ≡ 20 + length payload
  unfolding wire
  length-wire src dst sum s d =
      omega (arith, s, d, length-append (src ++ dst) payload, length-append src dst)

  -- Such a datagram is printed.
  pub to_bytes-packet_of :
      (src dst : List ℕ)
      → length src ≡ 4
      → length dst ≡ 4
      → (sum : ℕ) × (to_bytes (packet_of src dst protocol payload)
          ≡ some (wire src dst protocol payload sum))
        × (sum < 65536)
        × (ip_chksum (take 20 (wire src dst protocol payload 0)) ≡ some sum)
        × (length (wire src dst protocol payload sum) ≡ 20 + length payload)
  unfolding wire packet_of Emitted packet
  to_bytes-packet_of src dst s d =
      let (sum, eq, lt, ck) =
        emitted 0x45 0 (20 + length payload % 2 ^ 16) 0 0 64 protocol payload src dst s d in
      (sum, eq, lt, ck, length-wire src dst sum s d)

  Printed : List ℕ → List ℕ → ℕ → Type 0
  Printed src dst sum =
      All IsByte src
      → All IsByte dst
      → sum < 65536
      → ip_chksum (take 20 (wire src dst protocol payload 0)) ≡ some sum
      → ip_chksum (take 20 (wire src dst protocol payload sum)) ≡ some 0

  checksum-wire :
      protocol < 256
      → (src dst : List ℕ) (sum : ℕ) → length src ≡ 4
      → length dst ≡ 4
      → Printed src dst sum
  unfolding Printed wire words
  checksum-wire p src dst sum s d =
      by_four (λ src. Printed src dst sum)
        (λ a b c e.
          by_four (λ dst. Printed (a ∷ b ∷ c ∷ e ∷ []) dst sum)
            (λ a' b' c' e' hs hd lt ck.
              let src = a ∷ b ∷ c ∷ e ∷ [] in
              let dst = a' ∷ b' ∷ c' ∷ e' ∷ [] in
              ip_chksum-filled sum (take 20 (wire src dst protocol payload 0))
                (take 20 (wire src dst protocol payload sum)) (omega arith)
                (omega (arith, p, hs.0, hs.1, hd.0, hd.1)) ck (omega (arith, be16_value sum lt)))
            dst d)
        src s

  pub parse-wire :
      protocol < 256
      → (src dst : List ℕ) (sum : ℕ) → length src ≡ 4
      → length dst ≡ 4
      → length payload ≤ 65515
      → parse (wire src dst protocol payload sum) ≡ some (packet_of src dst protocol payload)
  unfolding wire parse packet_of
  parse-wire p src dst sum s d small =
      by_four
        (λ src.
          parse (wire src dst protocol payload sum) ≡ some (packet_of src dst protocol payload))
        (λ a b c e.
          by_four
            (λ dst.
              parse (wire (a ∷ b ∷ c ∷ e ∷ []) dst protocol payload sum)
              ≡ some (packet_of (a ∷ b ∷ c ∷ e ∷ []) dst protocol payload))
            (λ a' b' c' e'.
              ground
                (arith, small, be16_value (20 + length payload % 2 ^ 16) (omega (arith, small))))
            dst d)
        src s

-- A new datagram with at most 65515 bytes of payload, from and to addresses of four bytes, is made and
-- printed without a panic. Its header, checksum included, has the checksum zero, and parsing gives the
-- datagram back.
pub ip_round_trip :
    (protocol : ℕ) (payload src dst : List ℕ)
    → length payload ≤ 65515
    → protocol < 256
    → length src ≡ 4
    → length dst ≡ 4
    → All IsByte src
    → All IsByte dst
    → (p : Ipv4Packet) × (bytes : List ℕ) × (new_packet src dst protocol payload ≡ some p)
      × (to_bytes p ≡ some bytes)
      × (ip_chksum (take 20 bytes) ≡ some 0)
      × (parse bytes ≡ some p)
unfolding Printed
ip_round_trip protocol payload src dst n p s d hs hd =
    let (sum, eq, lt, ck, len) = to_bytes-packet_of protocol payload src dst s d in
    (
      packet_of src dst protocol payload,
      wire src dst protocol payload sum,
      new_packet-packet_of src dst protocol payload n,
      eq,
      checksum-wire protocol payload p src dst sum s d hs hd lt ck,
      parse-wire protocol payload p src dst sum s d n,
    )
