-- ===== src/Net/Arp/Packet/Laws.antt =====
-- Packets on the wire and back.
use wasm_os.Base.{ℕ, ◌<◌, List, [], ◌∷◌, ◌++◌, some, length, length-append, ◌≡◌, arith}
use wasm_os.Net.Bytes.{be16_value, by_four, by_six}
use wasm_os.Net.Arp.Packet.{ArpPacket, parse, to_bytes}

module _ (operation : ℕ) where
  packet : List ℕ → List ℕ → List ℕ → List ℕ → ArpPacket
  packet sender_mac sender_ip target_mac target_ip = record {
    operation = operation;
    sender_ip = sender_ip;
    target_ip = target_ip;
    sender_mac = sender_mac;
    target_mac = target_mac;
  }

  RoundTrips : List ℕ → List ℕ → List ℕ → List ℕ → Type 0
  RoundTrips sm si tm ti = parse (to_bytes (packet sm si tm ti)) ≡ some (packet sm si tm ti)

  round_trips :
      operation < 65536
      → (sm si tm ti : List ℕ) → length sm ≡ 6
      → length si ≡ 4
      → length tm ≡ 6
      → length ti ≡ 4
      → RoundTrips sm si tm ti
  unfolding RoundTrips packet parse to_bytes
  round_trips o sm si tm ti hsm hsi htm hti =
      by_six (λ sm. RoundTrips sm si tm ti)
        (λ a b c d e f.
          by_four (λ si. RoundTrips (a ∷ b ∷ c ∷ d ∷ e ∷ f ∷ []) si tm ti)
            (λ a' b' c' d'.
              by_six (λ tm. RoundTrips (a ∷ b ∷ c ∷ d ∷ e ∷ f ∷ []) (a' ∷ b' ∷ c' ∷ d' ∷ []) tm ti)
                (λ g h i j k l.
                  by_four
                    (λ ti.
                      RoundTrips (a ∷ b ∷ c ∷ d ∷ e ∷ f ∷ []) (a' ∷ b' ∷ c' ∷ d' ∷ [])
                        (g ∷ h ∷ i ∷ j ∷ k ∷ l ∷ []) ti)
                    (λ m n p q. ground (arith, be16_value operation o)) ti hti)
                tm htm)
            si hsi)
        sm hsm

-- A packet with addresses of the right lengths and a 16-bit operation is what parsing its bytes gives.
pub arp_round_trip :
    (p : ArpPacket)
    → p.operation < 65536
    → length p.sender_mac ≡ 6
    → length p.sender_ip ≡ 4
    → length p.target_mac ≡ 6
    → length p.target_ip ≡ 4
    → parse (to_bytes p) ≡ some p
unfolding RoundTrips packet
arp_round_trip p o sm si tm ti =
    round_trips p.operation o p.sender_mac p.sender_ip p.target_mac p.target_ip sm si tm ti

pub length-to_bytes :
    (p : ArpPacket)
    → length p.sender_mac ≡ 6
    → length p.sender_ip ≡ 4
    → length p.target_mac ≡ 6
    → length p.target_ip ≡ 4
    → length (to_bytes p) ≡ 28
unfolding to_bytes
length-to_bytes p sm si tm ti =
    let front = p.sender_mac ++ p.sender_ip in
    omega (
      arith,
      sm,
      si,
      tm,
      ti,
      length-append p.sender_mac p.sender_ip,
      length-append front p.target_mac,
      length-append (front ++ p.target_mac) p.target_ip,
    )
