-- ===== src/Net/Udp/Laws.antt =====
-- Datagrams on the wire and back, and what a socket receives.
use wasm_os.Base.{
  ℕ, ◌-◌, ltb, ◌+◌, ◌%◌, ◌^◌, ◌<◌, ◌≤◌, min, List, some, none, length, overwrite, length-overwrite,
  slice-overwrite, take_all, ◌==◌, false, ◌≡◌, refl, ◌∙◌, arith,
}
use wasm_os.Net.Bytes.{be16_value}
use wasm_os.Net.Udp.{
  UdpSocket, UdpPacket, parse, packet_of, new_packet, to_bytes, handle_pkt, recv, max_udp_payload,
}

-- A datagram of at most 65527 bytes between 16-bit ports is what parsing its bytes gives.
pub udp_round_trip :
    (src_port dst_port : ℕ) (payload : List ℕ)
    → src_port < 65536
    → dst_port < 65536
    → length payload ≤ 65527
    → parse (to_bytes (packet_of src_port dst_port payload))
      ≡ some (packet_of src_port dst_port payload)
unfolding parse to_bytes packet_of
udp_round_trip src_port dst_port payload s d n = ground (
  arith,
  be16_value src_port s,
  be16_value dst_port d,
  be16_value (8 + length payload % 2 ^ 16) (omega (arith, n)),
  n,
)

pub length-to_bytes :
    (src_port dst_port : ℕ) (payload : List ℕ)
    → length (to_bytes (packet_of src_port dst_port payload)) ≡ 8 + length payload
unfolding to_bytes packet_of
length-to_bytes src_port dst_port payload = omega arith

pub new_packet-packet_of :
    (src_port dst_port : ℕ) (payload : List ℕ)
    → length payload ≤ 65527
    → new_packet src_port dst_port payload ≡ some (packet_of src_port dst_port payload)
unfolding new_packet
new_packet-packet_of src_port dst_port payload h =
    let small : ltb (2 ^ 16 - 1) (8 + length payload % 2 ^ 16) ≡ false = ground (arith, h) in
    rw small refl

pub record IsSocket (s : UdpSocket) : Type 0 where
  pub buffer : length s.recv_buf ≡ max_udp_payload
  pub filled : s.recv_len ≤ max_udp_payload
  pub address : length s.remote_ip ≡ 4

pub handle_pkt-IsSocket :
    (s : UdpSocket) (pkt : UdpPacket) (src : List ℕ)
    → IsSocket s
    → length src ≡ 4
    → IsSocket (handle_pkt s pkt src)
unfolding handle_pkt
handle_pkt-IsSocket s pkt src h a = record {
  buffer = length-overwrite s.recv_buf 0 _ ∙ h.buffer;
  filled = omega arith;
  address = a;
}

-- In a well-formed socket, a non-empty datagram that fits the caller's buffer and the socket's is
-- received whole, behind it the caller's buffer is as it was, and a second receive finds nothing.
pub recv-handle_pkt :
    (s : UdpSocket) (pkt : UdpPacket) (src buf : List ℕ)
    → IsSocket s
    → 0 < length pkt.payload
    → length pkt.payload ≤ max_udp_payload
    → length pkt.payload ≤ length buf
    → (t : UdpSocket) × (recv (handle_pkt s pkt src) buf
        ≡ (t, some (overwrite buf 0 pkt.payload, length pkt.payload)))
      × (recv t buf ≡ (t, none))
unfolding recv handle_pkt
recv-handle_pkt s pkt src buf h pos fits room =
    let n = length pkt.payload in
    let whole : min n max_udp_payload ≡ n = omega arith in
    let asked : min n (length buf) ≡ n = omega arith in
    let some_bytes : (n == 0) ≡ false = ground arith in
    let same = slice-overwrite s.recv_buf 0 pkt.payload (omega (arith, h.buffer)) in
    (
      record (handle_pkt s pkt src) { recv_len = 0 },
      rw (whole, asked, some_bytes, take_all n pkt.payload (omega arith), same) refl,
      refl,
    )
