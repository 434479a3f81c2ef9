-- ===== src/Net/Udp.antt =====
-- Datagrams and sockets: kernel/src/drivers/netstack/udp.rs. A packet borrows its payload; here it
-- holds it. A length is a u16, so its cast wraps, and its sum panics where it does not fit.
-- The allocation of a Vec is taken to succeed.
pub mod Laws
use wasm_os.Base.{
  ℕ, ◌+◌, ◌-◌, ◌*◌, ◌%◌, ◌^◌, min, Bool, List, [], ◌∷◌, ◌++◌, Option, none, some, if◌then◌else◌,
  ltb, ◌==◌, length, take, drop, replicate, overwrite,
}
use wasm_os.Net.Bytes.{be16, be16_at}

abbrev pub max_udp_payload : ℕ
max_udp_payload = 1472

pub record UdpSocket : Type 0 where
  pub local_port : ℕ
  pub remote_port : ℕ
  pub remote_ip : List ℕ
  pub recv_buf : List ℕ
  pub recv_len : ℕ

pub record UdpPacket : Type 0 where
  pub src_port : ℕ
  pub dst_port : ℕ
  pub length : ℕ
  pub checksum : ℕ
  pub payload : List ℕ

unfoldable pub new_socket : ℕ → UdpSocket
new_socket port = record {
  local_port = port;
  remote_port = 0;
  remote_ip = replicate 4 0;
  recv_buf = replicate max_udp_payload 0;
  recv_len = 0;
}

unfoldable pub handle_pkt : UdpSocket → UdpPacket → List ℕ → UdpSocket
handle_pkt s pkt src =
    let n = min (length pkt.payload) max_udp_payload in
    record s {
      remote_ip = src;
      remote_port = pkt.src_port;
      recv_buf = overwrite s.recv_buf 0 (take n pkt.payload);
      recv_len = n;
    }

-- The socket afterwards and, unless nothing was received, the buffer and the count.
unfoldable pub recv : UdpSocket → List ℕ → UdpSocket × Option (List ℕ × ℕ)
recv s buf =
    let n = min s.recv_len (length buf) in
    if s.recv_len == 0
    then (s, none)
    else (record s { recv_len = 0 }, some (overwrite buf 0 (take n s.recv_buf), n))

unfoldable pub parse : List ℕ → Option UdpPacket
parse bytes =
    if ltb (length bytes) 8
    then none
    else some (record {
      src_port = be16_at bytes 0;
      dst_port = be16_at bytes 2;
      length = be16_at bytes 4;
      checksum = be16_at bytes 6;
      payload = drop 8 bytes;
    })

-- The datagram where `8 + payload.len() as u16` fits 16 bits.
unfoldable pub packet_of : ℕ → ℕ → List ℕ → UdpPacket
packet_of src_port dst_port payload = record {
  src_port = src_port;
  dst_port = dst_port;
  length = 8 + length payload % 2 ^ 16;
  checksum = 0;
  payload = payload;
}

-- `none` is the overflow of `length`.
unfoldable pub new_packet : ℕ → ℕ → List ℕ → Option UdpPacket
unfolding packet_of
new_packet src_port dst_port payload =
    if ltb (2 ^ 16 - 1) (8 + length payload % 2 ^ 16)
    then none
    else some (packet_of src_port dst_port payload)

unfoldable pub to_bytes : UdpPacket → List ℕ
to_bytes p = be16 p.src_port ++ be16 p.dst_port ++ be16 p.length ++ be16 p.checksum ++ p.payload
