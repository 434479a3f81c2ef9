-- ===== src/Net/Tcp/Packet.antt =====
-- Segments: TcpPacket and make_tcp_packet in kernel/src/drivers/netstack/tcp.rs. The
-- allocation of a Vec is taken to succeed.
use mathlib.Core.Option
use wasm_os.Base.{
  ℕ, ◌+◌, ◌*◌, ◌/◌, ◌%◌, ◌^◌, bit_and, Bool, ◌||◌, not, List, ◌∷◌, ◌++◌, Option, none, some,
  if◌then◌else◌, ltb, ◌==◌, length, get_or, set, drop,
}
use wasm_os.Net.Bytes.{be16, be32, be16_at, be32_at}
use wasm_os.Net.Ip.{add_words, fold_sum, fold_fuel, complement}

abbrev pub tcp_fin : ℕ
tcp_fin = 0x01

abbrev pub tcp_syn : ℕ
tcp_syn = 0x02

abbrev pub tcp_rst : ℕ
tcp_rst = 0x04

abbrev pub tcp_psh : ℕ
tcp_psh = 0x08

abbrev pub tcp_ack : ℕ
tcp_ack = 0x10

pub record TcpPacket : Type 0 where
  pub src_port : ℕ
  pub dst_port : ℕ
  pub seq : ℕ
  pub ack_no : ℕ
  pub flags : ℕ
  pub payload : List ℕ

unfoldable pub parse : List ℕ → Option TcpPacket
parse bytes =
    let hdr_len = get_or bytes 12 0 / 16 * 4 in
    if ltb (length bytes) 20
    then none
    else if ltb hdr_len 20 || ltb (length bytes) hdr_len
    then none
    else some (record {
      src_port = be16_at bytes 0;
      dst_port = be16_at bytes 2;
      seq = be32_at bytes 4;
      ack_no = be32_at bytes 8;
      flags = get_or bytes 13 0;
      payload = drop hdr_len bytes;
    })

abbrev pub syn : TcpPacket → Bool
syn p = not (bit_and p.flags tcp_syn == 0)

abbrev pub ack : TcpPacket → Bool
ack p = not (bit_and p.flags tcp_ack == 0)

abbrev pub fin : TcpPacket → Bool
fin p = not (bit_and p.flags tcp_fin == 0)

abbrev pub rst : TcpPacket → Bool
rst p = not (bit_and p.flags tcp_rst == 0)

-- The segment with a given checksum field.
unfoldable pub segment_with : ℕ → ℕ → ℕ → ℕ → ℕ → ℕ → List ℕ → ℕ → List ℕ
segment_with src_port dst_port seq ack_no flags window payload sum =
    be16 src_port
    ++ be16 dst_port
    ++ be32 seq
    ++ be32 ack_no
    ++ (0x50 ∷ flags ∷ be16 window)
    ++ be16 sum
    ++ be16 0
    ++ payload

-- The sum of the pseudo-header: both addresses, the protocol and the length of the segment.
unfoldable pub pseudo_sum : List ℕ → List ℕ → ℕ → ℕ
pseudo_sum src_ip dst_ip len =
    (be16_at src_ip 0 + be16_at src_ip 2 + be16_at dst_ip 0 + be16_at dst_ip 2 + 6 + len % 2 ^ 32)
    % 2 ^ 32

unfoldable pub make_tcp_packet : ℕ → ℕ → ℕ → ℕ → ℕ → ℕ → List ℕ → List ℕ → List ℕ → Option (List ℕ)
unfolding segment_with pseudo_sum add_words fold_sum complement
make_tcp_packet src_port dst_port seq ack_no flags window payload src_ip dst_ip =
    let v = segment_with src_port dst_port seq ack_no flags window payload 0 in
    let sum = add_words (pseudo_sum src_ip dst_ip (length v)) v in
    Option.map
      (λ folded.
        let cksum = complement folded in set (set v 16 (cksum / 256 % 256)) 17 (cksum % 256))
      (fold_sum fold_fuel sum)
