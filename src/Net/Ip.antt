-- ===== src/Net/Ip.antt =====
-- Datagrams and the checksum: kernel/src/drivers/netstack/ip.rs. An address is its list of bytes.
-- The allocation of a Vec is taken to succeed.
pub mod Laws
pub mod Emit
use mathlib.Core.Option
use wasm_os.Base.{
  ℕ, zero, suc, ◌+◌, ◌-◌, ◌*◌, ◌/◌, ◌%◌, ◌^◌, bit_and, Bool, ◌||◌, not, List, [], ◌∷◌, ◌++◌, Option,
  none, some, if◌then◌else◌, ltb, ◌==◌, length, get_or, set, take, slice, drop, bytes_eq, replicate,
}
use wasm_os.Net.Bytes.{be16, be16_at}

abbrev pub ip_proto_icmp : ℕ
ip_proto_icmp = 1

abbrev pub ip_proto_tcp : ℕ
ip_proto_tcp = 6

abbrev pub ip_proto_udp : ℕ
ip_proto_udp = 17

abbrev pub default_ip : List ℕ
default_ip = replicate 4 0

unfoldable pub is_zero : List ℕ → Bool
is_zero ip = bytes_eq ip default_ip

-- `u32::from_le_bytes` and `to_le_bytes` of the four bytes.
unfoldable pub to_u32 : List ℕ → ℕ
to_u32 ip = get_or ip 0 0 + 256 * get_or ip 1 0 + 65536 * get_or ip 2 0 + 16777216 * get_or ip 3 0

unfoldable pub from_u32 : ℕ → List ℕ
from_u32 v = v % 256 ∷ v / 256 % 256 ∷ v / 65536 % 256 ∷ v / 16777216 % 256 ∷ []

-- The sum of the 16-bit words in a u32; a last odd byte is the high half of a word.
unfoldable pub add_words : ℕ → List ℕ → ℕ
add_words sum [] = sum
add_words sum (a ∷ []) = (sum + 256 * a) % 2 ^ 32
add_words sum (a ∷ b ∷ rest) = add_words ((sum + (256 * a + b)) % 2 ^ 32) rest

-- `while sum > 0xFFFF`, on fuel.
unfoldable pub fold_sum : ℕ → ℕ → Option ℕ
fold_sum zero sum = none
fold_sum (suc fuel) sum =
    let rest = fold_sum fuel (sum % 2 ^ 16 + sum / 2 ^ 16) in
    if ltb 0xffff sum then rest else some sum

-- Two rounds fold any u32, the third finds it folded.
abbrev pub fold_fuel : ℕ
fold_fuel = 3

-- `!(sum as u16)`
unfoldable pub complement : ℕ → ℕ
complement sum = 0xffff - sum % 2 ^ 16

unfoldable pub ip_chksum : List ℕ → Option ℕ
unfolding add_words fold_sum complement
ip_chksum bytes = Option.map complement (fold_sum fold_fuel (add_words 0 bytes))

pub record Ipv4Packet : Type 0 where
  pub version_ihl : ℕ
  pub tos : ℕ
  pub total_len : ℕ
  pub id : ℕ
  pub flags_offset : ℕ
  pub ttl : ℕ
  pub protocol : ℕ
  pub src : List ℕ
  pub dst : List ℕ
  pub payload : List ℕ

unfoldable pub parse : List ℕ → Option Ipv4Packet
parse bytes =
    let version_ihl = get_or bytes 0 0 in
    let ihl = bit_and version_ihl 0x0f * 4 in
    if ltb (length bytes) 20
    then none
    else if not (version_ihl / 16 == 4)
    then none
    else if ltb ihl 20 || ltb (length bytes) ihl
    then none
    else some (record {
      version_ihl = version_ihl;
      tos = get_or bytes 1 0;
      total_len = be16_at bytes 2;
      id = be16_at bytes 4;
      flags_offset = be16_at bytes 6;
      ttl = get_or bytes 8 0;
      protocol = get_or bytes 9 0;
      src = slice bytes 12 4;
      dst = slice bytes 16 4;
      payload = drop ihl bytes;
    })

-- The datagram where `20 + payload.len() as u16` fits 16 bits.
unfoldable pub packet_of : List ℕ → List ℕ → ℕ → List ℕ → Ipv4Packet
packet_of src dst protocol payload = record {
  version_ihl = 0x45;
  tos = 0;
  total_len = 20 + length payload % 2 ^ 16;
  id = 0;
  flags_offset = 0;
  ttl = 64;
  protocol = protocol;
  src = src;
  dst = dst;
  payload = payload;
}

-- `none` is the overflow of `total_len`.
unfoldable pub new_packet : List ℕ → List ℕ → ℕ → List ℕ → Option Ipv4Packet
unfolding packet_of
new_packet src dst protocol payload =
    if ltb (2 ^ 16 - 1) (20 + length payload % 2 ^ 16)
    then none
    else some (packet_of src dst protocol payload)

-- The bytes with a given checksum: those before it, it, those behind it.
unfoldable pub bytes_with : Ipv4Packet → ℕ → List ℕ
bytes_with p sum =
    p.version_ihl ∷ p.tos ∷ (be16 p.total_len ++ be16 p.id ++ be16 p.flags_offset)
    ++ (p.ttl ∷ p.protocol ∷ be16 sum)
    ++ p.src
    ++ p.dst
    ++ p.payload

-- The packet with a zero checksum, then the checksum of its first 20 bytes in its place.
unfoldable pub to_bytes : Ipv4Packet → Option (List ℕ)
unfolding ip_chksum bytes_with
to_bytes p =
    let v = bytes_with p 0 in
    Option.map (λ sum. set (set v 10 (sum / 256 % 256)) 11 (sum % 256)) (ip_chksum (take 20 v))
