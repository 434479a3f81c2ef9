-- ===== src/Net/Arp/Packet.antt =====
-- Packets: ArpPacket in kernel/src/drivers/netstack/arp.rs.
pub mod Laws
use wasm_os.Base.{
  ℕ, ◌+◌, ◌*◌, Bool, true, false, ◌&&◌, ◌||◌, not, List, [], ◌∷◌, ◌++◌, Option, none, some,
  if◌then◌else◌, ltb, ◌==◌, length, slice,
}
use wasm_os.Net.Bytes.{be16, be16_at}

abbrev pub arp_op_request : ℕ
arp_op_request = 1

abbrev pub arp_op_reply : ℕ
arp_op_reply = 2

pub record ArpPacket : Type 0 where
  pub operation : ℕ
  pub sender_ip : List ℕ
  pub target_ip : List ℕ
  pub sender_mac : List ℕ
  pub target_mac : List ℕ

unfoldable pub parse : List ℕ → Option ArpPacket
parse bytes =
    if ltb (length bytes) 28
    then none
    else if not (be16_at bytes 0 == 1) || not (be16_at bytes 2 == 0x0800)
    then none
    else some (record {
      operation = be16_at bytes 6;
      sender_ip = slice bytes 14 4;
      target_ip = slice bytes 24 4;
      sender_mac = slice bytes 8 6;
      target_mac = slice bytes 18 6;
    })

abbrev pub new_reply : List ℕ → List ℕ → List ℕ → List ℕ → ArpPacket
new_reply sender_ip target_ip sender_mac target_mac = record {
  operation = arp_op_reply;
  sender_ip = sender_ip;
  target_ip = target_ip;
  sender_mac = sender_mac;
  target_mac = target_mac;
}

-- The fields follow each other without gaps, so the array is their concatenation.
unfoldable pub to_bytes : ArpPacket → List ℕ
to_bytes p =
    be16 1
    ++ be16 0x0800
    ++ (6 ∷ 4 ∷ be16 p.operation)
    ++ p.sender_mac
    ++ p.sender_ip
    ++ p.target_mac
    ++ p.target_ip
