-- ===== src/Net/Ethernet.antt =====
-- Frames: kernel/src/drivers/netstack/ethernet.rs. A frame borrows its payload; here it holds it.
pub mod Laws
use wasm_os.Base.{
  ℕ, ◌+◌, ◌*◌, ◌<◌, Bool, List, [], ◌∷◌, Option, none, some, if◌then◌else◌, ltb, length, slice,
  drop, overwrite, bytes_eq,
}
use wasm_os.Net.Bytes.{be16, be16_at}

abbrev pub eth_type_ipv4 : ℕ
eth_type_ipv4 = 0x0800

abbrev pub eth_type_arp : ℕ
eth_type_arp = 0x0806

abbrev pub broadcast_mac : List ℕ
broadcast_mac = 255 ∷ 255 ∷ 255 ∷ 255 ∷ 255 ∷ 255 ∷ []

pub record EthFrame : Type 0 where
  pub dst : List ℕ
  pub src : List ℕ
  pub ethertype : ℕ
  pub payload : List ℕ

unfoldable pub parse : List ℕ → Option EthFrame
parse bytes =
    if ltb (length bytes) 14
    then none
    else some (record {
      dst = slice bytes 0 6;
      src = slice bytes 6 6;
      ethertype = be16_at bytes 12;
      payload = drop 14 bytes;
    })

-- The buffer and the length of the frame in it; `none` is the panic of a slice out of bounds.
unfoldable pub compose : List ℕ → List ℕ → List ℕ → ℕ → List ℕ → Option (List ℕ × ℕ)
compose buf dst src ethertype payload =
    if ltb (length buf) (14 + length payload)
    then none
    else some (
      overwrite (overwrite (overwrite (overwrite buf 0 dst) 6 src) 12 (be16 ethertype)) 14 payload,
      14 + length payload,
    )

unfoldable pub is_for_me : EthFrame → List ℕ → Bool
is_for_me f mac = bytes_eq f.dst mac

unfoldable pub is_broadcast : EthFrame → Bool
is_broadcast f = bytes_eq f.dst broadcast_mac
