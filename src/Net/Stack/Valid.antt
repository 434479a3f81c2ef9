-- ===== src/Net/Stack/Valid.antt =====
-- Well-formed stacks, and that the sending functions succeed on them.
use wasm_os.Base.{
  ℕ, ◌≤◌, List, [], ◌∷◌, ◌++◌, All, Option, none, some, length, replicate, bytes_eq, if_both, ◌≡◌,
  refl, arith,
}
use wasm_os.Net.Ethernet.Laws.{compose-total, take-composed, frame_bytes}
use wasm_os.Net.Ip.Emit.{to_bytes-packet_of, new_packet-packet_of}
use wasm_os.Net.Tcp.Laws.{make_tcp_packet-total, segment}
use wasm_os.Net.Tcp.{TcpSocket}
use wasm_os.Net.Udp.{UdpSocket}
use wasm_os.Net.Stack.State.{NetworkStack, max_sockets}
use wasm_os.Net.Stack.Send.{
  send_eth, send_arp_request, send_resolved, send_ip, send_tcp_seg, net_send, max_frame,
  broadcast_ip,
}
use wasm_os.Net.Arp.{lookup}
use wasm_os.Net.Arp.Packet.{ArpPacket, arp_op_request, to_bytes}
use wasm_os.Net.Arp.Packet.Laws.{length-to_bytes}
use wasm_os.Net.Ethernet.{broadcast_mac, eth_type_arp, eth_type_ipv4}
use wasm_os.Net.Tcp.States
use wasm_os.Net.Udp.Laws

abbrev pub IsTcpSlot : Option TcpSocket → Type 0
IsTcpSlot none = Unit
IsTcpSlot (some t) = States.IsSocket t

abbrev pub IsUdpSlot : Option UdpSocket → Type 0
IsUdpSlot none = Unit
IsUdpSlot (some u) = Laws.IsSocket u

-- Addresses have their lengths, the tables their sizes, and the sockets are well formed.
pub record IsStack (s : NetworkStack) : Type 0 where
  pub mac : length s.mac ≡ 6
  pub ip : length s.ip ≡ 4
  pub offered : length s.dhcp.offered_ip ≡ 4
  pub server : length s.dhcp.server_ip ≡ 4
  pub tcp_size : length s.tcp_sockets ≡ max_sockets
  pub udp_size : length s.udp_sockets ≡ max_sockets
  pub tcp : All IsTcpSlot s.tcp_sockets
  pub udp : All IsUdpSlot s.udp_sockets

-- The answer is the stack, one more frame sent.
pub data Sends (s : NetworkStack) : Option NetworkStack → Type 0 where
  sends : (frame : List ℕ) → Sends s (some (net_send frame s))

pub send_eth-Sends :
    (dst : List ℕ) (ethertype : ℕ) (payload : List ℕ) (s : NetworkStack)
    → length payload ≤ 1500
    → Sends s (send_eth dst ethertype payload s)
unfolding send_eth
send_eth-Sends dst ethertype payload s h =
    rw (compose-total (replicate max_frame 0) dst s.mac ethertype payload (omega arith))
      (Sends.sends _)

-- The frame that leaves, where the addresses have their length.
pub send_eth-frame :
    (dst : List ℕ) (ethertype : ℕ) (payload : List ℕ) (s : NetworkStack)
    → length dst ≡ 6
    → length s.mac ≡ 6
    → length payload ≤ 1500
    → send_eth dst ethertype payload s ≡ some (net_send (frame_bytes dst s.mac ethertype payload) s)
unfolding send_eth
send_eth-frame dst ethertype payload s d m h =
    rw
      (
        compose-total (replicate max_frame 0) dst s.mac ethertype payload (omega arith),
        take-composed (replicate max_frame 0) dst s.mac ethertype payload d m (omega arith),
      )
      refl

pub send_arp_request-Sends :
    (target_ip : List ℕ) (s : NetworkStack)
    → IsStack s
    → length target_ip ≡ 4
    → Sends s (send_arp_request target_ip s)
unfolding send_arp_request
send_arp_request-Sends target_ip s h a =
    let request : ArpPacket = record {
      operation = arp_op_request;
      sender_ip = s.ip;
      target_ip = target_ip;
      sender_mac = s.mac;
      target_mac = replicate 6 0;
    } in
    let len = length-to_bytes request h.mac h.ip refl a in
    send_eth-Sends broadcast_mac eth_type_arp (to_bytes request) s (omega (arith, len))

send_resolved-Sends :
    (found : Option (List ℕ)) (dst_ip ip_payload : List ℕ) (s : NetworkStack)
    → IsStack s
    → length dst_ip ≡ 4
    → length ip_payload ≤ 1500
    → Sends s (send_resolved found dst_ip ip_payload s)
unfolding send_resolved
send_resolved-Sends none dst_ip ip_payload s h a n = send_arp_request-Sends dst_ip s h a
send_resolved-Sends (some mac) dst_ip ip_payload s h a n =
    send_eth-Sends mac eth_type_ipv4 ip_payload s n

pub send_ip-Sends :
    (dst_ip ip_payload : List ℕ) (s : NetworkStack)
    → IsStack s
    → length dst_ip ≡ 4
    → length ip_payload ≤ 1500
    → Sends s (send_ip dst_ip ip_payload s)
unfolding send_ip
send_ip-Sends dst_ip ip_payload s h a n =
    if_both (Sends s) (bytes_eq dst_ip broadcast_ip)
      (send_eth-Sends broadcast_mac eth_type_ipv4 ip_payload s n)
      (send_resolved-Sends (lookup s.arp dst_ip) dst_ip ip_payload s h a n)

pub send_tcp_seg-Sends :
    (lport rport : ℕ) (rip : List ℕ) (seq ack flags : ℕ) (payload : List ℕ) (s : NetworkStack)
    → IsStack s
    → length rip ≡ 4
    → length payload ≤ 1460
    → Sends s (send_tcp_seg lport rport rip seq ack flags payload s)
unfolding send_tcp_seg
send_tcp_seg-Sends lport rport rip seq ack flags payload s h a n =
    let (sum, made, len) = make_tcp_packet-total lport rport seq ack flags 65535 payload s.ip rip in
    let (sum', printed, lt, ck, len') =
      to_bytes-packet_of 6 (segment lport rport seq ack flags 65535 payload s.ip rip sum) s.ip rip
        h.ip a in
    let whole = segment lport rport seq ack flags 65535 payload s.ip rip sum in
    rw (made, new_packet-packet_of s.ip rip 6 whole (omega (arith, n, len)), printed)
      (send_ip-Sends rip _ s h a (omega (arith, n, len, len')))

-- A stack that has sent a frame is as well formed as before.
pub IsStack-sent :
    (s : NetworkStack) (frames : List (List ℕ)) → IsStack s → IsStack (record s { sent = frames })
IsStack-sent s frames h = record {
  mac = h.mac;
  ip = h.ip;
  offered = h.offered;
  server = h.server;
  tcp_size = h.tcp_size;
  udp_size = h.udp_size;
  tcp = h.tcp;
  udp = h.udp;
}

-- The answer is a well-formed stack.
pub data Succeeds : Option NetworkStack → Type 0 where
  succeeds : (t : NetworkStack) → IsStack t → Succeeds (some t)

pub Sends-Succeeds :
    (s : NetworkStack) (o : Option NetworkStack) → IsStack s → Sends s o → Succeeds o
unfolding net_send
Sends-Succeeds s o h (Sends.sends frame) =
    Succeeds.succeeds _ (IsStack-sent s (s.sent ++ (frame ∷ [])) h)
