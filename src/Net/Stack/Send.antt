-- ===== src/Net/Stack/Send.antt =====
-- The sending half of NetworkStack. `none` is a panic: a slice out of bounds or an `unwrap`.
use wasm_os.Base.{
  ℕ, List, [], ◌∷◌, ◌++◌, Option, none, some, if◌then◌else◌, take, replicate, bytes_eq,
}
use wasm_os.Base.Opt.{◌>>=◌}
use wasm_os.Net.Ethernet.{compose, broadcast_mac, eth_type_arp, eth_type_ipv4}
use wasm_os.Net.Ip.{ip_proto_tcp, ip_proto_udp, default_ip}
use wasm_os.Net.Arp.{lookup}
use wasm_os.Net.Dhcp.{build_discover, client_port, server_port, DhcpState}
use wasm_os.Net.Tcp.Packet.{make_tcp_packet}
use wasm_os.Net.Stack.State.{NetworkStack}
use wasm_os.Net.Arp
use wasm_os.Net.Ip
use wasm_os.Net.Udp

abbrev pub max_frame : ℕ
max_frame = 1514

abbrev pub broadcast_ip : List ℕ
broadcast_ip = 255 ∷ 255 ∷ 255 ∷ 255 ∷ []

unfoldable pub net_send : List ℕ → NetworkStack → NetworkStack
net_send frame s = record s { sent = s.sent ++ (frame ∷ []) }

unfoldable pub send_eth : List ℕ → ℕ → List ℕ → NetworkStack → Option NetworkStack
unfolding compose net_send
send_eth dst_mac ethertype payload s =
    compose (replicate max_frame 0) dst_mac s.mac ethertype payload
    >>= (λ (buf, n). some (net_send (take n buf) s))

unfoldable pub send_arp_request : List ℕ → NetworkStack → Option NetworkStack
unfolding send_eth Arp.Packet.to_bytes
send_arp_request target_ip s =
    send_eth broadcast_mac eth_type_arp
      (Arp.Packet.to_bytes (record {
        operation = Arp.Packet.arp_op_request;
        sender_ip = s.ip;
        target_ip = target_ip;
        sender_mac = s.mac;
        target_mac = replicate 6 0;
      }))
      s

unfoldable pub send_resolved :
    Option (List ℕ) → List ℕ → List ℕ → NetworkStack → Option NetworkStack
unfolding send_eth send_arp_request
send_resolved (some mac) dst_ip ip_payload s = send_eth mac eth_type_ipv4 ip_payload s
send_resolved none dst_ip ip_payload s = send_arp_request dst_ip s

unfoldable pub send_ip : List ℕ → List ℕ → NetworkStack → Option NetworkStack
unfolding send_eth send_resolved lookup
send_ip dst_ip ip_payload s =
    if bytes_eq dst_ip broadcast_ip
    then send_eth broadcast_mac eth_type_ipv4 ip_payload s
    else send_resolved (lookup s.arp dst_ip) dst_ip ip_payload s

unfoldable pub send_tcp_seg :
    ℕ → ℕ → List ℕ → ℕ → ℕ → ℕ → List ℕ → NetworkStack → Option NetworkStack
unfolding make_tcp_packet Ip.to_bytes Ip.new_packet send_ip
send_tcp_seg lport rport rip seq ack flags payload s =
    make_tcp_packet lport rport seq ack flags 65535 payload s.ip rip
    >>= (λ seg. Ip.new_packet s.ip rip ip_proto_tcp seg)
    >>= (λ p. Ip.to_bytes p)
    >>= (λ ip_bytes. send_ip rip ip_bytes s)

unfoldable pub send_dhcp_udp : List ℕ → NetworkStack → Option NetworkStack
unfolding Udp.to_bytes Udp.new_packet Ip.to_bytes Ip.new_packet send_eth
send_dhcp_udp payload s =
    Udp.new_packet client_port server_port payload
    >>= (λ u. Ip.new_packet default_ip broadcast_ip ip_proto_udp (Udp.to_bytes u))
    >>= (λ p. Ip.to_bytes p)
    >>= (λ ip_bytes. send_eth broadcast_mac eth_type_ipv4 ip_bytes s)

unfoldable pub dhcp_start : NetworkStack → Option NetworkStack
unfolding send_dhcp_udp build_discover
dhcp_start s =
    let selecting = record s { dhcp = record s.dhcp { state = DhcpState.selecting } } in
    send_dhcp_udp (build_discover selecting.dhcp selecting.mac) selecting
