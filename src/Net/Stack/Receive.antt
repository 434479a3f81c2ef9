-- ===== src/Net/Stack/Receive.antt =====
-- The handlers of received frames in NetworkStack. `none` is a panic.
use mathlib.Core.Option
use wasm_os.Base.{
  ℕ, zero, suc, ◌+◌, ◌-◌, ◌/◌, ◌%◌, min, Bool, true, false, ◌&&◌, not, List, [], ◌∷◌, Option, none,
  some, if◌then◌else◌, ltb, leb, ◌==◌, length, get_or, set, take, slice, replicate, overwrite,
  bytes_eq,
}
use wasm_os.Base.Opt.{◌>>=◌}
use wasm_os.Net.Ethernet.{EthFrame, is_for_me, is_broadcast, eth_type_arp, eth_type_ipv4}
use wasm_os.Net.Ip.{Ipv4Packet, ip_proto_icmp, ip_proto_tcp, ip_proto_udp, ip_chksum}
use wasm_os.Net.Arp.{insert}
use wasm_os.Net.Arp.Packet.{ArpPacket, arp_op_request, arp_op_reply, new_reply}
use wasm_os.Net.Dhcp.{DhcpAction, handle_packet, build_request, client_port, server_port}
use wasm_os.Net.Tcp.{TcpState, TcpSocket, TcpReply}
use wasm_os.Net.Tcp.Packet.{TcpPacket, tcp_syn}
use wasm_os.Net.Udp.{UdpSocket, UdpPacket}
use wasm_os.Net.Stack.State.{NetworkStack, max_sockets}
use wasm_os.Net.Stack.Send.{send_eth, send_ip, send_tcp_seg, send_dhcp_udp, dhcp_start}
use wasm_os.Net.Ethernet
use wasm_os.Net.Arp
use wasm_os.Net.Ip
use wasm_os.Net.Udp
use wasm_os.Net.Tcp

abbrev pub is_syn_sent : TcpState → Bool
is_syn_sent TcpState.syn_sent = true
is_syn_sent _ = false

abbrev pub is_listening : TcpState → Bool
is_listening TcpState.listening = true
is_listening _ = false

-- The first element that passes a test.
unfoldable pub position {ℓ} : {A : Type ℓ} → (A → Bool) → List A → Option ℕ
position test [] = none
position test (x ∷ xs) =
    let further = position test xs in if test x then some 0 else Option.map suc further

-- One round of `flush_pending_syncs`.
unfoldable pub flush_slot : Option TcpSocket → List ℕ → NetworkStack → Option NetworkStack
unfolding send_tcp_seg
flush_slot none resolved_ip s = some s
flush_slot (some t) resolved_ip s =
    if is_syn_sent t.state && bytes_eq t.remote_ip resolved_ip
    then send_tcp_seg t.local_port t.remote_port t.remote_ip t.seq 0 tcp_syn [] s
    else some s

unfoldable pub flush_from : ℕ → ℕ → List ℕ → NetworkStack → Option NetworkStack
unfolding flush_slot
flush_from zero i resolved_ip s = some s
flush_from (suc n) i resolved_ip s =
    flush_slot (get_or s.tcp_sockets i none) resolved_ip s >>= flush_from n (1 + i) resolved_ip

unfoldable pub flush_pending_syncs : List ℕ → NetworkStack → Option NetworkStack
unfolding flush_from
flush_pending_syncs resolved_ip s = flush_from max_sockets 0 resolved_ip s

unfoldable pub answer_arp : ArpPacket → NetworkStack → Option NetworkStack
unfolding send_eth Arp.Packet.to_bytes
answer_arp pkt s =
    if pkt.operation == arp_op_request && bytes_eq pkt.target_ip s.ip
    then send_eth pkt.sender_mac eth_type_arp
        (Arp.Packet.to_bytes (new_reply s.ip pkt.sender_ip s.mac pkt.sender_mac)) s
    else some s

unfoldable pub handle_arp : ArpPacket → NetworkStack → Option NetworkStack
unfolding answer_arp insert flush_pending_syncs
handle_arp pkt s = answer_arp pkt s >>= (λ s.
    if pkt.operation == arp_op_reply
    then flush_pending_syncs pkt.sender_ip
        (record s { arp = insert s.arp pkt.sender_ip pkt.sender_mac })
    else some s)

unfoldable pub send_icmp_reply : List ℕ → List ℕ → NetworkStack → Option NetworkStack
unfolding ip_chksum Ip.to_bytes Ip.new_packet send_ip
send_icmp_reply dst request s =
    let reply_len = min (length request) 64 in
    let copy = min (reply_len - 4) (length request - 4) in
    let icmp = overwrite (replicate 64 0) 4 (slice request 4 copy) in
    if ltb (length request) 8
    then some s
    else ip_chksum (take reply_len icmp)
      >>= (λ cksum.
          Ip.new_packet s.ip dst ip_proto_icmp
            (take reply_len (set (set icmp 2 (cksum / 256 % 256)) 3 (cksum % 256))))
      >>= (λ p. Ip.to_bytes p)
      >>= (λ ip_bytes. send_ip dst ip_bytes s)

unfoldable pub act_on_dhcp : Option DhcpAction → NetworkStack → Option NetworkStack
unfolding build_request send_dhcp_udp dhcp_start
act_on_dhcp (some DhcpAction.send_request) s = send_dhcp_udp (build_request s.dhcp s.mac) s
act_on_dhcp (some (DhcpAction.bound ip)) s = some (record s { ip = ip })
act_on_dhcp (some DhcpAction.nak) s = dhcp_start s
act_on_dhcp none s = some s

-- The copy into a buffer of 1024 bytes keeps as much of the payload.
unfoldable pub handle_dhcp : List ℕ → NetworkStack → Option NetworkStack
unfolding handle_packet act_on_dhcp
handle_dhcp payload s =
    handle_packet s.dhcp (take (min (length payload) 1024) payload)
    >>= (λ (dhcp, action). act_on_dhcp action (record s { dhcp = dhcp }))

abbrev pub connected_test : ℕ → ℕ → Option TcpSocket → Bool
connected_test local_port remote_port none = false
connected_test local_port remote_port (some t) =
    t.local_port == local_port && t.remote_port == remote_port

abbrev pub listening_test : ℕ → Option TcpSocket → Bool
listening_test local_port none = false
listening_test local_port (some t) = t.local_port == local_port && is_listening t.state

unfoldable pub or_else : Option ℕ → Option ℕ → Option ℕ
or_else (some i) second = some i
or_else none second = second

unfoldable pub find_tcp_socket : List (Option TcpSocket) → ℕ → ℕ → Option ℕ
unfolding position or_else
find_tcp_socket sockets local_port remote_port =
    or_else (position (connected_test local_port remote_port) sockets)
      (position (listening_test local_port) sockets)

unfoldable pub answer_tcp : TcpSocket → Option TcpReply → NetworkStack → Option NetworkStack
unfolding send_tcp_seg
answer_tcp t none s = some s
answer_tcp t (some r) s =
    send_tcp_seg t.local_port t.remote_port t.remote_ip r.seq r.ack r.flags [] s

-- The socket found handles the segment; `none` in its slot is the failed `unwrap`.
unfoldable pub deliver_tcp :
    ℕ → Option TcpSocket → TcpPacket → List ℕ → NetworkStack → Option NetworkStack
unfolding Tcp.handle_pkt answer_tcp
deliver_tcp idx none pkt src_ip s = none
deliver_tcp idx (some t) pkt src_ip s = Tcp.handle_pkt t pkt src_ip >>= (λ (t, reply).
    answer_tcp t reply (record s { tcp_sockets = set s.tcp_sockets idx (some t) }))

unfoldable pub handle_tcp_at : Option ℕ → List ℕ → TcpPacket → NetworkStack → Option NetworkStack
unfolding deliver_tcp
handle_tcp_at none src_ip pkt s = some s
handle_tcp_at (some idx) src_ip pkt s = deliver_tcp idx (get_or s.tcp_sockets idx none) pkt src_ip s

unfoldable pub handle_tcp : List ℕ → TcpPacket → NetworkStack → Option NetworkStack
unfolding handle_tcp_at find_tcp_socket
handle_tcp src_ip pkt s =
    handle_tcp_at (find_tcp_socket s.tcp_sockets pkt.dst_port pkt.src_port) src_ip pkt s

-- The first socket bound to the destination port gets the datagram.
unfoldable pub deliver_udp : List (Option UdpSocket) → UdpPacket → List ℕ → List (Option UdpSocket)
unfolding Udp.handle_pkt
deliver_udp [] pkt src_ip = []
deliver_udp (none ∷ slots) pkt src_ip = none ∷ deliver_udp slots pkt src_ip
deliver_udp (some u ∷ slots) pkt src_ip =
    let others = deliver_udp slots pkt src_ip in
    if u.local_port == pkt.dst_port
    then some (Udp.handle_pkt u pkt src_ip) ∷ slots
    else some u ∷ others

unfoldable pub handle_udp : List ℕ → UdpPacket → NetworkStack → Option NetworkStack
unfolding handle_dhcp deliver_udp
handle_udp src_ip pkt s =
    if pkt.src_port == server_port && pkt.dst_port == client_port
    then handle_dhcp pkt.payload s
    else some (record s { udp_sockets = deliver_udp s.udp_sockets pkt src_ip })

-- `if let Some(seg) = …` with nothing to do otherwise.
unfoldable pub on_parsed {ℓ} :
    {A : Type ℓ}
    → Option A
    → (A → NetworkStack → Option NetworkStack)
    → NetworkStack
    → Option NetworkStack
on_parsed none handler s = some s
on_parsed (some a) handler s = handler a s

unfoldable pub handle_ip : Ipv4Packet → NetworkStack → Option NetworkStack
unfolding send_icmp_reply on_parsed Tcp.Packet.parse handle_tcp Udp.parse handle_udp
handle_ip pkt s =
    if pkt.protocol == ip_proto_icmp
    then if leb 8 (length pkt.payload) && (get_or pkt.payload 0 0 == 8)
      then send_icmp_reply pkt.src pkt.payload s
      else some s
    else if pkt.protocol == ip_proto_tcp
    then on_parsed (Tcp.Packet.parse pkt.payload) (handle_tcp pkt.src) s
    else if pkt.protocol == ip_proto_udp
    then on_parsed (Udp.parse pkt.payload) (handle_udp pkt.src) s
    else some s

-- The sender of a unicast datagram is learnt before the datagram is handled.
unfoldable pub learn_sender : EthFrame → Ipv4Packet → NetworkStack → NetworkStack
unfolding is_broadcast insert
learn_sender eth p s = if is_broadcast eth then s else record s { arp = insert s.arp p.src eth.src }

unfoldable pub dispatch_eth : EthFrame → NetworkStack → Option NetworkStack
unfolding is_for_me is_broadcast on_parsed Arp.Packet.parse handle_arp Ip.parse learn_sender
    handle_ip
dispatch_eth eth s =
    if not (is_for_me eth s.mac) && not (is_broadcast eth)
    then some s
    else if eth.ethertype == eth_type_arp
    then on_parsed (Arp.Packet.parse eth.payload) handle_arp s
    else if eth.ethertype == eth_type_ipv4
    then on_parsed (Ip.parse eth.payload) (λ p s. handle_ip p (learn_sender eth p s)) s
    else some s

unfoldable pub handle_eth : List ℕ → NetworkStack → Option NetworkStack
unfolding on_parsed Ethernet.parse dispatch_eth
handle_eth frame s = on_parsed (Ethernet.parse frame) dispatch_eth s

-- What `net_recv` put in the buffer, or its error. The answer is `poll`'s.
unfoldable pub poll : Option (List ℕ) → NetworkStack → Option (NetworkStack × Option ℕ)
unfolding handle_eth
poll none s = some (s, none)
poll (some frame) s =
    if ltb 0 (length frame)
    then handle_eth frame s >>= (λ s. some (s, some (length frame)))
    else some (s, none)
