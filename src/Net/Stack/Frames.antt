-- ===== src/Net/Stack/Frames.antt =====
-- The handlers of the other protocols, and of frames, on a well-formed stack.
use wasm_os.Base.{
  ℕ, suc, ◌-◌, ◌/◌, ◌%◌, ◌≤◌, min, List, [], ◌∷◌, All, Option, none, some, length, take,
  length-take, set, slice, replicate, overwrite, get_or, if_both, if_split, not, ◌&&◌, ◌||◌, ◌*◌,
  bit_and, ltb_false→le, ltb, leb, bytes_eq, ◌==◌, ◌≡◌, refl, ap, ◌∙◌, subst, arith,
}
use wasm_os.Net.Bytes.{be16_at}
use wasm_os.Net.Ethernet.{
  EthFrame, is_for_me, is_broadcast, eth_type_arp, eth_type_ipv4, broadcast_mac,
}
use wasm_os.Net.Ip.{Ipv4Packet, ip_chksum, ip_proto_icmp, ip_proto_tcp, ip_proto_udp, default_ip}
use wasm_os.Net.Ip.Laws.{ip_chksum-total}
use wasm_os.Net.Ip.Emit.{to_bytes-packet_of, new_packet-packet_of}
use wasm_os.Net.Arp.{ArpCache, insert}
use wasm_os.Net.Arp.Packet.{ArpPacket, arp_op_request, arp_op_reply, new_reply}
use wasm_os.Net.Arp.Packet.Laws.{length-to_bytes}
use wasm_os.Net.Dhcp.{DhcpClient, DhcpAction, DhcpState, no_ip, build_request, build_discover}
use wasm_os.Net.Dhcp.Laws.{handle_packet-Step, Step, IsClient, length-slice, Step-address}
use wasm_os.Net.Dhcp.Size.{length-build_bootp}
use wasm_os.Net.Udp.{UdpSocket, UdpPacket}
use wasm_os.Net.Udp.Laws.{handle_pkt-IsSocket}
use wasm_os.Net.Stack.State.{NetworkStack}
use wasm_os.Net.Stack.Send.{send_dhcp_udp, dhcp_start, broadcast_ip}
use wasm_os.Net.Stack.Receive.{
  answer_arp, handle_arp, send_icmp_reply, act_on_dhcp, handle_dhcp, deliver_udp, handle_udp,
  on_parsed, handle_ip, learn_sender, dispatch_eth, handle_eth, handle_tcp,
}
use wasm_os.Net.Stack.Valid.{
  IsStack, IsUdpSlot, Succeeds, Sends-Succeeds, send_ip-Sends, send_eth-Sends,
}
use wasm_os.Net.Stack.Total.{Succeeds-bind, handle_tcp-Succeeds, flush_pending_syncs-Succeeds}
use wasm_os.Net.Udp
use wasm_os.Net.Ip
use wasm_os.Net.Arp
use wasm_os.Net.Ethernet
use wasm_os.Net.Tcp

IsStack-arp : (s : NetworkStack) (c : ArpCache) → IsStack s → IsStack (record s { arp = c })
IsStack-arp s c h = record {
  mac = h.mac;
  ip = h.ip;
  offered = h.offered;
  server = h.server;
  tcp_size = h.tcp_size;
  udp_size = h.udp_size;
  tcp = h.tcp;
  udp = h.udp;
}

IsStack-dhcp :
    (s : NetworkStack) (d : DhcpClient) → IsStack s → IsClient d → IsStack (record s { dhcp = d })
IsStack-dhcp s d h k = record {
  mac = h.mac;
  ip = h.ip;
  offered = k.offered;
  server = k.server;
  tcp_size = h.tcp_size;
  udp_size = h.udp_size;
  tcp = h.tcp;
  udp = h.udp;
}

pub IsStack-ip :
    (s : NetworkStack) (ip : List ℕ) → IsStack s → length ip ≡ 4 → IsStack (record s { ip = ip })
IsStack-ip s ip h k = record {
  mac = h.mac;
  ip = k;
  offered = h.offered;
  server = h.server;
  tcp_size = h.tcp_size;
  udp_size = h.udp_size;
  tcp = h.tcp;
  udp = h.udp;
}

send_dhcp_udp-Succeeds :
    (payload : List ℕ) (s : NetworkStack)
    → IsStack s
    → length payload ≤ 300
    → Succeeds (send_dhcp_udp payload s)
unfolding send_dhcp_udp
send_dhcp_udp-Succeeds payload s h n =
    let udp_bytes = Udp.to_bytes (Udp.packet_of 68 67 payload) in
    let (sum, printed, lt, ck, len) =
      to_bytes-packet_of 17 udp_bytes default_ip broadcast_ip refl refl in
    let size = Udp.Laws.length-to_bytes 68 67 payload in
    rw
      (
        Udp.Laws.new_packet-packet_of 68 67 payload (omega (arith, n)),
        new_packet-packet_of default_ip broadcast_ip 17 udp_bytes (omega (arith, n, size)),
        printed,
      )
      (Sends-Succeeds s _ h
        (send_eth-Sends broadcast_mac eth_type_ipv4 _ s (omega (arith, len, n, size))))

pub dhcp_start-Succeeds : (s : NetworkStack) → IsStack s → Succeeds (dhcp_start s)
unfolding dhcp_start build_discover
dhcp_start-Succeeds s h =
    let selecting = record s.dhcp { state = DhcpState.selecting } in
    let valid = IsStack-dhcp s selecting h (record { offered = h.offered; server = h.server }) in
    send_dhcp_udp-Succeeds (build_discover selecting s.mac) _ valid
      (length-build_bootp selecting s.mac 1 no_ip no_ip h.mac refl refl)

act_on_dhcp-Succeeds :
    (c d : DhcpClient) (bytes : List ℕ) (action : Option DhcpAction) (s : NetworkStack)
    → Step c bytes d action
    → IsStack s
    → Succeeds (act_on_dhcp action s)
unfolding act_on_dhcp build_request
act_on_dhcp-Succeeds c d bytes none s step h = Succeeds.succeeds s h
act_on_dhcp-Succeeds c d bytes (some DhcpAction.send_request) s step h =
    send_dhcp_udp-Succeeds (build_request s.dhcp s.mac) s h (
      length-build_bootp s.dhcp s.mac 3 s.dhcp.offered_ip s.dhcp.server_ip h.mac h.offered h.server)
act_on_dhcp-Succeeds c d bytes (some DhcpAction.nak) s step h = dhcp_start-Succeeds s h
act_on_dhcp-Succeeds c d bytes (some (DhcpAction.bound ip)) s step h =
    Succeeds.succeeds _ (IsStack-ip s ip h (Step-address c d bytes ip step))

handle_dhcp-Succeeds :
    (payload : List ℕ) (s : NetworkStack) → IsStack s → Succeeds (handle_dhcp payload s)
unfolding handle_dhcp
handle_dhcp-Succeeds payload s h =
    let bytes = take (min (length payload) 1024) payload in
    let (d, action, e, step, client) =
      handle_packet-Step s.dhcp bytes (record { offered = h.offered; server = h.server }) in
    rw e (
      act_on_dhcp-Succeeds s.dhcp d bytes action (record s { dhcp = d }) step
        (IsStack-dhcp s d h client))

answer_arp-Succeeds :
    (pkt : ArpPacket) (s : NetworkStack)
    → length pkt.sender_ip ≡ 4
    → length pkt.sender_mac ≡ 6
    → IsStack s
    → Succeeds (answer_arp pkt s)
unfolding answer_arp
answer_arp-Succeeds pkt s i m h =
    let reply = new_reply s.ip pkt.sender_ip s.mac pkt.sender_mac in
    let len = length-to_bytes reply h.mac h.ip m i in
    if_both Succeeds (pkt.operation == arp_op_request && bytes_eq pkt.target_ip s.ip)
      (Sends-Succeeds s _ h (
        send_eth-Sends pkt.sender_mac eth_type_arp (Arp.Packet.to_bytes reply) s
          (omega (arith, len))))
      (Succeeds.succeeds s h)

handle_arp-Succeeds :
    (pkt : ArpPacket) (s : NetworkStack)
    → length pkt.sender_ip ≡ 4
    → length pkt.sender_mac ≡ 6
    → IsStack s
    → Succeeds (handle_arp pkt s)
unfolding handle_arp
handle_arp-Succeeds pkt s i m h =
    Succeeds-bind (answer_arp pkt s) _ (answer_arp-Succeeds pkt s i m h) (λ t k.
      if_both Succeeds (pkt.operation == arp_op_reply)
        (flush_pending_syncs-Succeeds pkt.sender_ip _ (IsStack-arp t _ k)) (Succeeds.succeeds t k))

send_icmp_reply-Succeeds :
    (dst request : List ℕ) (s : NetworkStack)
    → length dst ≡ 4
    → IsStack s
    → Succeeds (send_icmp_reply dst request s)
unfolding send_icmp_reply
send_icmp_reply-Succeeds dst request s a h =
    let reply_len = min (length request) 64 in
    let copy = min (reply_len - 4) (length request - 4) in
    let icmp = overwrite (replicate 64 0) 4 (slice request 4 copy) in
    let (cksum, e, lt) = ip_chksum-total (take reply_len icmp) in
    let answer = take reply_len (set (set icmp 2 (cksum / 256 % 256)) 3 (cksum % 256)) in
    let short = length-take reply_len (set (set icmp 2 (cksum / 256 % 256)) 3 (cksum % 256)) in
    let (sum, printed, lt', ck, len) = to_bytes-packet_of 1 answer s.ip dst h.ip a in
    if_both Succeeds (ltb (length request) 8) (Succeeds.succeeds s h) (
      rw (e, new_packet-packet_of s.ip dst 1 answer (omega (arith, short)), printed)
        (Sends-Succeeds s _ h (send_ip-Sends dst _ s h a (omega (arith, len, short)))))

All-deliver_udp :
    (slots : List (Option UdpSocket)) (pkt : UdpPacket) (src : List ℕ)
    → length src ≡ 4
    → All IsUdpSlot slots
    → All IsUdpSlot (deliver_udp slots pkt src)
      × (length (deliver_udp slots pkt src) ≡ length slots)
unfolding deliver_udp
All-deliver_udp [] pkt src a h = (tt, refl)
All-deliver_udp (none ∷ slots) pkt src a h =
    let (all, len) = All-deliver_udp slots pkt src a h.1 in ((tt, all), ap suc len)
All-deliver_udp (some u ∷ slots) pkt src a h =
    let (all, len) = All-deliver_udp slots pkt src a h.1 in
    if_both (λ l. All IsUdpSlot l × (length l ≡ suc (length slots))) (u.local_port == pkt.dst_port)
      ((handle_pkt-IsSocket u pkt src h.0 a, h.1), refl) ((h.0, all), ap suc len)

IsStack-udp :
    (s : NetworkStack) (slots : List (Option UdpSocket))
    → IsStack s
    → All IsUdpSlot slots × (length slots ≡ length s.udp_sockets)
    → IsStack (record s { udp_sockets = slots })
IsStack-udp s slots h k = record {
  mac = h.mac;
  ip = h.ip;
  offered = h.offered;
  server = h.server;
  tcp_size = h.tcp_size;
  udp_size = k.1 ∙ h.udp_size;
  tcp = h.tcp;
  udp = k.0;
}

handle_udp-Succeeds :
    (src_ip : List ℕ) (pkt : UdpPacket) (s : NetworkStack)
    → length src_ip ≡ 4
    → IsStack s
    → Succeeds (handle_udp src_ip pkt s)
unfolding handle_udp
handle_udp-Succeeds src_ip pkt s a h =
    if_both Succeeds (pkt.src_port == 67 && (pkt.dst_port == 68))
      (handle_dhcp-Succeeds pkt.payload s h)
      (Succeeds.succeeds _ (IsStack-udp s _ h (All-deliver_udp s.udp_sockets pkt src_ip a h.udp)))

on_parsed-Succeeds {ℓ} :
    {A : Type ℓ} (o : Option A) (handler : A → NetworkStack → Option NetworkStack)
    (s : NetworkStack)
    → IsStack s
    → ((a : A) → o ≡ some a → Succeeds (handler a s))
    → Succeeds (on_parsed o handler s)
unfolding on_parsed
on_parsed-Succeeds none handler s h k = Succeeds.succeeds s h
on_parsed-Succeeds (some a) handler s h k = k a refl

handle_ip-Succeeds :
    (pkt : Ipv4Packet) (s : NetworkStack)
    → length pkt.src ≡ 4
    → IsStack s
    → Succeeds (handle_ip pkt s)
unfolding handle_ip
handle_ip-Succeeds pkt s a h =
    let done = Succeeds.succeeds s h in
    if_both Succeeds (pkt.protocol == ip_proto_icmp)
      (if_both Succeeds (leb 8 (length pkt.payload) && (get_or pkt.payload 0 0 == 8))
        (send_icmp_reply-Succeeds pkt.src pkt.payload s a h) done)
      (if_both Succeeds (pkt.protocol == ip_proto_tcp)
        (on_parsed-Succeeds (Tcp.Packet.parse pkt.payload) (handle_tcp pkt.src) s h
          (λ seg e. handle_tcp-Succeeds pkt.src seg s a h))
        (if_both Succeeds (pkt.protocol == ip_proto_udp)
          (on_parsed-Succeeds (Udp.parse pkt.payload) (handle_udp pkt.src) s h
            (λ seg e. handle_udp-Succeeds pkt.src seg s a h))
          done))

-- What a parsed packet holds where addresses are wanted.
data HasSource : Option Ipv4Packet → Type 0 where
  unparsed : HasSource none
  source : (p : Ipv4Packet) → length p.src ≡ 4 → HasSource (some p)

data HasSender : Option ArpPacket → Type 0 where
  unparsed : HasSender none
  sender : (p : ArpPacket) → length p.sender_ip ≡ 4 → length p.sender_mac ≡ 6 → HasSender (some p)

parse-HasSource : (bytes : List ℕ) → HasSource (Ip.parse bytes)
unfolding Ip.parse
parse-HasSource bytes =
    let ihl = bit_and (get_or bytes 0 0) 0x0f * 4 in
    if_split HasSource (ltb (length bytes) 20) (λ t. HasSource.unparsed)
      (λ t.
        let enough = ltb_false→le (length bytes) 20 t in
        if_both HasSource (not (get_or bytes 0 0 / 16 == 4)) HasSource.unparsed (
          if_both HasSource (ltb ihl 20 || ltb (length bytes) ihl) HasSource.unparsed
            (HasSource.source _ (length-slice bytes 12 4 (omega (arith, enough))))))

parse-HasSender : (bytes : List ℕ) → HasSender (Arp.Packet.parse bytes)
unfolding Arp.Packet.parse
parse-HasSender bytes =
    if_split HasSender (ltb (length bytes) 28) (λ t. HasSender.unparsed)
      (λ t.
        let enough = ltb_false→le (length bytes) 28 t in
        if_both HasSender (not (be16_at bytes 0 == 1) || not (be16_at bytes 2 == 0x0800))
          HasSender.unparsed
          (HasSender.sender _ (length-slice bytes 14 4 (omega (arith, enough)))
            (length-slice bytes 8 6 (omega (arith, enough)))))

source_length : (p : Ipv4Packet) → HasSource (some p) → length p.src ≡ 4
source_length p (HasSource.source q e) = e

sender_lengths :
    (p : ArpPacket) → HasSender (some p) → (length p.sender_ip ≡ 4) × (length p.sender_mac ≡ 6)
sender_lengths p (HasSender.sender q e f) = (e, f)

IsStack-learnt :
    (eth : EthFrame) (p : Ipv4Packet) (s : NetworkStack)
    → IsStack s
    → IsStack (learn_sender eth p s)
unfolding learn_sender
IsStack-learnt eth p s h = if_both IsStack (is_broadcast eth) h (IsStack-arp s _ h)

dispatch_eth-Succeeds :
    (eth : EthFrame) (s : NetworkStack) → IsStack s → Succeeds (dispatch_eth eth s)
unfolding dispatch_eth
dispatch_eth-Succeeds eth s h =
    let done = Succeeds.succeeds s h in
    if_both Succeeds (not (is_for_me eth s.mac) && not (is_broadcast eth)) done (
      if_both Succeeds (eth.ethertype == eth_type_arp)
        (on_parsed-Succeeds (Arp.Packet.parse eth.payload) handle_arp s h (λ p e.
          let sender = sender_lengths p (subst HasSender e (parse-HasSender eth.payload)) in
          handle_arp-Succeeds p s sender.0 sender.1 h))
        (if_both Succeeds (eth.ethertype == eth_type_ipv4)
          (on_parsed-Succeeds (Ip.parse eth.payload) (λ p s. handle_ip p (learn_sender eth p s)) s h
            (λ p e.
              handle_ip-Succeeds p _
                (source_length p (subst HasSource e (parse-HasSource eth.payload)))
                (IsStack-learnt eth p s h)))
          done))

-- A well-formed stack handles every frame, whatever its bytes: no slice of it runs out of bounds, no
-- frame sent in answer is too long for its buffer, no loop runs out of rounds, and the stack that
-- follows is well formed.
pub handle_eth-Succeeds :
    (frame : List ℕ) (s : NetworkStack) → IsStack s → Succeeds (handle_eth frame s)
unfolding handle_eth
handle_eth-Succeeds frame s h =
    on_parsed-Succeeds (Ethernet.parse frame) dispatch_eth s h
      (λ eth e. dispatch_eth-Succeeds eth s h)
