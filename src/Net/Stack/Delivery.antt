-- ===== src/Net/Stack/Delivery.antt =====
-- A segment from one stack to another, through all layers.
use wasm_os.Base.{
  ℕ, ◌^◌, ◌≤◌, ◌<◌, false, List, some, length, bytes_eq, bytes_eq_refl, ◌≡◌, refl, arith,
}
use wasm_os.Net.Ethernet.{is_for_me, broadcast_mac}
use wasm_os.Net.Ethernet.Laws.{frame_bytes, parse-frame_bytes}
use wasm_os.Net.Ip.Emit.{to_bytes-packet_of, new_packet-packet_of, wire, parse-wire}
use wasm_os.Net.Ip.{packet_of}
use wasm_os.Net.Arp.{lookup, insert}
use wasm_os.Net.Tcp.Packet.{TcpPacket, parse}
use wasm_os.Net.Tcp.Laws.{make_tcp_packet-total, segment, parse-Sealed}
use wasm_os.Net.Stack.State.{NetworkStack}
use wasm_os.Net.Stack.Send.{net_send, send_tcp_seg, send_ip, broadcast_ip}
use wasm_os.Net.Stack.Receive.{handle_eth, handle_tcp}
use wasm_os.Net.Stack.Valid.{IsStack, send_eth-frame}

-- A datagram to a host whose hardware address the cache knows leaves as one frame.
send_ip-frame :
    (dst_ip ip_payload mac : List ℕ) (s : NetworkStack)
    → bytes_eq dst_ip broadcast_ip ≡ false
    → lookup s.arp dst_ip ≡ some mac
    → length mac ≡ 6
    → length s.mac ≡ 6
    → length ip_payload ≤ 1500
    → send_ip dst_ip ip_payload s ≡ some (net_send (frame_bytes mac s.mac 0x0800 ip_payload) s)
unfolding send_ip
send_ip-frame dst_ip ip_payload mac s b l m n h =
    rw (b, l) (send_eth-frame mac 0x0800 ip_payload s m n h)

-- The frame of a datagram of segments, at the host that it is for.
handle_eth-tcp :
    (src_mac src_ip dst_ip seg : List ℕ) (sum : ℕ) (pkt : TcpPacket) (s : NetworkStack)
    → length s.mac ≡ 6
    → length src_mac ≡ 6
    → length src_ip ≡ 4
    → length dst_ip ≡ 4
    → bytes_eq s.mac broadcast_mac ≡ false
    → parse seg ≡ some pkt
    → length seg ≤ 65515
    → handle_eth (frame_bytes s.mac src_mac 0x0800 (wire src_ip dst_ip 6 seg sum)) s
      ≡ handle_tcp src_ip pkt (record s { arp = insert s.arp src_ip src_mac })
unfolding handle_eth packet_of is_for_me
handle_eth-tcp src_mac src_ip dst_ip seg sum pkt s m n a b u p short =
    rw
      (
        parse-frame_bytes s.mac src_mac 0x0800 (wire src_ip dst_ip 6 seg sum) m n (omega arith),
        bytes_eq_refl s.mac,
        parse-wire 6 seg (omega arith) src_ip dst_ip sum a b short,
        u,
        p,
      )
      refl

-- A segment with 16-bit ports, 32-bit numbers and at most 1460 bytes, sent by one well-formed stack to
-- the address of another whose hardware address it knows, neither address being the broadcast one,
-- leaves as one frame. The other stack handles that frame as exactly this segment from the sender's
-- address, and has learnt the sender's hardware address.
pub handle_eth-send_tcp_seg :
    (a b : NetworkStack) (lport rport seq ack flags : ℕ) (payload : List ℕ)
    → IsStack a
    → IsStack b
    → lookup a.arp b.ip ≡ some b.mac
    → bytes_eq b.ip broadcast_ip ≡ false
    → bytes_eq b.mac broadcast_mac ≡ false
    → lport < 65536
    → rport < 65536
    → seq < 2 ^ 32
    → ack < 2 ^ 32
    → length payload ≤ 1460
    → (frame : List ℕ) × (send_tcp_seg lport rport b.ip seq ack flags payload a
        ≡ some (net_send frame a))
      × (handle_eth frame b
          ≡ handle_tcp a.ip
              (record {
                src_port = lport;
                dst_port = rport;
                seq = seq;
                ack_no = ack;
                flags = flags;
                payload = payload;
              })
              (record b { arp = insert b.arp a.ip a.mac }))
unfolding send_tcp_seg
handle_eth-send_tcp_seg a b lport rport seq ack flags payload h k known ip_ok mac_ok lp rp sq ak n =
    let (sum, made, len) =
      make_tcp_packet-total lport rport seq ack flags 65535 payload a.ip b.ip in
    let seg = segment lport rport seq ack flags 65535 payload a.ip b.ip sum in
    let (sum', printed, lt, ck, len') = to_bytes-packet_of 6 seg a.ip b.ip h.ip k.ip in
    let parsed = parse-Sealed lport rport seq ack flags 65535 payload a.ip b.ip sum lp rp sq ak in
    (
      frame_bytes b.mac a.mac 0x0800 (wire a.ip b.ip 6 seg sum'),
      rw (made, new_packet-packet_of a.ip b.ip 6 seg (omega (arith, len, n)), printed)
          (send_ip-frame b.ip (wire a.ip b.ip 6 seg sum') b.mac a ip_ok known k.mac h.mac
            (omega (arith, len, len', n))),
      handle_eth-tcp a.mac a.ip b.ip seg sum' _ b k.mac h.mac h.ip k.ip mac_ok parsed
          (omega (arith, len, n)),
    )
