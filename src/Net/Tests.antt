-- ===== src/Net/Tests.antt =====
-- Packets and sockets with concrete contents.
use wasm_os.Base.{
  ℕ, ◌+◌, ◌%◌, ◌^◌, List, [], ◌∷◌, Option, some, none, length, take, replicate, overwrite, ◌≡◌,
  refl, arith,
}
use wasm_os.Net.Ip.{Ipv4Packet, ip_chksum, add_words, fold_sum, fold_fuel, new_packet, to_bytes}
use wasm_os.Net.Ip.Emit.{ip_round_trip}
use wasm_os.Net.Tcp.{TcpSocket, TcpReply, TcpState, listen, connect, handle_pkt, recv}
use wasm_os.Net.Tcp.Packet.{TcpPacket, make_tcp_packet, pseudo_sum, tcp_syn, fin, rst}
use wasm_os.Net.Tcp.Laws.{parse-make_tcp_packet}
use wasm_os.Net.Tcp.States.{IsSocket, Answered, handle_pkt-Answered}
use wasm_os.Net.Tcp.Session.{
  segment_from, reply_from, handshake, recv_once, handle_pkt-full, after, after-Waits, Waits,
}
use wasm_os.Net.Dhcp.{DhcpClient, DhcpAction, handle_packet}
use wasm_os.Net.Dhcp.Laws.{handle_packet-Step, Step, IsClient}
use wasm_os.Net.Ip
use wasm_os.Net.Tcp
use wasm_os.Net.Dhcp

abbrev mac_a : List ℕ
mac_a = 82 ∷ 84 ∷ 0 ∷ 18 ∷ 52 ∷ 86 ∷ []

abbrev ip_a : List ℕ
ip_a = 10 ∷ 0 ∷ 2 ∷ 15 ∷ []

abbrev ip_b : List ℕ
ip_b = 10 ∷ 0 ∷ 2 ∷ 2 ∷ []

abbrev hello : List ℕ
hello = 104 ∷ 105 ∷ 33 ∷ []

ip_round_trip_example :
    (p : Ipv4Packet) × (bytes : List ℕ) × (new_packet ip_a ip_b 17 hello ≡ some p)
    × (to_bytes p ≡ some bytes)
    × (ip_chksum (take 20 bytes) ≡ some 0)
    × (Ip.parse bytes ≡ some p)
ip_round_trip_example =
    ip_round_trip 17 hello ip_a ip_b (omega arith) (omega arith) refl refl
      (omega arith, (omega arith, (omega arith, (omega arith, tt))))
      (omega arith, (omega arith, (omega arith, (omega arith, tt))))

parse-make_tcp_packet_example :
    (bytes : List ℕ) × (make_tcp_packet 49152 80 1000 7 24 65535 hello ip_a ip_b ≡ some bytes)
    × (fold_sum fold_fuel (add_words (pseudo_sum ip_a ip_b (length bytes)) bytes) ≡ some 0xffff)
    × (Tcp.Packet.parse bytes
        ≡ some (record {
          src_port = 49152;
          dst_port = 80;
          seq = 1000;
          ack_no = 7;
          flags = 24;
          payload = hello;
        }))
parse-make_tcp_packet_example =
    parse-make_tcp_packet 49152 80 1000 7 24 65535 hello ip_a ip_b (omega arith) (omega arith)
      (omega arith) (omega arith) (omega arith) (omega arith)
      (omega arith, (omega arith, (omega arith, tt)))
      (omega arith, (omega arith, (omega arith, (omega arith, tt))))
      (omega arith, (omega arith, (omega arith, (omega arith, tt))))

abbrev open_socket : TcpState → ℕ → TcpSocket
open_socket state recv_len = record {
  local_port = 80;
  remote_port = 49152;
  remote_ip = ip_b;
  state = state;
  seq = 2;
  ack = 1001;
  last_seq = 1000;
  last_ack = 0;
  recv_buf = replicate 1460 0;
  recv_len = recv_len;
}

abbrev valid_socket : (state : TcpState) → IsSocket (open_socket state 0)
valid_socket state = record { buffer = refl; filled = omega arith; address = refl }

abbrev with_data : TcpPacket
with_data = record {
  src_port = 49152;
  dst_port = 80;
  seq = 1001;
  ack_no = 2;
  flags = 24;
  payload = hello;
}

handle_pkt-Answered_example :
    Answered with_data TcpState.established 80
      (handle_pkt (open_socket TcpState.established 0) with_data ip_b)
handle_pkt-Answered_example =
    handle_pkt-Answered (open_socket TcpState.established 0) with_data ip_b
      (valid_socket TcpState.established) refl

abbrev asking : TcpSocket
asking = open_socket TcpState.syn_sent 0

abbrev waiting : TcpSocket
waiting = open_socket TcpState.listening 0

handshake_example :
    (l1 c1 l2 : TcpSocket) × (r1 r2 : TcpReply) × (handle_pkt waiting
        (segment_from asking tcp_syn 2 0 [])
        ip_a
      ≡ some (l1, some r1))
    × (handle_pkt asking (reply_from l1 r1) ip_b ≡ some (c1, some r2))
    × (handle_pkt l1 (reply_from c1 r2) ip_a ≡ some (l2, none))
    × (c1.state ≡ TcpState.established)
    × (l2.state ≡ TcpState.established)
    × (c1.seq ≡ l2.ack)
    × (c1.ack ≡ l2.seq)
    × (l2.remote_ip ≡ ip_a)
    × (l2.remote_port ≡ 80)
handshake_example = handshake asking waiting ip_a ip_b refl refl

recv_once_example :
    (t u : TcpSocket) × (r : TcpReply) × (handle_pkt
        (open_socket TcpState.established 0)
        with_data
        ip_b
      ≡ some (t, some r))
    × (r.ack ≡ (1001 + 3) % 2 ^ 32)
    × (recv t (replicate 8 0) ≡ (u, some (overwrite (replicate 8 0) 0 hello, 3)))
    × (recv u (replicate 8 0) ≡ (u, none))
recv_once_example =
    recv_once (open_socket TcpState.established 0) with_data ip_b (replicate 8 0)
      (valid_socket TcpState.established) refl refl refl refl (omega arith) (omega arith)
      (omega arith)

handle_pkt-full_example :
    (t : TcpSocket) × (r : TcpReply) × (handle_pkt
        (open_socket TcpState.established 1460)
        with_data
        ip_b
      ≡ some (t, some r))
    × (t.recv_buf ≡ replicate 1460 0)
    × (t.recv_len ≡ 1460)
    × (r.ack ≡ (1001 + 3) % 2 ^ 32)
handle_pkt-full_example =
    handle_pkt-full (open_socket TcpState.established 1460) with_data ip_b refl refl refl refl
      (omega arith)

after-Waits_example :
    (t : TcpSocket) × (after (open_socket TcpState.fin_wait1 0) ip_b (with_data ∷ with_data ∷ [])
      ≡ some t)
    × Waits t.state
after-Waits_example =
    after-Waits (with_data ∷ with_data ∷ []) (open_socket TcpState.fin_wait1 0) ip_b
      (valid_socket TcpState.fin_wait1) refl Waits.first ((refl, refl), ((refl, refl), tt))

abbrev client : DhcpClient
client = Dhcp.new mac_a

handle_packet-Step_example :
    (d : DhcpClient) × (action : Option DhcpAction) × (handle_packet client (replicate 241 53)
      ≡ some (d, action))
    × Step client (replicate 241 53) d action
    × IsClient d
unfolding Dhcp.new
handle_packet-Step_example =
    handle_packet-Step client (replicate 241 53) (record { offered = refl; server = refl })
