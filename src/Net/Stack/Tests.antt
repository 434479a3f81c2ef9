-- ===== src/Net/Stack/Tests.antt =====
-- Two stacks with a few sockets.
use wasm_os.Base.{
  ℕ, ◌≤◌, ◌<◌, true, false, List, [], ◌∷◌, some, none, replicate, All-replicate, get_or, ◌≡◌, refl,
  arith,
}
use wasm_os.Base.Opt.{◌>>=◌}
use wasm_os.Net.Arp.{new_cache, insert, lookup}
use wasm_os.Net.Dhcp.{DhcpClient, DhcpState}
use wasm_os.Net.Tcp.{TcpSocket, TcpState, listen}
use wasm_os.Net.Stack.State.{NetworkStack, initial}
use wasm_os.Net.Stack.Send.{dhcp_start, send_tcp_seg, net_send}
use wasm_os.Net.Stack.Receive.{handle_eth, handle_tcp, position}
use wasm_os.Net.Stack.Api.{tcp_accept, alloc_ephemeral_port, port_taken, is_none}
use wasm_os.Net.Stack.Valid.{IsStack, IsTcpSlot, IsUdpSlot, Succeeds}
use wasm_os.Net.Stack.Session.{Event, InRange, session, boot-Succeeds}
use wasm_os.Net.Stack.Delivery.{handle_eth-send_tcp_seg}
use wasm_os.Net.Stack.Accept.{tcp_accept-moves}
use wasm_os.Net.Stack.Ports.{alloc_ephemeral_port-total}

abbrev mac_a : List ℕ
mac_a = 82 ∷ 84 ∷ 0 ∷ 18 ∷ 52 ∷ 86 ∷ []

abbrev mac_b : List ℕ
mac_b = 82 ∷ 85 ∷ 10 ∷ 0 ∷ 2 ∷ 2 ∷ []

abbrev ip_a : List ℕ
ip_a = 10 ∷ 0 ∷ 2 ∷ 15 ∷ []

abbrev ip_b : List ℕ
ip_b = 10 ∷ 0 ∷ 2 ∷ 2 ∷ []

abbrev events : List Event
events =
    Event.listen 80
    ∷ Event.frame (255 ∷ 255 ∷ 255 ∷ [])
    ∷ Event.connect ip_b 8080
    ∷ Event.send 1 (104 ∷ 105 ∷ [])
    ∷ Event.accept 0
    ∷ []

boot-Succeeds_example : Succeeds (dhcp_start (initial mac_a) >>= session events)
unfolding InRange
boot-Succeeds_example =
    boot-Succeeds mac_a events refl (tt, (tt, (refl, (omega arith, (omega arith, tt)))))

abbrev idle_client : DhcpClient
idle_client = record {
  state = DhcpState.idle;
  xid = 1193046;
  offered_ip = 0 ∷ 0 ∷ 0 ∷ 0 ∷ [];
  server_ip = 0 ∷ 0 ∷ 0 ∷ 0 ∷ [];
  subnet_mask = 0 ∷ 0 ∷ 0 ∷ 0 ∷ [];
  gateway = 0 ∷ 0 ∷ 0 ∷ 0 ∷ [];
  lease_secs = 86400;
}

abbrev connected : TcpSocket
connected = record {
  local_port = 80;
  remote_port = 49152;
  remote_ip = ip_b;
  state = TcpState.established;
  seq = 2;
  ack = 1001;
  last_seq = 1000;
  last_ack = 0;
  recv_buf = replicate 1460 0;
  recv_len = 0;
}

abbrev host_a : NetworkStack
host_a = record {
  sent = [];
  mac = mac_a;
  ip = ip_a;
  dhcp = idle_client;
  arp = record {
    ips = ip_b ∷ replicate 15 (replicate 4 0);
    macs = mac_b ∷ replicate 15 (replicate 6 0);
    valid = true ∷ replicate 15 false;
  };
  tcp_sockets = some connected ∷ replicate 7 none;
  udp_sockets = replicate 8 none;
}

abbrev host_b : NetworkStack
host_b = record {
  sent = [];
  mac = mac_b;
  ip = ip_b;
  dhcp = idle_client;
  arp = new_cache;
  tcp_sockets = replicate 8 none;
  udp_sockets = replicate 8 none;
}

valid_a : IsStack host_a
valid_a = record {
  mac = refl;
  ip = refl;
  offered = refl;
  server = refl;
  tcp_size = refl;
  udp_size = refl;
  tcp = (
    record { buffer = refl; filled = omega arith; address = refl },
    All-replicate IsTcpSlot 7 none tt,
  );
  udp = All-replicate IsUdpSlot 8 none tt;
}

valid_b : IsStack host_b
valid_b = record {
  mac = refl;
  ip = refl;
  offered = refl;
  server = refl;
  tcp_size = refl;
  udp_size = refl;
  tcp = All-replicate IsTcpSlot 8 none tt;
  udp = All-replicate IsUdpSlot 8 none tt;
}

known : lookup host_a.arp host_b.ip ≡ some host_b.mac
unfolding lookup
known = refl

handle_eth-send_tcp_seg_example :
    (frame : List ℕ) × (send_tcp_seg 80 49152 ip_b 2 1001 16 (104 ∷ []) host_a
      ≡ some (net_send frame host_a))
    × (handle_eth frame host_b
        ≡ handle_tcp ip_a
            (record {
              src_port = 80;
              dst_port = 49152;
              seq = 2;
              ack_no = 1001;
              flags = 16;
              payload = 104 ∷ [];
            })
            (record host_b { arp = insert host_b.arp ip_a mac_a }))
handle_eth-send_tcp_seg_example =
    handle_eth-send_tcp_seg host_a host_b 80 49152 2 1001 16 (104 ∷ []) valid_a valid_b known refl
      refl (omega arith) (omega arith) (omega arith) (omega arith) (omega arith)

free_slot : position is_none host_a.tcp_sockets ≡ some 1
unfolding position
free_slot = refl

tcp_accept-moves_example :
    (u : NetworkStack) × (tcp_accept 0 host_a ≡ some (u, some 1))
    × (get_or u.tcp_sockets 1 none ≡ some connected)
    × (get_or u.tcp_sockets 0 none ≡ some (listen 80))
    × (get_or u.tcp_sockets 5 none ≡ none)
tcp_accept-moves_example =
    tcp_accept-moves host_a 0 1 5 connected refl refl free_slot (λ e. omega (arith, e))
      (λ e. omega (arith, e))

alloc_ephemeral_port-total_example :
    (p : ℕ) × (alloc_ephemeral_port host_a ≡ some p)
    × (port_taken host_a.tcp_sockets p ≡ false)
    × (49152 ≤ p)
    × (p < 65536)
alloc_ephemeral_port-total_example = alloc_ephemeral_port-total host_a (omega arith)
