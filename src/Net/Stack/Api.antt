-- ===== src/Net/Stack/Api.antt =====
-- The functions of NetworkStack that the host calls of the programs use. The outer `none` is a panic,
-- an index out of the socket table among them; the answer comes with the new state.
use wasm_os.Base.{
  ℕ, zero, suc, ◌+◌, ◌%◌, ◌^◌, min, Bool, true, false, List, [], ◌∷◌, Option, none, some,
  if◌then◌else◌, ◌==◌, length, get_elem?, set, take,
}
use wasm_os.Base.Opt.{◌>>=◌}
use wasm_os.Net.Ip.{to_u32}
use wasm_os.Net.Arp.{lookup}
use wasm_os.Net.Tcp.{TcpState, TcpSocket, max_tcp_payload, listen, connect}
use wasm_os.Net.Tcp.Packet.{tcp_syn}
use wasm_os.Net.Stack.State.{NetworkStack}
use wasm_os.Net.Stack.Send.{send_arp_request, send_tcp_seg}
use wasm_os.Net.Stack.Receive.{position}
use wasm_os.Net.Tcp

abbrev pub is_none {ℓ} : {A : Type ℓ} → Option A → Bool
is_none none = true
is_none (some a) = false

-- Some socket has the port.
unfoldable pub port_taken : List (Option TcpSocket) → ℕ → Bool
port_taken [] port = false
port_taken (none ∷ slots) port = port_taken slots port
port_taken (some t ∷ slots) port =
    let others = port_taken slots port in if t.local_port == port then true else others

-- The outer loop, on fuel.
unfoldable pub alloc_loop : ℕ → List (Option TcpSocket) → ℕ → Option ℕ
unfolding port_taken
alloc_loop zero sockets port = none
alloc_loop (suc fuel) sockets port =
    let further = alloc_loop fuel sockets ((port + 1) % 2 ^ 16) in
    if port_taken sockets port then further else some port

-- A round for each socket, and one that finds the port free.
unfoldable pub alloc_ephemeral_port : NetworkStack → Option ℕ
unfolding alloc_loop
alloc_ephemeral_port s = alloc_loop (suc (length s.tcp_sockets)) s.tcp_sockets 49152

unfoldable pub listen_at : Option ℕ → ℕ → NetworkStack → NetworkStack × Option ℕ
unfolding listen
listen_at none port s = (s, none)
listen_at (some i) port s =
    (record s { tcp_sockets = set s.tcp_sockets i (some (listen port)) }, some i)

unfoldable pub tcp_listen : ℕ → NetworkStack → NetworkStack × Option ℕ
unfolding listen_at position
tcp_listen port s = listen_at (position is_none s.tcp_sockets) port s

unfoldable pub dialling : ℕ → List ℕ → ℕ → TcpSocket
unfolding connect
dialling local_port dst_ip dst_port = record (connect local_port) {
  remote_ip = dst_ip;
  remote_port = dst_port;
}

-- The first SYN, or the request for the address that it waits for.
unfoldable pub send_syn : Option (List ℕ) → TcpSocket → NetworkStack → Option NetworkStack
unfolding send_tcp_seg send_arp_request
send_syn (some mac) t s = send_tcp_seg t.local_port t.remote_port t.remote_ip t.seq 0 tcp_syn [] s
send_syn none t s = send_arp_request t.remote_ip s

unfoldable pub connect_at : Option ℕ → TcpSocket → NetworkStack → Option (NetworkStack × Option ℕ)
unfolding send_syn lookup
connect_at none t s = some (s, none)
connect_at (some i) t s =
    send_syn (lookup s.arp t.remote_ip) t (record s { tcp_sockets = set s.tcp_sockets i (some t) })
    >>= (λ s. some (s, some i))

unfoldable pub tcp_connect : List ℕ → ℕ → NetworkStack → Option (NetworkStack × Option ℕ)
unfolding alloc_ephemeral_port dialling connect_at position
tcp_connect dst_ip dst_port s = alloc_ephemeral_port s >>= (λ local_port.
    connect_at (position is_none s.tcp_sockets) (dialling local_port dst_ip dst_port) s)

-- `Err(())` is an answer `none`.
unfoldable pub send_on :
    TcpState → TcpSocket → ℕ → List ℕ → NetworkStack → Option (NetworkStack × Option ℕ)
unfolding send_tcp_seg
send_on TcpState.established t sock_idx bytes s =
    let n = min (length bytes) max_tcp_payload in
    send_tcp_seg t.local_port t.remote_port t.remote_ip t.seq t.ack 0x18 (take n bytes) s >>= (λ s.
      some (
        record s {
          tcp_sockets =
              set s.tcp_sockets sock_idx (some (record t { seq = (t.seq + n % 2 ^ 32) % 2 ^ 32 }));
        },
        some n,
      ))
send_on _ t sock_idx bytes s = some (s, none)

unfoldable pub send_slot :
    Option (Option TcpSocket) → ℕ → List ℕ → NetworkStack → Option (NetworkStack × Option ℕ)
unfolding send_on
send_slot none sock_idx bytes s = none
send_slot (some none) sock_idx bytes s = some (s, none)
send_slot (some (some t)) sock_idx bytes s = send_on t.state t sock_idx bytes s

unfoldable pub tcp_send : ℕ → List ℕ → NetworkStack → Option (NetworkStack × Option ℕ)
unfolding send_slot
tcp_send sock_idx bytes s = send_slot (get_elem? s.tcp_sockets sock_idx) sock_idx bytes s

abbrev tcp_received :
    ℕ → NetworkStack → TcpSocket × Option (List ℕ × ℕ) → NetworkStack × Option (List ℕ × ℕ)
tcp_received sock_idx s (t, r) = (record s { tcp_sockets = set s.tcp_sockets sock_idx (some t) }, r)

unfoldable pub tcp_recv_slot :
    Option (Option TcpSocket)
    → ℕ
    → List ℕ
    → NetworkStack
    → Option (NetworkStack × Option (List ℕ × ℕ))
unfolding Tcp.recv
tcp_recv_slot none sock_idx buf s = none
tcp_recv_slot (some none) sock_idx buf s = some (s, none)
tcp_recv_slot (some (some t)) sock_idx buf s = some (tcp_received sock_idx s (Tcp.recv t buf))

unfoldable pub tcp_recv : ℕ → List ℕ → NetworkStack → Option (NetworkStack × Option (List ℕ × ℕ))
unfolding tcp_recv_slot
tcp_recv sock_idx buf s = tcp_recv_slot (get_elem? s.tcp_sockets sock_idx) sock_idx buf s

-- The connected socket moves to the free slot and the listener starts again.
unfoldable pub accept_at : Option ℕ → TcpSocket → ℕ → NetworkStack → NetworkStack × Option ℕ
unfolding listen
accept_at none t listen_idx s = (s, none)
accept_at (some free_slot) t listen_idx s = (
  record s {
    tcp_sockets =
        set (set s.tcp_sockets free_slot (some t)) listen_idx (some (listen t.local_port));
  },
  some free_slot,
)

unfoldable pub accept_on : TcpState → TcpSocket → ℕ → NetworkStack → NetworkStack × Option ℕ
unfolding accept_at position
accept_on TcpState.established t listen_idx s =
    accept_at (position is_none s.tcp_sockets) t listen_idx s
accept_on _ t listen_idx s = (s, none)

unfoldable pub accept_slot :
    Option (Option TcpSocket) → ℕ → NetworkStack → Option (NetworkStack × Option ℕ)
unfolding accept_on
accept_slot none listen_idx s = none
accept_slot (some none) listen_idx s = some (s, none)
accept_slot (some (some t)) listen_idx s = some (accept_on t.state t listen_idx s)

unfoldable pub tcp_accept : ℕ → NetworkStack → Option (NetworkStack × Option ℕ)
unfolding accept_slot
tcp_accept listen_idx s = accept_slot (get_elem? s.tcp_sockets listen_idx) listen_idx s

unfoldable pub state_code : TcpState → ℕ
state_code TcpState.closed = 0
state_code TcpState.listening = 1
state_code TcpState.syn_sent = 2
state_code TcpState.syn_recv = 2
state_code TcpState.established = 3
state_code _ = 4

unfoldable pub tcp_status : ℕ → NetworkStack → ℕ
unfolding state_code
tcp_status sock_idx s = elim (get_elem? s.tcp_sockets sock_idx) [
  | some (some t) ↦ state_code t.state
  | _ ↦ 0
]

unfoldable pub get_ip : NetworkStack → ℕ
unfolding to_u32
get_ip s = to_u32 s.ip

abbrev closable : TcpState → Bool
closable TcpState.established = true
closable TcpState.close_wait = true
closable _ = false

-- The answer says whether it is `Ok(())`.
unfoldable pub close_slot :
    Option (Option TcpSocket) → ℕ → NetworkStack → Option (NetworkStack × Bool)
unfolding send_tcp_seg
close_slot none sock_idx s = none
close_slot (some none) sock_idx s = some (s, false)
close_slot (some (some t)) sock_idx s =
    if closable t.state
    then send_tcp_seg t.local_port t.remote_port t.remote_ip t.seq t.ack 0x11 [] (record s {
      tcp_sockets = set s.tcp_sockets sock_idx (some (record t { state = TcpState.fin_wait1 }));
    })
      >>= (λ s. some (s, true))
    else some (s, false)

unfoldable pub tcp_close : ℕ → NetworkStack → Option (NetworkStack × Bool)
unfolding close_slot
tcp_close sock_idx s = close_slot (get_elem? s.tcp_sockets sock_idx) sock_idx s

unfoldable pub set_ip : List ℕ → NetworkStack → NetworkStack
set_ip ip s = record s { ip = ip }
