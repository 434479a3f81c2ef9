-- ===== src/Net/Stack/UdpApi.antt =====
-- The functions of NetworkStack on the sockets of datagrams. The outer `none` is a panic.
use wasm_os.Base.{
  ℕ, min, Bool, true, false, ◌||◌, List, Option, none, some, if◌then◌else◌, ltb, ◌==◌, length,
  get_elem?, set, take,
}
use wasm_os.Base.Opt.{◌>>=◌}
use wasm_os.Net.Ip.{is_zero, ip_proto_udp}
use wasm_os.Net.Udp.{UdpSocket, max_udp_payload}
use wasm_os.Net.Stack.State.{NetworkStack, max_sockets}
use wasm_os.Net.Stack.Send.{send_ip}
use wasm_os.Net.Stack.Receive.{position}
use wasm_os.Net.Stack.Api.{is_none}
use wasm_os.Net.Ip
use wasm_os.Net.Udp

unfoldable pub bind_at : Option ℕ → ℕ → NetworkStack → NetworkStack × Option ℕ
unfolding Udp.new_socket
bind_at none port s = (s, none)
bind_at (some i) port s =
    (record s { udp_sockets = set s.udp_sockets i (some (Udp.new_socket port)) }, some i)

unfoldable pub udp_bind : ℕ → NetworkStack → NetworkStack × Option ℕ
unfolding bind_at position
udp_bind port s = bind_at (position is_none s.udp_sockets) port s

unfoldable pub udp_send_slot :
    Option (Option UdpSocket) → List ℕ → NetworkStack → Option (NetworkStack × Option ℕ)
unfolding is_zero Udp.to_bytes Udp.new_packet Ip.to_bytes Ip.new_packet send_ip
udp_send_slot none bytes s = none
udp_send_slot (some none) bytes s = some (s, none)
udp_send_slot (some (some u)) bytes s =
    let n = min (length bytes) max_udp_payload in
    if u.remote_port == 0 || is_zero u.remote_ip
    then some (s, none)
    else Udp.new_packet u.local_port u.remote_port (take n bytes)
      >>= (λ d. Ip.new_packet s.ip u.remote_ip ip_proto_udp (Udp.to_bytes d))
      >>= (λ p. Ip.to_bytes p)
      >>= (λ ip_bytes. send_ip u.remote_ip ip_bytes s)
      >>= (λ s. some (s, some n))

unfoldable pub udp_send : ℕ → List ℕ → NetworkStack → Option (NetworkStack × Option ℕ)
unfolding udp_send_slot
udp_send sock_idx bytes s = udp_send_slot (get_elem? s.udp_sockets sock_idx) bytes s

unfoldable pub connect_slot :
    Option (Option UdpSocket) → ℕ → List ℕ → ℕ → NetworkStack → NetworkStack × Bool
connect_slot none sock_idx dst_ip dst_port s = (s, false)
connect_slot (some none) sock_idx dst_ip dst_port s = (s, false)
connect_slot (some (some u)) sock_idx dst_ip dst_port s = (
  record s {
    udp_sockets =
        set s.udp_sockets sock_idx (some (record u { remote_ip = dst_ip; remote_port = dst_port }));
  },
  true,
)

unfoldable pub udp_connect : ℕ → List ℕ → ℕ → NetworkStack → NetworkStack × Bool
unfolding connect_slot
udp_connect sock_idx dst_ip dst_port s =
    connect_slot (get_elem? s.udp_sockets sock_idx) sock_idx dst_ip dst_port s

unfoldable pub udp_close : ℕ → NetworkStack → NetworkStack
udp_close sock_idx s =
    if ltb sock_idx max_sockets
    then record s { udp_sockets = set s.udp_sockets sock_idx none }
    else s

abbrev udp_received :
    ℕ → NetworkStack → UdpSocket × Option (List ℕ × ℕ) → NetworkStack × Option (List ℕ × ℕ)
udp_received sock_idx s (u, r) = (record s { udp_sockets = set s.udp_sockets sock_idx (some u) }, r)

unfoldable pub udp_recv_slot :
    Option (Option UdpSocket)
    → ℕ
    → List ℕ
    → NetworkStack
    → Option (NetworkStack × Option (List ℕ × ℕ))
unfolding Udp.recv
udp_recv_slot none sock_idx buf s = none
udp_recv_slot (some none) sock_idx buf s = some (s, none)
udp_recv_slot (some (some u)) sock_idx buf s = some (udp_received sock_idx s (Udp.recv u buf))

unfoldable pub udp_recv : ℕ → List ℕ → NetworkStack → Option (NetworkStack × Option (List ℕ × ℕ))
unfolding udp_recv_slot
udp_recv sock_idx buf s = udp_recv_slot (get_elem? s.udp_sockets sock_idx) sock_idx buf s
