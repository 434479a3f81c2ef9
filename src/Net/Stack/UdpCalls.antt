-- ===== src/Net/Stack/UdpCalls.antt =====
-- The calls of the programs on the sockets of datagrams, on a well-formed stack.
use wasm_os.Base.{
  ℕ, ◌<◌, min, ◌||◌, List, All-set, All-get_elem?, Option, none, some, length, length-set,
  length-take, length-replicate, take, get_elem?, set, if_both, ltb, ◌==◌, ◌≡◌, refl, ◌∙◌, arith,
}
use wasm_os.Net.Ip.{is_zero}
use wasm_os.Net.Ip.Emit.{to_bytes-packet_of, new_packet-packet_of}
use wasm_os.Net.Udp.{UdpSocket, max_udp_payload, new_socket, packet_of, to_bytes, recv}
use wasm_os.Net.Udp.Laws.{IsSocket, length-to_bytes}
use wasm_os.Net.Udp
use wasm_os.Net.Stack.State.{NetworkStack, max_sockets}
use wasm_os.Net.Stack.Receive.{position}
use wasm_os.Net.Stack.Api.{is_none}
use wasm_os.Net.Stack.UdpApi.{
  bind_at, udp_bind, udp_send_slot, udp_send, connect_slot, udp_connect, udp_recv_slot, udp_close,
  udp_recv,
}
use wasm_os.Net.Stack.Valid.{IsStack, IsUdpSlot, Sends-Succeeds, send_ip-Sends}
use wasm_os.Net.Stack.Calls.{Returns, Returns-bind}

IsStack-udp_set :
    (s : NetworkStack) (i : ℕ) (slot : Option UdpSocket)
    → IsStack s
    → IsUdpSlot slot
    → IsStack (record s { udp_sockets = set s.udp_sockets i slot })
IsStack-udp_set s i slot h k = record {
  mac = h.mac;
  ip = h.ip;
  offered = h.offered;
  server = h.server;
  tcp_size = h.tcp_size;
  udp_size = length-set s.udp_sockets i slot ∙ h.udp_size;
  tcp = h.tcp;
  udp = All-set IsUdpSlot s.udp_sockets i slot h.udp k;
}

bind_at-IsStack :
    (slot : Option ℕ) (port : ℕ) (s : NetworkStack) → IsStack s → IsStack (bind_at slot port s).0
unfolding bind_at new_socket
bind_at-IsStack none port s h = h
bind_at-IsStack (some i) port s h = IsStack-udp_set s i _ h (record {
  buffer = length-replicate {A = ℕ} max_udp_payload 0;
  filled = omega arith;
  address = refl;
})

pub udp_bind-IsStack : (port : ℕ) (s : NetworkStack) → IsStack s → IsStack (udp_bind port s).0
unfolding udp_bind
udp_bind-IsStack port s h = bind_at-IsStack (position is_none s.udp_sockets) port s h

-- What is in a slot of the table, in range.
slot_at :
    (s : NetworkStack) (i : ℕ)
    → IsStack s
    → i < max_sockets
    → (slot : Option UdpSocket) × (get_elem? s.udp_sockets i ≡ some slot) × IsUdpSlot slot
slot_at s i h k = All-get_elem? IsUdpSlot s.udp_sockets i h.udp (omega (arith, h.udp_size))

udp_send_slot-Returns :
    (slot : Option UdpSocket) (bytes : List ℕ) (s : NetworkStack)
    → IsUdpSlot slot
    → IsStack s
    → Returns (udp_send_slot (some slot) bytes s)
unfolding udp_send_slot
udp_send_slot-Returns none bytes s k h = Returns.returns s none h
udp_send_slot-Returns (some u) bytes s k h =
    let n = min (length bytes) max_udp_payload in
    let payload = take n bytes in
    let pb = to_bytes (packet_of u.local_port u.remote_port payload) in
    let size = length-to_bytes u.local_port u.remote_port payload in
    let cut = length-take n bytes in
    let (sum, printed, lt, ck, len) = to_bytes-packet_of 17 pb s.ip u.remote_ip h.ip k.address in
    if_both Returns (u.remote_port == 0 || is_zero u.remote_ip) (Returns.returns s none h) (
      rw
        (
          Udp.Laws.new_packet-packet_of u.local_port u.remote_port payload (omega (arith, cut)),
          new_packet-packet_of s.ip u.remote_ip 17 pb (omega (arith, size, cut)),
          printed,
        )
        (Returns-bind _ _
          (Sends-Succeeds s _ h
            (send_ip-Sends u.remote_ip _ s h k.address (omega (arith, len, size, cut))))
          (λ t v. Returns.returns t (some n) v)))

pub udp_send-Returns :
    (i : ℕ) (bytes : List ℕ) (s : NetworkStack)
    → IsStack s
    → i < max_sockets
    → Returns (udp_send i bytes s)
unfolding udp_send
udp_send-Returns i bytes s h k =
    let (slot, e, valid) = slot_at s i h k in rw e (udp_send_slot-Returns slot bytes s valid h)

connect_slot-IsStack :
    (slot : Option UdpSocket) (i : ℕ) (dst_ip : List ℕ) (dst_port : ℕ) (s : NetworkStack)
    → IsUdpSlot slot
    → length dst_ip ≡ 4
    → IsStack s
    → IsStack (connect_slot (some slot) i dst_ip dst_port s).0
unfolding connect_slot
connect_slot-IsStack none i dst_ip dst_port s k a h = h
connect_slot-IsStack (some u) i dst_ip dst_port s k a h =
    IsStack-udp_set s i _ h (record { buffer = k.buffer; filled = k.filled; address = a })

pub udp_connect-IsStack :
    (i : ℕ) (dst_ip : List ℕ) (dst_port : ℕ) (s : NetworkStack)
    → length dst_ip ≡ 4
    → i < max_sockets
    → IsStack s
    → IsStack (udp_connect i dst_ip dst_port s).0
unfolding udp_connect
udp_connect-IsStack i dst_ip dst_port s a k h =
    let (slot, e, valid) = slot_at s i h k in
    rw e (connect_slot-IsStack slot i dst_ip dst_port s valid a h)

pub udp_close-IsStack : (i : ℕ) (s : NetworkStack) → IsStack s → IsStack (udp_close i s)
unfolding udp_close
udp_close-IsStack i s h = if_both IsStack (ltb i max_sockets) (IsStack-udp_set s i none h tt) h

recv-IsSocket : (u : UdpSocket) (buf : List ℕ) → IsSocket u → IsSocket (recv u buf).0
unfolding recv
recv-IsSocket u buf k =
    if_both (λ (r : UdpSocket × Option (List ℕ × ℕ)). IsSocket r.0) (u.recv_len == 0) k
      (record { buffer = k.buffer; filled = omega arith; address = k.address })

recv_slot-Returns :
    (slot : Option UdpSocket) (i : ℕ) (buf : List ℕ) (s : NetworkStack)
    → IsUdpSlot slot
    → IsStack s
    → Returns (udp_recv_slot (some slot) i buf s)
unfolding udp_recv_slot
recv_slot-Returns none i buf s k h = Returns.returns s none h
recv_slot-Returns (some u) i buf s k h =
    Returns.returns _ (recv u buf).1 (IsStack-udp_set s i _ h (recv-IsSocket u buf k))

pub udp_recv-Returns :
    (i : ℕ) (buf : List ℕ) (s : NetworkStack)
    → IsStack s
    → i < max_sockets
    → Returns (udp_recv i buf s)
unfolding udp_recv
udp_recv-Returns i buf s h k =
    let (slot, e, valid) = slot_at s i h k in rw e (recv_slot-Returns slot i buf s valid h)
