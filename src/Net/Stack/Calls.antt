-- ===== src/Net/Stack/Calls.antt =====
-- The calls of the programs on a well-formed stack.
use wasm_os.Base.{
  ℕ, ◌<◌, min, true, false, List, [], All-get_elem?, Option, none, some, length, length-take,
  length-replicate, take, get_elem?, if_both, ◌==◌, ◌≡◌, refl, arith,
}
use wasm_os.Base.Opt.{◌>>=◌}
use wasm_os.Net.Arp.{lookup}
use wasm_os.Net.Tcp.{TcpState, TcpSocket, max_tcp_payload, listen, connect, recv}
use wasm_os.Net.Stack.State.{NetworkStack, max_sockets}
use wasm_os.Net.Stack.Receive.{position}
use wasm_os.Net.Stack.Api.{
  is_none, listen_at, tcp_listen, dialling, send_syn, connect_at, tcp_connect, send_on, send_slot,
  tcp_send, tcp_recv, tcp_recv_slot, accept_at, accept_on, accept_slot, tcp_accept, close_slot,
  tcp_close,
}
use wasm_os.Net.Stack.Ports.{alloc_ephemeral_port-total}
use wasm_os.Net.Stack.Valid.{
  IsStack, IsTcpSlot, Succeeds, Sends-Succeeds, send_tcp_seg-Sends, send_arp_request-Sends,
}
use wasm_os.Net.Stack.Total.{IsStack-tcp}
use wasm_os.Net.Tcp.States.{IsSocket}

-- The call returns, with a well-formed stack.
pub data Returns {ℓ} {X : Type ℓ} : Option (NetworkStack × X) → Type ℓ where
  returns : (t : NetworkStack) (x : X) → IsStack t → Returns (some (t, x))

pub Returns-bind {ℓ} :
    {X : Type ℓ} (o : Option NetworkStack) (f : NetworkStack → Option (NetworkStack × X))
    → Succeeds o
    → ((t : NetworkStack) → IsStack t → Returns (f t))
    → Returns (o >>= f)
Returns-bind o f (Succeeds.succeeds t h) k = k t h

IsSocket-listen : (port : ℕ) → IsSocket (listen port)
unfolding listen
IsSocket-listen port = record {
  buffer = length-replicate {A = ℕ} max_tcp_payload 0;
  filled = omega arith;
  address = refl;
}

pub tcp_listen-IsStack : (port : ℕ) (s : NetworkStack) → IsStack s → IsStack (tcp_listen port s).0
unfolding tcp_listen
tcp_listen-IsStack port s h = listened (position is_none s.tcp_sockets) port s h
  where
    listened :
        (slot : Option ℕ) (port : ℕ) (s : NetworkStack)
        → IsStack s
        → IsStack (listen_at slot port s).0
    listened none port s h = h
    listened (some i) port s h = IsStack-tcp s i _ h (IsSocket-listen port)

send_syn-Succeeds :
    (mac : Option (List ℕ)) (t : TcpSocket) (s : NetworkStack)
    → IsSocket t
    → IsStack s
    → Succeeds (send_syn mac t s)
unfolding send_syn
send_syn-Succeeds none t s k h =
    Sends-Succeeds s _ h (send_arp_request-Sends t.remote_ip s h k.address)
send_syn-Succeeds (some mac) t s k h = Sends-Succeeds s _ h (
    send_tcp_seg-Sends t.local_port t.remote_port t.remote_ip t.seq 0 2 [] s h k.address
      (omega arith))

connect_at-Returns :
    (slot : Option ℕ) (t : TcpSocket) (s : NetworkStack)
    → IsSocket t
    → IsStack s
    → Returns (connect_at slot t s)
unfolding connect_at
connect_at-Returns none t s k h = Returns.returns s none h
connect_at-Returns (some i) t s k h =
    Returns-bind _ _
      (send_syn-Succeeds (lookup s.arp t.remote_ip) t _ k (IsStack-tcp s i (some t) h k))
      (λ u v. Returns.returns u (some i) v)

pub tcp_connect-Returns :
    (dst_ip : List ℕ) (dst_port : ℕ) (s : NetworkStack)
    → length dst_ip ≡ 4
    → IsStack s
    → Returns (tcp_connect dst_ip dst_port s)
unfolding tcp_connect dialling connect
tcp_connect-Returns dst_ip dst_port s a h =
    let (p, found, free, low, high) = alloc_ephemeral_port-total s (omega (arith, h.tcp_size)) in
    rw found (
      connect_at-Returns (position is_none s.tcp_sockets) _ s
        (record {
          buffer = length-replicate {A = ℕ} max_tcp_payload 0;
          filled = omega arith;
          address = a;
        })
        h)

send_on-Returns :
    (st : TcpState) (t : TcpSocket) (i : ℕ) (bytes : List ℕ) (s : NetworkStack)
    → IsSocket t
    → IsStack s
    → Returns (send_on st t i bytes s)
unfolding send_on
send_on-Returns TcpState.established t i bytes s k h =
    let n = min (length bytes) max_tcp_payload in
    Returns-bind _ _
      (Sends-Succeeds s _ h (
        send_tcp_seg-Sends t.local_port t.remote_port t.remote_ip t.seq t.ack 24 (take n bytes) s h
          k.address (omega (arith, length-take n bytes))))
      (λ u v. Returns.returns _ (some n) (
        IsStack-tcp u i _ v (record { buffer = k.buffer; filled = k.filled; address = k.address })))
send_on-Returns TcpState.closed t i bytes s k h = Returns.returns s none h
send_on-Returns TcpState.listening t i bytes s k h = Returns.returns s none h
send_on-Returns TcpState.syn_sent t i bytes s k h = Returns.returns s none h
send_on-Returns TcpState.syn_recv t i bytes s k h = Returns.returns s none h
send_on-Returns TcpState.fin_wait1 t i bytes s k h = Returns.returns s none h
send_on-Returns TcpState.fin_wait2 t i bytes s k h = Returns.returns s none h
send_on-Returns TcpState.close_wait t i bytes s k h = Returns.returns s none h
send_on-Returns TcpState.closing t i bytes s k h = Returns.returns s none h

-- What is in a slot of the table, in range.
slot_at :
    (s : NetworkStack) (i : ℕ)
    → IsStack s
    → i < max_sockets
    → (slot : Option TcpSocket) × (get_elem? s.tcp_sockets i ≡ some slot) × IsTcpSlot slot
slot_at s i h k = All-get_elem? IsTcpSlot s.tcp_sockets i h.tcp (omega (arith, h.tcp_size))

send_slot-Returns :
    (slot : Option TcpSocket) (i : ℕ) (bytes : List ℕ) (s : NetworkStack)
    → IsTcpSlot slot
    → IsStack s
    → Returns (send_slot (some slot) i bytes s)
unfolding send_slot
send_slot-Returns none i bytes s k h = Returns.returns s none h
send_slot-Returns (some t) i bytes s k h = send_on-Returns t.state t i bytes s k h

pub tcp_send-Returns :
    (i : ℕ) (bytes : List ℕ) (s : NetworkStack)
    → IsStack s
    → i < max_sockets
    → Returns (tcp_send i bytes s)
unfolding tcp_send
tcp_send-Returns i bytes s h k =
    let (slot, e, valid) = slot_at s i h k in rw e (send_slot-Returns slot i bytes s valid h)

recv-IsSocket : (t : TcpSocket) (buf : List ℕ) → IsSocket t → IsSocket (recv t buf).0
unfolding recv
recv-IsSocket t buf k =
    if_both (λ (r : TcpSocket × Option (List ℕ × ℕ)). IsSocket r.0) (t.recv_len == 0) k
      (record { buffer = k.buffer; filled = omega arith; address = k.address })

recv_slot-Returns :
    (slot : Option TcpSocket) (i : ℕ) (buf : List ℕ) (s : NetworkStack)
    → IsTcpSlot slot
    → IsStack s
    → Returns (tcp_recv_slot (some slot) i buf s)
unfolding tcp_recv_slot
recv_slot-Returns none i buf s k h = Returns.returns s none h
recv_slot-Returns (some t) i buf s k h =
    Returns.returns _ (recv t buf).1 (IsStack-tcp s i _ h (recv-IsSocket t buf k))

pub tcp_recv-Returns :
    (i : ℕ) (buf : List ℕ) (s : NetworkStack)
    → IsStack s
    → i < max_sockets
    → Returns (tcp_recv i buf s)
unfolding tcp_recv
tcp_recv-Returns i buf s h k =
    let (slot, e, valid) = slot_at s i h k in rw e (recv_slot-Returns slot i buf s valid h)

accept_at-IsStack :
    (free : Option ℕ) (t : TcpSocket) (i : ℕ) (s : NetworkStack)
    → IsSocket t
    → IsStack s
    → IsStack (accept_at free t i s).0
unfolding accept_at
accept_at-IsStack none t i s k h = h
accept_at-IsStack (some j) t i s k h =
    IsStack-tcp _ i _ (IsStack-tcp s j (some t) h k) (IsSocket-listen t.local_port)

accept_on-IsStack :
    (st : TcpState) (t : TcpSocket) (i : ℕ) (s : NetworkStack)
    → IsSocket t
    → IsStack s
    → IsStack (accept_on st t i s).0
unfolding accept_on
accept_on-IsStack TcpState.established t i s k h =
    accept_at-IsStack (position is_none s.tcp_sockets) t i s k h
accept_on-IsStack TcpState.closed t i s k h = h
accept_on-IsStack TcpState.listening t i s k h = h
accept_on-IsStack TcpState.syn_sent t i s k h = h
accept_on-IsStack TcpState.syn_recv t i s k h = h
accept_on-IsStack TcpState.fin_wait1 t i s k h = h
accept_on-IsStack TcpState.fin_wait2 t i s k h = h
accept_on-IsStack TcpState.close_wait t i s k h = h
accept_on-IsStack TcpState.closing t i s k h = h

accept_slot-Returns :
    (slot : Option TcpSocket) (i : ℕ) (s : NetworkStack)
    → IsTcpSlot slot
    → IsStack s
    → Returns (accept_slot (some slot) i s)
unfolding accept_slot
accept_slot-Returns none i s k h = Returns.returns s none h
accept_slot-Returns (some t) i s k h = Returns.returns _ _ (accept_on-IsStack t.state t i s k h)

pub tcp_accept-Returns :
    (i : ℕ) (s : NetworkStack) → IsStack s → i < max_sockets → Returns (tcp_accept i s)
unfolding tcp_accept
tcp_accept-Returns i s h k =
    let (slot, e, valid) = slot_at s i h k in rw e (accept_slot-Returns slot i s valid h)

close_slot-Returns :
    (slot : Option TcpSocket) (i : ℕ) (s : NetworkStack)
    → IsTcpSlot slot
    → IsStack s
    → Returns (close_slot (some slot) i s)
unfolding close_slot
close_slot-Returns none i s k h = Returns.returns s false h
close_slot-Returns (some t) i s k h =
    let valid =
      IsStack-tcp s i (some (record t { state = TcpState.fin_wait1 })) h
        (record { buffer = k.buffer; filled = k.filled; address = k.address }) in
    if_both Returns _
      (Returns-bind _ _
        (Sends-Succeeds _ _ valid (
          send_tcp_seg-Sends t.local_port t.remote_port t.remote_ip t.seq t.ack 17 [] _ valid
            k.address (omega arith)))
        (λ u v. Returns.returns u true v))
      (Returns.returns s false h)

pub tcp_close-Returns :
    (i : ℕ) (s : NetworkStack) → IsStack s → i < max_sockets → Returns (tcp_close i s)
unfolding tcp_close
tcp_close-Returns i s h k =
    let (slot, e, valid) = slot_at s i h k in rw e (close_slot-Returns slot i s valid h)
