-- ===== src/Net/Stack/Session.antt =====
-- What can happen to the stack, in any order.
use wasm_os.Base.{ℕ, ◌<◌, List, [], ◌∷◌, All, Option, none, some, length, All-replicate, ◌≡◌, refl}
use wasm_os.Base.Opt.{◌>>=◌}
use wasm_os.Net.Stack.State.{NetworkStack, max_sockets, initial}
use wasm_os.Net.Stack.Send.{dhcp_start}
use wasm_os.Net.Stack.Receive.{handle_eth}
use wasm_os.Net.Stack.Api.{
  tcp_listen, tcp_connect, tcp_send, tcp_recv, tcp_accept, tcp_close, set_ip,
}
use wasm_os.Net.Stack.UdpApi.{udp_bind, udp_send, udp_connect, udp_close, udp_recv}
use wasm_os.Net.Stack.Valid.{IsStack, IsTcpSlot, IsUdpSlot, Succeeds}
use wasm_os.Net.Stack.Total.{Succeeds-bind}
use wasm_os.Net.Stack.Frames.{handle_eth-Succeeds, dhcp_start-Succeeds, IsStack-ip}
use wasm_os.Net.Stack.Calls.{
  Returns, tcp_listen-IsStack, tcp_connect-Returns, tcp_send-Returns, tcp_recv-Returns,
  tcp_accept-Returns, tcp_close-Returns,
}
use wasm_os.Net.Stack.UdpCalls.{
  udp_bind-IsStack, udp_send-Returns, udp_connect-IsStack, udp_close-IsStack, udp_recv-Returns,
}

-- A frame that arrives, or a call.
pub data Event : Type 0 where
  frame : (bytes : List ℕ) → Event
  listen : (port : ℕ) → Event
  connect : (ip : List ℕ) (port : ℕ) → Event
  send : (sock_idx : ℕ) (bytes : List ℕ) → Event
  recv : (sock_idx : ℕ) (buf : List ℕ) → Event
  accept : (sock_idx : ℕ) → Event
  close : (sock_idx : ℕ) → Event
  bind : (port : ℕ) → Event
  send_to : (sock_idx : ℕ) (bytes : List ℕ) → Event
  connect_to : (sock_idx : ℕ) (ip : List ℕ) (port : ℕ) → Event
  close_udp : (sock_idx : ℕ) → Event
  recv_from : (sock_idx : ℕ) (buf : List ℕ) → Event
  assign : (ip : List ℕ) → Event

-- Indices within the socket tables, addresses of four bytes.
unfoldable pub InRange : Event → Type 0
InRange (Event.frame bytes) = Unit
InRange (Event.listen port) = Unit
InRange (Event.connect ip port) = length ip ≡ 4
InRange (Event.send i bytes) = i < max_sockets
InRange (Event.recv i buf) = i < max_sockets
InRange (Event.accept i) = i < max_sockets
InRange (Event.close i) = i < max_sockets
InRange (Event.bind port) = Unit
InRange (Event.send_to i bytes) = i < max_sockets
InRange (Event.connect_to i ip port) = (i < max_sockets) × (length ip ≡ 4)
InRange (Event.close_udp i) = Unit
InRange (Event.recv_from i buf) = i < max_sockets
InRange (Event.assign ip) = length ip ≡ 4

-- The state that a call leaves.
pub state_of {ℓ} : {X : Type ℓ} → Option (NetworkStack × X) → Option NetworkStack
state_of none = none
state_of (some (s, x)) = some s

pub perform : Event → NetworkStack → Option NetworkStack
perform (Event.frame bytes) s = handle_eth bytes s
perform (Event.listen port) s = some (tcp_listen port s).0
perform (Event.connect ip port) s = state_of (tcp_connect ip port s)
perform (Event.send i bytes) s = state_of (tcp_send i bytes s)
perform (Event.recv i buf) s = state_of (tcp_recv i buf s)
perform (Event.accept i) s = state_of (tcp_accept i s)
perform (Event.close i) s = state_of (tcp_close i s)
perform (Event.bind port) s = some (udp_bind port s).0
perform (Event.send_to i bytes) s = state_of (udp_send i bytes s)
perform (Event.connect_to i ip port) s = some (udp_connect i ip port s).0
perform (Event.close_udp i) s = some (udp_close i s)
perform (Event.recv_from i buf) s = state_of (udp_recv i buf s)
perform (Event.assign ip) s = some (set_ip ip s)

pub session : List Event → NetworkStack → Option NetworkStack
session [] s = some s
session (e ∷ events) s = perform e s >>= session events

state_of-Succeeds {ℓ} :
    {X : Type ℓ} (o : Option (NetworkStack × X)) → Returns o → Succeeds (state_of o)
unfolding state_of
state_of-Succeeds o (Returns.returns t x h) = Succeeds.succeeds t h

perform-Succeeds : (e : Event) (s : NetworkStack) → InRange e → IsStack s → Succeeds (perform e s)
unfolding perform InRange set_ip
perform-Succeeds (Event.frame bytes) s k h = handle_eth-Succeeds bytes s h
perform-Succeeds (Event.listen port) s k h = Succeeds.succeeds _ (tcp_listen-IsStack port s h)
perform-Succeeds (Event.connect ip port) s k h =
    state_of-Succeeds _ (tcp_connect-Returns ip port s k h)
perform-Succeeds (Event.send i bytes) s k h = state_of-Succeeds _ (tcp_send-Returns i bytes s h k)
perform-Succeeds (Event.recv i buf) s k h = state_of-Succeeds _ (tcp_recv-Returns i buf s h k)
perform-Succeeds (Event.accept i) s k h = state_of-Succeeds _ (tcp_accept-Returns i s h k)
perform-Succeeds (Event.close i) s k h = state_of-Succeeds _ (tcp_close-Returns i s h k)
perform-Succeeds (Event.bind port) s k h = Succeeds.succeeds _ (udp_bind-IsStack port s h)
perform-Succeeds (Event.send_to i bytes) s k h =
    state_of-Succeeds _ (udp_send-Returns i bytes s h k)
perform-Succeeds (Event.connect_to i ip port) s k h =
    Succeeds.succeeds _ (udp_connect-IsStack i ip port s k.1 k.0 h)
perform-Succeeds (Event.close_udp i) s k h = Succeeds.succeeds _ (udp_close-IsStack i s h)
perform-Succeeds (Event.recv_from i buf) s k h = state_of-Succeeds _ (udp_recv-Returns i buf s h k)
perform-Succeeds (Event.assign ip) s k h = Succeeds.succeeds _ (IsStack-ip s ip h k)

session-Succeeds :
    (events : List Event) (s : NetworkStack)
    → All InRange events
    → IsStack s
    → Succeeds (session events s)
unfolding session
session-Succeeds [] s k h = Succeeds.succeeds s h
session-Succeeds (e ∷ events) s k h =
    Succeeds-bind (perform e s) (session events) (perform-Succeeds e s k.0 h)
      (λ t v. session-Succeeds events t k.1 v)

IsStack-initial : (mac : List ℕ) → length mac ≡ 6 → IsStack (initial mac)
unfolding initial
IsStack-initial mac h = record {
  mac = h;
  ip = refl;
  offered = refl;
  server = refl;
  tcp_size = refl;
  udp_size = refl;
  tcp = All-replicate IsTcpSlot max_sockets none tt;
  udp = All-replicate IsUdpSlot max_sockets none tt;
}

-- From start-up on, through any sequence of frames, whatever their bytes, and of calls whose socket
-- indices lie in the tables and whose addresses have four bytes, as long as the heap grants what the
-- stack allocates: no slice, index or sum of it panics, no loop of it runs out of rounds, and it stays
-- well formed: the received bytes of a socket lie within its buffer.
pub boot-Succeeds :
    (mac : List ℕ) (events : List Event)
    → length mac ≡ 6
    → All InRange events
    → Succeeds (dhcp_start (initial mac) >>= session events)
boot-Succeeds mac events m k =
    Succeeds-bind (dhcp_start (initial mac)) (session events)
      (dhcp_start-Succeeds (initial mac) (IsStack-initial mac m))
      (λ t h. session-Succeeds events t k h)
