-- ===== src/Net/Stack/Total.antt =====
-- The handlers succeed on a well-formed stack and leave it well formed.
use wasm_os.Base.{
  ℕ, zero, suc, ◌+◌, List, [], ◌∷◌, All-set, All-get_or, Option, none, some, length, length-set,
  set, get_or, if_both, Bool, true, Bool-cases, ◌≡◌, refl, ◌∙◌, subst, arith,
}
use wasm_os.Base.Opt.{◌>>=◌}
use wasm_os.Net.Tcp.{TcpSocket, TcpReply, TcpState, handle_pkt}
use wasm_os.Net.Tcp.Packet.{TcpPacket, tcp_syn}
use wasm_os.Net.Tcp.States.{Answered, handle_pkt-Answered}
use wasm_os.Net.Stack.State.{NetworkStack, max_sockets}
use wasm_os.Net.Stack.Send.{send_tcp_seg}
use wasm_os.Net.Stack.Receive.{
  flush_slot, flush_from, flush_pending_syncs, answer_tcp, deliver_tcp, handle_tcp_at, handle_tcp,
  find_tcp_socket, position, or_else, connected_test, listening_test,
}
use wasm_os.Net.Stack.Valid.{IsStack, IsTcpSlot, Succeeds, Sends-Succeeds, send_tcp_seg-Sends}
use wasm_os.Net.Tcp.States

-- What follows a success.
pub Succeeds-bind :
    (o : Option NetworkStack) (f : NetworkStack → Option NetworkStack)
    → Succeeds o
    → ((t : NetworkStack) → IsStack t → Succeeds (f t))
    → Succeeds (o >>= f)
Succeeds-bind o f (Succeeds.succeeds t h) k = k t h

Succeeds-seg :
    (lport rport : ℕ) (rip : List ℕ) (seq ack flags : ℕ) (s : NetworkStack)
    → IsStack s
    → length rip ≡ 4
    → Succeeds (send_tcp_seg lport rport rip seq ack flags [] s)
Succeeds-seg lport rport rip seq ack flags s h a =
    Sends-Succeeds s _ h (send_tcp_seg-Sends lport rport rip seq ack flags [] s h a (omega arith))

flush_slot-Succeeds :
    (slot : Option TcpSocket) (ip : List ℕ) (s : NetworkStack)
    → IsTcpSlot slot
    → IsStack s
    → Succeeds (flush_slot slot ip s)
unfolding flush_slot
flush_slot-Succeeds none ip s k h = Succeeds.succeeds s h
flush_slot-Succeeds (some t) ip s k h =
    if_both Succeeds _
      (Succeeds-seg t.local_port t.remote_port t.remote_ip t.seq 0 tcp_syn s h k.address)
      (Succeeds.succeeds s h)

flush_from-Succeeds :
    (n i : ℕ) (ip : List ℕ) (s : NetworkStack) → IsStack s → Succeeds (flush_from n i ip s)
unfolding flush_from
flush_from-Succeeds zero i ip s h = Succeeds.succeeds s h
flush_from-Succeeds (suc n) i ip s h =
    Succeeds-bind _ _
      (flush_slot-Succeeds _ ip s (All-get_or IsTcpSlot s.tcp_sockets i none h.tcp tt) h)
      (λ t k. flush_from-Succeeds n (1 + i) ip t k)

pub IsStack-tcp :
    (s : NetworkStack) (i : ℕ) (slot : Option TcpSocket)
    → IsStack s
    → IsTcpSlot slot
    → IsStack (record s { tcp_sockets = set s.tcp_sockets i slot })
IsStack-tcp s i slot h k = record {
  mac = h.mac;
  ip = h.ip;
  offered = h.offered;
  server = h.server;
  tcp_size = length-set s.tcp_sockets i slot ∙ h.tcp_size;
  udp_size = h.udp_size;
  tcp = All-set IsTcpSlot s.tcp_sockets i slot h.tcp k;
  udp = h.udp;
}

answer_tcp-Succeeds :
    (t : TcpSocket) (reply : Option TcpReply) (s : NetworkStack)
    → length t.remote_ip ≡ 4
    → IsStack s
    → Succeeds (answer_tcp t reply s)
unfolding answer_tcp
answer_tcp-Succeeds t none s a h = Succeeds.succeeds s h
answer_tcp-Succeeds t (some r) s a h = Succeeds-seg _ _ _ _ _ _ s h a

-- A handled segment's socket goes back to its slot, and the reply leaves.
Answered-Succeeds :
    (o : Option (TcpSocket × Option TcpReply)) (pkt : TcpPacket) (from : TcpState) (port idx : ℕ)
    (s : NetworkStack)
    → Answered pkt from port o
    → IsStack s
    → Succeeds (
        o >>= (λ (t, reply).
          answer_tcp t reply (record s { tcp_sockets = set s.tcp_sockets idx (some t) })))
Answered-Succeeds none pkt from port idx s k h = absurd k
Answered-Succeeds (some (t, r)) pkt from port idx s k h =
    answer_tcp-Succeeds t r _ k.0.address (IsStack-tcp s idx (some t) h k.0)

deliver_tcp-Succeeds :
    (idx : ℕ) (t : TcpSocket) (pkt : TcpPacket) (src_ip : List ℕ) (s : NetworkStack)
    → States.IsSocket t
    → length src_ip ≡ 4
    → IsStack s
    → Succeeds (deliver_tcp idx (some t) pkt src_ip s)
unfolding deliver_tcp
deliver_tcp-Succeeds idx t pkt src_ip s k a h =
    Answered-Succeeds (handle_pkt t pkt src_ip) pkt t.state t.local_port idx s
      (handle_pkt-Answered t pkt src_ip k a) h

-- A search that hits, hits an element that passes the test.
position-hit {ℓ} :
    {A : Type ℓ} (test : A → Bool) (xs : List A) (d : A) (i : ℕ)
    → position test xs ≡ some i
    → test (get_or xs i d) ≡ true
unfolding position
position-hit test [] d i h = ground arith
position-hit test (x ∷ xs) d zero h = ground (arith, Bool-cases (test x))
position-hit test (x ∷ xs) d (suc i) h = ground (arith, position-hit test xs d i)

-- The slot found is in use.
found_slot :
    (first second : Option ℕ) (sockets : List (Option TcpSocket)) (i : ℕ)
    → ((i : ℕ) → first ≡ some i → (t : TcpSocket) × (get_or sockets i none ≡ some t))
    → ((i : ℕ) → second ≡ some i → (t : TcpSocket) × (get_or sockets i none ≡ some t))
    → or_else first second ≡ some i
    → (t : TcpSocket) × (get_or sockets i none ≡ some t)
unfolding or_else
found_slot none second sockets i p q e = q i e
found_slot (some j) second sockets i p q e = p i e

connected_slot :
    (lport rport : ℕ) (slot : Option TcpSocket)
    → connected_test lport rport slot ≡ true
    → (t : TcpSocket) × (slot ≡ some t)
connected_slot lport rport none h = ground arith
connected_slot lport rport (some t) h = (t, refl)

listening_slot :
    (lport : ℕ) (slot : Option TcpSocket)
    → listening_test lport slot ≡ true
    → (t : TcpSocket) × (slot ≡ some t)
listening_slot lport none h = ground arith
listening_slot lport (some t) h = (t, refl)

find_tcp_socket-slot :
    (sockets : List (Option TcpSocket)) (lport rport i : ℕ)
    → find_tcp_socket sockets lport rport ≡ some i
    → (t : TcpSocket) × (get_or sockets i none ≡ some t)
unfolding find_tcp_socket
find_tcp_socket-slot sockets lport rport i h =
    found_slot (position (connected_test lport rport) sockets)
      (position (listening_test lport) sockets) sockets i
      (λ j e.
        connected_slot lport rport _ (position-hit (connected_test lport rport) sockets none j e))
      (λ j e. listening_slot lport _ (position-hit (listening_test lport) sockets none j e)) h

handle_tcp_at-Succeeds :
    (found : Option ℕ) (src_ip : List ℕ) (pkt : TcpPacket) (s : NetworkStack)
    → ((i : ℕ) → found ≡ some i → (t : TcpSocket) × (get_or s.tcp_sockets i none ≡ some t))
    → length src_ip ≡ 4
    → IsStack s
    → Succeeds (handle_tcp_at found src_ip pkt s)
unfolding handle_tcp_at
handle_tcp_at-Succeeds none src_ip pkt s used a h = Succeeds.succeeds s h
handle_tcp_at-Succeeds (some i) src_ip pkt s used a h =
    let (t, e) = used i refl in
    let valid = All-get_or IsTcpSlot s.tcp_sockets i none h.tcp tt in
    rw e (deliver_tcp-Succeeds i t pkt src_ip s (subst IsTcpSlot e valid) a h)

pub handle_tcp-Succeeds :
    (src_ip : List ℕ) (pkt : TcpPacket) (s : NetworkStack)
    → length src_ip ≡ 4
    → IsStack s
    → Succeeds (handle_tcp src_ip pkt s)
unfolding handle_tcp
handle_tcp-Succeeds src_ip pkt s a h =
    handle_tcp_at-Succeeds _ src_ip pkt s
      (λ i e. find_tcp_socket-slot s.tcp_sockets pkt.dst_port pkt.src_port i e) a h

pub flush_pending_syncs-Succeeds :
    (ip : List ℕ) (s : NetworkStack) → IsStack s → Succeeds (flush_pending_syncs ip s)
unfolding flush_pending_syncs
flush_pending_syncs-Succeeds ip s h = flush_from-Succeeds max_sockets 0 ip s h
