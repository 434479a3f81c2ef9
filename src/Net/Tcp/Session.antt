-- ===== src/Net/Tcp/Session.antt =====
-- Two sockets that exchange segments, and sockets over a sequence of segments.
use wasm_os.Base.{
  ℕ, ◌+◌, ◌-◌, ◌%◌, ◌^◌, ◌≤◌, ◌<◌, min, false, ◌==◌, List, [], ◌∷◌, All, Option, none, some, length,
  take, overwrite, ltb, take_all, slice-overwrite, overwrite-nil, ◌≡◌, refl, sym, arith,
}
use wasm_os.Base.Opt.{◌>>=◌}
use wasm_os.Net.Tcp.{TcpState, TcpSocket, TcpReply, handle_pkt, recv, max_tcp_payload}
use wasm_os.Net.Tcp.Packet.{TcpPacket, fin, rst, ack, tcp_syn, tcp_ack}
use wasm_os.Net.Tcp.States.{IsSocket, Answered, Transition, handle_pkt-Answered}

-- The segment that a socket sends, as it arrives.
abbrev pub segment_from : TcpSocket → ℕ → ℕ → ℕ → List ℕ → TcpPacket
segment_from t flags seq ack payload = record {
  src_port = t.local_port;
  dst_port = t.remote_port;
  seq = seq;
  ack_no = ack;
  flags = flags;
  payload = payload;
}

abbrev pub reply_from : TcpSocket → TcpReply → TcpPacket
reply_from t r = segment_from t r.flags r.seq r.ack []

-- A connecting socket's SYN, the listener's answer and the answer to that, each handled by the other
-- side, leave both sockets established, without a panic. Each side expects next the number that the
-- other sends next, and the listener has learnt who connected.
pub handshake :
    (c l : TcpSocket) (c_ip l_ip : List ℕ)
    → c.state ≡ TcpState.syn_sent
    → l.state ≡ TcpState.listening
    → (l1 c1 l2 : TcpSocket) × (r1 r2 : TcpReply) × (handle_pkt l
          (segment_from c tcp_syn c.seq 0 [])
          c_ip
        ≡ some (l1, some r1))
      × (handle_pkt c (reply_from l1 r1) l_ip ≡ some (c1, some r2))
      × (handle_pkt l1 (reply_from c1 r2) c_ip ≡ some (l2, none))
      × (c1.state ≡ TcpState.established)
      × (l2.state ≡ TcpState.established)
      × (c1.seq ≡ l2.ack)
      × (c1.ack ≡ l2.seq)
      × (l2.remote_ip ≡ c_ip)
      × (l2.remote_port ≡ c.local_port)
unfolding handle_pkt
handshake c l c_ip l_ip ec el =
    rw (ec, el) (_, _, _, _, _, refl, refl, refl, refl, refl, refl, refl, refl, refl)

-- The socket with the first `n` bytes of a segment's payload behind what it had.
abbrev received : TcpSocket → TcpPacket → ℕ → TcpSocket
received s pkt n = record s {
  last_seq = pkt.seq;
  last_ack = pkt.ack_no;
  recv_buf = overwrite s.recv_buf s.recv_len (take n pkt.payload);
  recv_len = s.recv_len + n;
  ack = (pkt.seq + length pkt.payload % 2 ^ 32) % 2 ^ 32;
}

-- A segment with data, in an established connection: as many bytes as the buffer has room for are
-- kept, and all are acknowledged.
handle_pkt-payload :
    (s : TcpSocket) (pkt : TcpPacket) (src : List ℕ) (n : ℕ)
    → s.state ≡ TcpState.established
    → s.recv_len ≤ max_tcp_payload
    → fin pkt ≡ false
    → rst pkt ≡ false
    → 0 < length pkt.payload
    → n ≡ min (length pkt.payload) (max_tcp_payload - s.recv_len)
    → handle_pkt s pkt src
      ≡ some (
        received s pkt n,
        some (record {
          flags = tcp_ack;
          seq = s.seq;
          ack = (pkt.seq + length pkt.payload % 2 ^ 32) % 2 ^ 32;
        }),
      )
unfolding handle_pkt
handle_pkt-payload s pkt src n est filled no_fin no_rst pos room =
    let some_bytes : (length pkt.payload == 0) ≡ false = ground (arith, pos) in
    let inside : ltb max_tcp_payload s.recv_len ≡ false = ground (arith, filled) in
    rw (no_rst, est, no_fin, some_bytes, inside, sym room) refl

-- Bytes that fit the empty buffer of an established, well-formed receiver, in a segment without FIN or
-- RST, are acknowledged up to their end. The receive that follows, into a buffer with room for them,
-- answers exactly them, and another one answers nothing.
pub recv_once :
    (s : TcpSocket) (pkt : TcpPacket) (src buf : List ℕ)
    → IsSocket s
    → s.state ≡ TcpState.established
    → s.recv_len ≡ 0
    → fin pkt ≡ false
    → rst pkt ≡ false
    → 0 < length pkt.payload
    → length pkt.payload ≤ max_tcp_payload
    → length pkt.payload ≤ length buf
    → (t u : TcpSocket) × (r : TcpReply) × (handle_pkt s pkt src ≡ some (t, some r))
      × (r.ack ≡ (pkt.seq + length pkt.payload) % 2 ^ 32)
      × (recv t buf ≡ (u, some (overwrite buf 0 pkt.payload, length pkt.payload)))
      × (recv u buf ≡ (u, none))
unfolding recv
recv_once s pkt src buf h est empty no_fin no_rst pos fits room =
    let n = length pkt.payload in
    let some_bytes : (0 + n == 0) ≡ false = ground (arith, pos) in
    let asked : min (0 + n) (length buf) ≡ n = omega arith in
    let same = slice-overwrite s.recv_buf 0 pkt.payload (omega (arith, h.buffer)) in
    let handled =
      handle_pkt-payload s pkt src n est (omega arith) no_fin no_rst pos (omega (arith, empty)) in
    (
      received s pkt n,
      record (received s pkt n) { recv_len = 0 },
      _,
      handled,
      omega arith,
      rw (empty, some_bytes, asked, take_all n pkt.payload (omega arith), same) refl,
      refl,
    )

-- A full buffer takes nothing of a segment with data, yet the answer acknowledges all of it.
pub handle_pkt-full :
    (s : TcpSocket) (pkt : TcpPacket) (src : List ℕ)
    → s.state ≡ TcpState.established
    → s.recv_len ≡ max_tcp_payload
    → fin pkt ≡ false
    → rst pkt ≡ false
    → 0 < length pkt.payload
    → (t : TcpSocket) × (r : TcpReply) × (handle_pkt s pkt src ≡ some (t, some r))
      × (t.recv_buf ≡ s.recv_buf)
      × (t.recv_len ≡ s.recv_len)
      × (r.ack ≡ (pkt.seq + length pkt.payload) % 2 ^ 32)
handle_pkt-full s pkt src est full no_fin no_rst pos =
    let handled =
      handle_pkt-payload s pkt src 0 est (omega arith) no_fin no_rst pos (omega (arith, full)) in
    (received s pkt 0, _, handled, overwrite-nil s.recv_buf s.recv_len, omega arith, omega arith)

-- The socket after a sequence of segments from one address, their answers left aside.
pub after : TcpSocket → List ℕ → List TcpPacket → Option TcpSocket
after s src [] = some s
after s src (pkt ∷ pkts) = handle_pkt s pkt src >>= (λ (t, r). after t src pkts)

-- One of the two states that wait for the other side's FIN.
pub data Waits : TcpState → Type 0 where
  first : Waits TcpState.fin_wait1
  second : Waits TcpState.fin_wait2

Transition-Waits :
    (pkt : TcpPacket) (from to : TcpState)
    → fin pkt ≡ false
    → rst pkt ≡ false
    → Waits from
    → Transition pkt from to
    → Waits to
Transition-Waits pkt from to f r w (Transition.stay e) = w
Transition-Waits pkt from to f r w (Transition.reset e) = ground (arith, e, r)
Transition-Waits pkt from to f r w (Transition.fin_acked n e a) = Waits.second
Transition-Waits pkt from to f r w (Transition.simultaneous_close n e a) = ground (arith, e, f)
Transition-Waits pkt from to f r w (Transition.both_closed n e a) = ground (arith, e, f)
Transition-Waits pkt from to f r w (Transition.last_fin n e) = ground (arith, e, f)
Transition-Waits pkt from to f r w (Transition.passive_open n e g) = elim w [ ]
Transition-Waits pkt from to f r w (Transition.active_open n e g) = elim w [ ]
Transition-Waits pkt from to f r w (Transition.simultaneous_open n e g) = elim w [ ]
Transition-Waits pkt from to f r w (Transition.opened n e) = elim w [ ]
Transition-Waits pkt from to f r w (Transition.remote_close n e) = elim w [ ]
Transition-Waits pkt from to f r w (Transition.last_ack n e) = elim w [ ]

Answered-some :
    (o : Option (TcpSocket × Option TcpReply)) (pkt : TcpPacket) (from : TcpState) (port : ℕ)
    → Answered pkt from port o
    → (t : TcpSocket) × (r : Option TcpReply) × (o ≡ some (t, r))
      × IsSocket t
      × Transition pkt from t.state
Answered-some none pkt from port h = absurd h
Answered-some (some (t, r)) pkt from port h = (t, r, refl, h.0, h.1)

-- A socket that waits for the other side's FIN waits on, through any sequence of segments without FIN
-- or RST: none of them closes it, and none makes the code panic.
pub after-Waits :
    (pkts : List TcpPacket) (s : TcpSocket) (src : List ℕ)
    → IsSocket s
    → length src ≡ 4
    → Waits s.state
    → All (λ pkt. (fin pkt ≡ false) × (rst pkt ≡ false)) pkts
    → (t : TcpSocket) × (after s src pkts ≡ some t) × Waits t.state
unfolding after
after-Waits [] s src h a w all = (s, refl, w)
after-Waits (pkt ∷ pkts) s src h a w all =
    let (t, r, e, valid, step) =
      Answered-some (handle_pkt s pkt src) pkt s.state s.local_port
        (handle_pkt-Answered s pkt src h a) in
    let waits = Transition-Waits pkt s.state t.state all.0.0 all.0.1 w step in
    rw e (after-Waits pkts t src valid a waits all.1)
