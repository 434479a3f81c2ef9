-- ===== src/Net/Tcp/States.antt =====
-- The connection's states as a relation, after RFC 793, with what a socket does beside it.
use wasm_os.Base.{
  ℕ, Bool, true, false, not, ◌&&◌, List, Option, some, none, length, ltb, if◌then◌else◌, ◌==◌, ◌≡◌,
  refl, ap, sym, subst, ◌∙◌, ltb→lt, length-overwrite, ◌≤◌, arith,
}
use wasm_os.Net.Tcp.{
  TcpState, TcpSocket, TcpReply, handle_pkt, handle_state, max_tcp_payload, on_listen, on_syn_sent,
  on_syn_recv, on_established, on_fin_wait1, on_fin_wait2, on_closing, on_payload,
}
use wasm_os.Net.Tcp.Packet.{TcpPacket, syn, ack, fin, rst}

-- The change of state that a segment with these flags may cause: with a reset, only to closed.
pub data Transition : TcpPacket → TcpState → TcpState → Type 0 where
  reset : {p : TcpPacket} {s : TcpState} → rst p ≡ true → Transition p s TcpState.closed
  stay : {p : TcpPacket} {s : TcpState} → rst p ≡ false → Transition p s s
  passive_open :
      {p : TcpPacket}
      → rst p ≡ false
      → syn p ≡ true
      → ack p ≡ false
      → Transition p TcpState.listening TcpState.syn_recv
  active_open :
      {p : TcpPacket}
      → rst p ≡ false
      → syn p ≡ true
      → ack p ≡ true
      → Transition p TcpState.syn_sent TcpState.established
  simultaneous_open :
      {p : TcpPacket}
      → rst p ≡ false
      → syn p ≡ true
      → ack p ≡ false
      → Transition p TcpState.syn_sent TcpState.syn_recv
  opened :
      {p : TcpPacket}
      → rst p ≡ false
      → ack p ≡ true
      → Transition p TcpState.syn_recv TcpState.established
  remote_close :
      {p : TcpPacket}
      → rst p ≡ false
      → fin p ≡ true
      → Transition p TcpState.established TcpState.close_wait
  fin_acked :
      {p : TcpPacket}
      → rst p ≡ false
      → fin p ≡ false
      → ack p ≡ true
      → Transition p TcpState.fin_wait1 TcpState.fin_wait2
  simultaneous_close :
      {p : TcpPacket}
      → rst p ≡ false
      → fin p ≡ true
      → ack p ≡ false
      → Transition p TcpState.fin_wait1 TcpState.closing
  both_closed :
      {p : TcpPacket}
      → rst p ≡ false
      → fin p ≡ true
      → ack p ≡ true
      → Transition p TcpState.fin_wait1 TcpState.closed
  last_fin :
      {p : TcpPacket}
      → rst p ≡ false
      → fin p ≡ true
      → Transition p TcpState.fin_wait2 TcpState.closed
  last_ack :
      {p : TcpPacket} → rst p ≡ false → ack p ≡ true → Transition p TcpState.closing TcpState.closed

-- A socket: its buffer has the size of the array, what was received lies in it.
pub record IsSocket (s : TcpSocket) : Type 0 where
  pub buffer : length s.recv_buf ≡ max_tcp_payload
  pub filled : s.recv_len ≤ max_tcp_payload
  pub address : length s.remote_ip ≡ 4

-- The segment is handled without a panic, and the socket is one that may follow.
abbrev pub Answered : TcpPacket → TcpState → ℕ → Option (TcpSocket × Option TcpReply) → Type 0
Answered p from port none = ⊥
Answered p from port (some (t, r)) = IsSocket t × Transition p from t.state × (t.local_port ≡ port)

module _ (p : TcpPacket) (from : TcpState) (port : ℕ) where
  Answered-if :
      (test : Bool) (x y : Option (TcpSocket × Option TcpReply))
      → (test ≡ true → Answered p from port x)
      → (test ≡ false → Answered p from port y)
      → Answered p from port (if test then x else y)
  Answered-if true x y h k = h refl
  Answered-if false x y h k = k refl

  -- Nothing changes but what the segment left in last_seq and last_ack.
  Answered-stay :
      (s : TcpSocket)
      → IsSocket s
      → s.state ≡ from
      → s.local_port ≡ port
      → rst p ≡ false
      → IsSocket s × Transition p from s.state × (s.local_port ≡ port)
  Answered-stay s h e q r = (h, subst (λ st. Transition p from st) (sym e) (Transition.stay r), q)

-- The socket after a change that leaves its buffer alone.
IsSocket-same :
    (s t : TcpSocket)
    → IsSocket s
    → t.recv_buf ≡ s.recv_buf
    → t.recv_len ≡ s.recv_len
    → length t.remote_ip ≡ 4
    → IsSocket t
IsSocket-same s t h b n a = record {
  buffer = ap length b ∙ h.buffer;
  filled = omega (arith, n, h.filled);
  address = a;
}

module _ (s : TcpSocket) (pkt : TcpPacket) (src : List ℕ) where
  handle_state-Answered :
      (st : TcpState)
      → IsSocket s
      → length src ≡ 4
      → s.state ≡ st
      → rst pkt ≡ false
      → Answered pkt st s.local_port (handle_state st s pkt src)
  unfolding handle_state on_listen on_syn_sent on_syn_recv on_established on_fin_wait1 on_fin_wait2
      on_closing on_payload
  handle_state-Answered TcpState.listening h a e r =
      Answered-if pkt _ _ (syn pkt && not (ack pkt)) _ _
        (λ b. (
          IsSocket-same s _ h refl refl a,
          Transition.passive_open r (ground arith) (ground arith),
          refl,
        ))
        (λ b. Answered-stay pkt _ _ s h e refl r)
  handle_state-Answered TcpState.syn_sent h a e r =
      Answered-if pkt _ _ (syn pkt && ack pkt) _ _
        (λ b. (
          IsSocket-same s _ h refl refl h.address,
          Transition.active_open r (ground arith) (ground arith),
          refl,
        ))
        (λ b.
          Answered-if pkt _ _ (syn pkt) _ _
            (λ c. (
              IsSocket-same s _ h refl refl a,
              Transition.simultaneous_open r c (ground arith),
              refl,
            ))
            (λ c. Answered-stay pkt _ _ s h e refl r))
  handle_state-Answered TcpState.syn_recv h a e r =
      Answered-if pkt _ _ (ack pkt) _ _
        (λ b. (IsSocket-same s _ h refl refl h.address, Transition.opened r b, refl))
        (λ b. Answered-stay pkt _ _ s h e refl r)
  handle_state-Answered TcpState.established h a e r =
      Answered-if pkt _ _ (fin pkt) _ _
        (λ b. (IsSocket-same s _ h refl refl h.address, Transition.remote_close r b, refl))
        (λ b.
          Answered-if pkt _ _ (not (length pkt.payload == 0)) _ _
            (λ c.
              Answered-if pkt _ _ (ltb max_tcp_payload s.recv_len) _ _
                (λ d. absurd (omega (arith, ltb→lt _ _ d, h.filled)))
                (λ d. (
                  record {
                    buffer = length-overwrite s.recv_buf s.recv_len _ ∙ h.buffer;
                    filled = omega (arith, h.filled);
                    address = h.address;
                  },
                  subst (λ st. Transition pkt TcpState.established st) (sym e) (Transition.stay r),
                  refl,
                )))
            (λ c. Answered-stay pkt _ _ s h e refl r))
  handle_state-Answered TcpState.fin_wait1 h a e r =
      Answered-if pkt _ _ (fin pkt && ack pkt) _ _
        (λ b. (
          IsSocket-same s _ h refl refl h.address,
          Transition.both_closed r (ground arith) (ground arith),
          refl,
        ))
        (λ b.
          Answered-if pkt _ _ (fin pkt) _ _
            (λ c. (
              IsSocket-same s _ h refl refl h.address,
              Transition.simultaneous_close r c (ground arith),
              refl,
            ))
            (λ c.
              Answered-if pkt _ _ (ack pkt) _ _
                (λ d. (IsSocket-same s _ h refl refl h.address, Transition.fin_acked r c d, refl))
                (λ d. Answered-stay pkt _ _ s h e refl r)))
  handle_state-Answered TcpState.fin_wait2 h a e r =
      Answered-if pkt _ _ (fin pkt) _ _
        (λ b. (IsSocket-same s _ h refl refl h.address, Transition.last_fin r b, refl))
        (λ b. Answered-stay pkt _ _ s h e refl r)
  handle_state-Answered TcpState.closing h a e r =
      Answered-if pkt _ _ (ack pkt) _ _
        (λ b. (IsSocket-same s _ h refl refl h.address, Transition.last_ack r b, refl))
        (λ b. Answered-stay pkt _ _ s h e refl r)
  handle_state-Answered TcpState.closed h a e r = Answered-stay pkt _ _ s h e refl r
  handle_state-Answered TcpState.close_wait h a e r = Answered-stay pkt _ _ s h e refl r

-- A socket whose received bytes lie in its buffer handles every segment from an IPv4 address without
-- a panic: it stays such a socket, keeps its local port, and its state changes only as the
-- connection's transitions allow for the segment's flags. With a reset the only one leads to closed; all
-- others need its absence.
pub handle_pkt-Answered :
    (s : TcpSocket) (pkt : TcpPacket) (src : List ℕ)
    → IsSocket s
    → length src ≡ 4
    → Answered pkt s.state s.local_port (handle_pkt s pkt src)
unfolding handle_pkt
handle_pkt-Answered s pkt src h a =
    let noted : IsSocket (record s { last_seq = pkt.seq; last_ack = pkt.ack_no }) =
      IsSocket-same s _ h refl refl h.address in
    Answered-if pkt _ _ (rst pkt) _ _
      (λ b. (IsSocket-same s _ h refl refl h.address, Transition.reset b, refl))
      (λ b. handle_state-Answered _ pkt src s.state noted a refl b)
