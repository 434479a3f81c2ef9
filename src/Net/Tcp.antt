-- ===== src/Net/Tcp.antt =====
-- The socket and its segments: kernel/src/drivers/netstack/tcp.rs. An address is its list of bytes; a
-- segment borrows its payload, here it holds it.
pub mod Packet
pub mod Laws
pub mod States
pub mod Session
use wasm_os.Base.{
  ℕ, ◌+◌, ◌-◌, ◌*◌, ◌%◌, ◌^◌, min, bit_and, Bool, true, false, ◌&&◌, ◌||◌, not, List, [], ◌∷◌,
  Option, none, some, if◌then◌else◌, ltb, ◌==◌, length, take, replicate, overwrite,
}
use wasm_os.Net.Tcp.Packet.{TcpPacket, syn, ack, fin, rst, tcp_syn, tcp_ack}

abbrev pub max_tcp_payload : ℕ
max_tcp_payload = 1460

pub data TcpState : Type 0 where
  closed : TcpState
  listening : TcpState
  syn_sent : TcpState
  syn_recv : TcpState
  established : TcpState
  fin_wait1 : TcpState
  fin_wait2 : TcpState
  close_wait : TcpState
  closing : TcpState

pub record TcpSocket : Type 0 where
  pub local_port : ℕ
  pub remote_port : ℕ
  pub remote_ip : List ℕ
  pub state : TcpState
  pub seq : ℕ
  pub ack : ℕ
  pub last_seq : ℕ
  pub last_ack : ℕ
  pub recv_buf : List ℕ
  pub recv_len : ℕ

pub record TcpReply : Type 0 where
  pub flags : ℕ
  pub seq : ℕ
  pub ack : ℕ

unfoldable pub listen : ℕ → TcpSocket
listen port = record {
  local_port = port;
  remote_port = 0;
  remote_ip = replicate 4 0;
  state = TcpState.listening;
  seq = 1;
  ack = 0;
  last_seq = 0;
  last_ack = 0;
  recv_buf = replicate max_tcp_payload 0;
  recv_len = 0;
}

unfoldable pub connect : ℕ → TcpSocket
connect local_port = record {
  local_port = local_port;
  remote_port = 0;
  remote_ip = replicate 4 0;
  state = TcpState.syn_sent;
  seq = 1000;
  ack = 0;
  last_seq = 0;
  last_ack = 0;
  recv_buf = replicate max_tcp_payload 0;
  recv_len = 0;
}

-- A segment's effect: the socket and the segment to answer with; `none` is a panic.
abbrev Outcome : Type 0
Outcome = Option (TcpSocket × Option TcpReply)

-- `Some(TcpReply { flags, seq: self.seq, ack: self.ack })`
abbrev reply_with : ℕ → TcpSocket → Outcome
reply_with flags s = some (s, some (record { flags = flags; seq = s.seq; ack = s.ack }))

abbrev no_reply : TcpSocket → Outcome
no_reply s = some (s, none)

unfoldable pub on_listen : TcpSocket → TcpPacket → List ℕ → Outcome
on_listen s pkt src =
    if syn pkt && not (ack pkt)
    then reply_with 0x12 (record s {
      remote_ip = src;
      remote_port = pkt.src_port;
      ack = (pkt.seq + 1) % 2 ^ 32;
      state = TcpState.syn_recv;
    })
    else no_reply s

unfoldable pub on_syn_sent : TcpSocket → TcpPacket → List ℕ → Outcome
on_syn_sent s pkt src =
    if syn pkt && ack pkt
    then reply_with tcp_ack
        (record s { seq = pkt.ack_no; ack = (pkt.seq + 1) % 2 ^ 32; state = TcpState.established })
    else if syn pkt
    then reply_with 0x12 (record s {
      remote_ip = src;
      remote_port = pkt.src_port;
      ack = (pkt.seq + 1) % 2 ^ 32;
      state = TcpState.syn_recv;
    })
    else no_reply s

unfoldable pub on_syn_recv : TcpSocket → TcpPacket → Outcome
on_syn_recv s pkt =
    if ack pkt
    then no_reply (record s { seq = (s.seq + 1) % 2 ^ 32; state = TcpState.established })
    else no_reply s

-- The copy panics where the received length has run past the buffer.
unfoldable pub on_payload : TcpSocket → TcpPacket → Outcome
on_payload s pkt =
    let n = min (length pkt.payload) (max_tcp_payload - s.recv_len) in
    if ltb max_tcp_payload s.recv_len
    then none
    else reply_with tcp_ack (record s {
      recv_buf = overwrite s.recv_buf s.recv_len (take n pkt.payload);
      recv_len = s.recv_len + n;
      ack = (pkt.seq + length pkt.payload % 2 ^ 32) % 2 ^ 32;
    })

unfoldable pub on_established : TcpSocket → TcpPacket → Outcome
unfolding on_payload
on_established s pkt =
    if fin pkt
    then reply_with tcp_ack (record s { ack = (pkt.seq + 1) % 2 ^ 32; state = TcpState.close_wait })
    else if not (length pkt.payload == 0)
    then on_payload s pkt
    else no_reply s

unfoldable pub on_fin_wait1 : TcpSocket → TcpPacket → Outcome
on_fin_wait1 s pkt =
    if fin pkt && ack pkt
    then reply_with tcp_ack (record s { ack = (pkt.seq + 1) % 2 ^ 32; state = TcpState.closed })
    else if fin pkt
    then reply_with tcp_ack (record s { ack = (pkt.seq + 1) % 2 ^ 32; state = TcpState.closing })
    else if ack pkt
    then no_reply (record s { state = TcpState.fin_wait2 })
    else no_reply s

unfoldable pub on_fin_wait2 : TcpSocket → TcpPacket → Outcome
on_fin_wait2 s pkt =
    if fin pkt
    then reply_with tcp_ack (record s { ack = (pkt.seq + 1) % 2 ^ 32; state = TcpState.closed })
    else no_reply s

unfoldable pub on_closing : TcpSocket → TcpPacket → Outcome
on_closing s pkt = if ack pkt then no_reply (record s { state = TcpState.closed }) else no_reply s

-- The match on the state.
unfoldable pub handle_state : TcpState → TcpSocket → TcpPacket → List ℕ → Outcome
unfolding on_listen on_syn_sent on_syn_recv on_established on_fin_wait1 on_fin_wait2 on_closing
handle_state TcpState.listening s pkt src = on_listen s pkt src
handle_state TcpState.syn_sent s pkt src = on_syn_sent s pkt src
handle_state TcpState.syn_recv s pkt src = on_syn_recv s pkt
handle_state TcpState.established s pkt src = on_established s pkt
handle_state TcpState.fin_wait1 s pkt src = on_fin_wait1 s pkt
handle_state TcpState.fin_wait2 s pkt src = on_fin_wait2 s pkt
handle_state TcpState.closing s pkt src = on_closing s pkt
handle_state TcpState.closed s pkt src = no_reply s
handle_state TcpState.close_wait s pkt src = no_reply s

unfoldable pub handle_pkt : TcpSocket → TcpPacket → List ℕ → Outcome
unfolding handle_state
handle_pkt s pkt src =
    let noted = record s { last_seq = pkt.seq; last_ack = pkt.ack_no } in
    if rst pkt
    then no_reply (record noted { state = TcpState.closed })
    else handle_state s.state noted pkt src

-- The socket afterwards and, unless nothing was received, the buffer and the count.
unfoldable pub recv : TcpSocket → List ℕ → TcpSocket × Option (List ℕ × ℕ)
recv s buf =
    let n = min s.recv_len (length buf) in
    if s.recv_len == 0
    then (s, none)
    else (record s { recv_len = 0 }, some (overwrite buf 0 (take n s.recv_buf), n))
