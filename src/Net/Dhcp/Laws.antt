-- ===== src/Net/Dhcp/Laws.antt =====
-- The walk over the options ends, and what a reply does to the client.
use wasm_os.Base.{
  ℕ, zero, suc, ◌+◌, ◌-◌, ◌≤◌, ◌<◌, Bool, true, false, not, ◌||◌, ◌&&◌, List, Option, none, some,
  if_split, if_both, Bool-cases, length, get_or, drop, slice, length-take, length-drop, ltb, leb,
  ◌==◌, ==→eq, ltb→lt, ltb_false→le, bytes_eq, bytes_eq→eq, ◌≡◌, refl, inl, inr, arith,
}
use wasm_os.Net.Bytes.{be32_at}
use wasm_os.Net.Dhcp.{
  DhcpClient, DhcpState, DhcpAction, Found, note_option, walk_body, walk_options, react,
  handle_packet, nothing_found, magic, msg_offer, msg_ack, msg_nak,
}

pub length-slice : (bytes : List ℕ) (i n : ℕ) → i + n ≤ length bytes → length (slice bytes i n) ≡ n
length-slice bytes i n h = omega (arith, length-take n (drop i bytes), length-drop i bytes)

abbrev pub IsFound : Found → Type 0
IsFound f = length f.server_id ≡ 4

note_option-IsFound :
    (tag len : ℕ) (value : List ℕ) (f : Found)
    → length value ≡ len
    → IsFound f
    → IsFound (note_option tag len value f)
unfolding note_option
note_option-IsFound tag len value f e h = if_both IsFound (tag == 53 && leb 1 len) h (
    if_split IsFound (tag == 54 && leb 4 len) (λ t. length-slice value 0 4 (ground arith))
      (λ t.
        if_both IsFound (tag == 1 && leb 4 len) h (
          if_both IsFound (tag == 3 && leb 4 len) h
            (if_both IsFound (tag == 51 && leb 4 len) h h))))

-- A round that goes on goes forward, and what it found is well formed.
pub data Advances (i : ℕ) : Option (ℕ × Found) → Type 0 where
  stops : Advances i none
  goes_on : (j : ℕ) (g : Found) → i < j → IsFound g → Advances i (some (j, g))

walk_body-Advances :
    (bytes : List ℕ) (i : ℕ) (f : Found) → IsFound f → Advances i (walk_body bytes i f)
unfolding walk_body
walk_body-Advances bytes i f h =
    let tag = get_or bytes i 0 in
    let len = get_or bytes (1 + i) 0 in
    let value = slice bytes (2 + i) len in
    if_both (Advances i) (tag == 255) Advances.stops (
      if_both (Advances i) (tag == 0) (Advances.goes_on (1 + i) f (omega arith) h) (
        if_both (Advances i) (leb (length bytes) (1 + i)) Advances.stops (
          if_split (Advances i) (ltb (length bytes) (2 + i + len)) (λ t. Advances.stops)
            (λ t.
              let inside = length-slice bytes (2 + i) len (ground arith) in
              Advances.goes_on (2 + i + len) (note_option tag len value f) (omega arith)
                (note_option-IsFound tag len value f inside h)))))

-- The answer exists.
abbrev pub Walked : Option Found → Type 0
Walked o = (g : Found) × (o ≡ some g) × IsFound g

Walked-elim :
    (i : ℕ) (o : Option (ℕ × Found)) (f : Found) (next : ℕ → Found → Option Found)
    → Advances i o
    → IsFound f
    → ((j : ℕ) (g : Found) → i < j → IsFound g → Walked (next j g))
    → Walked (elim o [ none ↦ some f | some (j, g) ↦ next j g ])
Walked-elim i o f next Advances.stops h k = (f, refl, h)
Walked-elim i o f next (Advances.goes_on j g lt hg) h k = k j g lt hg

-- As much fuel as there are bytes behind the start, and one more, is enough.
pub walk_options-total :
    (fuel : ℕ) (bytes : List ℕ) (i : ℕ) (f : Found)
    → length bytes - i < fuel
    → IsFound f
    → Walked (walk_options fuel bytes i f)
unfolding walk_options
walk_options-total zero bytes i f h k = absurd (omega arith)
walk_options-total (suc fuel) bytes i f h k =
    if_split Walked (ltb i (length bytes))
      (λ t.
        Walked-elim i (walk_body bytes i f) f (walk_options fuel bytes)
          (walk_body-Advances bytes i f k) k
          (λ j g lt hg.
            walk_options-total fuel bytes j g (omega (arith, ltb→lt i (length bytes) t)) hg))
      (λ t. (f, refl, k))

-- A reply to this client: BOOTREPLY with the magic cookie and its transaction identifier.
pub record IsReply (c : DhcpClient) (bytes : List ℕ) : Type 0 where
  pub size : 240 ≤ length bytes
  pub op : get_or bytes 0 0 ≡ 2
  pub cookie : slice bytes 236 4 ≡ magic
  pub transaction : be32_at bytes 4 ≡ c.xid

or_false : (a b : Bool) → a || b ≡ false → (a ≡ false) × (b ≡ false)
or_false true b h = ground arith
or_false false b h = (refl, h)

not-false : (a : Bool) → not a ≡ false → a ≡ true
not-false true h = refl
not-false false h = ground arith

-- A packet that passes the tests is a reply.
IsReply-passed :
    (c : DhcpClient) (bytes : List ℕ)
    → (ltb (length bytes) 240
        || not (get_or bytes 0 0 == 2)
        || not (bytes_eq (slice bytes 236 4) magic)
        || not (be32_at bytes 4 == c.xid))
      ≡ false
    → IsReply c bytes
IsReply-passed c bytes t =
    let short = ltb (length bytes) 240 in
    let other_op = not (get_or bytes 0 0 == 2) in
    let other_cookie = not (bytes_eq (slice bytes 236 4) magic) in
    let (first, transaction) =
      or_false (short || other_op || other_cookie) (not (be32_at bytes 4 == c.xid)) t in
    let (second, cookie) = or_false (short || other_op) other_cookie first in
    let (long, op) = or_false short other_op second in
    record {
      size = ltb_false→le (length bytes) 240 long;
      op = ==→eq (get_or bytes 0 0) 2 (not-false (get_or bytes 0 0 == 2) op);
      cookie =
          bytes_eq→eq (slice bytes 236 4) magic
            (not-false (bytes_eq (slice bytes 236 4) magic) cookie);
      transaction =
          ==→eq (be32_at bytes 4) c.xid (not-false (be32_at bytes 4 == c.xid) transaction);
    }

-- The reply's options, walked to their end, are of a message type.
abbrev pub Says : List ℕ → ℕ → Type 0
Says bytes msg_type =
    (f : Found) × (walk_options (suc (length bytes)) bytes 240 nothing_found ≡ some f)
    × (f.msg_type ≡ msg_type)

-- What may become of the client, and what it asks the stack to do.
pub data Step (c : DhcpClient) (bytes : List ℕ) : DhcpClient → Option DhcpAction → Type 0 where
  ignored : Step c bytes c none
  offered :
      (d : DhcpClient)
      → IsReply c bytes
      → Says bytes msg_offer
      → c.state ≡ DhcpState.selecting
      → d.state ≡ DhcpState.requesting
      → d.offered_ip ≡ slice bytes 16 4
      → d.xid ≡ c.xid
      → Step c bytes d (some DhcpAction.send_request)
  acknowledged :
      (d : DhcpClient)
      → IsReply c bytes
      → Says bytes msg_ack
      → c.state ≡ DhcpState.requesting
      → d.state ≡ DhcpState.bound
      → d.offered_ip ≡ slice bytes 16 4
      → d.xid ≡ c.xid
      → Step c bytes d (some (DhcpAction.bound (slice bytes 16 4)))
  refused :
      (d : DhcpClient)
      → IsReply c bytes
      → Says bytes msg_nak
      → c.state ≡ DhcpState.requesting
      → d.state ≡ DhcpState.idle
      → d.xid ≡ c.xid
      → Step c bytes d (some DhcpAction.nak)

-- The client's addresses have their length.
pub record IsClient (c : DhcpClient) : Type 0 where
  pub offered : length c.offered_ip ≡ 4
  pub server : length c.server_ip ≡ 4

abbrev Reacts : DhcpClient → List ℕ → DhcpClient × Option DhcpAction → Type 0
Reacts c bytes r = Step c bytes r.0 r.1 × IsClient r.0

react-Reacts :
    (st : DhcpState) (c : DhcpClient) (bytes : List ℕ) (f : Found)
    → c.state ≡ st
    → IsClient c
    → IsReply c bytes
    → walk_options (suc (length bytes)) bytes 240 nothing_found ≡ some f
    → IsFound f
    → Reacts c bytes (react st c (slice bytes 16 4) f)
unfolding react
react-Reacts DhcpState.idle c bytes f e h r w k = (Step.ignored, h)
react-Reacts DhcpState.bound c bytes f e h r w k = (Step.ignored, h)
react-Reacts DhcpState.selecting c bytes f e h r w k =
    if_split (Reacts c bytes) (f.msg_type == msg_offer)
      (λ t. (
        Step.offered _ r (f, w, ==→eq f.msg_type msg_offer t) e refl refl refl,
        record { offered = length-slice bytes 16 4 (omega (arith, r.size)); server = k },
      ))
      (λ t. (Step.ignored, h))
react-Reacts DhcpState.requesting c bytes f e h r w k =
    if_split (Reacts c bytes) (f.msg_type == msg_ack)
      (λ t. (
        Step.acknowledged _ r (f, w, ==→eq f.msg_type msg_ack t) e refl refl refl,
        record { offered = length-slice bytes 16 4 (omega (arith, r.size)); server = h.server },
      ))
      (λ t.
        if_split (Reacts c bytes) (f.msg_type == msg_nak)
          (λ u. (
            Step.refused _ r (f, w, ==→eq f.msg_type msg_nak u) e refl refl,
            record { offered = h.offered; server = h.server },
          ))
          (λ u. (Step.ignored, h)))

-- The client handles every packet, however its options are cut off: the walk over them ends. It ignores
-- the packet unless it is a reply with its transaction identifier and the magic cookie, and then it
-- changes only from selecting to requesting by an offer, from requesting to bound by an
-- acknowledgement, with the address that the reply assigns, and from requesting to idle by a refusal.
pub handle_packet-Step :
    (c : DhcpClient) (bytes : List ℕ)
    → IsClient c
    → (d : DhcpClient) × (action : Option DhcpAction) × (handle_packet c bytes ≡ some (d, action))
      × Step c bytes d action
      × IsClient d
unfolding handle_packet
handle_packet-Step c bytes h =
    let (f, w, k) =
      walk_options-total (suc (length bytes)) bytes 240 nothing_found (omega arith) refl in
    elim (Bool-cases (
      ltb (length bytes) 240
      || not (get_or bytes 0 0 == 2)
      || not (bytes_eq (slice bytes 236 4) magic)
      || not (be32_at bytes 4 == c.xid))) [
        | inl t ↦ (c, none, rw t refl, Step.ignored, h)
        | inr t ↦
            let reply = IsReply-passed c bytes t in
            let reacts = react-Reacts c.state c bytes f refl h reply w k in
            (_, _, rw (t, w) refl, reacts.0, reacts.1)
      ]

-- The address that the client is bound to has its length.
pub Step-address :
    (c d : DhcpClient) (bytes ip : List ℕ)
    → Step c bytes d (some (DhcpAction.bound ip))
    → length ip ≡ 4
Step-address c d bytes ip (Step.acknowledged e r says a b f g) =
    length-slice bytes 16 4 (omega (arith, r.size))
