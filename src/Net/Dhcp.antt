-- ===== src/Net/Dhcp.antt =====
-- The DHCP client: kernel/src/drivers/netstack/dhcp.rs. An address is its list of bytes.
-- The allocation of a Vec is taken to succeed.
pub mod Laws
pub mod Size
use mathlib.Core.Option
use wasm_os.Base.{
  ℕ, zero, suc, ◌+◌, ◌*◌, ◌%◌, ◌^◌, Bool, ◌&&◌, ◌||◌, not, List, [], ◌∷◌, ◌++◌, Option, none, some,
  if◌then◌else◌, ltb, leb, ◌==◌, length, get_or, slice, replicate, bytes_eq,
}
use wasm_os.Net.Bytes.{be16, be32, be32_at}

abbrev pub client_port : ℕ
client_port = 68

abbrev pub server_port : ℕ
server_port = 67

abbrev pub msg_discover : ℕ
msg_discover = 1

abbrev pub msg_offer : ℕ
msg_offer = 2

abbrev pub msg_request : ℕ
msg_request = 3

abbrev pub msg_ack : ℕ
msg_ack = 5

abbrev pub msg_nak : ℕ
msg_nak = 6

abbrev pub magic : List ℕ
magic = 0x63 ∷ 0x82 ∷ 0x53 ∷ 0x63 ∷ []

abbrev pub no_ip : List ℕ
no_ip = 0 ∷ 0 ∷ 0 ∷ 0 ∷ []

pub data DhcpState : Type 0 where
  idle : DhcpState
  selecting : DhcpState
  requesting : DhcpState
  bound : DhcpState

pub record DhcpClient : Type 0 where
  pub state : DhcpState
  pub xid : ℕ
  pub offered_ip : List ℕ
  pub server_ip : List ℕ
  pub subnet_mask : List ℕ
  pub gateway : List ℕ
  pub lease_secs : ℕ

pub data DhcpAction : Type 0 where
  send_request : DhcpAction
  bound : (ip : List ℕ) → DhcpAction
  nak : DhcpAction

-- The transaction identifier is the last four bytes of the hardware address.
unfoldable pub new : List ℕ → DhcpClient
new mac = record {
  state = DhcpState.idle;
  xid = be32_at mac 2;
  offered_ip = no_ip;
  server_ip = no_ip;
  subnet_mask = no_ip;
  gateway = no_ip;
  lease_secs = 86400;
}

-- An option that carries an address, left out where the address is zero.
unfoldable pub ip_option : ℕ → List ℕ → List ℕ
ip_option tag ip = if bytes_eq ip no_ip then [] else tag ∷ 4 ∷ ip

-- The array up to the end option: the fixed fields with the zeros between them, then the options.
unfoldable pub build_bootp : DhcpClient → List ℕ → ℕ → List ℕ → List ℕ → List ℕ
unfolding ip_option
build_bootp c mac msg_type requested_ip server_id =
    (1 ∷ 1 ∷ 6 ∷ 0 ∷ be32 c.xid)
    ++ (0 ∷ 0 ∷ be16 0x8000)
    ++ replicate 16 0
    ++ mac
    ++ replicate 202 0
    ++ magic
    ++ (53 ∷ 1 ∷ msg_type ∷ [])
    ++ ip_option 50 requested_ip
    ++ ip_option 54 server_id
    ++ (55 ∷ 3 ∷ 1 ∷ 3 ∷ 51 ∷ 255 ∷ [])

unfoldable pub build_discover : DhcpClient → List ℕ → List ℕ
unfolding build_bootp
build_discover c mac = build_bootp c mac msg_discover no_ip no_ip

unfoldable pub build_request : DhcpClient → List ℕ → List ℕ
unfolding build_bootp
build_request c mac = build_bootp c mac msg_request c.offered_ip c.server_ip

-- What the walk over the options has found.
pub record Found : Type 0 where
  pub msg_type : ℕ
  pub server_id : List ℕ
  pub subnet_mask : List ℕ
  pub gateway : List ℕ
  pub lease_secs : ℕ

unfoldable pub note_option : ℕ → ℕ → List ℕ → Found → Found
note_option tag len value f =
    if tag == 53 && leb 1 len
    then record f { msg_type = get_or value 0 0 }
    else if tag == 54 && leb 4 len
    then record f { server_id = slice value 0 4 }
    else if tag == 1 && leb 4 len
    then record f { subnet_mask = slice value 0 4 }
    else if tag == 3 && leb 4 len
    then record f { gateway = slice value 0 4 }
    else if tag == 51 && leb 4 len
    then record f { lease_secs = be32_at value 0 }
    else f

-- The body of `while i < data.len()`: where and with what to go on, or `none` for `break`.
unfoldable pub walk_body : List ℕ → ℕ → Found → Option (ℕ × Found)
unfolding note_option
walk_body bytes i f =
    let tag = get_or bytes i 0 in
    let len = get_or bytes (1 + i) 0 in
    if tag == 255
    then none
    else if tag == 0
    then some (1 + i, f)
    else if leb (length bytes) (1 + i)
    then none
    else if ltb (length bytes) (2 + i + len)
    then none
    else some (2 + i + len, note_option tag len (slice bytes (2 + i) len) f)

-- The loop, on fuel.
unfoldable pub walk_options : ℕ → List ℕ → ℕ → Found → Option Found
unfolding walk_body
walk_options zero bytes i f = none
walk_options (suc fuel) bytes i f =
    let further : Option Found = elim (walk_body bytes i f) [
      | none ↦ some f
      | some (j, g) ↦ walk_options fuel bytes j g
    ] in
    if ltb i (length bytes) then further else some f

abbrev pub nothing_found : Found
nothing_found = record {
  msg_type = 0;
  server_id = no_ip;
  subnet_mask = no_ip;
  gateway = no_ip;
  lease_secs = 86400;
}

-- `match (self.state, msg_type)`
unfoldable pub react : DhcpState → DhcpClient → List ℕ → Found → DhcpClient × Option DhcpAction
react DhcpState.selecting c yiaddr f =
    if f.msg_type == msg_offer
    then (
      record c {
        offered_ip = yiaddr;
        server_ip = f.server_id;
        subnet_mask = f.subnet_mask;
        gateway = f.gateway;
        lease_secs = f.lease_secs;
        state = DhcpState.requesting;
      },
      some DhcpAction.send_request,
    )
    else (c, none)
react DhcpState.requesting c yiaddr f =
    if f.msg_type == msg_ack
    then (record c { offered_ip = yiaddr; state = DhcpState.bound }, some (DhcpAction.bound yiaddr))
    else if f.msg_type == msg_nak
    then (record c { state = DhcpState.idle }, some DhcpAction.nak)
    else (c, none)
react DhcpState.idle c yiaddr f = (c, none)
react DhcpState.bound c yiaddr f = (c, none)

-- `none` where the walk has no fuel left.
unfoldable pub handle_packet : DhcpClient → List ℕ → Option (DhcpClient × Option DhcpAction)
unfolding walk_options react
handle_packet c bytes =
    if ltb (length bytes) 240
      || not (get_or bytes 0 0 == 2)
      || not (bytes_eq (slice bytes 236 4) magic)
      || not (be32_at bytes 4 == c.xid)
    then some (c, none)
    else Option.map (react c.state c (slice bytes 16 4))
        (walk_options (suc (length bytes)) bytes 240 nothing_found)
