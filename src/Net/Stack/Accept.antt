-- ===== src/Net/Stack/Accept.antt =====
-- What accepting a connection does to the table of sockets.
use wasm_os.Base.{
  ℕ, zero, suc, ◌<◌, List, [], ◌∷◌, Option, none, some, length, length-set, get_or, get_elem?, set,
  get_or-set_self, get_or-set_ne, get_or-get_elem?, ◌≢◌, ◌≡◌, refl, sym, ◌∙◌, arith, Option-cases,
  inl, inr,
}
use wasm_os.Net.Tcp.{TcpState, TcpSocket, listen}
use wasm_os.Net.Stack.State.{NetworkStack}
use wasm_os.Net.Stack.Receive.{position}
use wasm_os.Net.Stack.Api.{is_none, tcp_accept, accept_slot, accept_on, accept_at}

-- The slot that the search for a free one answers is free, and in the table.
position-free {ℓ} :
    {A : Type ℓ} (slots : List (Option A)) (d : Option A) (j : ℕ)
    → position is_none slots ≡ some j
    → (get_or slots j d ≡ none) × (j < length slots)
unfolding position
position-free [] d j h = ground arith
position-free (none ∷ slots) d zero h = (refl, omega arith)
position-free (none ∷ slots) d (suc j) h = ground arith
position-free (some t ∷ slots) d zero h = elim (Option-cases (position is_none slots)) [
  | inl n ↦ ground arith
  | inr (i, n) ↦ ground arith
]
position-free (some t ∷ slots) d (suc j) h =
    let (e, lt) = position-free slots d j (ground arith) in (e, omega arith)

-- Where the socket at an index is established and a slot is free, accepting answers the first free slot.
-- That slot now holds the connection, the index a fresh listener on the same port, and any other slot
-- what it held.
pub tcp_accept-moves :
    (s : NetworkStack) (i j k : ℕ) (t : TcpSocket)
    → get_elem? s.tcp_sockets i ≡ some (some t)
    → t.state ≡ TcpState.established
    → position is_none s.tcp_sockets ≡ some j
    → k ≢ i
    → k ≢ j
    → (u : NetworkStack) × (tcp_accept i s ≡ some (u, some j))
      × (get_or u.tcp_sockets j none ≡ some t)
      × (get_or u.tcp_sockets i none ≡ some (listen t.local_port))
      × (get_or u.tcp_sockets k none ≡ get_or s.tcp_sockets k none)
unfolding tcp_accept accept_slot accept_on accept_at
tcp_accept-moves s i j k t at_i est free ne ne' =
    let (e, lt) = get_or-get_elem? s.tcp_sockets i (some t) none at_i in
    let (f, lt') = position-free s.tcp_sockets none j free in
    let apart : i ≢ j = λ p. ground (arith, e, f, p) in
    let moved = set s.tcp_sockets j (some t) in
    (
      record s { tcp_sockets = set moved i (some (listen t.local_port)) },
      rw (at_i, est, free) refl,
      get_or-set_ne moved i j _ none apart ∙ get_or-set_self s.tcp_sockets j (some t) none lt',
      get_or-set_self moved i _ none (omega (arith, lt, length-set s.tcp_sockets j (some t))),
      get_or-set_ne moved i k _ none (λ p. ne (sym p))
          ∙ get_or-set_ne s.tcp_sockets j k (some t) none (λ p. ne' (sym p)),
    )
