-- ===== src/Net/Stack/Ports.antt =====
-- The search for a free ephemeral port ends.
use wasm_os.Base.{
  ℕ, zero, suc, ◌+◌, ◌%◌, ◌^◌, ◌≤◌, ◌<◌, true, false, Bool-cases, inl, inr, List, [], ◌∷◌, Option,
  none, some, length, leb, if◌then◌else◌, ◌≡◌, refl, arith,
}
use wasm_os.Net.Tcp.{TcpSocket}
use wasm_os.Net.Stack.State.{NetworkStack}
use wasm_os.Net.Stack.Api.{port_taken, alloc_loop, alloc_ephemeral_port}

-- How many sockets have a port that the search has not passed yet.
count_from : List (Option TcpSocket) → ℕ → ℕ
count_from [] port = 0
count_from (none ∷ slots) port = count_from slots port
count_from (some t ∷ slots) port =
    let others = count_from slots port in if leb port t.local_port then suc others else others

count_from-length :
    (slots : List (Option TcpSocket)) (port : ℕ) → count_from slots port ≤ length slots
unfolding count_from
count_from-length [] port = omega arith
count_from-length (none ∷ slots) port = omega (arith, count_from-length slots port)
count_from-length (some t ∷ slots) port = ground (arith, count_from-length slots port)

count_from-suc :
    (slots : List (Option TcpSocket)) (port : ℕ)
    → count_from slots (port + 1) ≤ count_from slots port
unfolding count_from
count_from-suc [] port = omega arith
count_from-suc (none ∷ slots) port = count_from-suc slots port
count_from-suc (some t ∷ slots) port = ground (arith, count_from-suc slots port)

count_from-taken :
    (slots : List (Option TcpSocket)) (port : ℕ)
    → port_taken slots port ≡ true
    → count_from slots (port + 1) < count_from slots port
unfolding count_from port_taken
count_from-taken [] port h = ground arith
count_from-taken (none ∷ slots) port h = count_from-taken slots port h
count_from-taken (some t ∷ slots) port h =
    ground (arith, count_from-taken slots port, count_from-suc slots port)

-- A round for each socket whose port lies ahead, and one more, is enough.
alloc_loop-total :
    (fuel : ℕ) (slots : List (Option TcpSocket)) (port : ℕ)
    → count_from slots port < fuel
    → port + fuel ≤ 65536
    → (p : ℕ) × (alloc_loop fuel slots port ≡ some p)
      × (port_taken slots p ≡ false)
      × (port ≤ p)
      × (p < 65536)
unfolding alloc_loop
alloc_loop-total zero slots port h k = absurd (omega arith)
alloc_loop-total (suc fuel) slots port h k = elim (Bool-cases (port_taken slots port)) [
  | inr e ↦ (port, rw e refl, e, omega arith, omega arith)
  | inl e ↦
      let ahead = count_from-taken slots port e in
      let (p, found, free, le, lt) =
        alloc_loop-total fuel slots (port + 1) (omega (arith, ahead)) (omega arith) in
      let no_wrap : (port + 1) % 2 ^ 16 ≡ port + 1 = omega (arith, ahead, h, k) in
      (p, rw (e, no_wrap) found, free, omega (arith, le), lt)
]

-- With at most 16383 slots the search for an ephemeral port ends, within one round more than there are
-- slots, at a port from 49152 on that no socket has.
pub alloc_ephemeral_port-total :
    (s : NetworkStack)
    → length s.tcp_sockets ≤ 16383
    → (p : ℕ) × (alloc_ephemeral_port s ≡ some p)
      × (port_taken s.tcp_sockets p ≡ false)
      × (49152 ≤ p)
      × (p < 65536)
unfolding alloc_ephemeral_port
alloc_ephemeral_port-total s h =
    alloc_loop-total (suc (length s.tcp_sockets)) s.tcp_sockets 49152
      (omega (arith, count_from-length s.tcp_sockets 49152)) (omega arith)
