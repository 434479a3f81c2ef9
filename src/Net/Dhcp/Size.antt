-- ===== src/Net/Dhcp/Size.antt =====
-- The length of what the client sends.
use wasm_os.Base.{
  ℕ, ◌≤◌, List, [], ◌∷◌, ◌++◌, length, length-append, Bool-cases, inl, inr, bytes_eq, ◌≡◌, arith,
}
use wasm_os.Net.Bytes.{by_six}
use wasm_os.Net.Dhcp.{DhcpClient, build_bootp, ip_option, no_ip}

length-ip_option : (tag : ℕ) (ip : List ℕ) → length ip ≡ 4 → length (ip_option tag ip) ≤ 6
unfolding ip_option
length-ip_option tag ip h = elim (Bool-cases (bytes_eq ip no_ip)) [
  | inl e ↦ rw e (omega arith)
  | inr e ↦ rw e (omega (arith, h))
]

pub length-build_bootp :
    (c : DhcpClient) (mac : List ℕ) (msg_type : ℕ) (requested_ip server_id : List ℕ)
    → length mac ≡ 6
    → length requested_ip ≡ 4
    → length server_id ≡ 4
    → length (build_bootp c mac msg_type requested_ip server_id) ≤ 300
unfolding build_bootp
length-build_bootp c mac msg_type requested_ip server_id m r s =
    let first = ip_option 50 requested_ip in
    let second = ip_option 54 server_id in
    let last : List ℕ = 55 ∷ 3 ∷ 1 ∷ 3 ∷ 51 ∷ 255 ∷ [] in
    by_six (λ mac. length (build_bootp c mac msg_type requested_ip server_id) ≤ 300)
      (λ a b d e f g. omega (
        arith,
        length-ip_option 50 requested_ip r,
        length-ip_option 54 server_id s,
        length-append first second,
        length-append (first ++ second) last,
      ))
      mac m
