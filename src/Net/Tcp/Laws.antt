-- ===== src/Net/Tcp/Laws.antt =====
-- Segments on the wire: the checksum that make_tcp_packet fills in and what parsing gives back.
use wasm_os.Base.{ℕ, ◌+◌, ◌^◌, ◌≤◌, ◌<◌, List, All, some, length, ◌≡◌, refl, arith}
use wasm_os.Net.Bytes.{be16_value, be16_at-bound, be32_value, IsByte}
use wasm_os.Net.Ip.{add_words, fold_sum, fold_fuel, complement}
use wasm_os.Net.Ip.Laws.{
  words, words-bound, filled_sum, complement-bound, fold_sum-value, add_words-bound,
}
use wasm_os.Net.Tcp.Packet.{parse, make_tcp_packet, segment_with, pseudo_sum}

module _ (src_port dst_port seq ack flags window : ℕ) (payload src_ip dst_ip : List ℕ) where
  pub segment : ℕ → List ℕ
  unfolding segment_with
  segment sum = segment_with src_port dst_port seq ack flags window payload sum

  pub Sealed : ℕ → ℕ → Type 0
  Sealed sum f =
      (make_tcp_packet src_port dst_port seq ack flags window payload src_ip dst_ip
        ≡ some (segment sum))
      × (length (segment sum) ≡ 20 + length payload)
      × (fold_sum fold_fuel (add_words (pseudo_sum src_ip dst_ip (length (segment 0))) (segment 0))
          ≡ some f)
      × (sum ≡ complement f)

  seed-bound : pseudo_sum src_ip dst_ip (length (segment 0)) < 2 ^ 32
  unfolding pseudo_sum
  seed-bound = omega arith

  seed-small :
      All IsByte src_ip
      → All IsByte dst_ip
      → length payload ≤ 1460
      → pseudo_sum src_ip dst_ip (length (segment 0)) < 300000
  unfolding pseudo_sum segment
  seed-small bs bd len = omega (
    arith,
    be16_at-bound src_ip 0 bs,
    be16_at-bound src_ip 2 bs,
    be16_at-bound dst_ip 0 bd,
    be16_at-bound dst_ip 2 bd,
  )

  make-Sealed : (sum f : ℕ) × Sealed sum f
  unfolding Sealed segment make_tcp_packet
  make-Sealed =
      let seed = pseudo_sum src_ip dst_ip (length (segment 0)) in
      let (f, e, lt, q, p) =
        fold_sum-value (add_words seed (segment 0)) (add_words-bound seed (segment 0) seed-bound) in
      (complement f, f, (rw e refl, omega arith, e, refl))

  -- The receiver's sum over the pseudo-header and the segment is all ones.
  checksum-Sealed :
      (sum f : ℕ)
      → Sealed sum f
      → All IsByte payload
      → All IsByte src_ip
      → All IsByte dst_ip
      → length payload ≤ 1460
      → flags < 256
      → fold_sum fold_fuel (add_words (pseudo_sum src_ip dst_ip (length (segment 0))) (segment sum))
        ≡ some 65535
  unfolding Sealed segment words
  checksum-Sealed sum f sealed bytes bs bd len fl =
      let bound = words-bound payload bytes in
      let seed = seed-small bs bd len in
      let checksum : sum < 65536 = omega (arith, sealed.3, complement-bound f) in
      filled_sum (pseudo_sum src_ip dst_ip (length (segment 0))) f (segment 0) (segment sum)
        (omega arith) (omega (arith, seed, bound, fl)) sealed.2
        (omega (arith, be16_value sum checksum, sealed.3))

  pub parse-Sealed :
      (sum : ℕ)
      → src_port < 65536
      → dst_port < 65536
      → seq < 2 ^ 32
      → ack < 2 ^ 32
      → parse (segment sum)
        ≡ some (record {
          src_port = src_port;
          dst_port = dst_port;
          seq = seq;
          ack_no = ack;
          flags = flags;
          payload = payload;
        })
  unfolding segment parse
  parse-Sealed sum sp dp sq ak =
      ground (arith, be16_value src_port, be16_value dst_port, be32_value seq, be32_value ack)

  -- A segment is made without a panic, with a header of 20 bytes.
  pub make_tcp_packet-total :
      (sum : ℕ) × (make_tcp_packet src_port dst_port seq ack flags window payload src_ip dst_ip
        ≡ some (segment sum))
      × (length (segment sum) ≡ 20 + length payload)
  unfolding Sealed
  make_tcp_packet-total = let (sum, f, sealed) = make-Sealed in (sum, sealed.0, sealed.1)

  -- A segment with 16-bit ports, 32-bit numbers, a byte of flags and at most 1460 bytes of payload is
  -- made without a panic. With the pseudo-header its words sum, folded, to all ones, as a receiver
  -- demands, and parsing gives the fields back.
  pub parse-make_tcp_packet :
      src_port < 65536
      → dst_port < 65536
      → seq < 2 ^ 32
      → ack < 2 ^ 32
      → flags < 256
      → length payload ≤ 1460
      → All IsByte payload
      → All IsByte src_ip
      → All IsByte dst_ip
      → (bytes : List ℕ) × (make_tcp_packet src_port dst_port seq ack flags window payload src_ip
            dst_ip
          ≡ some bytes)
        × (fold_sum fold_fuel (add_words (pseudo_sum src_ip dst_ip (length bytes)) bytes)
            ≡ some 0xffff)
        × (parse bytes
            ≡ some (record {
              src_port = src_port;
              dst_port = dst_port;
              seq = seq;
              ack_no = ack;
              flags = flags;
              payload = payload;
            }))
  unfolding Sealed segment
  parse-make_tcp_packet sp dp sq ak fl len bytes bs bd =
      let (sum, f, sealed) = make-Sealed in
      (
        segment sum,
        sealed.0,
        checksum-Sealed sum f sealed bytes bs bd len fl,
        parse-Sealed sum sp dp sq ak,
      )
