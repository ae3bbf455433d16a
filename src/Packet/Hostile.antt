-- ===== src/Packet/Hostile.antt =====
-- A frame from the network on which `Unmarshal` panics.
use cable.Prelude.{
  ℕ, ◌+◌, ◌/◌, ◌^◌, ◌≤◌, ◌<◌, ◌≡◌, [], ◌∷◌, ◌++◌, length, arith, length-append, append-nil,
}
use cable.Prelude.Words.{IsU64}
use cable.Errors.{panic}
use cable.GoMap.{Bytes}
use cable.Coder.Varint.{append_uvarint}
use cable.Coder.Decoder
use cable.Coder.Decoder.{and_then}
use cable.Coder.RoundTrip.{read_uint8-at}
use cable.Coder.Laws.{read_data-at_panic}
use cable.Packet.Body.{read_identity, read_connect}
use cable.Packet.Frame.{unmarshal, unpack, decode, max_len}
use cable.Packet.Header.{
  header, first_byte, extra_count, extra_count-cases, length-header, read_frame-header,
}

-- The body of a CONNECT packet: the version, and the user id with its length prefix.
abbrev pub connect_body : ℕ → ℕ → Bytes → Bytes
connect_body version l rest = version ∷ (append_uvarint [] l ++ rest)

read_connect_panic :
    (version l : ℕ) (rest : Bytes)
    → IsU64 l
    → 2 ^ 64 ≤ 1 + length (append_uvarint [] l) + l
    → length (connect_body version l rest) < 2 ^ 63
    → read_connect (Decoder.new_decoder (connect_body version l rest)) ≡ panic
unfolding read_connect read_identity Decoder.read_string Decoder.new_decoder
read_connect_panic version l rest u wraps room =
    let tail = append_uvarint [] l ++ rest in
    rw (read_uint8-at version [] tail room, and_then)
      (rw (read_data-at_panic (version ∷ []) l rest u (omega arith) room, and_then))

unpack_panic :
    (first version l : ℕ) (rest : Bytes)
    → first / 16 ≡ 0
    → IsU64 l
    → 2 ^ 64 ≤ 1 + length (append_uvarint [] l) + l
    → length (connect_body version l rest) < 2 ^ 63
    → unpack first (connect_body version l rest) ≡ panic
unfolding unpack decode
unpack_panic first version l rest type u wraps room =
    rw (type, read_connect_panic version l rest u wraps room)

-- The CONNECT frame of a user id whose length prefix wraps around panics in `Unmarshal`: a server
-- that reads it as the first packet of a connection does not return an error.
pub unmarshal_panics :
    (version l : ℕ) (rest : Bytes)
    → IsU64 l
    → 2 ^ 64 ≤ 1 + length (append_uvarint [] l) + l
    → length (connect_body version l rest) ≤ max_len
    → unmarshal (header 0 (length (connect_body version l rest)) ++ connect_body version l rest)
      ≡ panic
unfolding unmarshal Decoder.new_decoder
unmarshal_panics version l rest u wraps fits =
    let body = connect_body version l rest in
    let n = length body in
    let (hk, hhi) = extra_count-cases n fits in
    let first = first_byte 0 (extra_count n) (n / 256 ^ (extra_count n + 1)) in
    let room : length (header 0 n ++ body ++ []) < 2 ^ 63 =
      rw append-nil (omega (arith, length-append (header 0 n) body, length-header 0 n)) in
    let framed = read_frame-header 0 body (omega arith) fits [] [] room in
    rw (rw (append-nil (header 0 n ++ body)) at framed)
      (unpack_panic first version l rest (omega arith) u wraps (omega arith))
