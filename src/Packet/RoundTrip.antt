-- ===== src/Packet/RoundTrip.antt =====
-- `Unmarshal` reads back what `Marshal` wrote.
use cable.Prelude.{
  ℕ, ◌+◌, ◌*◌, ◌^◌, ◌<◌, ◌≤◌, ◌≡◌, refl, ap, ◌∙◌, [], ◌++◌, length, arith, ◌⊎◌, inl, inr, replicate,
  ltb, ltb→lt, ltb→le, Bool-cases,
}
use cable.Errors.{ok, err, packet, packet_size_too_large}
use cable.GoMap.{Bytes}
use cable.Coder.Encoder
use cable.Coder.Encoder.{Encoder}
use cable.Coder.Decoder
use cable.Coder.Decoder.{Read}
use cable.Coder.RoundTrip.{Writes}
use cable.Packet.Types.{Packet, packet_type, type_code}
use cable.Packet.Body.{write_to}
use cable.Packet.BodyTrip.{
  EndsTrip, end_trip, IsSendable, props_trip, connect_trip, connack_trip, message_trip,
  request_trip, response_trip, close_trip,
}
use cable.Packet.Frame.{put_header, marshal, decode, unpack, unmarshal, max_len}
use cable.Packet.Header.{
  header, first_byte, extra_count-cases, put_header-header, put_header_too_large, read_frame-header,
}

decode_end {ℓ} :
    {A : Type ℓ} {w : Encoder → Encoder} {r : Read A} {a : A} (wrap : A → Packet)
    (s : EndsTrip w r a)
    → length s.bytes < 2 ^ 63
    → decode r wrap s.bytes ≡ ok (wrap a)
unfolding decode Decoder.new_decoder
decode_end wrap s h = rw (s.reads [] h)

-- The body of a packet, and what `unpack` makes of it behind a first byte with the packet's type.
record Trip (p : Packet) : Type 0 where
  bytes : Bytes
  writes : Writes (write_to p) bytes
  unpacks :
      (low : ℕ)
      → low < 16
      → length bytes < 2 ^ 63
      → unpack (type_code (packet_type p) * 16 + low) bytes ≡ ok p

Trip-by {ℓ} :
    {A : Type ℓ} {r : Read A} {a : A} {w : Encoder → Encoder} (wrap : A → Packet) (p : Packet)
    → EndsTrip w r a
    → write_to p ≡ w
    → wrap a ≡ p
    → ((low : ℕ) (bs : Bytes)
        → low < 16
        → unpack (type_code (packet_type p) * 16 + low) bs ≡ decode r wrap bs)
    → Trip p
Trip-by wrap p s e whole route = record {
  bytes = s.bytes;
  writes = rw e s.writes;
  unpacks = λ low l n. route low s.bytes l ∙ decode_end wrap s n ∙ ap ok whole;
}

trip : (p : Packet) → IsSendable p → Trip p
unfolding IsSendable write_to packet_type type_code unpack
trip (Packet.connect p) h =
    Trip-by Packet.connect _ (connect_trip p h.0 h.1) refl refl (λ low bs l. ground arith)
trip (Packet.connack p) h =
    Trip-by Packet.connack _ (connack_trip p h) refl refl (λ low bs l. ground arith)
trip (Packet.message p) h =
    Trip-by Packet.message _ (message_trip p h) refl refl (λ low bs l. ground arith)
trip (Packet.request p) h =
    Trip-by Packet.request _ (request_trip p h.0 h.1 h.2) refl refl (λ low bs l. ground arith)
trip (Packet.response p) h =
    Trip-by Packet.response _ (response_trip p h.0 h.1) refl refl (λ low bs l. ground arith)
trip (Packet.ping p) h =
    Trip-by (λ m. Packet.ping (record { props = m })) _ (end_trip (props_trip p.props h)) refl refl
      (λ low bs l. ground arith)
trip (Packet.pong p) h =
    Trip-by (λ m. Packet.pong (record { props = m })) _ (end_trip (props_trip p.props h)) refl refl
      (λ low bs l. ground arith)
trip (Packet.close p) h =
    Trip-by Packet.close _ (close_trip p h) refl refl (λ low bs l. ground arith)

-- The bytes of a packet's body.
pub body_of : Packet → Bytes
body_of p = Encoder.pick (write_to p Encoder.new_encoder)

pub type_code-lt : (p : Packet) → type_code (packet_type p) < 8
unfolding type_code packet_type
type_code-lt (Packet.connect p) = omega arith
type_code-lt _ = omega arith

-- `Marshal` puts the header in front of the body.
marshal-put_header :
    (p : Packet)
    → IsSendable p
    → marshal p
      ≡ put_header (type_code (packet_type p)) (length (body_of p)) (replicate 5 0 ++ body_of p)
unfolding marshal body_of Encoder.pick Encoder.new_encoder Encoder.write_bytes
marshal-put_header p h =
    let s = trip p h in
    rw (s.writes (record { buf = replicate 5 0 }), s.writes (record { buf = [] }))
      (ap (λ n. put_header (type_code (packet_type p)) n (replicate 5 0 ++ s.bytes)) (omega arith))

-- `Marshal` succeeds exactly on a body of 34 length bits, with a frame of two header bytes, the
-- extra length bytes and the body; for any other body it returns the size error.
pub marshal-cases :
    (p : Packet)
    → IsSendable p
    → ((length (body_of p) ≤ max_len)
        × (marshal p ≡ ok (header (type_code (packet_type p)) (length (body_of p)) ++ body_of p)))
      ⊎ ((max_len < length (body_of p)) × (marshal p ≡ err (packet packet_size_too_large)))
marshal-cases p h = elim (Bool-cases (ltb max_len (length (body_of p)))) [
  | inl large ↦
      inr (ltb→lt _ _ large, marshal-put_header p h ∙ put_header_too_large _ _ _ (ltb→lt _ _ large))
  | inr fits ↦ inl (
    ltb→le _ _ fits,
    marshal-put_header p h ∙ put_header-header _ _ _ (type_code-lt p) (ltb→le _ _ fits),
  )
]

Trip-body_of : (p : Packet) (s : Trip p) → body_of p ≡ s.bytes
unfolding body_of Encoder.pick Encoder.new_encoder
Trip-body_of p s = rw (s.writes (record { buf = [] }))

pub unpack-body_of :
    (p : Packet) (k hi : ℕ)
    → IsSendable p
    → k < 4
    → hi < 4
    → length (body_of p) ≤ max_len
    → unpack (first_byte (type_code (packet_type p)) k hi) (body_of p) ≡ ok p
unpack-body_of p k hi h hk hhi fits =
    let s = trip p h in
    let e = Trip-body_of p s in
    let low : first_byte (type_code (packet_type p)) k hi
        ≡ type_code (packet_type p) * 16 + (k * 4 + hi) =
      omega arith in
    rw (low, e) (s.unpacks (k * 4 + hi) (omega arith) (omega (arith, ap length e)))

-- `Unmarshal` on the frame of a packet, whatever follows the frame.
unmarshal-frame :
    (p : Packet) (rest : Bytes)
    → IsSendable p
    → length (body_of p) ≤ max_len
    → length (header (type_code (packet_type p)) (length (body_of p)) ++ body_of p ++ rest) < 2 ^ 63
    → unmarshal (header (type_code (packet_type p)) (length (body_of p)) ++ body_of p ++ rest)
      ≡ ok p
unfolding unmarshal Decoder.new_decoder
unmarshal-frame p rest h fits room =
    let (hk, hhi) = extra_count-cases (length (body_of p)) fits in
    rw
      (read_frame-header (type_code (packet_type p)) (body_of p) (type_code-lt p) fits [] rest room)
      (unpack-body_of p _ _ h hk hhi fits)

-- A packet that `Marshal` accepts comes back from `Unmarshal` as it was sent: its type, its properties
-- and each of its fields, whatever bytes follow the frame in the buffer. It has at most 255
-- properties, under distinct keys, and its fields and the buffer have the sizes of their Go types.
pub unmarshal-marshal :
    (p : Packet) (frame rest : Bytes)
    → IsSendable p
    → marshal p ≡ ok frame
    → length (frame ++ rest) < 2 ^ 63
    → unmarshal (frame ++ rest) ≡ ok p
unmarshal-marshal p frame rest h e room = elim (marshal-cases p h) [
  | inl (fits, m) ↦
      let whole : header (type_code (packet_type p)) (length (body_of p)) ++ body_of p ≡ frame =
        cc in
      rw (← whole) (unmarshal-frame p rest h fits (rw whole room))
  | inr (large, m) ↦ cc
]
