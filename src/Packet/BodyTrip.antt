-- ===== src/Packet/BodyTrip.antt =====
-- The body of every packet type survives `WriteTo` and `ReadFrom`.
use cable.Prelude.{
  ◌^◌, ◌<◌, ◌≡◌, refl, ◌∙◌, [], ◌∷◌, ◌++◌, length, arith, append-nil, append_assoc, length-append,
  drop-length-append,
}
use cable.Prelude.Words.{IsU16}
use cable.Errors.{ok}
use cable.GoMap.{Bytes}
use cable.Coder.Encoder
use cable.Coder.Encoder.{Encoder}
use cable.Coder.Decoder
use cable.Coder.Decoder.{Read, Decoder, and_then, return}
use cable.Coder.RoundTrip.{
  at, Writes, RoundTrips, IsSized, then_trip, map_trip, uint8_trip, uint16_trip, string_trip,
}
use cable.Coder.Collections.{IsProps, uint8_map_trip}
use cable.Packet.Types.{
  Props, Identity, Connect, Connack, Message, Request, Response, Close, Packet,
}
use cable.Packet.Body.{
  write_props, read_props, write_identity, read_identity, write_connect, read_connect,
  write_connack, read_connack, write_message, read_message, write_request, read_request,
  write_response, read_response, write_close, read_close,
}

-- A write, and a read that takes the whole of the buffer behind it.
pub record EndsTrip {ℓ} {A : Type ℓ} (w : Encoder → Encoder) (r : Read A) (a : A) : Type ℓ where
  pub bytes : Bytes
  pub writes : Writes w bytes
  pub reads :
      (pre : Bytes)
      → length (pre ++ bytes) < 2 ^ 63
      → r (at pre bytes) ≡ ok (a, at (pre ++ bytes) [])

read_all-at : (bs pre : Bytes) → Decoder.read_all (at pre bs) ≡ ok (bs, at (pre ++ bs) [])
unfolding Decoder.read_all
read_all-at [] pre = rw (append-nil (pre ++ []), append-nil pre) (ground arith)
read_all-at (b ∷ bs) pre =
    rw (append-nil (pre ++ b ∷ bs))
      (ground (arith, drop-length-append pre (b ∷ bs), length-append pre (b ∷ bs)))

-- `WriteBytes`, and `ReadAll` behind it.
rest_trip : (p : Bytes) → EndsTrip (Encoder.write_bytes p) Decoder.read_all p
unfolding Encoder.write_bytes
rest_trip p = record { bytes = p; writes = λ e. refl; reads = λ pre h. read_all-at p pre }

pub end_trip {ℓ} :
    {A : Type ℓ} {r : Read A} {a : A} {w : Encoder → Encoder} → RoundTrips w r a → EndsTrip w r a
end_trip s = record {
  bytes = s.bytes;
  writes = s.writes;
  reads = λ pre h. rw (append-nil s.bytes) at (s.reads pre [] (rw append-nil h));
}

then_end {ℓ κ} :
    {A : Type ℓ} {B : Type κ} {r : Read A} (k : A → Read B) {a : A} {b : B}
    {w v : Encoder → Encoder}
    → RoundTrips w r a
    → EndsTrip v (k a) b
    → EndsTrip (λ e. v (w e)) (and_then r k) b
then_end {r} k {a} {b} s t = record {
  bytes = s.bytes ++ t.bytes;
  writes = λ e. rw (s.writes e, t.writes _, append_assoc);
  reads = λ pre h.
      let h' : length (pre ++ s.bytes ++ t.bytes) < 2 ^ 63 =
        rw (append_assoc pre s.bytes t.bytes) h in
      rw (s.reads pre t.bytes h', and_then)
        (t.reads (pre ++ s.bytes) h' ∙ rw (append_assoc pre s.bytes t.bytes));
}

map_end {ℓ κ} :
    {A : Type ℓ} {B : Type κ} {r : Read A} (f : A → B) {a : A} {w : Encoder → Encoder}
    → EndsTrip w r a
    → EndsTrip w (and_then r λ x. return (f x)) (f a)
map_end f s = record {
  bytes = s.bytes;
  writes = s.writes;
  reads = λ pre h. rw (s.reads pre h, and_then);
}

pub record IsIdentity (i : Identity) : Type 0 where
  pub user_sized : IsSized i.user_id
  pub client_sized : IsSized i.client_id
  pub password_sized : IsSized i.password

-- What a packet needs to survive the journey: few, distinct properties, an id of 16 bits, and strings
-- of a length that Go allows.
unfoldable pub IsSendable : Packet → Type 0
IsSendable (Packet.connect p) = IsProps p.props × IsIdentity p.identity
IsSendable (Packet.connack p) = IsProps p.props
IsSendable (Packet.message p) = IsProps p.props
IsSendable (Packet.request p) = IsProps p.props × IsU16 p.id × IsSized p.method
IsSendable (Packet.response p) = IsProps p.props × IsU16 p.id
IsSendable (Packet.ping p) = IsProps p.props
IsSendable (Packet.pong p) = IsProps p.props
IsSendable (Packet.close p) = IsProps p.props

pub props_trip : (m : Props) → IsProps m → RoundTrips (write_props m) read_props m
unfolding write_props read_props
props_trip m h = uint8_map_trip m h

pub identity_trip : (i : Identity) → IsIdentity i → RoundTrips (write_identity i) read_identity i
unfolding write_identity read_identity
identity_trip i h = then_trip _ (string_trip i.user_id h.user_sized) (
    then_trip _ (string_trip i.client_id h.client_sized) (
      map_trip (λ p. record { user_id = i.user_id; client_id = i.client_id; password = p })
        (string_trip i.password h.password_sized)))

pub connect_trip :
    (p : Connect)
    → IsProps p.props
    → IsIdentity p.identity
    → EndsTrip (write_connect p) read_connect p
unfolding write_connect read_connect
connect_trip p h i = end_trip (
    then_trip _ (uint8_trip p.version) (
      then_trip _ (identity_trip p.identity i) (
        map_trip (λ m. record { props = m; version = p.version; identity = p.identity })
          (props_trip p.props h))))

pub connack_trip : (p : Connack) → IsProps p.props → EndsTrip (write_connack p) read_connack p
unfolding write_connack read_connack
connack_trip p h = end_trip (
    then_trip _ (uint8_trip p.code)
      (map_trip (λ m. record { props = m; code = p.code }) (props_trip p.props h)))

pub close_trip : (p : Close) → IsProps p.props → EndsTrip (write_close p) read_close p
unfolding write_close read_close
close_trip p h = end_trip (
    then_trip _ (uint8_trip p.code)
      (map_trip (λ m. record { props = m; code = p.code }) (props_trip p.props h)))

pub message_trip : (p : Message) → IsProps p.props → EndsTrip (write_message p) read_message p
unfolding write_message read_message
message_trip p h = then_end _ (uint8_trip p.kind) (
    then_end _ (props_trip p.props h)
      (map_end (λ b. record { props = p.props; kind = p.kind; payload = b }) (rest_trip p.payload)))

pub request_trip :
    (p : Request)
    → IsProps p.props
    → IsU16 p.id
    → IsSized p.method
    → EndsTrip (write_request p) read_request p
unfolding write_request read_request
request_trip p h i s = then_end _ (uint16_trip p.id i) (
    then_end _ (string_trip p.method s) (
      then_end _ (props_trip p.props h) (
        map_end (λ b. record { props = p.props; id = p.id; method = p.method; body = b })
          (rest_trip p.body))))

pub response_trip :
    (p : Response) → IsProps p.props → IsU16 p.id → EndsTrip (write_response p) read_response p
unfolding write_response read_response
response_trip p h i = then_end _ (uint16_trip p.id i) (
    then_end _ (uint8_trip p.code) (
      then_end _ (props_trip p.props h) (
        map_end (λ b. record { props = p.props; id = p.id; code = p.code; body = b })
          (rest_trip p.body))))
