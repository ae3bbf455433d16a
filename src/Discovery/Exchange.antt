-- ===== src/Discovery/Exchange.antt =====
-- How two nodes find each other by the messages of discovery/discovery.go.
use cable.Prelude.{
  ℕ, arith, ◌^◌, ◌<◌, ◌++◌, ◌≡◌, refl, ap, ◌∙◌, List, [], ◌∷◌, some, length, append-nil, if_elim,
}
use mathlib.Core.Path.{subst}
use cable.Prelude.Words.{IsU64}
use cable.Errors.{ok}
use cable.GoMap.{Bytes, Bytes-discrete}
use cable.Coder.Encoder
use cable.Coder.Encoder.{Encoder}
use cable.Coder.Decoder
use cable.Coder.Decoder.{Decoder}
use cable.Coder.RoundTrip.{RoundTrips, IsSized, then_trip, map_trip, uint64_trip, string_trip}
use cable.Coder.Collections.{IsProps}
use cable.Packet.Types.{Packet, new_request, to_response, status_ok}
use cable.Packet.Frame.{marshal, unmarshal}
use cable.Packet.BodyTrip.{IsSendable}
use cable.Packet.RoundTrip.{unmarshal-marshal}
use cable.Discovery.{
  Discovery, Seen, forget, forget_expired, see, notify, update_node, is_expired, write_node,
  body_of, read_node, method_discovery, heartbeat, reply_bytes, replying, answer, is_discovery,
  on_request, listen, learn, on_response, watch,
}

-- What Go's types say of a node: its id has 64 bits, and its address and its body a length.
pub record IsNode (m : Discovery) : Type 0 where
  pub id_fits : IsU64 m.id
  pub addr_sized : IsSized m.ipaddr
  pub body_sized : IsSized (body_of m)

node_trip :
    (id : ℕ) (addr : Bytes)
    → IsU64 id
    → IsSized addr
    → RoundTrips (write_node id addr) read_node (id, addr)
unfolding write_node read_node
node_trip id addr u s =
    then_trip _ (uint64_trip id u) (map_trip (λ a. (id, a)) (string_trip addr s))

-- The body of a node reads back.
read_node-body_of :
    (m : Discovery)
    → IsNode m
    → (d : Decoder) × (read_node (Decoder.new_decoder (body_of m)) ≡ ok ((m.id, m.ipaddr), d))
unfolding body_of Encoder.pick Encoder.new_encoder Decoder.new_decoder
read_node-body_of m h =
    let t = node_trip m.id m.ipaddr h.id_fits h.addr_sized in
    let written : body_of m ≡ t.bytes =
      ap (λ (e : Encoder). e.buf) (t.writes Encoder.new_encoder) in
    let room : length (t.bytes ++ []) < 2 ^ 63 =
      rw append-nil (subst (λ (bs : Bytes). length bs < 2 ^ 63) written h.body_sized) in
    let whole : body_of m ≡ t.bytes ++ [] = rw append-nil written in
    (_, ap (λ (bs : Bytes). read_node (Decoder.new_decoder bs)) whole ∙ t.reads [] [] room)

-- A node keeps its own id and address.
forget_expired-body_of :
    (now : ℕ) (ns : List (ℕ × Seen)) (m : Discovery) → body_of (forget_expired now ns m) ≡ body_of m
unfolding forget_expired forget body_of
forget_expired-body_of now [] m = refl
forget_expired-body_of now ((_, n) ∷ ns) m =
    forget_expired-body_of now ns _
    ∙ if_elim (λ (x : Discovery). body_of x ≡ body_of m) (is_expired now n) _ _ (λ _. refl)
        (λ _. refl)

update_node-body_of :
    (now id : ℕ) (addr : Bytes) (m : Discovery) → body_of (update_node now id addr m) ≡ body_of m
unfolding update_node see notify body_of
update_node-body_of now id addr m = forget_expired-body_of now _ (see now id addr m)

-- A datagram that holds a whole packet.
unmarshal-datagram :
    (p : Packet) (frame : Bytes)
    → IsSendable p
    → marshal p ≡ ok frame
    → IsSized frame
    → unmarshal frame ≡ ok p
unmarshal-datagram p frame h e room =
    let whole : frame ++ [] ≡ frame = append-nil frame in
    subst (λ (bs : Bytes). unmarshal bs ≡ ok p) whole
      (unmarshal-marshal p frame [] h e (rw whole room))

nil-IsProps : IsProps []
nil-IsProps = record { few = omega arith; sized = tt; distinct = tt }

-- The request of a heartbeat, and the reply to it.
request_of : Discovery → Packet
request_of a = Packet.request (new_request method_discovery (body_of a))

unfoldable pub response_of : Discovery → Discovery → Packet
response_of a b =
    Packet.response (to_response (new_request method_discovery (body_of a)) status_ok (body_of b))

request_of-IsSendable : (a : Discovery) → IsSendable (request_of a)
unfolding request_of IsSendable new_request
request_of-IsSendable a = (nil-IsProps, omega arith, omega arith)

response_of-IsSendable : (a b : Discovery) → IsSendable (response_of a b)
unfolding response_of IsSendable new_request to_response
response_of-IsSendable a b = (nil-IsProps, omega arith)

answer-body_of :
    (now : ℕ) (a b : Discovery) (reply : Bytes)
    → IsNode a
    → marshal (response_of a b) ≡ ok reply
    → answer now (new_request method_discovery (body_of a)) b
      ≡ ok (some reply, update_node now a.id a.ipaddr b)
unfolding answer new_request replying reply_bytes response_of to_response
answer-body_of now a b reply h e =
    let (_, back) = read_node-body_of a h in
    rw (answer, back, update_node-body_of now a.id a.ipaddr b, e) refl

learn-body_of :
    (later : ℕ) (a b : Discovery)
    → IsNode b
    → learn later (to_response (new_request method_discovery (body_of a)) status_ok (body_of b)) a
      ≡ ok (update_node later b.id b.ipaddr a)
unfolding learn to_response
learn-body_of later a b h = let (_, back) = read_node-body_of b h in rw (learn, back) refl

-- A node that reads the heartbeat of another records it and replies, and the other, which reads the reply,
-- records the node, where the two datagrams can be encoded.
pub watch-listen-heartbeat :
    (now later : ℕ) (a b : Discovery) (frame reply : Bytes)
    → IsNode a
    → IsNode b
    → heartbeat a ≡ ok frame
    → IsSized frame
    → marshal (response_of a b) ≡ ok reply
    → IsSized reply
    → (listen now frame b ≡ ok (some reply, update_node now a.id a.ipaddr b))
      × (watch later reply a ≡ ok (update_node later b.id b.ipaddr a))
unfolding heartbeat listen watch on_request on_response is_discovery request_of response_of
    new_request Bytes-discrete answer
watch-listen-heartbeat now later a b frame reply ha hb e short answered reply_short = (
  rw (listen, unmarshal-datagram (request_of a) frame (request_of-IsSendable a) e short)
      (answer-body_of now a b reply ha answered),
  rw
      (
        watch,
        unmarshal-datagram (response_of a b) reply (response_of-IsSendable a b) answered
            reply_short,
      )
      (learn-body_of later a b hb),
)
