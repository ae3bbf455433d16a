-- ===== src/Discovery.antt =====
-- `discovery` of discovery/discovery.go, which finds the other nodes by multicast: a node announces itself in a
-- request, and a node that reads one replies with itself. A datagram is the bytes that a read returns. The
-- sockets, the clock and the log are left out; `listen` and `watch` run one after the other.
pub mod Exchange
pub mod Nodes
use native.Mathlib.Decide.{ℕ_discrete}
use cable.Prelude.{
  ℕ, ◌-◌, ◌*◌, Bool, true, false, List, [], ◌∷◌, ◌++◌, Option, none, some, if◌then◌else◌, ltb,
}
use cable.Errors.{Error, Result, ok, err, panic}
use cable.GoMap
use cable.GoMap.{Bytes, Bytes-discrete}
use cable.Coder.Encoder
use cable.Coder.Decoder
use cable.Coder.Decoder.{Read, and_then, return}
use cable.Packet.Types.{Packet, Request, Response, new_request, to_response, status_ok}
use cable.Packet.Frame.{marshal, unmarshal}

-- `node`
pub record Seen : Type 0 where
  pub id : ℕ
  pub addr : Bytes
  pub update_time : ℕ

-- The calls of the handler.
pub data Notice : Type 0 where
  joined : ℕ → Bytes → Notice
  left : ℕ → Notice

pub record Discovery : Type 0 where
  pub id : ℕ
  pub ipaddr : Bytes
  pub all_nodes : List (ℕ × Seen)
  pub notices : List Notice

-- Thirty seconds, in nanoseconds.
abbrev pub lifetime : ℕ
lifetime = 30 * 1000000000

-- `time.Since(n.updateTime) > time.Second*30`
unfoldable pub is_expired : ℕ → Seen → Bool
is_expired now n = ltb lifetime (now - n.update_time)

unfoldable pub forget : ℕ → Discovery → Discovery
forget id m = record m {
  all_nodes = GoMap.delete ℕ_discrete id m.all_nodes;
  notices = m.notices ++ left id ∷ [];
}

-- The loop over the nodes, whose keys are their ids.
unfoldable pub forget_expired : ℕ → List (ℕ × Seen) → Discovery → Discovery
forget_expired now [] m = m
forget_expired now ((_, n) ∷ ns) m =
    forget_expired now ns (if is_expired now n then forget n.id m else m)

unfoldable pub see : ℕ → ℕ → Bytes → Discovery → Discovery
see now id addr m = record m {
  all_nodes =
      GoMap.insert ℕ_discrete id (record { id = id; addr = addr; update_time = now }) m.all_nodes;
}

unfoldable pub notify : Notice → Discovery → Discovery
notify n m = record m { notices = m.notices ++ n ∷ [] }

-- `updateNode`
unfoldable pub update_node : ℕ → ℕ → Bytes → Discovery → Discovery
update_node now id addr m =
    let m' = see now id addr m in notify (joined id addr) (forget_expired now m'.all_nodes m')

-- The body of a request and of a response.
unfoldable pub write_node : ℕ → Bytes → Encoder.Encoder → Encoder.Encoder
write_node id addr e = Encoder.write_string addr (Encoder.write_uint64 id e)

unfoldable pub body_of : Discovery → Bytes
body_of m = Encoder.pick (write_node m.id m.ipaddr Encoder.new_encoder)

unfoldable pub read_node : Read (ℕ × Bytes)
read_node =
    and_then Decoder.read_uint64 λ id. and_then Decoder.read_string λ addr. return (id, addr)

-- "discovery"
abbrev pub method_discovery : Bytes
method_discovery = 100 ∷ 105 ∷ 115 ∷ 99 ∷ 111 ∷ 118 ∷ 101 ∷ 114 ∷ 121 ∷ []

-- `heartbeat`: the datagram for the group.
unfoldable pub heartbeat : Discovery → Result Bytes
heartbeat m = marshal (Packet.request (new_request method_discovery (body_of m)))

-- The datagram of a reply, which is empty if the packet cannot be encoded.
unfoldable pub reply_bytes : Result Bytes → Result (Option Bytes)
reply_bytes (ok bytes) = ok (some bytes)
reply_bytes (err _) = ok (some [])
reply_bytes panic = panic

-- What a turn of a loop sends back, and the state after it.
abbrev pub Turn : Type 0
Turn = Result (Option Bytes × Discovery)

unfoldable pub replying : Result (Option Bytes) → Discovery → Turn
replying (ok reply) m = ok (reply, m)
replying (err e) m = err e
replying panic m = panic

unfoldable pub answer : ℕ → Request → Discovery → Turn
answer now req m = elim (read_node (Decoder.new_decoder req.body)) [
  | ok ((id, addr), _) ↦
      let m' = update_node now id addr m in
      replying (reply_bytes (marshal (Packet.response (to_response req status_ok (body_of m'))))) m'
  | err _ ↦ ok (none, m)
  | panic ↦ panic
]

unfoldable pub is_discovery : Bytes → Bool
is_discovery method = elim (Bytes-discrete method method_discovery) [ yes _ ↦ true | no _ ↦ false ]

unfoldable pub on_request : ℕ → Packet → Discovery → Turn
on_request now p m = elim p [
  | Packet.request req ↦ if is_discovery req.method then answer now req m else ok (none, m)
  | _ ↦ ok (none, m)
]

-- A turn of the loop of `listen`: what does not make sense is logged, and ignored.
unfoldable pub listen : ℕ → Bytes → Discovery → Turn
listen now datagram m = elim (unmarshal datagram) [
  | ok p ↦ on_request now p m
  | err _ ↦ ok (none, m)
  | panic ↦ panic
]

unfoldable pub learn : ℕ → Response → Discovery → Result Discovery
learn now resp m = elim (read_node (Decoder.new_decoder resp.body)) [
  | ok ((id, addr), _) ↦ ok (update_node now id addr m)
  | err _ ↦ ok m
  | panic ↦ panic
]

unfoldable pub on_response : ℕ → Packet → Discovery → Result Discovery
on_response now p m = elim p [ Packet.response resp ↦ learn now resp m | _ ↦ ok m ]

-- A turn of the loop of `watch`.
unfoldable pub watch : ℕ → Bytes → Discovery → Result Discovery
watch now datagram m = elim (unmarshal datagram) [
  | ok p ↦ on_response now p m
  | err _ ↦ ok m
  | panic ↦ panic
]
