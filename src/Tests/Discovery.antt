-- ===== src/Tests/Discovery.antt =====
-- The discovery at concrete inputs.
use native.Mathlib.Decide.{ℕ_discrete}
use cable.Prelude.{ℕ, ◌*◌, ◌≡◌, refl, arith, false, [], ◌∷◌, some}
use cable.Errors.{ok}
use cable.GoMap
use cable.GoMap.{Bytes}
use cable.Coder.Encoder
use cable.Coder.Varint.{groups, append_uvarint}
use cable.Packet.Types.{packet_type, type_code, new_request, to_response}
use cable.Packet.Body.{write_to, write_props, write_request, write_response}
use cable.Packet.Frame.{put_header, marshal}
use cable.Discovery.{
  Discovery, Seen, is_expired, lifetime, body_of, write_node, heartbeat, update_node, listen, watch,
}
use cable.Discovery.Exchange.{IsNode, response_of, watch-listen-heartbeat}
use cable.Discovery.Nodes.{AreKeyed, IsNodeMap, update_node-IsNodeMap}

abbrev first : Discovery
first = record { id = 1; ipaddr = 10 ∷ []; all_nodes = []; notices = [] }

abbrev second : Discovery
second = record {
  id = 2;
  ipaddr = 20 ∷ [];
  all_nodes = (7, record { id = 7; addr = 30 ∷ []; update_time = 0 }) ∷ [];
  notices = [];
}

codec : Unit {0}
unfolding groups append_uvarint Encoder.new_encoder Encoder.pick Encoder.big_endian
    Encoder.write_uint8 Encoder.write_uint16 Encoder.write_uint64 Encoder.write_bytes
    Encoder.write_varint Encoder.write_data Encoder.write_string Encoder.write_uint8_entries
    Encoder.write_uint8_map write_props write_request write_response write_to packet_type type_code
    put_header marshal write_node body_of heartbeat response_of new_request to_response
codec = tt

abbrev announced : Bytes
announced =
    48 ∷ 23 ∷ 0 ∷ 0 ∷ 9 ∷ 100 ∷ 105 ∷ 115 ∷ 99 ∷ 111 ∷ 118 ∷ 101 ∷ 114 ∷ 121 ∷ 0 ∷ 0 ∷ 0 ∷ 0 ∷ 0 ∷ 0
    ∷ 0 ∷ 0 ∷ 1 ∷ 1 ∷ 10 ∷ []

heartbeat-first : heartbeat first ≡ ok announced
unfolding codec
heartbeat-first = refl

abbrev replied : Bytes
replied = 64 ∷ 14 ∷ 0 ∷ 0 ∷ 200 ∷ 0 ∷ 0 ∷ 0 ∷ 0 ∷ 0 ∷ 0 ∷ 0 ∷ 0 ∷ 2 ∷ 1 ∷ 20 ∷ []

marshal-response : marshal (response_of first second) ≡ ok replied
unfolding codec response_of
marshal-response = refl

first-IsNode : IsNode first
unfolding codec
first-IsNode = record { id_fits = omega arith; addr_sized = omega arith; body_sized = omega arith }

second-IsNode : IsNode second
unfolding codec
second-IsNode = record { id_fits = omega arith; addr_sized = omega arith; body_sized = omega arith }

second-IsNodeMap : IsNodeMap second.all_nodes
unfolding IsNodeMap AreKeyed
second-IsNodeMap = ((tt, tt), (refl, tt))

update_node-IsNodeMap_example :
    IsNodeMap (update_node (2 * lifetime) 1 (10 ∷ []) second).all_nodes
    × (GoMap.lookup ℕ_discrete 1 (update_node (2 * lifetime) 1 (10 ∷ []) second).all_nodes
        ≡ some (record { id = 1; addr = 10 ∷ []; update_time = 2 * lifetime }))
    × ((other : ℕ) (n : Seen)
        → GoMap.lookup ℕ_discrete other (update_node (2 * lifetime) 1 (10 ∷ []) second).all_nodes
          ≡ some n
        → is_expired (2 * lifetime) n ≡ false)
update_node-IsNodeMap_example =
    update_node-IsNodeMap (2 * lifetime) 1 (10 ∷ []) second second-IsNodeMap

watch-listen-heartbeat_example :
    (listen 5 announced second ≡ ok (some replied, update_node 5 1 (10 ∷ []) second))
    × (watch 6 replied first ≡ ok (update_node 6 2 (20 ∷ []) first))
watch-listen-heartbeat_example =
    watch-listen-heartbeat 5 6 first second announced replied first-IsNode second-IsNode
      heartbeat-first (omega arith) marshal-response (omega arith)
