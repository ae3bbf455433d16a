-- ===== src/Tests/Cluster.antt =====
-- The replicated maps at concrete inputs.
use mathlib.Core.Logic.{ite, if_pos, if_neg}
use mathlib.Core.Path.{subst}
use native.Mathlib.Decide.{ℕ_discrete}
use cable.Prelude.{ℕ, ◌^◌, ◌<◌, ◌≡◌, ◌≢◌, refl, [], ◌∷◌, none, some, length, arith}
use cable.Errors.{ok}
use cable.GoMap.{Bytes, Bytes-discrete, lookup, insert}
use cable.Coder.Varint.{groups, append_uvarint}
use cable.Coder.Encoder
use cable.Safe.RMap
use cable.Safe.RMap.{RMap, grow}
use cable.Safe.KeyMap
use cable.Safe.KeyMap.{KeyMap, Fields}
use cable.Safe.Lookups.{fields}
use cable.Cluster.State.{
  State, UserOpened, UserClosed, JoinChannel, Op, join, join_channels, with_links, add_user,
  user_opened_op, user_closed_op, apply_op,
}
use cable.Cluster.Links.{listed, recorded, IsRecorded, IsSmall}
use cable.Cluster.Nodes.{node, links}
use cable.Cluster.Effects.{listed-user_closed_op, recorded-user_closed_op}
use cable.Cluster.Joined.{listed-user_opened_op}
use cable.Cluster.Invariant.{IsValid, apply_op-IsValid}
use cable.Cluster.Log.{encode_op, apply_raft_op, write_op, write_user_closed, optype}
use cable.Cluster.LogTrip.{IsOp, apply_raft_op-encode_op}

abbrev alice : Bytes
alice = 1 ∷ []

abbrev phone : Bytes
phone = 2 ∷ []

abbrev news : Bytes
news = 3 ∷ []

abbrev pub tcp : Bytes
tcp = 4 ∷ []

abbrev no_clients : State
no_clients = record {
  user_clients = RMap.empty;
  channel_clients = RMap.empty;
  client_channels = RMap.empty;
}

abbrev opened : UserOpened
opened = record { uid = alice; cid = phone; net = tcp; node_id = 1; channels = (news, []) ∷ [] }

abbrev pub closed : UserClosed
closed = record { uid = alice; cid = phone; node_id = 1 }

abbrev of_phone : KeyMap Bytes
of_phone = record { entries = (alice, (phone, tcp) ∷ []) ∷ []; len = 1 }

-- The state with the one client.
abbrev pub one_client : State
one_client = record {
  user_clients = record { entries = (1, of_phone) ∷ []; len = 1 };
  channel_clients = record {
    entries = (1, record { entries = (news, (phone, tcp) ∷ []) ∷ []; len = 1 }) ∷ [];
    len = 1;
  };
  client_channels = record {
    entries = (1, record { entries = (phone, (news, tt) ∷ []) ∷ []; len = 1 }) ∷ [];
    len = 1;
  };
}

opened_client : user_opened_op opened no_clients ≡ one_client
unfolding user_opened_op with_links add_user join_channels join RMap.get_or_set RMap.get RMap.add
    RMap.modify RMap.empty KeyMap.set_key lookup insert ℕ_discrete Bytes-discrete grow
opened_client = refl

no_clients-IsValid : IsValid no_clients
unfolding IsValid IsRecorded links node KeyMap.get_key KeyMap.get RMap.get RMap.empty lookup
no_clients-IsValid = (tt, λ id channel cid net e. cc)

no_clients-IsSmall : (id : ℕ) → IsSmall (links id no_clients)
unfolding IsSmall links node fields KeyMap.get RMap.get RMap.empty lookup
no_clients-IsSmall id key = (omega arith, omega arith)

apply_op-IsValid_example : IsValid (apply_op (Op.user_opened opened) no_clients)
apply_op-IsValid_example =
    apply_op-IsValid (Op.user_opened opened) no_clients no_clients-IsSmall no_clients-IsValid

one_client-IsRecorded : IsRecorded (links 1 one_client)
unfolding IsValid apply_op
one_client-IsRecorded =
    subst (λ (s : State). IsRecorded (links 1 s)) opened_client (apply_op-IsValid_valid.1 1)
  where
    apply_op-IsValid_valid : IsValid (apply_op (Op.user_opened opened) no_clients)
    apply_op-IsValid_valid =
        apply_op-IsValid (Op.user_opened opened) no_clients no_clients-IsSmall no_clients-IsValid

one_field_IsSmall :
    {T : Type 0} (k f : Bytes) (v : T) (key : Bytes)
    → length (fields key (record { entries = (k, (f, v) ∷ []) ∷ []; len = 1 })) < 2 ^ 32
unfolding fields KeyMap.get RMap.get lookup
one_field_IsSmall k f v key = elim (Bytes-discrete k key) [
  | yes p ↦ rw (fields, if_pos (Bytes-discrete k key) p) (omega arith)
  | no p ↦ rw (fields, if_neg (Bytes-discrete k key) p) (omega arith)
]

one_client-IsSmall : IsSmall (links 1 one_client)
unfolding IsSmall links node RMap.get lookup ℕ_discrete
one_client-IsSmall key = (one_field_IsSmall news phone tcp key, one_field_IsSmall phone news tt key)

listed-user_closed_op_example :
    listed news phone (links 1 (user_closed_op closed one_client))
    ≡ ite (Bytes-discrete phone phone) none (listed news phone (links 1 one_client))
listed-user_closed_op_example =
    listed-user_closed_op closed one_client one_client-IsSmall one_client-IsRecorded news phone

other_name : alice ≢ news
other_name e = cc

recorded-user_closed_op_example :
    recorded phone news (links 1 (user_closed_op closed one_client))
    ≡ recorded phone news (links 1 one_client)
recorded-user_closed_op_example =
    recorded-user_closed_op closed one_client one_client-IsSmall news other_name

listed-user_opened_op_example :
    listed news phone (links 1 (user_opened_op opened no_clients)) ≡ some tcp
unfolding lookup Bytes-discrete ℕ_discrete
listed-user_opened_op_example = listed-user_opened_op opened no_clients news [] refl

abbrev sport : Bytes
sport = 5 ∷ []

abbrev joined : JoinChannel
joined = record { uid = alice; channels = (sport, []) ∷ [] }

closed-IsOp : IsOp (Op.user_closed closed)
unfolding IsOp
closed-IsOp = (omega arith, omega arith, omega arith)

closed_bytes :
    encode_op (Op.user_closed closed) ≡ 1 ∷ 1 ∷ 1 ∷ 1 ∷ 2 ∷ 0 ∷ 0 ∷ 0 ∷ 0 ∷ 0 ∷ 0 ∷ 0 ∷ 1 ∷ []
unfolding encode_op write_op write_user_closed optype Encoder.write_uint64 Encoder.write_string
    Encoder.write_data Encoder.write_varint Encoder.write_bytes Encoder.write_uint8
    Encoder.big_endian Encoder.new_encoder Encoder.pick append_uvarint groups
closed_bytes = refl

apply_raft_op-encode_op_example :
    apply_raft_op (encode_op (Op.user_closed closed)) one_client
    ≡ ok (apply_op (Op.user_closed closed) one_client)
apply_raft_op-encode_op_example =
    apply_raft_op-encode_op (Op.user_closed closed) one_client closed-IsOp
      (rw closed_bytes (omega arith))
