-- ===== src/Cluster/LogTrip.antt =====
-- An operation that a node submits is the operation that every node applies, cluster/cluster_raft.go.
use cable.Prelude.{ℕ, ap, arith, ◌^◌, ◌<◌, ◌≡◌, refl, List, [], ◌∷◌, ◌++◌, length, All, append-nil}
use cable.Prelude.Words.{IsU64}
use cable.Errors.{ok}
use cable.GoMap.{Bytes, Bytes-discrete, Distinct}
use cable.Coder.Encoder
use cable.Coder.Encoder.{Encoder}
use cable.Coder.Decoder
use cable.Coder.Decoder.{Read}
use cable.Coder.RoundTrip.{RoundTrips, IsSized, then_trip, map_trip, string_trip, uint64_trip}
use cable.Coder.Collections.{EntrySized, str_map_trip}
use cable.Cluster.State.{State, UserOpened, UserClosed, JoinChannel, LeaveChannel, Op, apply_op}
use cable.Cluster.Log.{
  optype, write_user_opened, read_user_opened, write_user_closed, read_user_closed,
  write_join_channel, read_join_channel, write_leave_channel, read_leave_channel, write_op,
  encode_op, apply_read, apply_raft_op,
}

-- A Go map of strings, of lengths that Go allows.
unfoldable pub IsChannels : List (Bytes × Bytes) → Type 0
IsChannels m = IsSized m × All EntrySized m × Distinct Bytes-discrete m

-- The fields of an operation have the types and lengths that Go allows.
unfoldable pub IsOp : Op → Type 0
IsOp (Op.user_opened op) =
    IsSized op.uid × IsSized op.cid × IsSized op.net × IsU64 op.node_id × IsChannels op.channels
IsOp (Op.user_closed op) = IsSized op.uid × IsSized op.cid × IsU64 op.node_id
IsOp (Op.join_channel op) = IsSized op.uid × IsChannels op.channels
IsOp (Op.leave_channel op) = IsSized op.uid × IsChannels op.channels

user_opened_trip :
    (op : UserOpened)
    → IsOp (Op.user_opened op)
    → RoundTrips (write_user_opened op) read_user_opened op
unfolding IsOp IsChannels write_user_opened read_user_opened
user_opened_trip op (hu, hc, hn, hi, (hm, hs, hd)) = then_trip _ (string_trip op.uid hu) (
    then_trip _ (string_trip op.cid hc) (
      then_trip _ (string_trip op.net hn) (
        then_trip _ {v = Encoder.write_str_map op.channels} (uint64_trip op.node_id hi) (
          map_trip (λ channels. record op { channels = channels })
            (str_map_trip op.channels hm hs hd)))))

user_closed_trip :
    (op : UserClosed)
    → IsOp (Op.user_closed op)
    → RoundTrips (write_user_closed op) read_user_closed op
unfolding IsOp write_user_closed read_user_closed
user_closed_trip op (hu, hc, hi) = then_trip _ (string_trip op.uid hu) (
    then_trip _ {v = Encoder.write_uint64 op.node_id} (string_trip op.cid hc)
      (map_trip (λ id. record op { node_id = id }) (uint64_trip op.node_id hi)))

join_channel_trip :
    (op : JoinChannel)
    → IsOp (Op.join_channel op)
    → RoundTrips (write_join_channel op) read_join_channel op
unfolding IsOp IsChannels write_join_channel read_join_channel
join_channel_trip op (hu, (hm, hs, hd)) =
    then_trip _ {v = Encoder.write_str_map op.channels} (string_trip op.uid hu)
      (map_trip (λ channels. record op { channels = channels }) (str_map_trip op.channels hm hs hd))

leave_channel_trip :
    (op : LeaveChannel)
    → IsOp (Op.leave_channel op)
    → RoundTrips (write_leave_channel op) read_leave_channel op
unfolding IsOp IsChannels write_leave_channel read_leave_channel
leave_channel_trip op (hu, (hm, hs, hd)) =
    then_trip _ {v = Encoder.write_str_map op.channels} (string_trip op.uid hu)
      (map_trip (λ channels. record op { channels = channels }) (str_map_trip op.channels hm hs hd))

submitted :
    {A : Type 0} {w : Encoder → Encoder} {r : Read A} {a : A} (n : ℕ) (t : RoundTrips w r a)
    → Encoder.pick (w (Encoder.write_uint8 n Encoder.new_encoder)) ≡ n ∷ t.bytes
unfolding Encoder.pick Encoder.write_uint8 Encoder.new_encoder
submitted n t = rw (t.writes (record { buf = n ∷ [] })) refl

applied :
    {A : Type 0} {w : Encoder → Encoder} {r : Read A} {a : A} (wrap : A → Op) (s : State)
    (t : RoundTrips w r a)
    → length t.bytes < 2 ^ 63
    → apply_read r wrap t.bytes s ≡ ok (apply_op (wrap a) s)
unfolding apply_read Decoder.new_decoder
applied {r} {a} wrap s t room =
    let room' : length (t.bytes ++ []) < 2 ^ 63 = rw (append-nil t.bytes) room in
    rw (apply_read, rw (append-nil t.bytes) at (t.reads [] [] room')) refl

behind : {n : ℕ} {bs cs : Bytes} → bs ≡ n ∷ cs → length bs < 2 ^ 63 → length cs < 2 ^ 63
behind {n} {bs} {cs} e h = let e' = ap length e in omega arith

-- Every operation that a node submits is decoded and applied as it is, its type, its strings, its node
-- and its channels included: the log's operations on the maps are the ones submitted. The fields of
-- the operation and its encoding have the sizes of their Go types, the channels are distinct.
pub apply_raft_op-encode_op :
    (op : Op) (s : State)
    → IsOp op
    → length (encode_op op) < 2 ^ 63
    → apply_raft_op (encode_op op) s ≡ ok (apply_op op s)
unfolding apply_raft_op encode_op write_op optype
apply_raft_op-encode_op (Op.user_opened op) s h room =
    let t = user_opened_trip op h in
    rw (submitted 0 t) (applied Op.user_opened s t (behind (submitted 0 t) room))
apply_raft_op-encode_op (Op.user_closed op) s h room =
    let t = user_closed_trip op h in
    rw (submitted 1 t) (applied Op.user_closed s t (behind (submitted 1 t) room))
apply_raft_op-encode_op (Op.join_channel op) s h room =
    let t = join_channel_trip op h in
    rw (submitted 2 t) (applied Op.join_channel s t (behind (submitted 2 t) room))
apply_raft_op-encode_op (Op.leave_channel op) s h room =
    let t = leave_channel_trip op h in
    rw (submitted 3 t) (applied Op.leave_channel s t (behind (submitted 3 t) room))
