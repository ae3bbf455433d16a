-- ===== src/Cluster/Log.antt =====
-- The entries of the raft log, cluster/cluster_raft.go: how an operation is encoded for
-- `SubmitOperation`, and what `applyRaftOp` makes of it.
use cable.Prelude.{ℕ, [], ◌∷◌, if◌then◌else◌, ◌==◌}
use cable.Errors.{Result, ok, err, panic}
use cable.GoMap.{Bytes}
use cable.Coder.Encoder
use cable.Coder.Encoder.{Encoder}
use cable.Coder.Decoder
use cable.Coder.Decoder.{Read, and_then, return}
use cable.Cluster.State.{State, UserOpened, UserClosed, JoinChannel, LeaveChannel, Op, apply_op}

-- `optype` and `opt`
unfoldable pub optype : Op → ℕ
optype (Op.user_opened _) = 0
optype (Op.user_closed _) = 1
optype (Op.join_channel _) = 2
optype (Op.leave_channel _) = 3

unfoldable pub write_user_opened : UserOpened → Encoder → Encoder
write_user_opened op e = Encoder.write_str_map op.channels (
    Encoder.write_uint64 op.node_id
      (Encoder.write_string op.net (Encoder.write_string op.cid (Encoder.write_string op.uid e))))

unfoldable pub read_user_opened : Read UserOpened
read_user_opened = and_then Decoder.read_string λ uid. and_then Decoder.read_string λ cid.
    and_then Decoder.read_string λ net. and_then Decoder.read_uint64 λ node_id.
      and_then Decoder.read_str_map λ channels.
        return (record { uid = uid; cid = cid; net = net; node_id = node_id; channels = channels })

unfoldable pub write_user_closed : UserClosed → Encoder → Encoder
write_user_closed op e =
    Encoder.write_uint64 op.node_id (Encoder.write_string op.cid (Encoder.write_string op.uid e))

unfoldable pub read_user_closed : Read UserClosed
read_user_closed = and_then Decoder.read_string λ uid. and_then Decoder.read_string λ cid.
    and_then Decoder.read_uint64
      λ node_id. return (record { uid = uid; cid = cid; node_id = node_id })

unfoldable pub write_join_channel : JoinChannel → Encoder → Encoder
write_join_channel op e = Encoder.write_str_map op.channels (Encoder.write_string op.uid e)

unfoldable pub read_join_channel : Read JoinChannel
read_join_channel = and_then Decoder.read_string λ uid.
    and_then Decoder.read_str_map λ channels. return (record { uid = uid; channels = channels })

unfoldable pub write_leave_channel : LeaveChannel → Encoder → Encoder
write_leave_channel op e = Encoder.write_str_map op.channels (Encoder.write_string op.uid e)

unfoldable pub read_leave_channel : Read LeaveChannel
read_leave_channel = and_then Decoder.read_string λ uid.
    and_then Decoder.read_str_map λ channels. return (record { uid = uid; channels = channels })

unfoldable pub write_op : Op → Encoder → Encoder
write_op (Op.user_opened op) = write_user_opened op
write_op (Op.user_closed op) = write_user_closed op
write_op (Op.join_channel op) = write_join_channel op
write_op (Op.leave_channel op) = write_leave_channel op

-- The proposal that `SubmitOperation` makes.
unfoldable pub encode_op : Op → Bytes
encode_op op = Encoder.pick (write_op op (Encoder.write_uint8 (optype op) Encoder.new_encoder))

-- `coder.Unmarshal(data[1:], op)` and the operation; an error is logged and changes nothing.
unfoldable pub apply_read : {A : Type 0} → Read A → (A → Op) → Bytes → State → Result State
apply_read r wrap bytes s = elim (r (Decoder.new_decoder bytes)) [
  | ok (op, _) ↦ ok (apply_op (wrap op) s)
  | err _ ↦ ok s
  | panic ↦ panic
]

-- `data[0]` panics where there is no byte.
unfoldable pub apply_raft_op : Bytes → State → Result State
apply_raft_op [] s = panic
apply_raft_op (opt ∷ bytes) s =
    if opt == 0
    then apply_read read_user_opened Op.user_opened bytes s
    else if opt == 1
    then apply_read read_user_closed Op.user_closed bytes s
    else if opt == 2
    then apply_read read_join_channel Op.join_channel bytes s
    else if opt == 3
    then apply_read read_leave_channel Op.leave_channel bytes s
    else ok s
