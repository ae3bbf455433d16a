-- ===== src/Cluster/State.antt =====
-- The three maps of `broker` of cluster/broker.go and the operations of the raft log on them. Each
-- `KeyMap` is reached only through its node's entry, so that a change through its pointer is a
-- change of that entry.
use native.Mathlib.Decide.{ℕ_discrete}
use cable.Prelude.{ℕ, true, List, [], ◌∷◌, none, some}
use cable.GoMap.{Bytes}
use cable.Safe.RMap
use cable.Safe.RMap.{RMap}
use cable.Safe.KeyMap
use cable.Safe.KeyMap.{KeyMap}

-- node, then user, channel or client, then client or channel
pub record State : Type 0 where
  pub user_clients : RMap ℕ (KeyMap Bytes)
  pub channel_clients : RMap ℕ (KeyMap Bytes)
  pub client_channels : RMap ℕ (KeyMap Unit)

pub record UserOpened : Type 0 where
  pub uid : Bytes
  pub cid : Bytes
  pub net : Bytes
  pub node_id : ℕ
  pub channels : List (Bytes × Bytes)

pub record UserClosed : Type 0 where
  pub uid : Bytes
  pub cid : Bytes
  pub node_id : ℕ

pub record JoinChannel : Type 0 where
  pub uid : Bytes
  pub channels : List (Bytes × Bytes)

pub record LeaveChannel : Type 0 where
  pub uid : Bytes
  pub channels : List (Bytes × Bytes)

-- The two maps between the channels and the clients of one node.
pub record Links : Type 0 where
  pub channel_clients : KeyMap Bytes
  pub client_channels : KeyMap Unit

-- The body of `for channel := range op.channels` that joins, and the loop.
unfoldable pub join : Bytes → Bytes → Bytes → Links → Links
join cid net channel l = record {
  channel_clients = KeyMap.set_key channel cid net l.channel_clients;
  client_channels = KeyMap.set_key cid channel tt l.client_channels;
}

unfoldable pub join_channels : Bytes → Bytes → List (Bytes × Bytes) → Links → Links
join_channels cid net [] l = l
join_channels cid net ((channel, _) ∷ channels) l =
    join_channels cid net channels (join cid net channel l)

-- The body of the loop that leaves, and the loop.
unfoldable pub leave : Bytes → Bytes → Links → Links
leave cid channel l = record {
  channel_clients = KeyMap.delete_key channel cid l.channel_clients;
  client_channels = KeyMap.delete_key cid channel l.client_channels;
}

unfoldable pub leave_channels : Bytes → List (Bytes × Bytes) → Links → Links
leave_channels cid [] l = l
leave_channels cid ((channel, _) ∷ channels) l = leave_channels cid channels (leave cid channel l)

-- `GetOrSet` of a node's two maps with empty ones, and a change of what they lead to.
unfoldable pub with_links : ℕ → (Links → Links) → State → State
with_links id f s =
    let ((channels, _), by_channel) = RMap.get_or_set ℕ_discrete id RMap.empty s.channel_clients in
    let ((clients, _), by_client) = RMap.get_or_set ℕ_discrete id RMap.empty s.client_channels in
    let l = f (record { channel_clients = channels; client_channels = clients }) in
    record s {
      channel_clients = RMap.modify ℕ_discrete id l.channel_clients by_channel;
      client_channels = RMap.modify ℕ_discrete id l.client_channels by_client;
    }

unfoldable pub add_user : ℕ → Bytes → Bytes → Bytes → State → State
add_user id uid cid net s =
    let ((users, _), by_node) = RMap.get_or_set ℕ_discrete id RMap.empty s.user_clients in
    record s { user_clients = RMap.modify ℕ_discrete id (KeyMap.set_key uid cid net users) by_node }

unfoldable pub user_opened_op : UserOpened → State → State
user_opened_op op s =
    with_links op.node_id (join_channels op.cid op.net op.channels)
      (add_user op.node_id op.uid op.cid op.net s)

unfoldable pub remove_user : ℕ → Bytes → Bytes → State → State
remove_user id uid cid s = elim (RMap.get ℕ_discrete id s.user_clients) [
  | none ↦ s
  | some users ↦ record s {
    user_clients = RMap.modify ℕ_discrete id (KeyMap.delete_key uid cid users) s.user_clients;
  }
]

-- The deferred `clientChannels.DeleteKey(op.cid, op.uid)`.
unfoldable pub forget_client : UserClosed → KeyMap Unit → State → State
forget_client op clients s = record s {
  client_channels =
      RMap.modify ℕ_discrete op.node_id (KeyMap.delete_key op.cid op.uid clients) s.client_channels;
}

-- `clientChannels.RangeKey(op.cid, ...)`
unfoldable pub leave_all : Bytes → KeyMap Unit → KeyMap Bytes → KeyMap Bytes
leave_all cid clients channels =
    KeyMap.range_key cid (λ channel _ m. (true, KeyMap.delete_key channel cid m)) clients channels

unfoldable pub remove_client : UserClosed → KeyMap Unit → State → State
remove_client op clients s = elim (RMap.get ℕ_discrete op.node_id s.channel_clients) [
  | none ↦ forget_client op clients s
  | some channels ↦ forget_client op clients (record s {
    channel_clients =
        RMap.modify ℕ_discrete op.node_id (leave_all op.cid clients channels) s.channel_clients;
  })
]

unfoldable pub close_client : UserClosed → State → State
close_client op s = elim (RMap.get ℕ_discrete op.node_id s.client_channels) [
  | none ↦ s
  | some clients ↦ remove_client op clients s
]

unfoldable pub user_closed_op : UserClosed → State → State
user_closed_op op s = close_client op (remove_user op.node_id op.uid op.cid s)

-- `userClients.RangeKey(op.uid, ...)` on the links of one node.
unfoldable pub join_clients : JoinChannel → KeyMap Bytes → Links → Links
join_clients op users l =
    KeyMap.range_key op.uid (λ cid net l. (true, join_channels cid net op.channels l)) users l

unfoldable pub join_channel_op : JoinChannel → State → State
join_channel_op op s =
    RMap.range (λ id users s. (true, with_links id (join_clients op users) s)) s.user_clients s

unfoldable pub leave_clients : LeaveChannel → KeyMap Bytes → Links → Links
leave_clients op users l =
    KeyMap.range_key op.uid (λ cid net l. (true, leave_channels cid op.channels l)) users l

unfoldable pub leave_channel_op : LeaveChannel → State → State
leave_channel_op op s =
    RMap.range (λ id users s. (true, with_links id (leave_clients op users) s)) s.user_clients s

-- What `applyRemoveNode` does to the maps.
unfoldable pub remove_node : ℕ → State → State
remove_node id s = record {
  user_clients = (RMap.delete ℕ_discrete id s.user_clients).1;
  channel_clients = (RMap.delete ℕ_discrete id s.channel_clients).1;
  client_channels = (RMap.delete ℕ_discrete id s.client_channels).1;
}

-- `opdata`, the operations of the log.
pub data Op : Type 0 where
  user_opened : UserOpened → Op
  user_closed : UserClosed → Op
  join_channel : JoinChannel → Op
  leave_channel : LeaveChannel → Op

unfoldable pub apply_op : Op → State → State
apply_op (user_opened op) = user_opened_op op
apply_op (user_closed op) = user_closed_op op
apply_op (join_channel op) = join_channel_op op
apply_op (leave_channel op) = leave_channel_op op
