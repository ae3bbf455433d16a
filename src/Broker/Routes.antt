-- ===== src/Broker/Routes.antt =====
-- `broker` of cluster/broker.go: what it sends, asks and kicks over the nodes of the cluster, by the maps
-- that the raft log replicates, and what it does when a user connects, asks or leaves. The goroutines of a
-- call run one after the other, in the order in which they start. The program and the raft node are
-- parameters; the log is left out.
use native.Mathlib.Decide.{ℕ_discrete}
use cable.Prelude.{
  ℕ, ◌+◌, ◌%◌, ◌^◌, Bool, true, false, List, [], ◌∷◌, Option, none, some, if◌then◌else◌, ◌==◌, ◌⊎◌,
  inl, inr,
}
use cable.Errors.{Error, XError, Result, ok, err, panic}
use cable.GoMap
use cable.GoMap.{Bytes, Bytes-discrete}
use cable.Safe.RMap
use cable.Safe.RMap.{RMap}
use cable.Safe.KeyMap
use cable.Safe.KeyMap.{KeyMap}
use cable.Packet.Types.{Identity, Connect, Message, Request, status_not_found}
use cable.Network.Conn.{Waits}
use cable.Cluster.State.{State, Op}
use cable.Broker.Listeners
use cable.Broker.Listeners.{Listeners}
use cable.Broker.Peers
use cable.Broker.Peers.{Grpc, Peer}

-- `Handler` of the program, and `SubmitOperation` of the node. An error of `GetUserChannels` leaves no
-- channels.
pub record Program (X : Type 0) : Type 0 where
  pub on_user_connect : Connect → X → ℕ × X
  pub get_user_channels : Bytes → X → List (Bytes × Bytes)
  pub on_user_closed : Identity → X → X
  pub submit : Op → X → Option Error × X

pub record Broker (S X : Type 0) : Type 0 where
  pub node_id : ℕ
  pub state : State
  pub listeners : Listeners S
  pub peers : List (ℕ × Peer S)
  -- `requstHandlers`
  pub handlers : List (Bytes × (Request → Identity → X → (Error ⊎ Bytes) × X))
  pub program : X

-- Two atomic int32 counters, and what a peer adds to them.
abbrev pub Totals : Type 0
Totals = ℕ × ℕ

unfoldable pub sum : Totals → Totals → Totals
sum (t, s) (t', s') = ((t + t') % 2 ^ 32, (s + s') % 2 ^ 32)

unfoldable pub counted : Result Totals → Totals
counted (ok r) = r
counted (err _) = (0, 0)
counted panic = (0, 0)

module _ {S X : Type 0} where
  unfoldable pub put_peer : ℕ → Peer S → Broker S X → Broker S X
  put_peer id p b = record b { peers = GoMap.insert ℕ_discrete id p b.peers }

  -- `HandleRequest`
  unfoldable pub handle_request :
      Bytes → (Request → Identity → X → (Error ⊎ Bytes) × X) → Broker S X → Broker S X
  handle_request method f b = record b {
    handlers = GoMap.insert Bytes-discrete method f b.handlers;
  }

  unfoldable pub on_user_request : Request → Identity → Broker S X → (Error ⊎ Bytes) × Broker S X
  on_user_request p id b = elim (GoMap.lookup Bytes-discrete p.method b.handlers) [
    | none ↦ (inl (Error.status_code status_not_found), b)
    | some f ↦ let (r, x) = f p id b.program in (r, record b { program = x })
  ]

  -- `ListUsers`, which copies the maps of a node.
  unfoldable pub list_users : ℕ → Broker S X → Error ⊎ (List (Bytes × List (Bytes × Bytes)))
  list_users id b = elim (RMap.get ℕ_discrete id b.state.user_clients) [
    | none ↦ inl (Error.xerr XError.peer_not_ready)
    | some users ↦ inr (users.entries)
  ]

  unfoldable pub on_user_closed : Program X → Identity → Broker S X → Broker S X
  on_user_closed g id b =
      let x =
        (g.submit
          (Op.user_closed (record { uid = id.user_id; cid = id.client_id; node_id = b.node_id }))
          b.program).1 in
      record b { program = g.on_user_closed id x }

  -- `JoinChannel` and `LeaveChannel`
  unfoldable pub submit_op : Program X → Op → Broker S X → Option Error × Broker S X
  submit_op g op b = let (e, x) = g.submit op b.program in (e, record b { program = x })

  unfoldable pub join_channel :
      Program X → Bytes → List (Bytes × Bytes) → Broker S X → Option Error × Broker S X
  join_channel g uid channels b =
      submit_op g (Op.join_channel (record { uid = uid; channels = channels })) b

  unfoldable pub leave_channel :
      Program X → Bytes → List (Bytes × Bytes) → Broker S X → Option Error × Broker S X
  leave_channel g uid channels b =
      submit_op g (Op.leave_channel (record { uid = uid; channels = channels })) b

module _ {S X : Type 0} (g : Grpc S) (w : Waits Bytes) where
  -- The goroutine for a node that has the targets.
  unfoldable pub send_local :
      Message → List (Bytes × Bytes) → Totals × Broker S X → Totals × Broker S X
  send_local m cids (r, b) =
      let (c, ls) = Listeners.send_to_clients w m cids b.listeners in
      (sum r c, record b { listeners = ls })

  unfoldable pub send_remote :
      Message → ℕ → List (Bytes × Bytes) → Peer S → Totals × Broker S X → Totals × Broker S X
  send_remote m id cids p (r, b) =
      let (c, p') = Peers.send_to_user g w id m cids p in (sum r (counted c), put_peer id p' b)

  unfoldable pub send_node :
      Message → ℕ → List (Bytes × Bytes) → Totals × Broker S X → Totals × Broker S X
  send_node m id cids (r, b) =
      if id == b.node_id
      then send_local m cids (r, b)
      else elim (GoMap.lookup ℕ_discrete id b.peers) [
        | none ↦ (r, b)
        | some p ↦ send_remote m id cids p (r, b)
      ]

  -- The loops of `SendToUser` and of `SendToChannel`, over the users or the channels of every node.
  unfoldable pub send_by :
      Message → Bytes → ℕ → KeyMap Bytes → Totals × Broker S X → Bool × (Totals × Broker S X)
  send_by m key id keys r = elim (KeyMap.get key keys) [
    | none ↦ (true, r)
    | some cids ↦ (true, send_node m id cids r)
  ]

  unfoldable pub send_to_user : Bytes → Message → Broker S X → Result Totals × Broker S X
  send_to_user [] m b = (err (Error.xerr XError.invalid_user_id), b)
  send_to_user (c ∷ cs) m b =
      let (r, b') = RMap.range (send_by m (c ∷ cs)) b.state.user_clients ((0, 0), b) in (ok r, b')

  unfoldable pub send_to_channel : Bytes → Message → Broker S X → Result Totals × Broker S X
  send_to_channel [] m b = (err (Error.xerr XError.invalid_channel), b)
  send_to_channel (c ∷ cs) m b =
      let (r, b') = RMap.range (send_by m (c ∷ cs)) b.state.channel_clients ((0, 0), b) in
      (ok r, b')

  unfoldable pub send_all_peers :
      Message → List (ℕ × Peer S) → Totals × Broker S X → Totals × Broker S X
  send_all_peers m [] r = r
  send_all_peers m ((id, p) ∷ ps) (r, b) =
      let (c, p') = Peers.send_to_all g w id m p in
      send_all_peers m ps (sum r (counted c), put_peer id p' b)

  unfoldable pub send_to_all : Message → Broker S X → Totals × Broker S X
  send_to_all m b =
      let (c, ls) = Listeners.send_to_all w m b.listeners in
      send_all_peers m b.peers (sum (0, 0) c, record b { listeners = ls })

module _ {S X : Type 0} (g : Grpc S) where
  -- `IsOnline`: the callback goes on until a node answers yes.
  unfoldable pub ask_peer :
      ℕ → List (Bytes × Bytes) → Peer S → Bool × Broker S X → Bool × (Bool × Broker S X)
  ask_peer id cids p (online, b) =
      let (r, p') = Peers.is_online g id cids p in
      elim r [
        | ok true ↦ (false, (true, put_peer id p' b))
        | ok false ↦ (true, (online, put_peer id p' b))
        | err _ ↦ (true, (online, put_peer id p' b))
        | panic ↦ (true, (online, put_peer id p' b))
      ]

  unfoldable pub ask_node :
      ℕ → List (Bytes × Bytes) → Bool × Broker S X → Bool × (Bool × Broker S X)
  ask_node id cids (online, b) =
      if id == b.node_id
      then (if Listeners.is_active cids b.listeners
          then (false, (true, b))
          else (true, (online, b)))
      else elim (GoMap.lookup ℕ_discrete id b.peers) [
        | none ↦ (true, (online, b))
        | some p ↦ ask_peer id cids p (online, b)
      ]

  unfoldable pub ask_by : Bytes → ℕ → KeyMap Bytes → Bool × Broker S X → Bool × (Bool × Broker S X)
  ask_by uid id users r = elim (KeyMap.get uid users) [
    | none ↦ (true, r)
    | some cids ↦ ask_node id cids r
  ]

  unfoldable pub is_online : Bytes → Broker S X → Bool × Broker S X
  is_online uid b = RMap.range (ask_by uid) b.state.user_clients (false, b)
