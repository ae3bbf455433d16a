-- ===== src/Broker/Users.antt =====
-- `broker` of cluster/broker.go where a user connects or is kicked, and where a listener starts on all nodes.
use native.Mathlib.Decide.{ℕ_discrete}
use cable.Prelude.{ℕ, Bool, true, false, List, [], ◌∷◌, Option, none, some, if◌then◌else◌, ◌==◌}
use cable.Errors.{Error, ok, err, panic}
use cable.GoMap
use cable.GoMap.{Bytes}
use cable.Safe.RMap
use cable.Safe.KeyMap
use cable.Safe.KeyMap.{KeyMap}
use cable.Packet.Types.{Identity, Connect, connect_accepted, connect_authfail}
use cable.Network.Conn.{Waits}
use cable.Server.Table.{Handlers}
use cable.Cluster.State.{UserOpened, Op}
use cable.Broker.Listeners
use cable.Broker.Peers
use cable.Broker.Peers.{Grpc, Peer}
use cable.Broker.Routes.{Program, Broker, put_peer}

module _ {S X : Type 0} (g : Grpc S) (h : Bytes → Handlers S) (w : Waits Bytes) where
  -- `peer.kickConn`, whose error is logged.
  unfoldable pub kick_remote : ℕ → List (Bytes × Bytes) → Broker S X → Broker S X
  kick_remote id cids b = elim (GoMap.lookup ℕ_discrete id b.peers) [
    | none ↦ b
    | some p ↦ put_peer id (Peers.kick_conn g h w id cids p).1 b
  ]

  -- `KickUser`
  unfoldable pub kick_node : ℕ → List (Bytes × Bytes) → Broker S X → Broker S X
  kick_node id cids b =
      if id == b.node_id
      then record b { listeners = Listeners.kick_conn h w cids b.listeners }
      else kick_remote id cids b

  unfoldable pub kick_by : Bytes → ℕ → KeyMap Bytes → Broker S X → Bool × Broker S X
  kick_by uid id users b = elim (KeyMap.get uid users) [
    | none ↦ (true, b)
    | some cids ↦ (true, kick_node id cids b)
  ]

  unfoldable pub kick_user : Bytes → Broker S X → Broker S X
  kick_user uid b = RMap.range (kick_by uid) b.state.user_clients b

  -- The loop of `onUserConnect`: another node that has the client is asked to kick it, on the network of
  -- the new connection.
  unfoldable pub kick_duplicate :
      Identity → Bytes → ℕ → KeyMap Bytes → Broker S X → Bool × Broker S X
  kick_duplicate user net id users b =
      if id == b.node_id
      then (true, b)
      else elim (KeyMap.get_key user.user_id user.client_id users) [
        | none ↦ (true, b)
        | some _ ↦ (true, kick_remote id ((user.client_id, net) ∷ []) b)
      ]

  unfoldable pub kick_duplicates : Identity → Bytes → Broker S X → Broker S X
  kick_duplicates user net b = RMap.range (kick_duplicate user net) b.state.user_clients b

  -- `onUserConnect` once the program accepts.
  unfoldable pub open_user : Program X → Identity → Bytes → Broker S X → ℕ × Broker S X
  open_user prog user net b =
      let op : UserOpened = record {
        uid = user.user_id;
        cid = user.client_id;
        net = net;
        node_id = b.node_id;
        channels = prog.get_user_channels user.user_id b.program;
      } in
      let (e, x) = prog.submit (Op.user_opened op) b.program in
      (elim e [ none ↦ connect_accepted | some _ ↦ connect_authfail ], record b { program = x })

  unfoldable pub on_user_connect : Program X → Connect → Bytes → Broker S X → ℕ × Broker S X
  on_user_connect prog p net b =
      let (code, x) = prog.on_user_connect p b.program in
      if code == connect_accepted
      then open_user prog p.identity net (kick_duplicates p.identity net (record b { program = x }))
      else (code, record b { program = x })

module _ {S X : Type 0} (g : Grpc S) where
  -- `StartListener`: the loop ends with the first error.
  unfoldable pub start_remote : Bytes → List (ℕ × Peer S) → Broker S X → Option Error × Broker S X
  start_remote net [] b = (none, b)
  start_remote net ((id, p) ∷ ps) b =
      let (r, p') = Peers.start_listener g id net p in
      let b' = put_peer id p' b in
      let rest = start_remote net ps b' in
      elim r [ ok _ ↦ rest | err e ↦ (some e, b') | panic ↦ (some (Error.foreign false), b') ]

  unfoldable pub start_listener : Bytes → Broker S X → Option Error × Broker S X
  start_listener net b =
      let (e, ls) = Listeners.start_listener net b.listeners in
      let b' = record b { listeners = ls } in
      elim e [ none ↦ start_remote net b.peers b' | some x ↦ (some x, b) ]
