-- ===== src/Broker/Listeners.antt =====
-- `Listener` of cluster/listener.go and what `broker` of cluster/broker.go does with its own listeners, a
-- Go map from networks to them. Before `Start` a listener's server is a fresh one that nobody uses. Each
-- listener has the handlers of its network. The log is left out.
use cable.Prelude.{
  ℕ, ◌+◌, ◌%◌, ◌^◌, Bool, true, false, List, [], ◌∷◌, Option, none, some, if◌then◌else◌,
}
use cable.Errors.{Error}
use cable.GoMap
use cable.GoMap.{Bytes, Bytes-discrete}
use cable.Packet.Types.{Message}
use cable.Network.Conn.{Waits}
use cable.Server.Table.{Handlers, Server, new_server}
use cable.Server.Calls
use cable.Server.Shutdown

pub record Listener (S : Type 0) : Type 0 where
  pub server : Server S
  pub started : Bool
  pub auto_start : Bool

-- `broker.listeners`
abbrev pub Listeners : Type 0 → Type 0
Listeners S = List (Bytes × Listener S)

-- `NewListener`
unfoldable pub new_listener : {S : Type 0} → Bool → S → Listener S
new_listener auto a = record { server = new_server a; started = false; auto_start = auto }

module _ {S : Type 0} where
  -- `Listener.Start`
  unfoldable pub start : Listener S → Listener S
  start l = if l.started then l else record l { server = new_server l.server.app; started = true }

  -- `l, ok := b.listeners[net]; ok && l.ISStarted()`
  unfoldable pub running : Option (Listener S) → Option (Server S)
  running none = none
  running (some l) = if l.started then some l.server else none

  unfoldable pub server_of : Bytes → Listeners S → Option (Server S)
  server_of net b = running (GoMap.lookup Bytes-discrete net b)

  unfoldable pub put_server : Bytes → Server S → Listeners S → Listeners S
  put_server net s b = elim (GoMap.lookup Bytes-discrete net b) [
    | none ↦ b
    | some l ↦ GoMap.insert Bytes-discrete net (record l { server = s }) b
  ]

  -- `isActive`
  unfoldable pub active_at : Bytes → Option (Server S) → Bool
  active_at cid none = false
  active_at cid (some s) = Calls.is_active cid s

  unfoldable pub is_active : List (Bytes × Bytes) → Listeners S → Bool
  is_active [] b = false
  is_active ((cid, net) ∷ targets) b =
      if active_at cid (server_of net b) then true else is_active targets b

  -- `ConnCount`
  unfoldable pub conn_counts : Listeners S → List (Bytes × ℕ)
  conn_counts [] = []
  conn_counts ((net, l) ∷ b) =
      let rest = conn_counts b in
      if l.started then (net, Calls.conn_count l.server) ∷ rest else rest

  -- `startListener` and `onClusterReady`
  unfoldable pub start_listener : Bytes → Listeners S → Option Error × Listeners S
  start_listener net b = elim (GoMap.lookup Bytes-discrete net b) [
    | none ↦ (some (Error.foreign false), b)
    | some l ↦ (none, GoMap.insert Bytes-discrete net (start l) b)
  ]

  unfoldable pub auto_started : Listener S → Listener S
  auto_started l = if l.auto_start then start l else l

  unfoldable pub on_cluster_ready : Listeners S → Listeners S
  on_cluster_ready [] = []
  on_cluster_ready ((net, l) ∷ b) = (net, auto_started l) ∷ on_cluster_ready b

module _ {S : Type 0} (h : Bytes → Handlers S) (w : Waits Bytes) where
  -- `kickConn`
  unfoldable pub kick_at : Bytes → Bytes → Listeners S → Listeners S
  kick_at cid net b = elim (server_of net b) [
    | none ↦ b
    | some s ↦ put_server net (Calls.kick_conn (h net) w cid s).1 b
  ]

  unfoldable pub kick_conn : List (Bytes × Bytes) → Listeners S → Listeners S
  kick_conn [] b = b
  kick_conn ((cid, net) ∷ targets) b = kick_conn targets (kick_at cid net b)

  -- `Listener.Shutdown`, with what the server's `Shutdown` depends on.
  unfoldable pub stopped :
      Listener S → Option (Option Error × Server S) → Option (Option Error × Listener S)
  stopped l none = none
  stopped l (some (e, s)) = some (e, record l { server = s; started = false })

  unfoldable pub shutdown :
      Bytes
      → (ℕ → Server S → Option (Server S))
      → Option ℕ
      → Option Error
      → ℕ
      → Listener S
      → Option (Option Error × Listener S)
  shutdown net rest left e fuel l =
      if l.started
      then stopped l
          (Shutdown.shutdown (h net) rest left e fuel (Calls.expel_all_conns (h net) w l.server))
      else some (none, l)

unfoldable pub tally : Bool → ℕ → ℕ
tally ok n = if ok then (n + 1) % 2 ^ 32 else n

module _ {S : Type 0} (w : Waits Bytes) where
  -- `sendToClients`, with the counters total and success, two int32.
  unfoldable pub send_at : Message → Bytes → Bytes → Listeners S → Bool × Listeners S
  send_at m cid net b = elim (server_of net b) [
    | none ↦ (false, b)
    | some s ↦
        let (e, s') = Calls.send_message w cid m s in
        (elim e [ none ↦ true | some _ ↦ false ], put_server net s' b)
  ]

  unfoldable pub send_over :
      Message → List (Bytes × Bytes) → ℕ × ℕ × Listeners S → ℕ × ℕ × Listeners S
  send_over m [] r = r
  send_over m ((cid, net) ∷ cids) (total, success, b) =
      let (ok, b') = send_at m cid net b in
      send_over m cids ((total + 1) % 2 ^ 32, tally ok success, b')

  unfoldable pub send_to_clients :
      Message → List (Bytes × Bytes) → Listeners S → (ℕ × ℕ) × Listeners S
  send_to_clients m cids b =
      let (total, success, b') = send_over m cids (0, 0, b) in ((total, success), b')

  -- `sendToAll`
  unfoldable pub send_to_all : Message → Listeners S → (ℕ × ℕ) × Listeners S
  send_to_all m [] = ((0, 0), [])
  send_to_all m ((net, l) ∷ b) =
      let ((total, success), b') = send_to_all m b in
      if l.started
      then (let ((t, s, _), server) = Calls.brodcast w m l.server in
          (
            ((total + t) % 2 ^ 32, (success + s) % 2 ^ 32),
            (net, record l { server = server }) ∷ b',
          ))
      else ((total, success), (net, l) ∷ b')
