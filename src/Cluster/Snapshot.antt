-- ===== src/Cluster/Snapshot.antt =====
-- `makeSnapshot` and `recoverFromSnapshot` of cluster/broker.go, between the maps of the broker and the
-- `snapshot` of cluster/cluster_raft.go, which is plain Go maps. `json.Marshal` is a parameter.
use native.Mathlib.Decide.{ℕ_discrete}
use cable.Prelude.{ℕ, List, [], ◌∷◌, Option, none, some}
use cable.GoMap.{Bytes, Bytes-discrete, lookup, insert}
use cable.Safe.RMap
use cable.Safe.RMap.{RMap}
use cable.Safe.KeyMap
use cable.Safe.KeyMap.{KeyMap, Fields}
use cable.Cluster.State.{State}

-- node, then user, channel or client, then its fields
abbrev pub Copy : Type 0 → Type 0
Copy T = List (ℕ × List (Bytes × Fields T))

pub record Snapshot : Type 0 where
  pub user_clients : Copy Bytes
  pub channel_clients : Copy Bytes
  pub client_channels : Copy Unit

-- `ucmap[uid] = cids.Load()` for each entry.
unfoldable pub copy_keys :
    {T : Type 0} → List (Bytes × Fields T) → List (Bytes × Fields T) → List (Bytes × Fields T)
copy_keys [] acc = acc
copy_keys ((key, v) ∷ m) acc = copy_keys m (insert Bytes-discrete key v acc)

unfoldable pub or_made : {T : Type 0} → Option (List (Bytes × Fields T)) → List (Bytes × Fields T)
or_made none = []
or_made (some m) = m

-- The walk over the nodes, with what is copied so far.
unfoldable pub copy_nodes : {T : Type 0} → List (ℕ × KeyMap T) → Copy T → Copy T
copy_nodes [] acc = acc
copy_nodes ((id, v) ∷ m) acc =
    copy_nodes m
      (insert ℕ_discrete id (copy_keys v.entries (or_made (lookup ℕ_discrete id acc))) acc)

-- The `snapshot` that `makeSnapshot` fills.
unfoldable pub copied : State → Snapshot
copied s = record {
  user_clients = copy_nodes s.user_clients.entries [];
  channel_clients = copy_nodes s.channel_clients.entries [];
  client_channels = copy_nodes s.client_channels.entries [];
}

-- `makeSnapshot`, none where `json.Marshal` fails.
unfoldable pub make_snapshot : (Snapshot → Option Bytes) → State → Option Bytes
make_snapshot marshal s = marshal (copied s)

-- `userClients.Set(uid, safe.NewMap(cids))` for each entry.
unfoldable pub restore_keys : {T : Type 0} → List (Bytes × Fields T) → KeyMap T → KeyMap T
restore_keys [] m = m
restore_keys ((key, v) ∷ keys) m = restore_keys keys (KeyMap.set key v m)

unfoldable pub restore_nodes : {T : Type 0} → Copy T → RMap ℕ (KeyMap T) → RMap ℕ (KeyMap T)
restore_nodes [] m = m
restore_nodes ((id, keys) ∷ nodes) m =
    let ((v, _), m') = RMap.get_or_set ℕ_discrete id RMap.empty m in
    restore_nodes nodes (RMap.modify ℕ_discrete id (restore_keys keys v) m')

unfoldable pub recover_from_snapshot : Snapshot → State
recover_from_snapshot snap = record {
  user_clients = restore_nodes snap.user_clients RMap.empty;
  channel_clients = restore_nodes snap.channel_clients RMap.empty;
  client_channels = restore_nodes snap.client_channels RMap.empty;
}
