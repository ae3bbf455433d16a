-- ===== src/Cluster/Node.antt =====
-- `cluster` of cluster/cluster.go and cluster/cluster_raft.go: a node of the raft group. The raft
-- library and the JSON codec are parameters, a `RaftLibrary` over a state `R` and a configuration `C`.
-- The entries of a batch are those of `CommittedEntries`; `None` is the leader 0.
use native.Mathlib.Decide.{ℕ_discrete}
use cable.Prelude.{
  ℕ, ◌+◌, ◌-◌, ◌%◌, ◌^◌, Bool, true, false, List, [], ◌∷◌, ◌++◌, Option, none, some, if◌then◌else◌,
  ltb, leb, ◌==◌, map, replicate,
}
use cable.Errors.{Error, Result, ok, panic, ◌>>=◌, xerr, raft_node_not_ready}
use cable.GoMap.{Bytes}
use cable.Safe.RMap
use cable.Safe.RMap.{RMap}
use cable.Cluster.State
use cable.Cluster.State.{State, Op}
use cable.Cluster.Log.{encode_op, apply_raft_op}
use cable.Cluster.Snapshot.{Snapshot, make_snapshot, recover_from_snapshot}

-- `raftpb.ConfChange`, by its type.
pub data ConfChange : Type 0 where
  add_node : ℕ → ConfChange
  remove_node : ℕ → ConfChange
  other : ConfChange

-- What the raft library and `encoding/json` offer.
pub record RaftLibrary (R C : Type 0) : Type 0 where
  pub start_node : ℕ → List ℕ → R
  pub propose : Bytes → R → R
  pub propose_conf_change : ConfChange → ℕ → R → Option Error × R
  pub unmarshal_conf_change : Bytes → Option ConfChange
  pub apply_conf_change : ConfChange → R → C × R
  pub create_snapshot : ℕ → C → Bytes → R → Option R
  -- `Compact`, none for an error other than `ErrCompacted`.
  pub compact : ℕ → R → Option R
  pub marshal_json : Snapshot → Option Bytes
  pub unmarshal_json : Bytes → Option Snapshot

-- `raftpb.Entry`: its index, its type and its data.
pub data Entry : Type 0 where
  normal : ℕ → Bytes → Entry
  conf_change : ℕ → Bytes → Entry

-- What the node asks of its broker's listeners.
pub data Event : Type 0 where
  cluster_ready : Event
  expel_all_conns : Event

pub record Node (R C : Type 0) : Type 0 where
  pub node_id : ℕ
  -- `raft`, nil until it starts
  pub raft : Option R
  pub size : ℕ
  pub ready : Bool
  -- the address of each peer
  pub peers : RMap ℕ Bytes
  pub leader : ℕ
  pub conf_state : C
  pub applied_index : ℕ
  pub snapshot_index : ℕ
  pub conf_change_count : ℕ
  pub broker : State
  pub events : List Event

module _ {R C : Type 0} (lib : RaftLibrary R C) where
  unfoldable pub submit_operation : Op → Node R C → Option Error × Node R C
  submit_operation op c = elim c.raft [
    | none ↦ (some (xerr raft_node_not_ready), c)
    | some r ↦ (none, record c { raft = some (lib.propose (encode_op op) r) })
  ]

  -- `addNode` and `removeNode`
  unfoldable pub propose_change : ConfChange → Node R C → Option Error × Node R C
  propose_change cc c = elim c.raft [
    | none ↦ (some (xerr raft_node_not_ready), c)
    | some r ↦
        let count = (c.conf_change_count + 1) % 2 ^ 64 in
        let (e, r') = lib.propose_conf_change cc count r in
        (e, record c { raft = some r'; conf_change_count = count })
  ]

  unfoldable pub is_leader : Node R C → Bool
  is_leader c = c.leader == c.node_id

  -- `c.size-1` is an int32.
  unfoldable pub is_complete : Node R C → Bool
  is_complete c = c.peers.len == (c.size + (2 ^ 32 - 1)) % 2 ^ 32

  unfoldable pub add_peer : ℕ → Bytes → Node R C → Node R C
  add_peer id addr c = record c { peers = (RMap.set ℕ_discrete id addr c.peers).1 }

  unfoldable pub propose_peer : ℕ → Node R C → Option Error × Node R C
  propose_peer id c =
      if is_complete c
      then (none, c)
      else if is_leader c
      then propose_change (ConfChange.add_node id) c
      else (none, c)

  unfoldable pub add_broker : ℕ → Bytes → Node R C → Option Error × Node R C
  add_broker id addr c =
      if id == c.node_id then (none, c) else elim (RMap.get ℕ_discrete id c.peers) [
        | none ↦ propose_peer id (add_peer id addr c)
        | some _ ↦ (none, record c { peers = RMap.modify ℕ_discrete id addr c.peers })
      ]

  unfoldable pub kick_broker : ℕ → Node R C → Option Error × Node R C
  kick_broker id c =
      propose_change (ConfChange.remove_node id)
        (if id == c.node_id then record c { ready = false } else c)

  -- `make([]raft.Peer, c.size)` with the node at index 0, and the peers appended to it.
  unfoldable pub init_peers : ℕ → Node R C → List ℕ
  init_peers zeros c = (c.node_id ∷ replicate zeros 0) ++ map (λ e. e.0) c.peers.entries

  -- `initPeers[0]` panics where the size is not positive, as `make` does where it is negative.
  unfoldable pub start_raft : Node R C → Result (Node R C)
  start_raft c = elim c.raft [
    | none ↦
        if leb 1 c.size
        then if ltb c.size (2 ^ 31)
          then ok (record c { raft = some (lib.start_node c.node_id (init_peers (c.size - 1) c)) })
          else panic
        else panic
    | some _ ↦ ok c
  ]

  unfoldable pub on_node_join : ℕ → Bytes → Node R C → Result (Node R C)
  on_node_join id addr c =
      let c' = (add_broker id addr c).1 in if is_complete c' then start_raft c' else ok c'

  unfoldable pub on_node_leave : ℕ → Node R C → Node R C
  on_node_leave id c = (kick_broker id c).1

  unfoldable pub become_ready : Node R C → Node R C
  become_ready c =
      if c.ready
      then c
      else record c { ready = true; events = c.events ++ Event.cluster_ready ∷ [] }

  unfoldable pub apply_soft_state : ℕ → Node R C → Node R C
  apply_soft_state lead c =
      if lead == 0
      then c
      else become_ready (if c.leader == lead then c else record c { leader = lead })

  -- `c.peers.Len() + 1`
  unfoldable pub count_nodes : Node R C → ℕ
  count_nodes c = (c.peers.len + 1) % 2 ^ 32

  unfoldable pub leave_group : ℕ → Node R C → Node R C
  leave_group id c =
      if c.node_id == id
      then record c { leader = 0; ready = false; events = c.events ++ Event.expel_all_conns ∷ [] }
      else c

  unfoldable pub apply_remove_node : ℕ → Node R C → Node R C
  apply_remove_node id c = leave_group id (record c {
    size = count_nodes c;
    broker = State.remove_node id c.broker;
    peers = (RMap.delete ℕ_discrete id c.peers).1;
  })

  unfoldable pub apply_change : ConfChange → Node R C → Node R C
  apply_change (ConfChange.add_node id) c = record c { size = count_nodes c }
  apply_change (ConfChange.remove_node id) c = apply_remove_node id c
  apply_change ConfChange.other c = c

  -- `c.confState = c.raft.ApplyConfChange(cc)`, a panic where raft is nil.
  unfoldable pub apply_conf_change : ConfChange → Node R C → Result (Node R C)
  apply_conf_change cc c = elim c.raft [
    | none ↦ panic
    | some r ↦
        let (cs, r') = lib.apply_conf_change cc r in
        ok (apply_change cc (record c { conf_state = cs; raft = some r' }))
  ]

  -- One entry, and whether the loop goes on: a configuration change that is no change ends it.
  unfoldable pub apply_entry : Entry → Node R C → Result (Bool × Node R C)
  apply_entry (Entry.normal index []) c = ok (true, c)
  apply_entry (Entry.normal index (b ∷ bytes)) c = do
    s ← apply_raft_op (b ∷ bytes) c.broker
    ok (true, record c { broker = s })
  apply_entry (Entry.conf_change index bytes) c = elim (lib.unmarshal_conf_change bytes) [
    | none ↦ ok (false, c)
    | some cc ↦ do c' ← apply_conf_change cc c; ok (true, c')
  ]

  abbrev pub index_of : Entry → ℕ
  index_of (Entry.normal index _) = index
  index_of (Entry.conf_change index _) = index

  -- The entries from the first on, `last` the index of the last one. The assignment of
  -- `appliedIndex` is behind the loop, which a bad entry returns from.
  unfoldable pub apply_from : ℕ → List Entry → Node R C → Result (Node R C)
  apply_from last [] c = ok (record c { applied_index = last })
  apply_from last (e ∷ es) c = do
    (more, c') ← apply_entry e c
    if more then apply_from (index_of e) es c' else ok c'

  -- `entries[len(entries)-1]` panics for no entries.
  unfoldable pub apply_entries : List Entry → Node R C → Result (Node R C)
  apply_entries [] c = panic
  apply_entries (e ∷ es) c = apply_from (index_of e) (e ∷ es) c

  unfoldable pub store_snapshot : Bytes → R → Node R C → Result (Node R C)
  store_snapshot bytes r c = elim (lib.create_snapshot c.applied_index c.conf_state bytes r) [
    | none ↦ panic
    | some r' ↦
        elim (lib.compact (if ltb 1024 c.applied_index then c.applied_index - 1024 else 1) r') [
          | none ↦ panic
          | some r'' ↦ ok (record c { raft = some r''; snapshot_index = c.applied_index })
        ]
  ]

  -- `c.appliedIndex-c.snapshotIndex` is a uint64. The storage is part of the raft library's state.
  unfoldable pub attempt_snapshot : Node R C → Result (Node R C)
  attempt_snapshot c =
      if leb ((c.applied_index + (2 ^ 64 - c.snapshot_index)) % 2 ^ 64) 1024
      then ok c
      else elim (make_snapshot lib.marshal_json c.broker) [
        | none ↦ panic
        | some bytes ↦ elim c.raft [ none ↦ panic | some r ↦ store_snapshot bytes r c ]
      ]

  unfoldable pub apply_snapshot : ℕ → C → Bytes → Node R C → Result (Node R C)
  apply_snapshot index conf bytes c =
      if leb index c.applied_index then panic else elim (lib.unmarshal_json bytes) [
        | none ↦ panic
        | some snap ↦ ok (record c {
          broker = recover_from_snapshot snap;
          conf_state = conf;
          snapshot_index = index;
          applied_index = index;
        })
      ]
