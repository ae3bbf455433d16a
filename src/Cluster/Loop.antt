-- ===== src/Cluster/Loop.antt =====
-- `raftLoop` and `sendRaftMessags` of cluster/cluster_raft.go: what the node does with a `Ready` of the raft
-- library. The storage is part of the library's state, as in Cluster/Node; the call that hands a message to a
-- peer's client is a parameter. Errors of the storage and of a message are logged.
pub mod Entries
pub mod Recent
use native.Mathlib.Decide.{ℕ_discrete}
use cable.Prelude.{ℕ, Bool, true, false, List, [], ◌∷◌, Option, none, some, if◌then◌else◌}
use mathlib.Core.Option
use cable.Errors.{Error, Result, ok, err, panic, ◌>>=◌}
use cable.GoMap.{Bytes}
use cable.Safe.RMap
use cable.Cluster.Node.{
  RaftLibrary, Entry, Node, apply_entries, apply_snapshot, apply_soft_state, attempt_snapshot,
}

-- `raftpb.Message`: where it goes, whether it is a snapshot, and the configuration in it.
pub record Message (C : Type 0) : Type 0 where
  pub to : ℕ
  pub is_snap : Bool
  pub conf_state : C
  pub body : Bytes

-- `raft.Ready`, where an empty hard state, an empty snapshot and a nil soft state are none.
pub record Ready (C : Type 0) : Type 0 where
  pub hard_state : Option Bytes
  pub snapshot : Option (ℕ × C × Bytes)
  pub entries : List Entry
  pub committed_entries : List Entry
  pub soft_state : Option ℕ
  pub messages : List (Message C)

-- The raft library and its storage, and the clients of the peers, of state `P`.
pub record LoopLibrary (R C P : Type 0) : Type 0 where
  pub set_hard_state : Bytes → R → R
  pub storage_snapshot : ℕ → C → Bytes → R → R
  pub append : List Entry → R → R
  pub tick : R → R
  pub advance : R → R
  pub report_unreachable : ℕ → R → R
  pub report_snapshot : ℕ → Bool → R → R
  pub send_raft_message : ℕ → Message C → P → Option Error × P

module _ {R C P : Type 0} (lib : RaftLibrary R C) (loop : LoopLibrary R C P) where
  unfoldable pub on_raft : (R → R) → Node R C → Node R C
  on_raft f c = record c { raft = Option.map f c.raft }

  unfoldable pub on_hard_state : Option Bytes → Node R C → Node R C
  on_hard_state none c = c
  on_hard_state (some state) c = on_raft (loop.set_hard_state state) c

  unfoldable pub on_snapshot : Option (ℕ × C × Bytes) → Node R C → Result (Node R C)
  on_snapshot none c = ok c
  on_snapshot (some (index, conf, bytes)) c =
      apply_snapshot lib index conf bytes (on_raft (loop.storage_snapshot index conf bytes) c)

  unfoldable pub on_entries : List Entry → Node R C → Node R C
  on_entries [] c = c
  on_entries (e ∷ es) c = on_raft (loop.append (e ∷ es)) c

  unfoldable pub on_committed : List Entry → Node R C → Result (Node R C)
  on_committed [] c = ok c
  on_committed (e ∷ es) c = apply_entries lib (e ∷ es) c

  unfoldable pub on_soft_state : Option ℕ → Node R C → Node R C
  on_soft_state none c = c
  on_soft_state (some lead) c = apply_soft_state lib lead c

  -- What the library is told of a message.
  unfoldable pub reported : Message C → Option Error → Node R C → Node R C
  reported m none c = if m.is_snap then on_raft (loop.report_snapshot m.to true) c else c
  reported m (some _) c =
      let c' = on_raft (loop.report_unreachable m.to) c in
      if m.is_snap then on_raft (loop.report_snapshot m.to false) c' else c'

  unfoldable pub send_one : Message C → Node R C × P → Node R C × P
  send_one m (c, p) = elim (RMap.get ℕ_discrete m.to c.peers) [
    | none ↦ (c, p)
    | some _ ↦
        let m' : Message C = if m.is_snap then record m { conf_state = c.conf_state } else m in
        let (e, p') = loop.send_raft_message m.to m' p in (reported m' e c, p')
  ]

  -- `sendRaftMessags`
  unfoldable pub send_raft_messages : List (Message C) → Node R C × P → Node R C × P
  send_raft_messages [] r = r
  send_raft_messages (m ∷ ms) r = send_raft_messages ms (send_one m r)

  unfoldable pub end_turn : Node R C × P → Result (Node R C × P)
  end_turn (c, p) = attempt_snapshot lib c >>= (λ c'. ok (on_raft loop.advance c', p))

  -- The turn of the loop for a `Ready`.
  unfoldable pub turn : Ready C → Node R C × P → Result (Node R C × P)
  turn rd (c, p) =
      on_snapshot rd.snapshot (on_hard_state rd.hard_state c)
      >>= (λ c'. on_committed rd.committed_entries (on_entries rd.entries c'))
      >>= (λ c'. end_turn (send_raft_messages rd.messages (on_soft_state rd.soft_state c', p)))

  -- The turn for the ticker.
  unfoldable pub on_tick : Node R C × P → Node R C × P
  on_tick (c, p) = (on_raft loop.tick c, p)
