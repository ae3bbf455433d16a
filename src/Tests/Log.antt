-- ===== src/Tests/Log.antt =====
-- The log, the membership and the raft loop at concrete inputs.
use native.Mathlib.Decide.{ℕ_discrete}
use cable.Prelude.{ℕ, ◌+◌, ◌^◌, ◌<◌, ◌≡◌, suc, refl, true, [], ◌∷◌, ◌++◌, none, some, length, arith}
use cable.Errors.{ok, ◌>>=◌}
use cable.GoMap.{Bytes, Bytes-discrete, lookup, insert}
use cable.Safe.RMap
use cable.Safe.RMap.{RMap, grow}
use cable.Safe.Counting.{IsCounted}
use cable.Cluster.State.{Op}
use cable.Cluster.Log.{encode_op}
use cable.Cluster.Snapshot.{copied, make_snapshot}
use cable.Cluster.SnapshotTrip.{IsWhole, Survives, apply_snapshot-make_snapshot}
use cable.Cluster.Node.{
  ConfChange, RaftLibrary, Entry, Node, apply_entries, apply_from, apply_entry, apply_remove_node,
  apply_snapshot, apply_soft_state, become_ready, attempt_snapshot,
}
use cable.Cluster.Loop.{
  LoopLibrary, Ready, on_raft, on_snapshot, on_hard_state, on_entries, on_committed, on_soft_state,
  reported, send_one, send_raft_messages, end_turn, turn,
}
use cable.Cluster.Loop.Entries.{IsOrdered, IsRecent, AreNext, base_of}
use cable.Cluster.Loop.Recent.{turn-IsRecent}
use cable.GoMap
use cable.Cluster.Batches.{IsReadable, IsWithout, apply_entries-append, size-apply_remove_node}
use cable.Tests.Cluster.{tcp, closed, one_client}

-- A raft library that keeps the number of proposals.
abbrev pub counting : RaftLibrary ℕ ℕ
counting = record {
  start_node = λ id peers. 0;
  propose = λ bytes r. r + 1;
  propose_conf_change = λ cc count r. (none, r + 1);
  unmarshal_conf_change = λ bytes. some (ConfChange.remove_node 2);
  apply_conf_change = λ cc r. (r, r);
  create_snapshot = λ index conf bytes r. some r;
  compact = λ index r. some r;
  marshal_json = λ snap. none;
  unmarshal_json = λ bytes. none;
}

abbrev pub node_1 : Node ℕ ℕ
node_1 = record {
  node_id = 1;
  raft = some 0;
  size = 2;
  ready = true;
  peers = record { entries = (2, tcp) ∷ []; len = 1 };
  leader = 1;
  conf_state = 0;
  applied_index = 6;
  snapshot_index = 0;
  conf_change_count = 0;
  broker = one_client;
  events = [];
}

abbrev close_entry : Entry
close_entry = Entry.normal 7 (encode_op (Op.user_closed closed))

abbrev remove_entry : Entry
remove_entry = Entry.conf_change 8 (9 ∷ [])

remove_entry-IsReadable : IsReadable counting remove_entry
unfolding IsReadable
remove_entry-IsReadable = (ConfChange.remove_node 2, refl)

close_entry-IsReadable : IsReadable counting close_entry
unfolding IsReadable
close_entry-IsReadable = tt

apply_entries-append_example :
    apply_entries counting ((close_entry ∷ []) ++ remove_entry ∷ []) node_1 ≡ (
      apply_entries counting (close_entry ∷ []) node_1 >>= λ c.
      apply_entries counting (remove_entry ∷ []) c)
apply_entries-append_example =
    apply_entries-append counting close_entry [] remove_entry [] node_1 (close_entry-IsReadable, tt)
      (remove_entry-IsReadable, tt)

peers-IsCounted : IsCounted ℕ_discrete node_1.peers
unfolding IsCounted
peers-IsCounted = ((tt, tt), refl)

size-apply_remove_node_example :
    (let d = apply_remove_node counting 2 node_1 in
      IsWithout 2 node_1.peers d.peers
      × IsWithout 2 node_1.broker.user_clients d.broker.user_clients
      × IsWithout 2 node_1.broker.channel_clients d.broker.channel_clients
      × IsWithout 2 node_1.broker.client_channels d.broker.client_channels
      × (d.size ≡ suc (suc (length d.peers.entries))))
unfolding RMap.get lookup ℕ_discrete
size-apply_remove_node_example =
    size-apply_remove_node counting 2 tcp node_1 refl peers-IsCounted (omega arith)

one_client-IsWhole :
    IsWhole one_client.user_clients
    × IsWhole one_client.channel_clients
    × IsWhole one_client.client_channels
unfolding IsWhole IsCounted
one_client-IsWhole = (
  (((tt, tt), refl), (((tt, tt), refl), tt)),
  (((tt, tt), refl), (((tt, tt), refl), tt)),
  (((tt, tt), refl), (((tt, tt), refl), tt)),
)

-- A codec that knows one snapshot.
abbrev one_codec : RaftLibrary ℕ ℕ
one_codec = record counting {
  marshal_json = λ snap. some (1 ∷ []);
  unmarshal_json = λ bytes. some (copied one_client);
}

one_client-Survives : Survives one_codec (copied one_client)
unfolding Survives
one_client-Survives bytes e = refl

apply_snapshot-make_snapshot_example :
    apply_snapshot one_codec 9 3 (1 ∷ []) node_1
    ≡ ok (record node_1 {
      broker = one_client;
      conf_state = 3;
      snapshot_index = 9;
      applied_index = 9;
    })
unfolding make_snapshot
apply_snapshot-make_snapshot_example =
    apply_snapshot-make_snapshot one_codec one_client (1 ∷ []) 9 3 node_1 one_client-IsWhole.0
      one_client-IsWhole.1 one_client-IsWhole.2 one_client-Survives refl (omega arith)

-- A storage that counts what it is asked, and a network without failures.
abbrev simple_loop : LoopLibrary ℕ ℕ ℕ
simple_loop = record {
  set_hard_state = λ bytes r. r + 1;
  storage_snapshot = λ index conf bytes r. r + 1;
  append = λ es r. r + 1;
  tick = λ r. r + 1;
  advance = λ r. r + 1;
  report_unreachable = λ id r. r + 1;
  report_snapshot = λ id finished r. r + 1;
  send_raft_message = λ id m p. (none, p + 1);
}

-- An empty entry at the index 7 is committed, and a message goes to node 2.
abbrev one_entry : Ready ℕ
one_entry = record {
  hard_state = none;
  snapshot = none;
  entries = Entry.normal 7 [] ∷ [];
  committed_entries = Entry.normal 7 [] ∷ [];
  soft_state = some 1;
  messages = record { to = 2; is_snap = true; conf_state = 3; body = [] } ∷ [];
}

-- The node after the turn: two calls of the storage, the report of the snapshot and `Advance`.
abbrev turned : Node ℕ ℕ
turned = record node_1 { raft = some 3; applied_index = 7 }

turns-one_entry : turn counting simple_loop one_entry (node_1, 0) ≡ ok (turned, 1)
unfolding turn on_snapshot on_hard_state on_entries on_raft on_committed apply_entries apply_from
    apply_entry on_soft_state apply_soft_state become_ready send_raft_messages send_one reported
    end_turn attempt_snapshot RMap.get GoMap.lookup ℕ_discrete
turns-one_entry = refl

node_1-IsOrdered : IsOrdered node_1
unfolding IsOrdered
node_1-IsOrdered = (omega arith, omega arith)

entry-AreNext : AreNext counting (base_of one_entry.snapshot 6) one_entry.committed_entries
unfolding AreNext base_of
entry-AreNext = (omega arith, omega arith, tt)

base_small : base_of one_entry.snapshot node_1.applied_index < 2 ^ 64
unfolding base_of
base_small = omega arith

turn-IsRecent_example : IsRecent turned
turn-IsRecent_example =
    turn-IsRecent counting simple_loop one_entry node_1 turned 0 1 node_1-IsOrdered base_small
      entry-AreNext turns-one_entry
