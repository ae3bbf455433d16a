-- ===== src/Cluster/Effects.antt =====
-- What the operations of cluster/broker.go achieve for the channels of a node.
use mathlib.Core.Logic.{ite, if_pos, if_neg}
use mathlib.Core.Path.{◌∙◌, subst}
use native.Mathlib.Decide.{ℕ_discrete}
use cable.Prelude.{◌≡◌, ◌≢◌, none, refl}
use cable.GoMap.{Bytes, Bytes-discrete}
use cable.Safe.Laws.{get_key-delete_key}
use cable.Cluster.State.{State, UserClosed, user_closed_op}
use cable.Cluster.Links.{listed, recorded, IsRecorded, IsSmall}
use cable.Cluster.Closed.{listed-leave_all_self, listed-leave_all_other}
use cable.Cluster.Nodes.{links}
use cable.Cluster.Close.{close_links, links-user_closed_op}

links-closed :
    (op : UserClosed) (s : State)
    → links op.node_id (user_closed_op op s) ≡ close_links op (links op.node_id s)
links-closed op s =
    links-user_closed_op op s op.node_id ∙ if_pos (ℕ_discrete op.node_id op.node_id) refl _ _

-- After `userClosedOp` no channel of the node lists the client, and every other client is listed
-- where it was. Before it, the records of the node's clients name the channels that list them, and
-- each of the node's maps has fewer than 2^32 entries.
pub listed-user_closed_op :
    (op : UserClosed) (s : State)
    → IsSmall (links op.node_id s)
    → IsRecorded (links op.node_id s)
    → (channel cid : Bytes)
    → listed channel cid (links op.node_id (user_closed_op op s))
      ≡ ite (Bytes-discrete op.cid cid) none (listed channel cid (links op.node_id s))
unfolding close_links
listed-user_closed_op op s small h channel cid =
    rw (links-closed op s) (by_case (Bytes-discrete op.cid cid))
  where
    by_case :
        (d : Dec (op.cid ≡ cid))
        → listed channel cid (close_links op (links op.node_id s))
          ≡ ite d none (listed channel cid (links op.node_id s))
    by_case (yes p) =
        subst (λ (c : Bytes). listed channel c (close_links op (links op.node_id s)) ≡ none) p
          (listed-leave_all_self op.cid (links op.node_id s) small h channel)
    by_case (no p) = listed-leave_all_other op.cid (links op.node_id s) small channel cid p

-- `userClosedOp` leaves the client's record as it was, but for a channel that has the user's name,
-- where each of the node's maps has fewer than 2^32 entries.
pub recorded-user_closed_op :
    (op : UserClosed) (s : State)
    → IsSmall (links op.node_id s)
    → (channel : Bytes) → op.uid ≢ channel
    → recorded op.cid channel (links op.node_id (user_closed_op op s))
      ≡ recorded op.cid channel (links op.node_id s)
unfolding close_links IsSmall
recorded-user_closed_op op s small channel ne = rw (links-closed op s) (
    get_key-delete_key op.cid op.uid (links op.node_id s).client_channels (small op.cid).1 op.cid
      channel
    ∙ if_pos (Bytes-discrete op.cid op.cid) refl _ _
    ∙ if_neg (Bytes-discrete op.uid channel) ne _ _)
