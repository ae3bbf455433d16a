-- ===== src/Cluster/Invariant.antt =====
-- The invariant of the maps of cluster/broker.go: a channel lists only clients whose record names it.
use mathlib.Core.Logic.{ite, if_neg}
use mathlib.Core.Path.{◌∙◌, sym, ap, subst}
use native.Mathlib.Decide.{ℕ_discrete}
use cable.Prelude.{ℕ, ◌≡◌, inl, inr, true, List, [], ◌∷◌, Option, none, some, Option-cases, refl}
use cable.GoMap.{Bytes, Bytes-discrete, lookup, Distinct, insert-Distinct}
use cable.Safe.RMap
use cable.Safe.KeyMap
use cable.Safe.KeyMap.{KeyMap, Fields}
use cable.Safe.Laws.{get_key-delete_key}
use cable.Safe.Lookups.{fields}
use cable.Cluster.State.{
  State, Links, UserOpened, UserClosed, LeaveChannel, Op, apply_op, join_channels, leave_channels,
  with_links, add_user, user_opened_op, remove_user, forget_client, remove_client, close_client,
  user_closed_op, join_clients, join_channel_op, leave_clients, leave_channel_op,
}
use cable.Cluster.Links.{
  listed, IsRecorded, IsSmall, join_channels-IsRecorded, leave_channels-IsRecorded,
}
use cable.Cluster.Closed.{listed-leave_all_self, listed-leave_all_other}
use cable.Cluster.Nodes.{links, links-with_links, links-walk, at_user, walk}
use cable.Cluster.Close.{close_links, links-user_closed_op}
use cable.Cluster.Joined.{join_each, join_clients-join_each}

-- No node is listed twice, and every node's links are recorded.
unfoldable pub IsValid : State → Type 0
IsValid s = Distinct ℕ_discrete s.user_clients.entries × ((id : ℕ) → IsRecorded (links id s))

pub close_links-IsRecorded :
    (op : UserClosed) (l : Links) → IsSmall l → IsRecorded l → IsRecorded (close_links op l)
unfolding close_links IsRecorded IsSmall
close_links-IsRecorded op l small h ch c net e = elim (Bytes-discrete op.cid c) [
  | yes p ↦ absurd (
      some_none (
        sym e
        ∙ ap (λ (i : Bytes). listed ch i (close_links op l)) (sym p)
        ∙ listed-leave_all_self op.cid l small h ch))
  | no p ↦
      get_key-delete_key op.cid op.uid l.client_channels (small op.cid).1 c ch
      ∙ if_neg (Bytes-discrete op.cid c) p _ _
      ∙ h ch c net (sym (listed-leave_all_other op.cid l small ch c p) ∙ e)
]
  where
    some_none : {n : Bytes} → some n ≡ none → ⊥
    some_none e = cc

ite-IsRecorded :
    {P : Type 0} (d : Dec P) (a b : Links) → IsRecorded a → IsRecorded b → IsRecorded (ite d a b)
ite-IsRecorded (yes p) a b h h' = h
ite-IsRecorded (no p) a b h h' = h'

join_each-IsRecorded :
    (channels : List (Bytes × Bytes)) (v : Fields Bytes) (l : Links)
    → IsRecorded l
    → IsRecorded (join_each channels v l)
unfolding join_each RMap.range_entries
join_each-IsRecorded channels [] l h = h
join_each-IsRecorded channels ((cid, net) ∷ v) l h =
    join_each-IsRecorded channels v (join_channels cid net channels l)
      (join_channels-IsRecorded cid net channels l h)

leave_each-IsRecorded :
    (channels : List (Bytes × Bytes)) (v : Fields Bytes) (l : Links)
    → IsSmall l
    → IsRecorded l
    → IsRecorded (RMap.range_entries (λ cid net l. (true, leave_channels cid channels l)) v l)
unfolding RMap.range_entries
leave_each-IsRecorded channels [] l small h = h
leave_each-IsRecorded channels ((cid, net) ∷ v) l small h =
    let (small', h') = leave_channels-IsRecorded cid channels l small h in
    leave_each-IsRecorded channels v (leave_channels cid channels l) small' h'

leave_clients-IsRecorded :
    (op : LeaveChannel) (users : KeyMap Bytes) (l : Links)
    → IsSmall l
    → IsRecorded l
    → IsRecorded (leave_clients op users l)
unfolding leave_clients KeyMap.range_key
leave_clients-IsRecorded op users l small h = elim (Option-cases (KeyMap.get op.uid users)) [
  | inl e ↦ rw (leave_clients, KeyMap.range_key, e) h
  | inr (v, e) ↦
      rw (leave_clients, KeyMap.range_key, e) (leave_each-IsRecorded op.channels v l small h)
]

walk_users :
    (f : KeyMap Bytes → Links → Links) (m : List (ℕ × KeyMap Bytes)) (s : State)
    → (walk f m s).user_clients ≡ s.user_clients
unfolding walk RMap.range_entries with_links
walk_users f [] s = refl
walk_users f ((id, users) ∷ m) s = walk_users f m (with_links id (f users) s)

walk-IsValid :
    (f : KeyMap Bytes → Links → Links) (s : State)
    → ((users : KeyMap Bytes) (id : ℕ) → IsRecorded (f users (links id s)))
    → IsValid s
    → IsValid (walk f s.user_clients.entries s)
unfolding IsValid at_user
walk-IsValid f s keeps (d, h) = (
  rw (walk_users f s.user_clients.entries s) d,
  λ id.
      subst IsRecorded (sym (links-walk f s.user_clients.entries s id d))
        (each id (lookup ℕ_discrete id s.user_clients.entries)),
)
  where
    each : (id : ℕ) (o : Option (KeyMap Bytes)) → IsRecorded (at_user f o (links id s))
    each id none = h id
    each id (some users) = keeps users id

add_user-Distinct :
    (id : ℕ) (uid cid net : Bytes) (s : State)
    → Distinct ℕ_discrete s.user_clients.entries
    → Distinct ℕ_discrete (add_user id uid cid net s).user_clients.entries
unfolding add_user RMap.get_or_set RMap.modify RMap.add
add_user-Distinct id uid cid net s d = elim (Option-cases (RMap.get ℕ_discrete id s.user_clients)) [
  | inl e ↦
      rw (add_user, RMap.get_or_set, e)
        (insert-Distinct ℕ_discrete id _ _
          (insert-Distinct ℕ_discrete id _ s.user_clients.entries d))
  | inr (v, e) ↦
      rw (add_user, RMap.get_or_set, e) (insert-Distinct ℕ_discrete id _ s.user_clients.entries d)
]

user_opened_op-IsValid : (op : UserOpened) (s : State) → IsValid s → IsValid (user_opened_op op s)
unfolding IsValid user_opened_op with_links add_user links
user_opened_op-IsValid op s (d, h) = (
  add_user-Distinct op.node_id op.uid op.cid op.net s d,
  λ id.
      subst IsRecorded
        (sym (
          links-with_links op.node_id (join_channels op.cid op.net op.channels)
            (add_user op.node_id op.uid op.cid op.net s) id))
        (ite-IsRecorded (ℕ_discrete op.node_id id) _ _
          (join_channels-IsRecorded op.cid op.net op.channels _ (h op.node_id)) (h id)),
)

closed_users :
    (op : UserClosed) (s : State)
    → Distinct ℕ_discrete s.user_clients.entries
    → Distinct ℕ_discrete (close_client op s).user_clients.entries
unfolding close_client remove_client forget_client
closed_users op s d = elim (Option-cases (RMap.get ℕ_discrete op.node_id s.client_channels)) [
  | inl e ↦ rw (close_client, e) d
  | inr (clients, e) ↦ elim (Option-cases (RMap.get ℕ_discrete op.node_id s.channel_clients)) [
    | inl e' ↦ rw (close_client, e, remove_client, e') d
    | inr (channels, e') ↦ rw (close_client, e, remove_client, e') d
  ]
]

remove_user-Distinct :
    (id : ℕ) (uid cid : Bytes) (s : State)
    → Distinct ℕ_discrete s.user_clients.entries
    → Distinct ℕ_discrete (remove_user id uid cid s).user_clients.entries
unfolding remove_user RMap.modify
remove_user-Distinct id uid cid s d = elim (Option-cases (RMap.get ℕ_discrete id s.user_clients)) [
  | inl e ↦ rw (remove_user, e) d
  | inr (v, e) ↦ rw (remove_user, e) (insert-Distinct ℕ_discrete id _ s.user_clients.entries d)
]

user_closed_op-IsValid :
    (op : UserClosed) (s : State)
    → ((id : ℕ) → IsSmall (links id s))
    → IsValid s
    → IsValid (user_closed_op op s)
unfolding IsValid user_closed_op
user_closed_op-IsValid op s small (d, h) = (
  closed_users op (remove_user op.node_id op.uid op.cid s)
      (remove_user-Distinct op.node_id op.uid op.cid s d),
  λ id. subst IsRecorded (sym (links-user_closed_op op s id)) (
      ite-IsRecorded (ℕ_discrete op.node_id id) _ _
        (close_links-IsRecorded op (links op.node_id s) (small op.node_id) (h op.node_id)) (h id)),
)

-- Every operation of the log keeps the invariant, that on each node a channel lists only clients whose
-- record names the channel, and that no node has two user maps, as long as each map of a node's
-- channels and clients has fewer than 2^32 entries before the operation.
pub apply_op-IsValid :
    (op : Op) (s : State) → ((id : ℕ) → IsSmall (links id s)) → IsValid s → IsValid (apply_op op s)
unfolding apply_op join_channel_op leave_channel_op RMap.range walk IsValid
apply_op-IsValid (Op.user_opened op) s small h = user_opened_op-IsValid op s h
apply_op-IsValid (Op.user_closed op) s small h = user_closed_op-IsValid op s small h
apply_op-IsValid (Op.join_channel op) s small h =
    walk-IsValid (join_clients op) s
      (λ users id.
        subst IsRecorded (sym (join_clients-join_each op users (links id s)))
          (join_each-IsRecorded op.channels (fields op.uid users) (links id s) (h.1 id)))
      h
apply_op-IsValid (Op.leave_channel op) s small h =
    walk-IsValid (leave_clients op) s
      (λ users id. leave_clients-IsRecorded op users (links id s) (small id) (h.1 id)) h
