-- ===== src/Cluster/Close.antt =====
-- `userClosedOp` of cluster/broker.go, seen on the links of each node.
use mathlib.Core.Logic.{ite}
use mathlib.Core.Path.{◌∙◌, sym, ap, ap₂}
use native.Mathlib.Decide.{ℕ_discrete}
use cable.Prelude.{ℕ, ◌≡◌, inl, inr, true, [], ◌∷◌, none, some, Option-cases, refl}
use cable.GoMap.{Bytes, lookup}
use cable.Safe.RMap
use cable.Safe.RMap.{RMap}
use cable.Safe.KeyMap
use cable.Safe.KeyMap.{KeyMap, Fields}
use cable.Cluster.State.{
  State, Links, UserClosed, remove_user, forget_client, leave_all, remove_client, close_client,
  user_closed_op,
}
use cable.Cluster.Nodes.{node, links, links_of, node-modify, both_or_none}

-- The links of the node afterwards, as if each of its maps were there.
unfoldable pub close_links : UserClosed → Links → Links
close_links op l = record {
  channel_clients = leave_all op.cid l.client_channels l.channel_clients;
  client_channels = KeyMap.delete_key op.cid op.uid l.client_channels;
}

leave_all-empty :
    (cid : Bytes) (clients : KeyMap (Unit {0}))
    → leave_all cid clients RMap.empty ≡ RMap.empty {K = Bytes} {V = Fields Bytes}
unfolding leave_all KeyMap.range_key RMap.range_entries KeyMap.delete_key KeyMap.get RMap.get
    RMap.empty lookup
leave_all-empty cid clients = elim (Option-cases (KeyMap.get cid clients)) [
  | inl e ↦ rw (leave_all, KeyMap.range_key, e) refl
  | inr (v, e) ↦ rw (leave_all, KeyMap.range_key, e) (each v)
]
  where
    each :
        (v : Fields (Unit {0}))
        → RMap.range_entries (λ channel _ m. (true, KeyMap.delete_key channel cid m)) v RMap.empty
          ≡ RMap.empty {K = Bytes} {V = Fields Bytes}
    each [] = refl
    each (x ∷ v) = each v

node-none :
    {T : Type 0} (id : ℕ) (m : RMap ℕ (KeyMap T))
    → RMap.get ℕ_discrete id m ≡ none
    → node id m ≡ RMap.empty
unfolding node
node-none id m e = rw (node, e) refl

node-some :
    {T : Type 0} (id : ℕ) (m : RMap ℕ (KeyMap T)) (v : KeyMap T)
    → RMap.get ℕ_discrete id m ≡ some v
    → node id m ≡ v
unfolding node
node-some id m v e = rw (node, e) refl

-- A value that a node's map keeps.
kept :
    {T : Type 0} (id j : ℕ) (v : KeyMap T) (m : RMap ℕ (KeyMap T))
    → v ≡ node id m
    → node j m ≡ ite (ℕ_discrete id j) v (node j m)
kept id j v m e = by_case (ℕ_discrete id j)
  where
    by_case : (d : Dec (id ≡ j)) → node j m ≡ ite d v (node j m)
    by_case (yes p) = sym (e ∙ ap (λ (i : ℕ). node i m) p)
    by_case (no p) = refl

links-remove_client :
    (op : UserClosed) (clients : KeyMap (Unit {0})) (s : State) (j : ℕ)
    → RMap.get ℕ_discrete op.node_id s.client_channels ≡ some clients
    → links j (remove_client op clients s)
      ≡ ite (ℕ_discrete op.node_id j) (close_links op (links op.node_id s)) (links j s)
unfolding links remove_client forget_client close_links
links-remove_client op clients s j here =
    let id = op.node_id in
    let c = node-some id s.client_channels clients here in
    let by_client : node j
          (RMap.modify ℕ_discrete id (KeyMap.delete_key op.cid op.uid clients) s.client_channels)
        ≡ ite (ℕ_discrete id j) (KeyMap.delete_key op.cid op.uid (node id s.client_channels))
            (node j s.client_channels) =
      rw c (node-modify id j (KeyMap.delete_key op.cid op.uid clients) s.client_channels) in
    elim (Option-cases (RMap.get ℕ_discrete id s.channel_clients)) [
      | inl e ↦
          rw (remove_client, e)
            (ap₂ links_of
                (kept id j
                  (leave_all op.cid (node id s.client_channels) (node id s.channel_clients))
                  s.channel_clients
                  (rw (node-none id s.channel_clients e) (leave_all-empty op.cid _)))
                by_client
              ∙ both_or_none (ℕ_discrete id j) (close_links op (links id s)) (links j s))
      | inr (channels, e) ↦
          rw (remove_client, e)
            (ap₂ links_of
                (rw (c, node-some id s.channel_clients channels e)
                  (node-modify id j (leave_all op.cid clients channels) s.channel_clients))
                by_client
              ∙ both_or_none (ℕ_discrete id j) (close_links op (links id s)) (links j s))
    ]

leave_none :
    (cid : Bytes) (m : KeyMap Bytes)
    → leave_all cid (RMap.empty {K = Bytes} {V = Fields (Unit {0})}) m ≡ m
unfolding leave_all KeyMap.range_key KeyMap.get RMap.get RMap.empty lookup
leave_none cid m = refl

delete_none :
    (cid uid : Bytes)
    → KeyMap.delete_key cid uid RMap.empty ≡ RMap.empty {K = Bytes} {V = Fields (Unit {0})}
unfolding KeyMap.delete_key KeyMap.get RMap.get RMap.empty lookup
delete_none cid uid = refl

links-close_client :
    (op : UserClosed) (s : State) (j : ℕ)
    → links j (close_client op s)
      ≡ ite (ℕ_discrete op.node_id j) (close_links op (links op.node_id s)) (links j s)
unfolding close_client links close_links
links-close_client op s j = elim (Option-cases (RMap.get ℕ_discrete op.node_id s.client_channels)) [
  | inl e ↦
      let n = node-none op.node_id s.client_channels e in
      rw (close_client, e)
        (ap₂ links_of (kept op.node_id j _ s.channel_clients (rw n (leave_none op.cid _)))
            (kept op.node_id j _ s.client_channels (rw n (delete_none op.cid op.uid)))
          ∙ both_or_none (ℕ_discrete op.node_id j) (close_links op (links op.node_id s))
              (links j s))
  | inr (clients, e) ↦ rw (close_client, e) (links-remove_client op clients s j e)
]

remove_user_same :
    (id : ℕ) (uid cid : Bytes) (s : State)
    → ((remove_user id uid cid s).channel_clients ≡ s.channel_clients)
      × ((remove_user id uid cid s).client_channels ≡ s.client_channels)
unfolding remove_user
remove_user_same id uid cid s = elim (Option-cases (RMap.get ℕ_discrete id s.user_clients)) [
  | inl e ↦ rw (remove_user, e) (refl, refl)
  | inr (v, e) ↦ rw (remove_user, e) (refl, refl)
]

links-remove_user :
    (id : ℕ) (uid cid : Bytes) (s : State) (j : ℕ) → links j (remove_user id uid cid s) ≡ links j s
unfolding links
links-remove_user id uid cid s j =
    let (a, b) = remove_user_same id uid cid s in rw (links, a, b) refl

-- `userClosedOp` changes the links of its node and no others, whichever of the node's maps exist: it
-- takes the client out of the channels that its record names, and deletes the one field that is
-- named like the user from the record.
pub links-user_closed_op :
    (op : UserClosed) (s : State) (j : ℕ)
    → links j (user_closed_op op s)
      ≡ ite (ℕ_discrete op.node_id j) (close_links op (links op.node_id s)) (links j s)
unfolding user_closed_op
links-user_closed_op op s j =
    let removed = remove_user op.node_id op.uid op.cid s in
    links-close_client op removed j
    ∙ ap₂ (λ a b. ite (ℕ_discrete op.node_id j) (close_links op a) b)
        (links-remove_user op.node_id op.uid op.cid s op.node_id)
        (links-remove_user op.node_id op.uid op.cid s j)
