-- ===== src/Cluster/Joined.antt =====
-- What `userOpenedOp` and `joinChannelOp` of cluster/broker.go achieve for the channels of a node.
use mathlib.Core.Logic.{ite, if_pos, if_neg}
use mathlib.Core.Path.{◌∙◌, sym, ap, subst}
use native.Mathlib.Decide.{ℕ_discrete}
use cable.Prelude.{ℕ, ◌≡◌, ◌≢◌, inl, inr, true, List, [], ◌∷◌, Option, some, Option-cases, refl}
use cable.GoMap.{Bytes, Bytes-discrete, lookup, Absent, Distinct}
use cable.Safe.RMap
use cable.Safe.KeyMap
use cable.Safe.KeyMap.{KeyMap, Fields}
use cable.Safe.Laws.{get_key-set_key}
use cable.Safe.Lookups.{fields, get_key-lookup}
use cable.Cluster.State.{
  State, Links, UserOpened, JoinChannel, join, join_channels, add_user, user_opened_op,
  join_clients, join_channel_op,
}
use cable.Cluster.Links.{listed}
use cable.Cluster.Nodes.{links, links-with_links, links-walk, at_user, walk}

listed_after_join :
    (cid net channel : Bytes) (l : Links) (ch c : Bytes)
    → listed ch c (join cid net channel l)
      ≡ ite
          (Bytes-discrete channel ch)
          (ite (Bytes-discrete cid c) (some net) (listed ch c l))
          (listed ch c l)
unfolding join
listed_after_join cid net channel l ch c = get_key-set_key channel cid net l.channel_clients ch c

stays :
    {P Q : Type 0} (d : Dec P) (d' : Dec Q) {net : Bytes} {o : Option Bytes}
    → o ≡ some net
    → ite d (ite d' (some net) o) o ≡ some net
stays (yes p) (yes q) e = refl
stays (yes p) (no q) e = e
stays (no p) d' e = e

-- A channel that lists the client with the network goes on to.
join_channels_keeps :
    (cid net : Bytes) (channels : List (Bytes × Bytes)) (l : Links) (ch : Bytes)
    → listed ch cid l ≡ some net
    → listed ch cid (join_channels cid net channels l) ≡ some net
unfolding join_channels
join_channels_keeps cid net [] l ch h = h
join_channels_keeps cid net ((channel, _) ∷ channels) l ch h =
    join_channels_keeps cid net channels (join cid net channel l) ch (
      listed_after_join cid net channel l ch cid
      ∙ stays (Bytes-discrete channel ch) (Bytes-discrete cid cid) h)

listed-join_channels :
    (cid net : Bytes) (channels : List (Bytes × Bytes)) (l : Links) (ch v : Bytes)
    → lookup Bytes-discrete ch channels ≡ some v
    → listed ch cid (join_channels cid net channels l) ≡ some net
unfolding join_channels lookup
listed-join_channels cid net [] l ch v h = cc
listed-join_channels cid net ((channel, x) ∷ channels) l ch v h = elim (Bytes-discrete channel ch) [
  | yes p ↦ join_channels_keeps cid net channels (join cid net channel l) ch (
      listed_after_join cid net channel l ch cid
      ∙ if_pos (Bytes-discrete channel ch) p _ _
      ∙ if_pos (Bytes-discrete cid cid) refl _ _)
  | no p ↦
      listed-join_channels cid net channels (join cid net channel l) ch v
        (sym (if_neg (Bytes-discrete channel ch) p _ _) ∙ h)
]

other_stays :
    {P Q : Type 0} (d : Dec P) (d' : Dec Q) (a : Option Bytes) {o : Option Bytes}
    → (Q → ⊥)
    → ite d (ite d' a o) o ≡ o
other_stays (yes p) (yes q) a ne = absurd (ne q)
other_stays (yes p) (no q) a ne = refl
other_stays (no p) d' a ne = refl

-- Another client's channels do not change.
join_channels_other :
    (cid net : Bytes) (channels : List (Bytes × Bytes)) (l : Links) (ch c : Bytes)
    → cid ≢ c
    → listed ch c (join_channels cid net channels l) ≡ listed ch c l
unfolding join_channels
join_channels_other cid net [] l ch c ne = refl
join_channels_other cid net ((channel, _) ∷ channels) l ch c ne =
    join_channels_other cid net channels (join cid net channel l) ch c ne
    ∙ listed_after_join cid net channel l ch c
    ∙ other_stays (Bytes-discrete channel ch) (Bytes-discrete cid c) (some net) ne

links-add_user :
    (id : ℕ) (uid cid net : Bytes) (s : State) (j : ℕ)
    → links j (add_user id uid cid net s) ≡ links j s
unfolding add_user links
links-add_user id uid cid net s j = refl

-- After `userOpenedOp` each of the user's channels lists the client on its node, with its network.
pub listed-user_opened_op :
    (op : UserOpened) (s : State) (channel v : Bytes)
    → lookup Bytes-discrete channel op.channels ≡ some v
    → listed channel op.cid (links op.node_id (user_opened_op op s)) ≡ some op.net
unfolding user_opened_op
listed-user_opened_op op s channel v h =
    let opened = add_user op.node_id op.uid op.cid op.net s in
    ap (listed channel op.cid) (
      links-with_links op.node_id (join_channels op.cid op.net op.channels) opened op.node_id
      ∙ if_pos (ℕ_discrete op.node_id op.node_id) refl _ _)
    ∙ listed-join_channels op.cid op.net op.channels (links op.node_id opened) channel v h

-- The loop over the clients of the user.
unfoldable pub join_each : List (Bytes × Bytes) → Fields Bytes → Links → Links
join_each channels = RMap.range_entries (λ cid net l. (true, join_channels cid net channels l))

join_each_other :
    (channels : List (Bytes × Bytes)) (v : Fields Bytes) (l : Links) (ch c : Bytes)
    → Absent Bytes-discrete c v
    → listed ch c (join_each channels v l) ≡ listed ch c l
unfolding join_each RMap.range_entries
join_each_other channels [] l ch c h = refl
join_each_other channels ((cid, net) ∷ v) l ch c (ne, h) =
    join_each_other channels v (join_channels cid net channels l) ch c h
    ∙ join_channels_other cid net channels l ch c ne

listed-join_each :
    (channels : List (Bytes × Bytes)) (v : Fields Bytes) (l : Links) (ch x c net : Bytes)
    → Distinct Bytes-discrete v
    → lookup Bytes-discrete ch channels ≡ some x
    → lookup Bytes-discrete c v ≡ some net
    → listed ch c (join_each channels v l) ≡ some net
unfolding join_each RMap.range_entries lookup
listed-join_each channels [] l ch x c net d h e = cc
listed-join_each channels ((cid, n) ∷ v) l ch x c net (absent, d) h e =
    elim (Bytes-discrete cid c) [
      | yes p ↦
          join_each_other channels v (join_channels cid n channels l) ch c
            (subst (λ (i : Bytes). Absent Bytes-discrete i v) p absent)
          ∙ subst (λ (i : Bytes). listed ch i (join_channels cid n channels l) ≡ some n) p
              (listed-join_channels cid n channels l ch x h)
          ∙ sym (if_pos (Bytes-discrete cid c) p _ _)
          ∙ e
      | no p ↦
          listed-join_each channels v (join_channels cid n channels l) ch x c net d h
            (sym (if_neg (Bytes-discrete cid c) p _ _) ∙ e)
    ]

pub join_clients-join_each :
    (op : JoinChannel) (users : KeyMap Bytes) (l : Links)
    → join_clients op users l ≡ join_each op.channels (fields op.uid users) l
unfolding join_clients KeyMap.range_key fields join_each RMap.range_entries
join_clients-join_each op users l = elim (Option-cases (KeyMap.get op.uid users)) [
  | inl e ↦ rw (join_clients, KeyMap.range_key, fields, e) refl
  | inr (v, e) ↦ rw (join_clients, KeyMap.range_key, fields, e) refl
]

-- After `joinChannelOp`, on every node, each channel of the operation lists each client that the user
-- has on that node, with the client's network. No node
-- is listed twice, and no client of the user on that node.
pub listed-join_channel_op :
    (op : JoinChannel) (s : State) (id : ℕ) (users : KeyMap Bytes) (channel x cid net : Bytes)
    → Distinct ℕ_discrete s.user_clients.entries
    → lookup ℕ_discrete id s.user_clients.entries ≡ some users
    → Distinct Bytes-discrete (fields op.uid users)
    → lookup Bytes-discrete channel op.channels ≡ some x
    → KeyMap.get_key op.uid cid users ≡ some net
    → listed channel cid (links id (join_channel_op op s)) ≡ some net
unfolding join_channel_op RMap.range walk at_user
listed-join_channel_op op s id users channel x cid net d here d' h e =
    ap (listed channel cid) (
      links-walk (join_clients op) s.user_clients.entries s id d
      ∙ ap (λ o. at_user (join_clients op) o (links id s)) here
      ∙ join_clients-join_each op users (links id s))
    ∙ listed-join_each op.channels (fields op.uid users) (links id s) channel x cid net d' h
        (sym (get_key-lookup op.uid cid users) ∙ e)
