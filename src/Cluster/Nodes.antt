-- ===== src/Cluster/Nodes.antt =====
-- The maps of each node in the state of cluster/broker.go.
use mathlib.Core.Logic.{ite, if_pos, if_neg}
use mathlib.Core.Path.{◌∙◌, sym, ap, ap₂, subst}
use native.Mathlib.Decide.{ℕ_discrete}
use cable.Prelude.{ℕ, ◌≡◌, inl, inr, true, List, [], ◌∷◌, Option, none, some, Option-cases, refl}
use cable.GoMap.{Bytes, lookup, Absent, Distinct}
use cable.Safe.RMap
use cable.Safe.RMap.{RMap}
use cable.Safe.KeyMap.{KeyMap}
use cable.Safe.Lookups.{get-modify, get-add}
use cable.Cluster.State.{State, Links, with_links}

abbrev or_new : {T : Type 0} → Option (KeyMap T) → KeyMap T
or_new none = RMap.empty
or_new (some m) = m

-- A node's map, an empty one where it has none.
unfoldable pub node : {T : Type 0} → ℕ → RMap ℕ (KeyMap T) → KeyMap T
node id m = or_new (RMap.get ℕ_discrete id m)

unfoldable pub links : ℕ → State → Links
links id s = record {
  channel_clients = node id s.channel_clients;
  client_channels = node id s.client_channels;
}

or_new-ite :
    {T P : Type 0} (d : Dec P) (v : KeyMap T) (o : Option (KeyMap T))
    → or_new (ite d (some v) o) ≡ ite d v (or_new o)
or_new-ite (yes p) v o = refl
or_new-ite (no p) v o = refl

pub node-modify :
    {T : Type 0} (id j : ℕ) (v : KeyMap T) (m : RMap ℕ (KeyMap T))
    → node j (RMap.modify ℕ_discrete id v m) ≡ ite (ℕ_discrete id j) v (node j m)
unfolding node
node-modify id j v m = ap or_new (get-modify ℕ_discrete id j v m) ∙ or_new-ite (ℕ_discrete id j) v _

-- `GetOrSet` of a new map changes no node's map, and returns the node's.
pub node-get_or_set :
    {T : Type 0} (id j : ℕ) (m : RMap ℕ (KeyMap T))
    → ((RMap.get_or_set ℕ_discrete id RMap.empty m).0.0 ≡ node id m)
      × (node j (RMap.get_or_set ℕ_discrete id RMap.empty m).1 ≡ node j m)
unfolding node RMap.get_or_set
node-get_or_set id j m = elim (Option-cases (RMap.get ℕ_discrete id m)) [
  | inl e ↦ (
    rw (RMap.get_or_set, node, e) refl,
    rw (RMap.get_or_set, e)
        (ap or_new (get-add ℕ_discrete id j RMap.empty m)
          ∙ or_new-ite (ℕ_discrete id j) RMap.empty _
          ∙ as_before (ℕ_discrete id j) e),
  )
  | inr (v, e) ↦ (rw (RMap.get_or_set, node, e) refl, rw (RMap.get_or_set, e) refl)
]
  where
    as_before :
        (d : Dec (id ≡ j))
        → RMap.get ℕ_discrete id m ≡ none
        → ite d RMap.empty (or_new (RMap.get ℕ_discrete j m)) ≡ or_new (RMap.get ℕ_discrete j m)
    as_before (yes p) e =
        sym (ap (λ (i : ℕ). or_new (RMap.get ℕ_discrete i m)) (sym p) ∙ ap or_new e)
    as_before (no p) e = refl

abbrev pub links_of : KeyMap Bytes → KeyMap (Unit {0}) → Links
links_of a b = record { channel_clients = a; client_channels = b }

pub both_or_none :
    {P : Type 0} (d : Dec P) (a b : Links)
    → links_of
        (ite d a.channel_clients b.channel_clients)
        (ite d a.client_channels b.client_channels)
      ≡ ite d a b
both_or_none (yes p) a b = refl
both_or_none (no p) a b = refl

-- A change of one node's links is made on that node, and on no other.
pub links-with_links :
    (id : ℕ) (f : Links → Links) (s : State) (j : ℕ)
    → links j (with_links id f s) ≡ ite (ℕ_discrete id j) (f (links id s)) (links j s)
unfolding links with_links
links-with_links id f s j =
    let by_channel = RMap.get_or_set ℕ_discrete id RMap.empty s.channel_clients in
    let by_client = RMap.get_or_set ℕ_discrete id RMap.empty s.client_channels in
    let (here, kept) = node-get_or_set id j s.channel_clients in
    let (here', kept') = node-get_or_set id j s.client_channels in
    let d = ℕ_discrete id j in
    let l : links_of by_channel.0.0 by_client.0.0 ≡ links id s = ap₂ links_of here here' in
    ap₂ links_of
      (node-modify id j (f (links_of by_channel.0.0 by_client.0.0)).channel_clients by_channel.1
        ∙ ap₂ (λ (a : Links) (b : KeyMap Bytes). ite d (f a).channel_clients b) l kept)
      (node-modify id j (f (links_of by_channel.0.0 by_client.0.0)).client_channels by_client.1
        ∙ ap₂ (λ (a : Links) (b : KeyMap (Unit {0})). ite d (f a).client_channels b) l kept')
    ∙ both_or_none d (f (links id s)) (links j s)

-- What a walk over the users' maps does to the links of a node that has one.
unfoldable pub at_user : (KeyMap Bytes → Links → Links) → Option (KeyMap Bytes) → Links → Links
at_user f none l = l
at_user f (some users) l = f users l

unfoldable pub walk : (KeyMap Bytes → Links → Links) → List (ℕ × KeyMap Bytes) → State → State
walk f = RMap.range_entries (λ id users s. (true, with_links id (f users) s))

links-walk-Absent :
    (f : KeyMap Bytes → Links → Links) (m : List (ℕ × KeyMap Bytes)) (s : State) (j : ℕ)
    → Absent ℕ_discrete j m
    → links j (walk f m s) ≡ links j s
unfolding walk RMap.range_entries
links-walk-Absent f [] s j h = refl
links-walk-Absent f ((id, users) ∷ m) s j (ne, h) =
    links-walk-Absent f m (with_links id (f users) s) j h
    ∙ links-with_links id (f users) s j
    ∙ if_neg (ℕ_discrete id j) ne _ _

-- A walk over the users' maps changes the links of each node once, with that node's users.
pub links-walk :
    (f : KeyMap Bytes → Links → Links) (m : List (ℕ × KeyMap Bytes)) (s : State) (j : ℕ)
    → Distinct ℕ_discrete m
    → links j (walk f m s) ≡ at_user f (lookup ℕ_discrete j m) (links j s)
unfolding walk RMap.range_entries at_user lookup
links-walk f [] s j h = refl
links-walk f ((id, users) ∷ m) s j (absent, h) = elim (ℕ_discrete id j) [
  | yes p ↦
      links-walk-Absent f m (with_links id (f users) s) j
        (subst (λ (i : ℕ). Absent ℕ_discrete i m) p absent)
      ∙ links-with_links id (f users) s j
      ∙ if_pos (ℕ_discrete id j) p _ _
      ∙ ap (λ (i : ℕ). f users (links i s)) p
      ∙ ap (λ o. at_user f o (links j s)) (sym (if_pos (ℕ_discrete id j) p _ _))
  | no p ↦
      links-walk f m (with_links id (f users) s) j h
      ∙ ap (at_user f (lookup ℕ_discrete j m))
          (links-with_links id (f users) s j ∙ if_neg (ℕ_discrete id j) p _ _)
      ∙ ap (λ o. at_user f o (links j s)) (sym (if_neg (ℕ_discrete id j) p _ _))
]
