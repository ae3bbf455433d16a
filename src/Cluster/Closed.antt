-- ===== src/Cluster/Closed.antt =====
-- What `userClosedOp` of cluster/broker.go does to the links of the node.
use mathlib.Core.Logic.{ite, if_pos, if_neg}
use mathlib.Core.Path.{◌∙◌, ap}
use cable.Prelude.{
  ◌<◌, ◌^◌, ◌≡◌, ◌≢◌, inl, inr, true, [], ◌∷◌, Option, none, some, Option-cases, length, refl,
}
use cable.GoMap.{Bytes, Bytes-discrete, lookup}
use cable.Safe.RMap
use cable.Safe.KeyMap
use cable.Safe.KeyMap.{KeyMap, Fields}
use cable.Safe.Lookups.{fields, get_key-lookup}
use cable.Safe.Laws.{get_key-delete_key}
use cable.Cluster.State.{Links, leave_all}
use cable.Cluster.Links.{listed, recorded, IsRecorded, IsSmall, delete_key_small}

-- The loop over the channels of the client's record.
leave_each : Bytes → Fields (Unit {0}) → KeyMap Bytes → KeyMap Bytes
leave_each cid v m = RMap.range_entries (λ channel _ m. (true, KeyMap.delete_key channel cid m)) v m

-- The one who leaves loses the channels of the list.
unless : {A B : Type 0} → Option A → Option B → Option B
unless none o = o
unless (some _) o = none

after_one :
    {A B : Type 0} {ch c channel cid : Bytes} (d : Dec (channel ≡ ch)) (d' : Dec (cid ≡ c))
    (r : Option A) (x : A) (o : Option B)
    → ite d' (unless r (ite d (ite d' none o) o)) (ite d (ite d' none o) o)
      ≡ ite d' (unless (ite d (some x) r) o) o
unfolding unless
after_one (yes p) (yes q) none x o = refl
after_one (yes p) (yes q) (some y) x o = refl
after_one (yes p) (no q) r x o = refl
after_one (no p) (yes q) r x o = refl
after_one (no p) (no q) r x o = refl

get_key-leave_each :
    (cid : Bytes) (v : Fields (Unit {0})) (m : KeyMap Bytes)
    → ((k : Bytes) → length (fields k m) < 2 ^ 32)
    → (ch c : Bytes)
    → KeyMap.get_key ch c (leave_each cid v m)
      ≡ ite
          (Bytes-discrete cid c)
          (unless (lookup Bytes-discrete ch v) (KeyMap.get_key ch c m))
          (KeyMap.get_key ch c m)
unfolding leave_each RMap.range_entries unless lookup
get_key-leave_each cid [] m small ch c = same (Bytes-discrete cid c)
  where
    same : {P A : Type 0} (d : Dec P) {o : Option A} → o ≡ ite d o o
    same (yes p) = refl
    same (no p) = refl
get_key-leave_each cid ((channel, x) ∷ v) m small ch c =
    let m' = KeyMap.delete_key channel cid m in
    get_key-leave_each cid v m' (delete_key_small channel cid m small) ch c
    ∙ ap
        (λ (o : Option Bytes). ite (Bytes-discrete cid c) (unless (lookup Bytes-discrete ch v) o) o)
        (get_key-delete_key channel cid m (small channel) ch c)
    ∙ after_one (Bytes-discrete channel ch) (Bytes-discrete cid c) (lookup Bytes-discrete ch v) x
        (KeyMap.get_key ch c m)

leave_all-leave_each :
    (cid : Bytes) (clients : KeyMap (Unit {0})) (m : KeyMap Bytes)
    → leave_all cid clients m ≡ leave_each cid (fields cid clients) m
unfolding leave_all KeyMap.range_key fields leave_each RMap.range_entries
leave_all-leave_each cid clients m = elim (Option-cases (KeyMap.get cid clients)) [
  | inl e ↦ rw (leave_all, KeyMap.range_key, fields, e) refl
  | inr (v, e) ↦ rw (leave_all, KeyMap.range_key, fields, e) refl
]

listed-leave_all :
    (cid : Bytes) (l : Links)
    → IsSmall l
    → (ch c : Bytes)
    → KeyMap.get_key ch c (leave_all cid l.client_channels l.channel_clients)
      ≡ ite (Bytes-discrete cid c) (unless (recorded cid ch l) (listed ch c l)) (listed ch c l)
unfolding IsSmall
listed-leave_all cid l small ch c =
    rw
      (
        leave_all-leave_each cid l.client_channels l.channel_clients,
        get_key-lookup cid ch l.client_channels,
      )
      (get_key-leave_each cid (fields cid l.client_channels) l.channel_clients (λ k. (small k).0) ch
        c)

-- Where the record names every channel that lists the client, none lists it afterwards.
pub listed-leave_all_self :
    (cid : Bytes) (l : Links)
    → IsSmall l
    → IsRecorded l
    → (ch : Bytes)
    → KeyMap.get_key ch cid (leave_all cid l.client_channels l.channel_clients) ≡ none
unfolding IsRecorded unless
listed-leave_all_self cid l small h ch =
    listed-leave_all cid l small ch cid ∙ rw (if_pos (Bytes-discrete cid cid) refl) gone
  where
    gone : unless (recorded cid ch l) (listed ch cid l) ≡ none
    gone = elim (Option-cases (listed ch cid l)) [
      | inl e ↦ elim (Option-cases (recorded cid ch l)) [
        | inl r ↦ rw (unless, r) e
        | inr (_, r) ↦ rw (unless, r) refl
      ]
      | inr (net, e) ↦ rw (unless, h ch cid net e) refl
    ]

-- Every other client keeps its places.
pub listed-leave_all_other :
    (cid : Bytes) (l : Links)
    → IsSmall l
    → (ch c : Bytes) → cid ≢ c
    → KeyMap.get_key ch c (leave_all cid l.client_channels l.channel_clients) ≡ listed ch c l
listed-leave_all_other cid l small ch c ne =
    listed-leave_all cid l small ch c ∙ rw (if_neg (Bytes-discrete cid c) ne) refl
