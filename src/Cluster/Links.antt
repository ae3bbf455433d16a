-- ===== src/Cluster/Links.antt =====
-- The links between the channels and the clients of one node, cluster/broker.go.
use mathlib.Core.Logic.{ite}
use mathlib.Core.Path.{◌∙◌, sym}
use cable.Prelude.{◌<◌, ◌^◌, ◌≡◌, List, [], ◌∷◌, Option, none, some, length, arith, refl}
use cable.GoMap.{Bytes, Bytes-discrete, lookup}
use cable.GoMap
use cable.Safe.KeyMap
use cable.Safe.KeyMap.{KeyMap, Fields}
use cable.Safe.Lookups.{fields, fields-delete_key, length-delete_le}
use cable.Safe.Laws.{get_key-set_key, get_key-delete_key}
use cable.Cluster.State.{Links, join, join_channels, leave, leave_channels}

-- The network of a client that a channel lists.
abbrev pub listed : Bytes → Bytes → Links → Option Bytes
listed channel cid l = KeyMap.get_key channel cid l.channel_clients

-- Whether a client's record names a channel.
abbrev pub recorded : Bytes → Bytes → Links → Option {0} Unit
recorded cid channel l = KeyMap.get_key cid channel l.client_channels

-- Whatever a channel lists, the client's record names the channel.
unfoldable pub IsRecorded : Links → Type 0
IsRecorded l =
    (channel cid net : Bytes) → listed channel cid l ≡ some net → recorded cid channel l ≡ some tt

-- Every `Map` has fewer than `2 ^ 32` entries, so that an int32 of 0 is no entry.
unfoldable pub IsSmall : Links → Type 0
IsSmall l =
    (key : Bytes)
    → (length (fields key l.channel_clients) < 2 ^ 32)
      × (length (fields key l.client_channels) < 2 ^ 32)

-- The two decisions of a lookup on two keys.
join_one :
    {A : Type 0} {ch c channel cid : Bytes} (net : A) {o : Option A} {r : Option {0} Unit}
    (d : Dec (channel ≡ ch)) (d' : Dec (cid ≡ c)) {v : A}
    → (o ≡ some v → r ≡ some tt)
    → ite d (ite d' (some net) o) o ≡ some v
    → ite d' (ite d (some tt) r) r ≡ some tt
join_one net (yes p) (yes q) h e = refl
join_one net (yes p) (no q) h e = h e
join_one net (no p) (yes q) h e = h e
join_one net (no p) (no q) h e = h e

leave_one :
    {A : Type 0} {ch c channel cid : Bytes} {o : Option A} {r : Option {0} Unit}
    (d : Dec (channel ≡ ch)) (d' : Dec (cid ≡ c)) {v : A}
    → (o ≡ some v → r ≡ some tt)
    → ite d (ite d' none o) o ≡ some v
    → ite d' (ite d none r) r ≡ some tt
leave_one (yes p) (yes q) h e = cc
leave_one (yes p) (no q) h e = h e
leave_one (no p) (yes q) h e = h e
leave_one (no p) (no q) h e = h e

join-IsRecorded :
    (cid net channel : Bytes) (l : Links) → IsRecorded l → IsRecorded (join cid net channel l)
unfolding join IsRecorded
join-IsRecorded cid net channel l h ch c n e =
    rw (get_key-set_key cid channel tt l.client_channels c ch) (
      join_one net (Bytes-discrete channel ch) (Bytes-discrete cid c) (h ch c n)
        (sym (get_key-set_key channel cid net l.channel_clients ch c) ∙ e))

pub join_channels-IsRecorded :
    (cid net : Bytes) (channels : List (Bytes × Bytes)) (l : Links)
    → IsRecorded l
    → IsRecorded (join_channels cid net channels l)
unfolding join_channels
join_channels-IsRecorded cid net [] l h = h
join_channels-IsRecorded cid net ((channel, _) ∷ channels) l h =
    join_channels-IsRecorded cid net channels (join cid net channel l)
      (join-IsRecorded cid net channel l h)

leave-IsRecorded :
    (cid channel : Bytes) (l : Links) → IsSmall l → IsRecorded l → IsRecorded (leave cid channel l)
unfolding leave IsRecorded IsSmall
leave-IsRecorded cid channel l small h ch c n e =
    rw (get_key-delete_key cid channel l.client_channels (small cid).1 c ch) (
      leave_one (Bytes-discrete channel ch) (Bytes-discrete cid c) (h ch c n)
        (sym (get_key-delete_key channel cid l.channel_clients (small channel).0 ch c) ∙ e))

pub delete_key_small :
    {T : Type 0} (key field : Bytes) (m : KeyMap T)
    → ((k : Bytes) → length (fields k m) < 2 ^ 32)
    → (k : Bytes) → length (fields k (KeyMap.delete_key key field m)) < 2 ^ 32
delete_key_small key field m small k =
    rw (fields-delete_key key field m (small key) k) (smaller (Bytes-discrete key k))
  where
    smaller :
        (d : Dec (key ≡ k))
        → length (ite d (GoMap.delete Bytes-discrete field (fields key m)) (fields k m)) < 2 ^ 32
    smaller (yes p) = omega (arith, length-delete_le Bytes-discrete field (fields key m), small key)
    smaller (no p) = small k

leave-IsSmall : (cid channel : Bytes) (l : Links) → IsSmall l → IsSmall (leave cid channel l)
unfolding leave IsSmall
leave-IsSmall cid channel l small k = (
  delete_key_small channel cid l.channel_clients (λ i. (small i).0) k,
  delete_key_small cid channel l.client_channels (λ i. (small i).1) k,
)

pub leave_channels-IsRecorded :
    (cid : Bytes) (channels : List (Bytes × Bytes)) (l : Links)
    → IsSmall l
    → IsRecorded l
    → IsSmall (leave_channels cid channels l) × IsRecorded (leave_channels cid channels l)
unfolding leave_channels
leave_channels-IsRecorded cid [] l small h = (small, h)
leave_channels-IsRecorded cid ((channel, _) ∷ channels) l small h =
    leave_channels-IsRecorded cid channels (leave cid channel l) (leave-IsSmall cid channel l small)
      (leave-IsRecorded cid channel l small h)
