-- ===== src/Cluster/SnapshotTrip.antt =====
-- A snapshot of cluster/broker.go holds the whole state: recovering from it gives the state back.
use mathlib.Core.Logic.{if_pos, if_neg}
use mathlib.Core.Path.{◌∙◌, sym, ap, ap₂}
use native.Mathlib.Decide.{ℕ_discrete}
use cable.Prelude.{
  ℕ, ◌<◌, leb, false, some, ◌%◌, ◌^◌, ◌≡◌, List, [], ◌∷◌, ◌++◌, length, length-append, append_assoc,
  append-nil, All, refl, arith,
}
use cable.GoMap.{
  lookup-Absent, Bytes, Bytes-discrete, lookup, insert, Absent, Distinct, insert-Absent,
  Distinct-Absent,
}
use cable.Safe.RMap
use cable.Safe.RMap.{RMap, grow}
use cable.Safe.Counting.{IsCounted}
use cable.Safe.KeyMap
use cable.Safe.KeyMap.{KeyMap, Fields}
use cable.Cluster.State.{State}
use cable.Cluster.Node.{RaftLibrary, Node, apply_snapshot}
use cable.Errors.{ok}
use cable.Cluster.Snapshot.{
  Copy, copy_keys, or_made, copy_nodes, copied, Snapshot, make_snapshot, restore_keys,
  restore_nodes, recover_from_snapshot,
}

module _ {K V : Type 0} (dec : Discrete K) where
  insert-seam-Absent :
      (k : K) (v w : V) (m : List (K × V))
      → Absent dec k m
      → insert dec k v (m ++ (k, w) ∷ []) ≡ m ++ (k, v) ∷ []
  unfolding insert
  insert-seam-Absent k v w [] h = if_pos (dec k k) refl _ _
  insert-seam-Absent k v w ((j, u) ∷ m) (ne, h) =
      if_neg (dec j k) ne _ _ ∙ ap (◌∷◌ (j, u)) (insert-seam-Absent k v w m h)

  shift-Distinct :
      (m : List (K × V)) (e : K × V) (n : List (K × V))
      → Distinct dec (m ++ e ∷ n)
      → Distinct dec ((m ++ e ∷ []) ++ n)
  shift-Distinct m e n d = rw (append_assoc m (e ∷ []) n) d

copy_keys-append :
    {T : Type 0} (m acc : List (Bytes × Fields T))
    → Distinct Bytes-discrete (acc ++ m)
    → copy_keys m acc ≡ acc ++ m
unfolding copy_keys
copy_keys-append [] acc d = sym (append-nil acc)
copy_keys-append ((key, v) ∷ m) acc d =
    let fresh =
      insert-Absent Bytes-discrete key v acc (Distinct-Absent Bytes-discrete acc key v m d) in
    ap (copy_keys m) fresh
    ∙ copy_keys-append m (acc ++ (key, v) ∷ []) (shift-Distinct Bytes-discrete acc (key, v) m d)
    ∙ append_assoc acc ((key, v) ∷ []) m

-- The entries without the counters.
strip : {T : Type 0} → List (ℕ × KeyMap T) → Copy T
strip [] = []
strip ((id, v) ∷ m) = (id, v.entries) ∷ strip m

IsNodes : {T : Type 0} → List (ℕ × KeyMap T) → Type 0
IsNodes m = All (λ e. IsCounted Bytes-discrete (e.1)) m

copy_nodes-append :
    {T : Type 0} (m : List (ℕ × KeyMap T)) (acc : Copy T)
    → IsNodes m
    → Distinct ℕ_discrete (acc ++ strip m)
    → copy_nodes m acc ≡ acc ++ strip m
unfolding copy_nodes strip or_made IsNodes IsCounted
copy_nodes-append [] acc h d = sym (append-nil acc)
copy_nodes-append ((id, v) ∷ m) acc ((dv, _), h) d =
    let absent = Distinct-Absent ℕ_discrete acc id v.entries (strip m) d in
    let copied : copy_keys v.entries (or_made (lookup ℕ_discrete id acc)) ≡ v.entries =
      rw (lookup-Absent ℕ_discrete id acc absent) (copy_keys-append v.entries [] dv) in
    ap (copy_nodes m) (
      ap (λ keys. insert ℕ_discrete id keys acc) copied
      ∙ insert-Absent ℕ_discrete id v.entries acc absent)
    ∙ copy_nodes-append m (acc ++ (id, v.entries) ∷ []) h
        (shift-Distinct ℕ_discrete acc (id, v.entries) (strip m) d)
    ∙ append_assoc acc ((id, v.entries) ∷ []) (strip m)

counted : {K V : Type 0} → List (K × V) → RMap K V
counted m = record { entries = m; len = length m % 2 ^ 32 }

restore_keys-append :
    {T : Type 0} (keys m : List (Bytes × Fields T))
    → Distinct Bytes-discrete (m ++ keys)
    → restore_keys keys (counted m) ≡ counted (m ++ keys)
unfolding restore_keys counted KeyMap.set RMap.set RMap.get RMap.add grow
restore_keys-append [] m d = ap counted (sym (append-nil m))
restore_keys-append ((key, v) ∷ keys) m d =
    let absent = Distinct-Absent Bytes-discrete m key v keys d in
    let step : KeyMap.set key v (counted m) ≡ counted (m ++ (key, v) ∷ []) =
      rw (KeyMap.set, RMap.set, lookup-Absent Bytes-discrete key m absent)
        (ap₂ (λ e n. record { entries = e; len = n }) (insert-Absent Bytes-discrete key v m absent)
          (omega (arith, length-append m ((key, v) ∷ [])))) in
    ap (restore_keys keys) step
    ∙ restore_keys-append keys (m ++ (key, v) ∷ [])
        (shift-Distinct Bytes-discrete m (key, v) keys d)
    ∙ ap counted (append_assoc m ((key, v) ∷ []) keys)

uncounted :
    {K V : Type 0} (m : RMap K V) → m.len ≡ length m.entries % 2 ^ 32 → counted m.entries ≡ m
unfolding counted
uncounted m e = ap (λ n. record m { len = n }) (sym e)

restore_nodes-append :
    {T : Type 0} (m acc : List (ℕ × KeyMap T))
    → IsNodes m
    → Distinct ℕ_discrete (acc ++ m)
    → restore_nodes (strip m) (counted acc) ≡ counted (acc ++ m)
unfolding restore_nodes strip IsNodes IsCounted counted RMap.get_or_set RMap.get RMap.add
    RMap.modify RMap.empty grow
restore_nodes-append [] acc h d = ap counted (sym (append-nil acc))
restore_nodes-append ((id, v) ∷ m) acc ((dv, e), h) d =
    let absent = Distinct-Absent ℕ_discrete acc id v m d in
    let whole : restore_keys v.entries RMap.empty ≡ v =
      restore_keys-append v.entries [] dv ∙ uncounted v e in
    let got = RMap.get_or_set ℕ_discrete id RMap.empty (counted acc) in
    let step : RMap.modify ℕ_discrete id (restore_keys v.entries got.0.0) got.1
        ≡ counted (acc ++ (id, v) ∷ []) =
      rw (RMap.get_or_set, lookup-Absent ℕ_discrete id acc absent)
        (ap₂ (λ es n. record { entries = es; len = n })
          (ap₂ (λ w es. insert ℕ_discrete id w es) whole
              (insert-Absent ℕ_discrete id RMap.empty acc absent)
            ∙ insert-seam-Absent ℕ_discrete id v RMap.empty acc absent)
          (omega (arith, length-append acc ((id, v) ∷ [])))) in
    ap (restore_nodes (strip m)) step
    ∙ restore_nodes-append m (acc ++ (id, v) ∷ []) h (shift-Distinct ℕ_discrete acc (id, v) m d)
    ∙ ap counted (append_assoc acc ((id, v) ∷ []) m)

strip-Absent :
    {T : Type 0} (id : ℕ) (m : List (ℕ × KeyMap T))
    → Absent ℕ_discrete id m
    → Absent ℕ_discrete id (strip m)
unfolding strip
strip-Absent id [] h = tt
strip-Absent id ((j, v) ∷ m) (ne, h) = (ne, strip-Absent id m h)

strip-Distinct :
    {T : Type 0} (m : List (ℕ × KeyMap T)) → Distinct ℕ_discrete m → Distinct ℕ_discrete (strip m)
unfolding strip
strip-Distinct [] d = tt
strip-Distinct ((id, v) ∷ m) (a, d) = (strip-Absent id m a, strip-Distinct m d)

-- No key twice on either level, and every counter right.
unfoldable pub IsWhole : {T : Type 0} → RMap ℕ (KeyMap T) → Type 0
IsWhole m = IsCounted ℕ_discrete m × All (λ e. IsCounted Bytes-discrete (e.1)) m.entries

restored :
    {T : Type 0} (m : RMap ℕ (KeyMap T))
    → IsWhole m
    → restore_nodes (copy_nodes m.entries []) RMap.empty ≡ m
unfolding IsWhole IsCounted IsNodes counted RMap.empty
restored m ((d, e), h) =
    ap (λ c. restore_nodes c RMap.empty)
      (copy_nodes-append m.entries [] h (strip-Distinct m.entries d))
    ∙ restore_nodes-append m.entries [] h d
    ∙ uncounted m e

recover_from_snapshot-copied :
    (s : State)
    → IsWhole s.user_clients
    → IsWhole s.channel_clients
    → IsWhole s.client_channels
    → recover_from_snapshot (copied s) ≡ s
unfolding recover_from_snapshot copied
recover_from_snapshot-copied s hu hc hr =
    let channels = restore_nodes (copy_nodes s.client_channels.entries []) RMap.empty in
    ap₂ (λ u c. record { user_clients = u; channel_clients = c; client_channels = channels })
      (restored s.user_clients hu) (restored s.channel_clients hc)
    ∙ ap (λ r. record s { client_channels = r }) (restored s.client_channels hr)

module _ {R C : Type 0} (lib : RaftLibrary R C) where
  -- `json.Unmarshal` gives back what `json.Marshal` has encoded, as it does for a snapshot whose names are
  -- valid UTF-8: in any other `json.Marshal` replaces bytes.
  unfoldable pub Survives : Snapshot → Type 0
  Survives snap =
      (bytes : Bytes) → lib.marshal_json snap ≡ some bytes → lib.unmarshal_json bytes ≡ some snap

  -- A node that applies the snapshot that a broker made, at an index above its own, has the state of that
  -- broker, with every node, key, field and counter, empty maps included, and the snapshot's index and
  -- configuration; where in the broker's state no key is listed twice and every counter is right, and its
  -- names survive the JSON encoding.
  pub apply_snapshot-make_snapshot :
      (s : State) (bytes : Bytes) (index : ℕ) (conf : C) (c : Node R C)
      → IsWhole s.user_clients
      → IsWhole s.channel_clients
      → IsWhole s.client_channels
      → Survives (copied s)
      → make_snapshot lib.marshal_json s ≡ some bytes
      → c.applied_index < index
      → apply_snapshot lib index conf bytes c
        ≡ ok (record c {
          broker = s;
          conf_state = conf;
          snapshot_index = index;
          applied_index = index;
        })
  unfolding make_snapshot apply_snapshot Survives
  apply_snapshot-make_snapshot s bytes index conf c hu hc hr survives made later =
      let newer : leb index c.applied_index ≡ false = ground (arith, later) in
      rw (apply_snapshot, newer, survives bytes made)
        (ap
          (λ (b : State). ok (record c {
            broker = b;
            conf_state = conf;
            snapshot_index = index;
            applied_index = index;
          }))
          (recover_from_snapshot-copied s hu hc hr))
