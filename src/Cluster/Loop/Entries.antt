-- ===== src/Cluster/Loop/Entries.antt =====
-- What the entries and the snapshots that a node of cluster/cluster_raft.go applies do to its two indices.
use cable.Prelude.{
  ℕ, ◌+◌, ◌-◌, ◌%◌, ◌^◌, ◌≤◌, ◌<◌, ◌≡◌, refl, ◌∙◌, arith, Bool, true, List, [], ◌∷◌, Option, none,
  some, if◌then◌else◌, if_elim, option_elim, leb, ltb, ◌==◌,
}
use cable.Errors.{Result, ok, err, panic, ◌>>=◌}
use cable.GoMap.{Bytes}
use cable.Cluster.Log.{apply_raft_op}
use cable.Cluster.Snapshot.{make_snapshot}
use cable.Cluster.Node.{
  ConfChange, RaftLibrary, Entry, Node, index_of, leave_group, apply_remove_node, apply_change,
  apply_conf_change, apply_entry, apply_from, apply_entries, store_snapshot, attempt_snapshot,
  apply_snapshot,
}
use cable.Cluster.Loop.{LoopLibrary, on_committed}

-- What holds of the value, if there is one.
unfoldable pub Ensures {ℓ} : {A : Type ℓ} → (A → Type 0) → Result A → Type 0
Ensures P (ok a) = P a
Ensures P (err _) = Unit
Ensures P panic = Unit

pub Ensures-then {ℓ κ} :
    {A : Type ℓ} {B : Type κ} (P : A → Type 0) (Q : B → Type 0) (r : Result A) (k : A → Result B)
    → Ensures P r
    → ((a : A) → P a → Ensures Q (k a))
    → Ensures Q (r >>= k)
unfolding Ensures
Ensures-then P Q (ok a) k p f = f a p
Ensures-then P Q (err e) k p f = tt
Ensures-then P Q panic k p f = tt

Ensures-any {ℓ} : {A : Type ℓ} (r : Result A) → Ensures (λ (a : A). Unit {0}) r
unfolding Ensures
Ensures-any (ok a) = tt
Ensures-any (err e) = tt
Ensures-any panic = tt

module _ {R C : Type 0} where
  -- The indices of two nodes are the same.
  unfoldable pub Same : Node R C → Node R C → Type 0
  Same c d = (d.snapshot_index ≡ c.snapshot_index) × (d.applied_index ≡ c.applied_index)

  -- The snapshot is not ahead of the log, which is counted in 64 bits.
  unfoldable pub IsOrdered : Node R C → Type 0
  IsOrdered c = (c.snapshot_index ≤ c.applied_index) × (c.applied_index < 2 ^ 64)

  -- And no more than 1024 entries have been applied since.
  unfoldable pub IsRecent : Node R C → Type 0
  IsRecent c = IsOrdered c × (c.applied_index ≤ c.snapshot_index + 1024)

  pub Same-trans : (c d e : Node R C) → Same c d → Same d e → Same c e
  unfolding Same
  Same-trans c d e (s, a) (t, b) = (t ∙ s, b ∙ a)

  pub Same-IsOrdered : (c d : Node R C) → Same c d → IsOrdered c → IsOrdered d
  unfolding Same IsOrdered
  Same-IsOrdered c d (s, a) (le, lt) = (omega (arith, s, a, le), omega (arith, a, lt))

unfoldable pub base_of : {C : Type 0} → Option (ℕ × C × Bytes) → ℕ → ℕ
base_of none applied = applied
base_of (some (index, _, _)) applied = index

-- The difference of the two indices, in 64 bits.
ahead :
    (a s : ℕ) → s ≤ a → a < 2 ^ 64 → leb ((a + (2 ^ 64 - s)) % 2 ^ 64) 1024 ≡ true → a ≤ s + 1024
ahead a s le lt few = ground arith

module _ {R C : Type 0} (lib : RaftLibrary R C) where
  -- Entries with indices of 64 bits, above a given one.
  unfoldable pub AreNext : ℕ → List Entry → Type 0
  AreNext base [] = Unit
  AreNext base (e ∷ es) = (base < index_of lib e) × (index_of lib e < 2 ^ 64) × AreNext base es

  apply_change-Same : (cc : ConfChange) (c : Node R C) → Same c (apply_change lib cc c)
  unfolding Same apply_change apply_remove_node leave_group
  apply_change-Same (ConfChange.add_node id) c = (refl, refl)
  apply_change-Same (ConfChange.remove_node id) c =
      if_elim (Same c) (c.node_id == id) _ _ (λ _. (refl, refl)) (λ _. (refl, refl))
  apply_change-Same ConfChange.other c = (refl, refl)

  apply_conf_change-Same :
      (cc : ConfChange) (c : Node R C) → Ensures (Same c) (apply_conf_change lib cc c)
  unfolding Ensures Same apply_conf_change
  apply_conf_change-Same cc c =
      option_elim (Ensures (Same c)) c.raft _ _ (λ _. tt) (λ r _. apply_change-Same cc _)

  SameNext : Node R C → Bool × Node R C → Type 0
  SameNext c (_, d) = Same c d

  apply_entry-Same : (e : Entry) (c : Node R C) → Ensures (SameNext c) (apply_entry lib e c)
  unfolding Ensures SameNext Same apply_entry
  apply_entry-Same (Entry.normal index []) c = (refl, refl)
  apply_entry-Same (Entry.normal index (b ∷ bytes)) c =
      Ensures-then (λ _. Unit {0}) (SameNext c) (apply_raft_op (b ∷ bytes) c.broker) _
        (Ensures-any _) (λ s _. (refl, refl))
  apply_entry-Same (Entry.conf_change index bytes) c =
      option_elim (Ensures (SameNext c)) (lib.unmarshal_conf_change bytes) _ _ (λ _. (refl, refl))
        (λ cc _.
          Ensures-then (Same c) (SameNext c) (apply_conf_change lib cc c) _
            (apply_conf_change-Same cc c) (λ d s. s))

  apply_from-IsOrdered :
      (base last : ℕ) (es : List Entry) (c : Node R C)
      → c.snapshot_index ≤ base
      → IsOrdered c
      → base ≤ last
      → last < 2 ^ 64
      → AreNext base es
      → Ensures IsOrdered (apply_from lib last es c)
  unfolding Ensures apply_from AreNext IsOrdered SameNext Same
  apply_from-IsOrdered base last [] c s o l t next = (omega (arith, s, l), t)
  apply_from-IsOrdered base last (e ∷ es) c s o l t (lower, upper, next) =
      Ensures-then (SameNext c) IsOrdered (apply_entry lib e c) _ (apply_entry-Same e c)
        (λ (more, d) same.
          if_elim (Ensures IsOrdered) more _ _
            (λ _.
              apply_from-IsOrdered base (index_of lib e) es d (omega (arith, same.0, s))
                (Same-IsOrdered c d same o) (omega (arith, lower)) upper next)
            (λ _. Same-IsOrdered c d same o))

  pub on_committed-IsOrdered :
      (base : ℕ) (es : List Entry) (c : Node R C)
      → c.snapshot_index ≤ base
      → IsOrdered c
      → AreNext base es
      → {P : Type 0} (loop : LoopLibrary R C P) → Ensures IsOrdered (on_committed lib loop es c)
  unfolding on_committed apply_entries AreNext Ensures
  on_committed-IsOrdered base [] c s o next loop = o
  on_committed-IsOrdered base (e ∷ es) c s o (lower, upper, next) loop =
      apply_from-IsOrdered base (index_of lib e) (e ∷ es) c s o (omega (arith, lower)) upper
        (lower, upper, next)

  -- A snapshot that is applied is the node's state from then on.
  unfoldable pub AtBase : ℕ → Node R C → Type 0
  AtBase base c = IsOrdered c × (c.snapshot_index ≤ base)

  pub apply_snapshot-AtBase :
      (index : ℕ) (conf : C) (bytes : Bytes) (c : Node R C)
      → index < 2 ^ 64
      → Ensures (AtBase index) (apply_snapshot lib index conf bytes c)
  unfolding Ensures AtBase IsOrdered apply_snapshot
  apply_snapshot-AtBase index conf bytes c t =
      if_elim (Ensures (AtBase index)) (leb index c.applied_index) _ _ (λ _. tt)
        (λ _.
          option_elim (Ensures (AtBase index)) (lib.unmarshal_json bytes) _ _ (λ _. tt)
            (λ snap _. ((omega arith, t), omega arith)))

  -- After the attempt the log is not far ahead.
  pub attempt_snapshot-IsRecent :
      (c : Node R C) → IsOrdered c → Ensures IsRecent (attempt_snapshot lib c)
  unfolding Ensures IsOrdered IsRecent attempt_snapshot store_snapshot
  attempt_snapshot-IsRecent c (le, lt) =
      if_elim (Ensures IsRecent)
        (leb ((c.applied_index + (2 ^ 64 - c.snapshot_index)) % 2 ^ 64) 1024) _ _
        (λ few. ((le, lt), ahead c.applied_index c.snapshot_index le lt few))
        (λ _.
          option_elim (Ensures IsRecent) (make_snapshot lib.marshal_json c.broker) _ _ (λ _. tt)
            (λ bytes _.
              option_elim (Ensures IsRecent) c.raft _ _ (λ _. tt)
                (λ r _.
                  option_elim (Ensures IsRecent)
                    (lib.create_snapshot c.applied_index c.conf_state bytes r) _ _ (λ _. tt)
                    (λ r' _.
                      option_elim (Ensures IsRecent)
                        (lib.compact
                          (if ltb 1024 c.applied_index then c.applied_index - 1024 else 1) r')
                        _ _ (λ _. tt) (λ r'' _. ((omega arith, lt), omega arith))))))
