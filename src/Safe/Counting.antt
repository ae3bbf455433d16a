-- ===== src/Safe/Counting.antt =====
-- The counter of an `RMap` of internal/safe/rmap.go and the number of its keys.
use mathlib.Core.Logic.{if_pos, if_neg}
use mathlib.Core.Path.{subst}
use cable.Prelude.{
  inl, inr, Option-cases, suc, ◌%◌, ◌^◌, ◌≡◌, List, [], ◌∷◌, none, some, length, arith, refl,
}
use cable.GoMap.{lookup, insert, Absent, Distinct, insert-Distinct, delete-Distinct}
use cable.GoMap
use cable.Safe.RMap
use cable.Safe.RMap.{RMap, grow, shrink}

-- The methods that change an `RMap`.
pub data Change (K V : Type 0) : Type 0 where
  set : K → V → Change K V
  swap : K → V → Change K V
  delete : K → Change K V
  get_or_set : K → V → Change K V

module _ {K V : Type 0} (dec : Discrete K) where
  -- No key twice, and the counter is the number of keys, on 32 bits.
  unfoldable pub IsCounted : RMap K V → Type 0
  IsCounted m = Distinct dec m.entries × (m.len ≡ length m.entries % 2 ^ 32)

  pub length-insert_new :
      (k : K) (v : V) (m : List (K × V))
      → lookup dec k m ≡ none
      → length (insert dec k v m) ≡ suc (length m)
  unfolding lookup insert
  length-insert_new k v [] h = refl
  length-insert_new k v ((j, w) ∷ m) h = ground (arith, length-insert_new k v m)

  pub length-insert_old :
      (k : K) (v w : V) (m : List (K × V))
      → lookup dec k m ≡ some w
      → length (insert dec k v m) ≡ length m
  unfolding lookup insert
  length-insert_old k v w [] h = cc
  length-insert_old k v w ((j, u) ∷ m) h = ground (arith, length-insert_old k v w m)

  delete-Absent : (k : K) (m : List (K × V)) → Absent dec k m → GoMap.delete dec k m ≡ m
  unfolding GoMap.delete
  delete-Absent k [] h = refl
  delete-Absent k ((j, w) ∷ m) (ne, h) = rw (if_neg _ ne, delete-Absent k m h) refl

  pub length-delete_old :
      (k : K) (w : V) (m : List (K × V))
      → Distinct dec m
      → lookup dec k m ≡ some w
      → suc (length (GoMap.delete dec k m)) ≡ length m
  unfolding lookup GoMap.delete
  length-delete_old k w [] d h = cc
  length-delete_old k w ((j, u) ∷ m) (a, d) h = elim (dec j k) [
    | yes p ↦ rw (if_pos _ p, delete-Absent k m (subst (λ (i : K). Absent dec i m) p a)) refl
    | no p ↦ ground (arith, length-delete_old k w m d)
  ]

  unfoldable pub apply : Change K V → RMap K V → RMap K V
  apply (set k v) m = (RMap.set dec k v m).1
  apply (swap k v) m = (RMap.swap dec k v m).1
  apply (delete k) m = (RMap.delete dec k m).1
  apply (get_or_set k v) m = (RMap.get_or_set dec k v m).1

  add-IsCounted :
      (k : K) (v : V) (m : RMap K V)
      → RMap.get dec k m ≡ none
      → IsCounted m
      → IsCounted (RMap.add dec k v m)
  unfolding RMap.get RMap.add grow IsCounted
  add-IsCounted k v m h (d, e) =
      (insert-Distinct dec k v m.entries d, omega (arith, length-insert_new k v m.entries h))

  modify-IsCounted :
      (k : K) (v w : V) (m : RMap K V)
      → RMap.get dec k m ≡ some w
      → IsCounted m
      → IsCounted (RMap.modify dec k v m)
  unfolding RMap.get RMap.modify IsCounted
  modify-IsCounted k v w m h (d, e) =
      (insert-Distinct dec k v m.entries d, omega (arith, length-insert_old k v w m.entries h))

  remove-IsCounted :
      (k : K) (w : V) (m : RMap K V)
      → RMap.get dec k m ≡ some w
      → IsCounted m
      → IsCounted (record { entries = GoMap.delete dec k m.entries; len = shrink m.len })
  unfolding RMap.get shrink IsCounted
  remove-IsCounted k w m h (d, e) =
      (delete-Distinct dec k m.entries d, omega (arith, length-delete_old k w m.entries d h))

  pub apply-IsCounted : (c : Change K V) (m : RMap K V) → IsCounted m → IsCounted (apply c m)
  unfolding apply RMap.set RMap.swap RMap.delete RMap.get_or_set
  apply-IsCounted (set k v) m h = elim (Option-cases (RMap.get dec k m)) [
    | inl e ↦ rw (apply, RMap.set, e) (add-IsCounted k v m e h)
    | inr (w, e) ↦ rw (apply, RMap.set, e) (modify-IsCounted k v w m e h)
  ]
  apply-IsCounted (swap k v) m h = elim (Option-cases (RMap.get dec k m)) [
    | inl e ↦ rw (apply, RMap.swap, e) (add-IsCounted k v m e h)
    | inr (w, e) ↦ rw (apply, RMap.swap, e) (modify-IsCounted k v w m e h)
  ]
  apply-IsCounted (delete k) m h = elim (Option-cases (RMap.get dec k m)) [
    | inl e ↦ rw (apply, RMap.delete, e) h
    | inr (w, e) ↦ rw (apply, RMap.delete, e) (remove-IsCounted k w m e h)
  ]
  apply-IsCounted (get_or_set k v) m h = elim (Option-cases (RMap.get dec k m)) [
    | inl e ↦ rw (apply, RMap.get_or_set, e) (add-IsCounted k v m e h)
    | inr (w, e) ↦ rw (apply, RMap.get_or_set, e) h
  ]
