-- ===== src/Safe/Lookups.antt =====
-- What a `KeyMap` of internal/safe/keymap.go holds under its two keys after each of its methods.
use mathlib.Core.Logic.{ite, if_pos, if_neg}
use mathlib.Core.Path.{◌∙◌, sym, subst}
use cable.Prelude.{
  false, ◌≤◌, ◌<◌, ◌^◌, ◌≡◌, inl, inr, List, [], ◌∷◌, Option, none, some, Option-cases, length,
  arith, refl, ap, if◌then◌else◌, ◌==◌,
}
use cable.GoMap.{Bytes, Bytes-discrete, lookup, insert, lookup-insert, lookup-delete}
use cable.GoMap
use cable.Safe.RMap
use cable.Safe.RMap.{RMap}
use cable.Safe.KeyMap
use cable.Safe.KeyMap.{Fields, KeyMap}

module _ {K V : Type 0} (dec : Discrete K) where
  pub get-modify :
      (k j : K) (v : V) (m : RMap K V)
      → RMap.get dec j (RMap.modify dec k v m) ≡ ite (dec k j) (some v) (RMap.get dec j m)
  unfolding RMap.get RMap.modify
  get-modify k j v m = lookup-insert dec k j v m.entries

  pub get-add :
      (k j : K) (v : V) (m : RMap K V)
      → RMap.get dec j (RMap.add dec k v m) ≡ ite (dec k j) (some v) (RMap.get dec j m)
  unfolding RMap.get RMap.add
  get-add k j v m = lookup-insert dec k j v m.entries

  pub get-delete :
      (k j : K) (m : RMap K V)
      → RMap.get dec j (RMap.delete dec k m).1 ≡ ite (dec k j) none (RMap.get dec j m)
  unfolding RMap.get RMap.delete
  get-delete k j m = elim (Option-cases (lookup dec k m.entries)) [
    | inl e ↦
        rw (RMap.delete, e)
          (elim (dec k j) [
            | yes p ↦ rw (if_pos _ p) (ap (λ (i : K). lookup dec i m.entries) (sym p) ∙ e)
            | no p ↦ rw (if_neg _ p) refl
          ])
    | inr (w, e) ↦ rw (RMap.delete, e) (lookup-delete dec k j m.entries)
  ]

  delete-none : (k : K) (m : List (K × V)) → lookup dec k m ≡ none → GoMap.delete dec k m ≡ m
  unfolding lookup GoMap.delete
  delete-none k [] h = refl
  delete-none k ((j, w) ∷ m) h = ground (arith, delete-none k m)

  pub map_delete-delete :
      (k : K) (m : List (K × V)) → (RMap.map_delete dec k m).1 ≡ GoMap.delete dec k m
  unfolding RMap.map_delete
  map_delete-delete k m = elim (Option-cases (lookup dec k m)) [
    | inl e ↦ rw (RMap.map_delete, e) (sym (delete-none k m e))
    | inr (w, e) ↦ rw (RMap.map_delete, e) refl
  ]

  pub length-delete_le : (k : K) (m : List (K × V)) → length (GoMap.delete dec k m) ≤ length m
  unfolding GoMap.delete
  length-delete_le k [] = omega arith
  length-delete_le k ((j, w) ∷ m) = ground (arith, length-delete_le k m)

pub ite-ite : {P A : Type 0} (d : Dec P) (a b c : A) → ite d a (ite d b c) ≡ ite d a c
ite-ite (yes p) a b c = refl
ite-ite (no p) a b c = refl

module _ {T : Type 0} where
  abbrev or_empty : Option (Fields T) → Fields T
  or_empty none = []
  or_empty (some v) = v

  -- The fields under a key, none where there is no map.
  unfoldable pub fields : Bytes → KeyMap T → Fields T
  fields key m = or_empty (KeyMap.get key m)

  pub get_key-lookup :
      (key field : Bytes) (m : KeyMap T)
      → KeyMap.get_key key field m ≡ lookup Bytes-discrete field (fields key m)
  unfolding KeyMap.get_key fields lookup
  get_key-lookup key field m = elim (Option-cases (KeyMap.get key m)) [
    | inl e ↦ rw (KeyMap.get_key, fields, e) refl
    | inr (v, e) ↦ rw (KeyMap.get_key, fields, e) refl
  ]

  or_empty-ite :
      {P : Type 0} (d : Dec P) (a b : Option (Fields T))
      → or_empty (ite d a b) ≡ ite d (or_empty a) (or_empty b)
  or_empty-ite (yes p) a b = refl
  or_empty-ite (no p) a b = refl

  fields_at :
      (key k : Bytes) (o : Option (Fields T)) (m m' : KeyMap T)
      → KeyMap.get k m' ≡ ite (Bytes-discrete key k) o (KeyMap.get k m)
      → fields k m' ≡ ite (Bytes-discrete key k) (or_empty o) (fields k m)
  unfolding fields
  fields_at key k o m m' e = ap or_empty e ∙ or_empty-ite (Bytes-discrete key k) o (KeyMap.get k m)

  get-set_key :
      (key field : Bytes) (value : T) (m : KeyMap T) (k : Bytes)
      → KeyMap.get k (KeyMap.set_key key field value m)
        ≡ ite
            (Bytes-discrete key k)
            (some (insert Bytes-discrete field value (fields key m)))
            (KeyMap.get k m)
  unfolding KeyMap.set_key RMap.get_or_set KeyMap.get fields
  get-set_key key field value m k = elim (Option-cases (RMap.get Bytes-discrete key m)) [
    | inl e ↦
        rw (KeyMap.set_key, RMap.get_or_set, fields, KeyMap.get, e)
          (get-modify Bytes-discrete key k (insert Bytes-discrete field value [])
              (RMap.add Bytes-discrete key [] m)
            ∙ ap (ite (Bytes-discrete key k) (some (insert Bytes-discrete field value [])))
                (get-add Bytes-discrete key k [] m)
            ∙ ite-ite (Bytes-discrete key k) _ _ _)
    | inr (v, e) ↦
        rw (KeyMap.set_key, RMap.get_or_set, fields, KeyMap.get, e)
          (get-modify Bytes-discrete key k (insert Bytes-discrete field value v) m)
  ]

  -- `SetKey` stores the value under the two keys, and changes nothing else.
  pub fields-set_key :
      (key field : Bytes) (value : T) (m : KeyMap T) (k : Bytes)
      → fields k (KeyMap.set_key key field value m)
        ≡ ite (Bytes-discrete key k) (insert Bytes-discrete field value (fields key m)) (fields k m)
  fields-set_key key field value m k =
      fields_at key k (some _) m (KeyMap.set_key key field value m)
        (get-set_key key field value m k)

  drop_or_keep :
      (key : Bytes) (v : Fields T) (m : KeyMap T) (k : Bytes)
      → length v < 2 ^ 32
      → fields k (
          if RMap.map_len v == 0
          then KeyMap.delete key (RMap.modify Bytes-discrete key v m)
          else RMap.modify Bytes-discrete key v m)
        ≡ ite (Bytes-discrete key k) v (fields k m)
  unfolding RMap.map_len KeyMap.delete KeyMap.get
  drop_or_keep key [] m k small =
      fields_at key k none m (KeyMap.delete key (RMap.modify Bytes-discrete key [] m)) (
        get-delete Bytes-discrete key k (RMap.modify Bytes-discrete key [] m)
        ∙ ap (ite (Bytes-discrete key k) none) (get-modify Bytes-discrete key k [] m)
        ∙ ite-ite (Bytes-discrete key k) _ _ _)
  drop_or_keep key (x ∷ v) m k small =
      let kept : RMap.map_len (x ∷ v) == 0 ≡ false = ground arith in
      rw kept (
        fields_at key k (some (x ∷ v)) m (RMap.modify Bytes-discrete key (x ∷ v) m)
          (get-modify Bytes-discrete key k (x ∷ v) m))

  -- `DeleteKey` deletes the field under the two keys, and changes nothing else.
  pub fields-delete_key :
      (key field : Bytes) (m : KeyMap T)
      → length (fields key m) < 2 ^ 32
      → (k : Bytes)
      → fields k (KeyMap.delete_key key field m)
        ≡ ite (Bytes-discrete key k) (GoMap.delete Bytes-discrete field (fields key m)) (fields k m)
  unfolding KeyMap.get KeyMap.delete_key fields GoMap.delete
  fields-delete_key key field m small k = elim (Option-cases (RMap.get Bytes-discrete key m)) [
    | inl e ↦
        rw (KeyMap.delete_key, e) (fields_at key k none m m (no_change (Bytes-discrete key k) e))
    | inr (v, e) ↦
        rw (KeyMap.delete_key, e, map_delete-delete Bytes-discrete field v)
          (drop_or_keep key (GoMap.delete Bytes-discrete field v) m k
            (omega (arith, length-delete_le Bytes-discrete field v, fits v e)))
  ]
    where
      no_change :
          (d : Dec (key ≡ k))
          → RMap.get Bytes-discrete key m ≡ none
          → RMap.get Bytes-discrete k m ≡ ite d none (RMap.get Bytes-discrete k m)
      no_change (yes p) e = ap (λ (i : Bytes). RMap.get Bytes-discrete i m) (sym p) ∙ e
      no_change (no p) e = refl

      fits : (v : Fields T) → RMap.get Bytes-discrete key m ≡ some v → length v < 2 ^ 32
      fits v e = subst (λ (o : Option (Fields T)). length (or_empty o) < 2 ^ 32) e small
