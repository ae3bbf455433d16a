-- ===== src/Safe/KeyMap.antt =====
-- `KeyMap` of internal/safe/keymap.go, an `RMap` of pointers to `Map`s.
use cable.Prelude.{ℕ, Bool, List, [], Option, none, some, if◌then◌else◌, ◌==◌}
use cable.GoMap.{Bytes, Bytes-discrete}
use cable.GoMap
use cable.Safe.RMap
use cable.Safe.RMap.{RMap}

-- What the pointers of a `KeyMap` lead to.
abbrev pub Fields : Type 0 → Type 0
Fields T = List (Bytes × T)

abbrev pub KeyMap : Type 0 → Type 0
KeyMap T = RMap Bytes (Fields T)

module _ {T : Type 0} where
  unfoldable pub get : Bytes → KeyMap T → Option (Fields T)
  get = RMap.get Bytes-discrete

  -- `Set` under a pointer to a map of its own.
  unfoldable pub set : Bytes → Fields T → KeyMap T → KeyMap T
  set key v m = (RMap.set Bytes-discrete key v m).1

  unfoldable pub delete : Bytes → KeyMap T → KeyMap T
  delete key m = (RMap.delete Bytes-discrete key m).1

  unfoldable pub len_key : Bytes → KeyMap T → ℕ
  len_key key m = elim (get key m) [ none ↦ 0 | some v ↦ RMap.map_len v ]

  unfoldable pub set_key : Bytes → Bytes → T → KeyMap T → KeyMap T
  set_key key field value m =
      let ((v, _), m') = RMap.get_or_set Bytes-discrete key [] m in
      RMap.modify Bytes-discrete key (GoMap.insert Bytes-discrete field value v) m'

  unfoldable pub get_key : Bytes → Bytes → KeyMap T → Option T
  get_key key field m = elim (get key m) [
    | none ↦ none
    | some v ↦ GoMap.lookup Bytes-discrete field v
  ]

  unfoldable pub range_key : {S : Type 0} → Bytes → (Bytes → T → S → Bool × S) → KeyMap T → S → S
  range_key key f m s = elim (get key m) [ none ↦ s | some v ↦ RMap.range_entries f v s ]

  -- The `Map` under the key goes when its last field goes.
  unfoldable pub delete_key : Bytes → Bytes → KeyMap T → KeyMap T
  delete_key key field m = elim (get key m) [
    | none ↦ m
    | some v ↦
        let v' = (RMap.map_delete Bytes-discrete field v).1 in
        let m' = RMap.modify Bytes-discrete key v' m in
        if RMap.map_len v' == 0 then delete key m' else m'
  ]
