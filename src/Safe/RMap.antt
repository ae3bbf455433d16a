-- ===== src/Safe/RMap.antt =====
-- `RMap` of internal/safe/rmap.go and `Map` of internal/safe/map.go. An `RMap` is the entries of its
-- `sync.Map` and the counter `l`, an int32 as its 32 bits. A `Map` is a Go map behind a lock.
use cable.Prelude.{
  ℕ, ◌+◌, ◌-◌, ◌%◌, ◌^◌, Bool, true, false, List, [], ◌∷◌, Option, none, some, if◌then◌else◌,
  length,
}
use cable.GoMap

pub record RMap (K V : Type 0) : Type 0 where
  pub entries : List (K × V)
  pub len : ℕ

-- The zero value, `RMap[K, V]{}`.
unfoldable pub empty : {K V : Type 0} → RMap K V
empty = record { entries = []; len = 0 }

-- `l.Add(1)` and `l.Add(-1)`
unfoldable pub grow : ℕ → ℕ
grow n = (n + 1) % 2 ^ 32

unfoldable pub shrink : ℕ → ℕ
shrink n = (n + (2 ^ 32 - 1)) % 2 ^ 32

module _ {K V : Type 0} (dec : Discrete K) where
  unfoldable pub get : K → RMap K V → Option V
  get k m = GoMap.lookup dec k m.entries

  -- A write through the pointer that is stored under `k`, which leaves the counter alone.
  unfoldable pub modify : K → V → RMap K V → RMap K V
  modify k v m = record m { entries = GoMap.insert dec k v m.entries }

  unfoldable pub add : K → V → RMap K V → RMap K V
  add k v m = record { entries = GoMap.insert dec k v m.entries; len = grow m.len }

  -- The value is true for a new key.
  unfoldable pub set : K → V → RMap K V → Bool × RMap K V
  set k v m = elim (get k m) [ none ↦ (true, add k v m) | some _ ↦ (false, modify k v m) ]

  unfoldable pub swap : K → V → RMap K V → Option V × RMap K V
  swap k v m = elim (get k m) [ none ↦ (none, add k v m) | some old ↦ (some old, modify k v m) ]

  unfoldable pub delete : K → RMap K V → Bool × RMap K V
  delete k m = elim (get k m) [
    | none ↦ (false, m)
    | some _ ↦ (true, record { entries = GoMap.delete dec k m.entries; len = shrink m.len })
  ]

  -- The value under the key after the call, and whether it was there before.
  unfoldable pub get_or_set : K → V → RMap K V → (V × Bool) × RMap K V
  get_or_set k v m = elim (get k m) [ none ↦ ((v, false), add k v m) | some w ↦ ((w, true), m) ]

-- `Range`: the callback changes the caller's state and says whether to go on.
unfoldable pub range_entries : {K V S : Type 0} → (K → V → S → Bool × S) → List (K × V) → S → S
range_entries f [] s = s
range_entries f ((k, v) ∷ m) s =
    let (more, s') = f k v s in if more then range_entries f m s' else s'

unfoldable pub range : {K V S : Type 0} → (K → V → S → Bool × S) → RMap K V → S → S
range f m s = range_entries f m.entries s

-- `Map.Len`, the 32 bits of an int32.
unfoldable pub map_len : {K V : Type 0} → List (K × V) → ℕ
map_len m = length m % 2 ^ 32

-- `Map.Swap`, `Map.Delete` and `Map.GetOrSet`; `Map.Get` and `Map.Set` are `lookup` and `insert`.
module _ {K V : Type 0} (dec : Discrete K) where
  unfoldable pub map_swap : K → V → List (K × V) → Option V × List (K × V)
  map_swap k v m = (GoMap.lookup dec k m, GoMap.insert dec k v m)

  unfoldable pub map_delete : K → List (K × V) → Bool × List (K × V)
  map_delete k m = elim (GoMap.lookup dec k m) [
    | none ↦ (false, m)
    | some _ ↦ (true, GoMap.delete dec k m)
  ]

  unfoldable pub map_get_or_set : K → V → List (K × V) → (V × Bool) × List (K × V)
  map_get_or_set k v m = elim (GoMap.lookup dec k m) [
    | none ↦ ((v, false), GoMap.insert dec k v m)
    | some w ↦ ((w, true), m)
  ]
