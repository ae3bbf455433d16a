-- ===== src/Tests/Safe.antt =====
-- The shared maps at concrete inputs.
use native.Mathlib.Decide.{ℕ_discrete}
use cable.Prelude.{ℕ, ◌<◌, ◌^◌, ◌≡◌, refl, [], ◌∷◌, arith, length}
use cable.GoMap.{Bytes-discrete, lookup, insert}
use cable.Safe.RMap
use cable.Safe.RMap.{RMap, grow, shrink}
use cable.Safe.Counting.{Change}
use cable.Safe.Steps.{
  Shared, at_rest, added, removed, begin_change, fresh, begun, IsOwed, Overlaps-IsOwed,
}
use cable.Safe.KeyMap
use cable.Safe.KeyMap.{KeyMap}
use cable.Safe.Lookups.{fields}

-- One call has set the key 1 and not yet counted it when another deletes it.
abbrev between : Shared ℕ ℕ
between =
    begin_change ℕ_discrete (Change.delete 1)
      (begin_change ℕ_discrete (Change.set 1 7) (at_rest RMap.empty))

Overlaps-IsOwed_example : IsOwed ℕ_discrete between
Overlaps-IsOwed_example =
    Overlaps-IsOwed ℕ_discrete between (begun (Change.delete 1) (begun (Change.set 1 7) fresh))

both_owe : (between.growing ≡ 1) × (between.shrinking ≡ 1) × (between.map.len ≡ 0)
unfolding begin_change added removed RMap.get RMap.modify RMap.empty lookup insert ℕ_discrete
both_owe = (refl, refl, refl)

abbrev one_field : KeyMap ℕ
one_field = record { entries = (1 ∷ [], (2 ∷ [], 5) ∷ []) ∷ []; len = 1 }

few_fields : length (fields (1 ∷ []) one_field) < 2 ^ 32
unfolding fields KeyMap.get RMap.get lookup Bytes-discrete ℕ_discrete
few_fields = omega arith
