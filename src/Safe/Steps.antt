-- ===== src/Safe/Steps.antt =====
-- `RMap` of internal/safe/rmap.go with calls that overlap. `Set`, `Swap`, `Delete` and `GetOrSet` take two
-- atomic steps, one on the `sync.Map` and, where it added or removed a key, one on the counter; the steps of
-- other calls come in between.
use cable.Prelude.{ℕ, suc, ◌+◌, ◌%◌, ◌^◌, ◌<◌, ◌≡◌, none, some, length, arith, refl, option_elim}
use cable.GoMap.{lookup, Distinct, insert-Distinct, delete-Distinct}
use cable.GoMap
use cable.Safe.RMap
use cable.Safe.RMap.{RMap, grow, shrink}
use cable.Safe.Counting.{Change, length-insert_new, length-insert_old, length-delete_old}

-- A map, and how many calls are between their steps: before `l.Add(1)`, and before `l.Add(-1)`.
pub record Shared (K V : Type 0) : Type 0 where
  pub map : RMap K V
  pub growing : ℕ
  pub shrinking : ℕ

abbrev pub at_rest : {K V : Type 0} → RMap K V → Shared K V
at_rest m = record { map = m; growing = 0; shrinking = 0 }

module _ {K V : Type 0} (dec : Discrete K) where
  -- `m.m.Swap`, `m.m.LoadAndDelete` and `m.m.LoadOrStore`
  unfoldable pub stored : K → V → Shared K V → Shared K V
  stored k v s = record s { map = RMap.modify dec k v s.map }

  unfoldable pub removed : K → Shared K V → Shared K V
  removed k s = record s {
    map = record s.map { entries = GoMap.delete dec k s.map.entries };
    shrinking = s.shrinking + 1;
  }

  unfoldable pub added : K → V → Shared K V → Shared K V
  added k v s = record s { map = RMap.modify dec k v s.map; growing = s.growing + 1 }

  -- The first step of a call.
  unfoldable pub begin_change : Change K V → Shared K V → Shared K V
  begin_change (Change.set k v) s = elim (RMap.get dec k s.map) [
    | none ↦ added k v s
    | some _ ↦ stored k v s
  ]
  begin_change (Change.swap k v) s = elim (RMap.get dec k s.map) [
    | none ↦ added k v s
    | some _ ↦ stored k v s
  ]
  begin_change (Change.delete k) s = elim (RMap.get dec k s.map) [ none ↦ s | some _ ↦ removed k s ]
  begin_change (Change.get_or_set k v) s = elim (RMap.get dec k s.map) [
    | none ↦ added k v s
    | some _ ↦ s
  ]

  -- `l.Add(1)` and `l.Add(-1)`, with the calls that are left between their steps.
  unfoldable pub add_one : ℕ → Shared K V → Shared K V
  add_one n s = record s { map = record s.map { len = grow s.map.len }; growing = n }

  unfoldable pub take_one : ℕ → Shared K V → Shared K V
  take_one n s = record s { map = record s.map { len = shrink s.map.len }; shrinking = n }

  -- The states of a map that starts empty.
  pub data Overlaps : Shared K V → Type 0 where
    fresh : Overlaps (at_rest RMap.empty)
    begun : {s : Shared K V} (c : Change K V) → Overlaps s → Overlaps (begin_change c s)
    grown : {s : Shared K V} (n : ℕ) → s.growing ≡ suc n → Overlaps s → Overlaps (add_one n s)
    shrunk : {s : Shared K V} (n : ℕ) → s.shrinking ≡ suc n → Overlaps s → Overlaps (take_one n s)

  -- No key twice, and the counter, with what the calls have still to add and to take, is the number of keys.
  pub record IsOwed (s : Shared K V) : Type 0 where
    pub once : Distinct dec s.map.entries
    pub word : s.map.len < 2 ^ 32
    pub owed : (s.map.len + s.growing) % 2 ^ 32 ≡ (length s.map.entries + s.shrinking) % 2 ^ 32

  added-IsOwed :
      (k : K) (v : V) (s : Shared K V)
      → RMap.get dec k s.map ≡ none
      → IsOwed s
      → IsOwed (added k v s)
  unfolding added RMap.modify RMap.get
  added-IsOwed k v s e h = record {
    once = insert-Distinct dec k v s.map.entries h.once;
    word = h.word;
    owed = omega (arith, h.owed, length-insert_new dec k v s.map.entries e);
  }

  stored-IsOwed :
      (k : K) (v w : V) (s : Shared K V)
      → RMap.get dec k s.map ≡ some w
      → IsOwed s
      → IsOwed (stored k v s)
  unfolding stored RMap.modify RMap.get
  stored-IsOwed k v w s e h = record {
    once = insert-Distinct dec k v s.map.entries h.once;
    word = h.word;
    owed = omega (arith, h.owed, length-insert_old dec k v w s.map.entries e);
  }

  removed-IsOwed :
      (k : K) (w : V) (s : Shared K V)
      → RMap.get dec k s.map ≡ some w
      → IsOwed s
      → IsOwed (removed k s)
  unfolding removed RMap.get
  removed-IsOwed k w s e h = record {
    once = delete-Distinct dec k s.map.entries h.once;
    word = h.word;
    owed = omega (arith, h.owed, length-delete_old dec k w s.map.entries h.once e);
  }

  begin_change-IsOwed : (c : Change K V) (s : Shared K V) → IsOwed s → IsOwed (begin_change c s)
  unfolding begin_change
  begin_change-IsOwed (Change.set k v) s h =
      option_elim IsOwed (RMap.get dec k s.map) _ _ (λ e. added-IsOwed k v s e h)
        (λ w e. stored-IsOwed k v w s e h)
  begin_change-IsOwed (Change.swap k v) s h =
      option_elim IsOwed (RMap.get dec k s.map) _ _ (λ e. added-IsOwed k v s e h)
        (λ w e. stored-IsOwed k v w s e h)
  begin_change-IsOwed (Change.delete k) s h =
      option_elim IsOwed (RMap.get dec k s.map) _ _ (λ _. h) (λ w e. removed-IsOwed k w s e h)
  begin_change-IsOwed (Change.get_or_set k v) s h =
      option_elim IsOwed (RMap.get dec k s.map) _ _ (λ e. added-IsOwed k v s e h) (λ _ _. h)

  -- In every interleaving of `Set`, `Swap`, `Delete` and `GetOrSet` on a map that starts empty: no key is
  -- listed twice, and `Len`, with what the calls that are between their two steps have still to add and to
  -- take from the counter, is the number of the keys, on 32 bits.
  pub Overlaps-IsOwed : (s : Shared K V) → Overlaps s → IsOwed s
  unfolding add_one take_one grow shrink RMap.empty
  Overlaps-IsOwed _ fresh = record { once = tt; word = omega arith; owed = refl }
  Overlaps-IsOwed _ (begun {s} c p) = begin_change-IsOwed c s (Overlaps-IsOwed s p)
  Overlaps-IsOwed _ (grown {s} n e p) =
      let h = Overlaps-IsOwed s p in
      record { once = h.once; word = omega arith; owed = omega (arith, h.owed, h.word, e) }
  Overlaps-IsOwed _ (shrunk {s} n e p) =
      let h = Overlaps-IsOwed s p in
      record { once = h.once; word = omega arith; owed = omega (arith, h.owed, h.word, e) }
