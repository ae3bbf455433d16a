-- ===== src/GoMap.antt =====
-- Go's `map[K]V` as an association list. The order of the list is the order in which `range` visits
-- the keys, which Go leaves open: theorems hold for every order.
use mathlib.Core.Logic.{ite, if_pos, if_neg}
use native.Mathlib.Decide.{ℕ_discrete}
use cable.Prelude.{ℕ, List, [], ◌∷◌, ◌++◌, Option, none, some, ◌≡◌, ◌≢◌, refl, sym, ap, ◌∙◌, arith}

-- A byte string, Go's `string` or `[]byte`.
abbrev pub Bytes : Type 0
Bytes = List ℕ

same_cons :
    {x y : ℕ} {xs ys : Bytes}
    → Dec (x ≡ y)
    → Dec (◌≡◌ {A = Bytes} xs ys)
    → Dec (◌≡◌ {A = Bytes} (x ∷ xs) (y ∷ ys))
same_cons (yes p) (yes q) = yes (cc)
same_cons (yes p) (no q) = no (λ e. q (cc))
same_cons (no p) q = no (λ e. p (cc))

-- `==` on strings.
unfoldable pub Bytes-discrete : Discrete Bytes
unfolding ℕ_discrete same_cons
Bytes-discrete [] [] = yes refl
Bytes-discrete [] (y ∷ ys) = no (λ e. cc)
Bytes-discrete (x ∷ xs) [] = no (λ e. cc)
Bytes-discrete (x ∷ xs) (y ∷ ys) = same_cons (ℕ_discrete x y) (Bytes-discrete xs ys)

module _ {ℓ} {K V : Type ℓ} (dec : Discrete K) where
  -- `v, ok := m[k]`
  unfoldable pub lookup : K → List (K × V) → Option V
  lookup k [] = none
  lookup k ((j, v) ∷ m) = ite (dec j k) (some v) (lookup k m)

  -- `m[k] = v`
  unfoldable pub insert : K → V → List (K × V) → List (K × V)
  insert k v [] = (k, v) ∷ []
  insert k v ((j, w) ∷ m) = ite (dec j k) ((j, v) ∷ m) ((j, w) ∷ insert k v m)

  -- `delete(m, k)`
  unfoldable pub delete : K → List (K × V) → List (K × V)
  delete k [] = []
  delete k ((j, w) ∷ m) = ite (dec j k) (delete k m) ((j, w) ∷ delete k m)

  -- No entry has the key.
  abbrev pub Absent : K → List (K × V) → Type ℓ
  Absent k [] = Unit
  Absent k ((j, _) ∷ m) = (j ≢ k) × Absent k m

  -- No key is listed twice, as in every Go map.
  abbrev pub Distinct : List (K × V) → Type ℓ
  Distinct [] = Unit
  Distinct ((k, _) ∷ m) = Absent k m × Distinct m

  pub lookup-insert :
      (k j : K) (v : V) (m : List (K × V))
      → lookup j (insert k v m) ≡ ite (dec k j) (some v) (lookup j m)
  unfolding lookup insert
  lookup-insert k j v [] = refl
  lookup-insert k j v ((i, w) ∷ m) = ground (arith, lookup-insert k j v m)

  pub lookup-delete :
      (k j : K) (m : List (K × V)) → lookup j (delete k m) ≡ ite (dec k j) none (lookup j m)
  unfolding lookup delete
  lookup-delete k j [] = ground arith
  lookup-delete k j ((i, w) ∷ m) = ground (arith, lookup-delete k j m)

  pub lookup-Absent : (k : K) (m : List (K × V)) → Absent k m → lookup k m ≡ none
  unfolding lookup
  lookup-Absent k [] h = refl
  lookup-Absent k ((j, w) ∷ m) (ne, h) = if_neg (dec j k) ne _ _ ∙ lookup-Absent k m h

  -- An insertion of a new key appends it.
  pub insert-Absent :
      (k : K) (v : V) (m : List (K × V)) → Absent k m → insert k v m ≡ m ++ (k, v) ∷ []
  unfolding insert
  insert-Absent k v [] h = refl
  insert-Absent k v ((j, w) ∷ m) (ne, h) =
      rw (if_neg _ ne) (ap (◌∷◌ (j, w)) (insert-Absent k v m h))

  pub Absent-insert :
      (j k : K) (v : V) (m : List (K × V)) → k ≢ j → Absent j m → Absent j (insert k v m)
  unfolding insert
  Absent-insert j k v [] ne h = (ne, tt)
  Absent-insert j k v ((i, w) ∷ m) ne (ne', h) = elim (dec i k) [
    | yes p ↦ rw (if_pos _ p) (ne', h)
    | no p ↦ rw (if_neg _ p) (ne', Absent-insert j k v m ne h)
  ]

  pub insert-Distinct : (k : K) (v : V) (m : List (K × V)) → Distinct m → Distinct (insert k v m)
  unfolding insert
  insert-Distinct k v [] h = (tt, tt)
  insert-Distinct k v ((i, w) ∷ m) (a, d) = elim (dec i k) [
    | yes p ↦ rw (if_pos _ p) (a, d)
    | no p ↦ rw (if_neg _ p) (Absent-insert i k v m (λ e. p (sym e)) a, insert-Distinct k v m d)
  ]

  pub Absent-delete : (j k : K) (m : List (K × V)) → Absent j m → Absent j (delete k m)
  unfolding delete
  Absent-delete j k [] h = tt
  Absent-delete j k ((i, w) ∷ m) (ne, h) = elim (dec i k) [
    | yes p ↦ rw (if_pos _ p) (Absent-delete j k m h)
    | no p ↦ rw (if_neg _ p) (ne, Absent-delete j k m h)
  ]

  pub delete-Distinct : (k : K) (m : List (K × V)) → Distinct m → Distinct (delete k m)
  unfolding delete
  delete-Distinct k [] h = tt
  delete-Distinct k ((i, w) ∷ m) (a, d) = elim (dec i k) [
    | yes p ↦ rw (if_pos _ p) (delete-Distinct k m d)
    | no p ↦ rw (if_neg _ p) (Absent-delete i k m a, delete-Distinct k m d)
  ]

sample :
    lookup {V = ℕ} Bytes-discrete (2 ∷ []) (insert Bytes-discrete (2 ∷ []) 7 ((1 ∷ [], 5) ∷ []))
    ≡ some 7
unfolding lookup insert Bytes-discrete ℕ_discrete
sample = refl

module _ {ℓ} {K V : Type ℓ} (dec : Discrete K) where
  -- The key at the seam of a map is new to the entries before it.
  pub Distinct-Absent :
      (m : List (K × V)) (k : K) (v : V) (n : List (K × V))
      → Distinct dec (m ++ (k, v) ∷ n)
      → Absent dec k m
  Distinct-Absent [] k v n h = tt
  Distinct-Absent ((j, w) ∷ m) k v n (a, d) = (Absent_at m a, Distinct-Absent m k v n d)
    where
      Absent_at : (m : List (K × V)) → Absent dec j (m ++ (k, v) ∷ n) → j ≢ k
      Absent_at [] (ne, h) = λ e. ne (sym e)
      Absent_at (_ ∷ m) (_, h) = Absent_at m h
