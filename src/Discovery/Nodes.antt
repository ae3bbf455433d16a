-- ===== src/Discovery/Nodes.antt =====
-- The nodes that `updateNode` of discovery/discovery.go keeps.
use mathlib.Core.Logic.{ite, if_pos, if_neg}
use mathlib.Core.Path.{subst}
use mathlib.Core.Option.{some-injective}
use native.Mathlib.Decide.{ℕ_discrete}
use cable.Prelude.{
  ℕ, arith, ◌≡◌, refl, sym, ap, ◌∙◌, true, false, List, [], ◌∷◌, Option, none, some, if_elim,
  false_true, Bool-cases, inl, inr,
}
use cable.GoMap
use cable.GoMap.{
  Bytes, Absent, Distinct, lookup-insert, lookup-delete, insert-Distinct, delete-Distinct,
}
use cable.Discovery.{Discovery, Seen, is_expired, forget, forget_expired, see, notify, update_node}

abbrev node_at : ℕ → List (ℕ × Seen) → Option Seen
node_at id ns = GoMap.lookup ℕ_discrete id ns

-- A Go map in which each node is listed under its id.
unfoldable pub AreKeyed : List (ℕ × Seen) → Type 0
AreKeyed [] = Unit
AreKeyed ((id, n) ∷ ns) = (n.id ≡ id) × AreKeyed ns

unfoldable pub IsNodeMap : List (ℕ × Seen) → Type 0
IsNodeMap ns = Distinct ℕ_discrete ns × AreKeyed ns

none_or : {A : Type 0} {P : Type 0} (d : Dec P) (o : Option A) → o ≡ none → ite d none o ≡ none
none_or (yes p) o e = refl
none_or (no p) o e = e

was_some :
    {A : Type 0} {P : Type 0} (d : Dec P) (o : Option A) (a : A)
    → ite d none o ≡ some a
    → o ≡ some a
was_some (yes p) o a e = cc
was_some (no p) o a e = e

none_some : {A B : Type 0} {o : Option A} {a : A} → o ≡ none → o ≡ some a → B
none_some e f = cc

-- A sweep forgets nodes only.
swept-none :
    (now : ℕ) (ns : List (ℕ × Seen)) (m : Discovery) (id : ℕ)
    → node_at id m.all_nodes ≡ none
    → node_at id (forget_expired now ns m).all_nodes ≡ none
unfolding forget_expired forget
swept-none now [] m id e = e
swept-none now ((_, n) ∷ ns) m id e = swept-none now ns _ id (
    if_elim (λ (x : Discovery). node_at id x.all_nodes ≡ none) (is_expired now n) _ _
      (λ _. lookup-delete ℕ_discrete n.id id m.all_nodes ∙ none_or (ℕ_discrete n.id id) _ e)
      (λ _. e))

swept-some :
    (now : ℕ) (ns : List (ℕ × Seen)) (m : Discovery) (id : ℕ) (x : Seen)
    → node_at id (forget_expired now ns m).all_nodes ≡ some x
    → node_at id m.all_nodes ≡ some x
unfolding forget_expired forget
swept-some now [] m id x e = e
swept-some now ((_, n) ∷ ns) m id x e =
    if_elim (λ (y : Discovery). node_at id y.all_nodes ≡ some x → node_at id m.all_nodes ≡ some x)
      (is_expired now n) _ _
      (λ _ g.
        was_some (ℕ_discrete n.id id) _ x (sym (lookup-delete ℕ_discrete n.id id m.all_nodes) ∙ g))
      (λ _ g. g) (swept-some now ns _ id x e)

-- And it forgets each expired node.
swept-expired :
    (now : ℕ) (ns : List (ℕ × Seen)) (m : Discovery) (id : ℕ) (x : Seen)
    → node_at id ns ≡ some x
    → x.id ≡ id
    → is_expired now x ≡ true
    → node_at id (forget_expired now ns m).all_nodes ≡ none
unfolding forget_expired forget GoMap.lookup
swept-expired now [] m id x e k old = cc
swept-expired now ((j, n) ∷ ns) m id x e k old = elim (ℕ_discrete j id) [
  | yes p ↦
      let same : n ≡ x = some-injective _ _ (sym (if_pos (ℕ_discrete j id) p _ _) ∙ e) in
      swept-none now ns _ id (
        if_elim (λ (y : Discovery). node_at id y.all_nodes ≡ none) (is_expired now n) _ _
          (λ _.
            lookup-delete ℕ_discrete n.id id m.all_nodes
            ∙ if_pos (ℕ_discrete n.id id) (ap (λ (y : Seen). y.id) same ∙ k) _ _)
          (λ young. false_true young (ap (is_expired now) same ∙ old)))
  | no p ↦ swept-expired now ns _ id x (sym (if_neg (ℕ_discrete j id) p _ _) ∙ e) k old
]

at_key :
    (ns : List (ℕ × Seen)) (id : ℕ) (n : Seen) → AreKeyed ns → node_at id ns ≡ some n → n.id ≡ id
unfolding AreKeyed GoMap.lookup
at_key [] id n k e = cc
at_key ((j, m) ∷ ns) id n (here, k) e = elim (ℕ_discrete j id) [
  | yes p ↦
      let same : m ≡ n = some-injective _ _ (sym (if_pos (ℕ_discrete j id) p _ _) ∙ e) in
      ap (λ (y : Seen). y.id) (sym same) ∙ here ∙ p
  | no p ↦ at_key ns id n k (sym (if_neg (ℕ_discrete j id) p _ _) ∙ e)
]

insert-AreKeyed :
    (id : ℕ) (n : Seen) (ns : List (ℕ × Seen))
    → n.id ≡ id
    → AreKeyed ns
    → AreKeyed (GoMap.insert ℕ_discrete id n ns)
unfolding AreKeyed GoMap.insert
insert-AreKeyed id n [] e k = (e, tt)
insert-AreKeyed id n ((j, m) ∷ ns) e (here, k) = elim (ℕ_discrete j id) [
  | yes p ↦ rw (if_pos _ p) (e ∙ sym p, k)
  | no p ↦ rw (if_neg _ p) (here, insert-AreKeyed id n ns e k)
]

delete-AreKeyed :
    (id : ℕ) (ns : List (ℕ × Seen)) → AreKeyed ns → AreKeyed (GoMap.delete ℕ_discrete id ns)
unfolding AreKeyed GoMap.delete
delete-AreKeyed id [] k = tt
delete-AreKeyed id ((j, m) ∷ ns) (here, k) = elim (ℕ_discrete j id) [
  | yes p ↦ rw (if_pos _ p) (delete-AreKeyed id ns k)
  | no p ↦ rw (if_neg _ p) (here, delete-AreKeyed id ns k)
]

swept-IsNodeMap :
    (now : ℕ) (ns : List (ℕ × Seen)) (m : Discovery)
    → IsNodeMap m.all_nodes
    → IsNodeMap (forget_expired now ns m).all_nodes
unfolding forget_expired forget IsNodeMap
swept-IsNodeMap now [] m h = h
swept-IsNodeMap now ((_, n) ∷ ns) m h = swept-IsNodeMap now ns _ (
    if_elim (λ (x : Discovery). IsNodeMap x.all_nodes) (is_expired now n) _ _
      (λ _.
        (delete-Distinct ℕ_discrete n.id m.all_nodes (h.0), delete-AreKeyed n.id m.all_nodes (h.1)))
      (λ _. h))

see-IsNodeMap :
    (now id : ℕ) (addr : Bytes) (m : Discovery)
    → IsNodeMap m.all_nodes
    → IsNodeMap (see now id addr m).all_nodes
unfolding see IsNodeMap
see-IsNodeMap now id addr m (d, k) =
    (insert-Distinct ℕ_discrete id _ m.all_nodes d, insert-AreKeyed id _ m.all_nodes refl k)

-- No node with the id is expired.
Spared : ℕ → ℕ → List (ℕ × Seen) → Type 0
Spared now id [] = Unit
Spared now id ((_, n) ∷ ns) = (n.id ≡ id → is_expired now n ≡ false) × Spared now id ns

stays-Spared :
    (now : ℕ) (ns : List (ℕ × Seen)) (m : Discovery) (id : ℕ) (x : Seen)
    → Spared now id ns
    → node_at id m.all_nodes ≡ some x
    → node_at id (forget_expired now ns m).all_nodes ≡ some x
unfolding Spared forget_expired forget
stays-Spared now [] m id x s e = e
stays-Spared now ((_, n) ∷ ns) m id x (here, s) e = stays-Spared now ns _ id x s (
    if_elim (λ (y : Discovery). node_at id y.all_nodes ≡ some x) (is_expired now n) _ _
      (λ old.
        lookup-delete ℕ_discrete n.id id m.all_nodes
        ∙ if_neg (ℕ_discrete n.id id) (λ p. false_true (here p) old) _ _
        ∙ e)
      (λ _. e))

others-Spared :
    (now id : ℕ) (ns : List (ℕ × Seen)) → Absent ℕ_discrete id ns → AreKeyed ns → Spared now id ns
unfolding Spared AreKeyed
others-Spared now id [] a k = tt
others-Spared now id ((j, n) ∷ ns) (ne, a) (here, k) =
    (λ e. absurd (ne (sym here ∙ e)), others-Spared now id ns a k)

insert-Spared :
    (now id : ℕ) (n : Seen) (ns : List (ℕ × Seen))
    → is_expired now n ≡ false
    → IsNodeMap ns
    → Spared now id (GoMap.insert ℕ_discrete id n ns)
unfolding Spared GoMap.insert IsNodeMap AreKeyed
insert-Spared now id n [] young h = (λ _. young, tt)
insert-Spared now id n ((j, m) ∷ ns) young ((a, d), (here, k)) = elim (ℕ_discrete j id) [
  | yes p ↦
      rw (if_pos _ p)
        (λ _. young, others-Spared now id ns (subst (λ (i : ℕ). Absent ℕ_discrete i ns) p a) k)
  | no p ↦ rw (if_neg _ p) (λ e. absurd (p (sym here ∙ e)), insert-Spared now id n ns young (d, k))
]

is_expired-now : (now : ℕ) (n : Seen) → n.update_time ≡ now → is_expired now n ≡ false
unfolding is_expired
is_expired-now now n e = ground arith

-- After `updateNode` the node that has been seen is known under its id, with its address and the time, and no
-- node that is known has been silent for more than thirty seconds. The map stays one in which each node is
-- listed once, under its id.
pub update_node-IsNodeMap :
    (now id : ℕ) (addr : Bytes) (m : Discovery)
    → IsNodeMap m.all_nodes
    → IsNodeMap (update_node now id addr m).all_nodes
      × (GoMap.lookup ℕ_discrete id (update_node now id addr m).all_nodes
          ≡ some (record { id = id; addr = addr; update_time = now }))
      × ((other : ℕ) (n : Seen)
          → GoMap.lookup ℕ_discrete other (update_node now id addr m).all_nodes ≡ some n
          → is_expired now n ≡ false)
unfolding update_node notify IsNodeMap see
update_node-IsNodeMap now id addr m h =
    let fresh : Seen = record { id = id; addr = addr; update_time = now } in
    let seen = see now id addr m in
    let h' : IsNodeMap seen.all_nodes = see-IsNodeMap now id addr m h in
    (
      swept-IsNodeMap now seen.all_nodes seen h',
      stays-Spared now seen.all_nodes seen id fresh
          (insert-Spared now id fresh m.all_nodes (is_expired-now now fresh refl) h)
          (lookup-insert ℕ_discrete id id fresh m.all_nodes ∙ if_pos (ℕ_discrete id id) refl _ _),
      λ other n e. elim (Bool-cases (is_expired now n)) [
        | inr young ↦ young
        | inl old ↦
            let was = swept-some now seen.all_nodes seen other n e in
            none_some
              (swept-expired now seen.all_nodes seen other n was
                (at_key seen.all_nodes other n (h'.1) was) old)
              e
      ],
    )
