-- ===== src/Booter/Config/Checks.antt =====
-- The tests that `validate` of cmd/cable/config.go is made of, and their sequence.
use mathlib.Core.Path.{subst}
use cable.Prelude.{
  ℕ, ◌<◌, ◌≤◌, ◌≡◌, ◌≢◌, ◌↔◌, refl, sym, Bool, true, false, List, [], ◌∷◌, Option, none, some,
  if◌then◌else◌, ◌==◌, ltb, ltb→le, le→ltb, arith,
}
use cable.Prelude.Words.{ℤ, pos, negsuc}
use cable.Prelude.Ints.{is_negative, below}
use cable.Booter.Auth.{Method}
use cable.Booter.Messages.{ResendType}
use cable.Booter.Config.{
  Network, Level, Format, DiscoveryType, Invalid, is_empty, bad_level, bad_format, bad_discovery,
  bad_method, is_remote, bad_resend, bad_network, refuse_if, and_then,
}
use cable.Booter.Config.Requirements.{◌⊗◌, IsAtLeast}

-- What the sequence of tests asks for.
pub refuse_if-none :
    {P Q : Type 0} (bad : Bool) (e : Invalid) (rest : Option Invalid)
    → ((bad ≡ false) ↔ P)
    → ((rest ≡ none) ↔ Q)
    → (refuse_if bad e rest ≡ none) ↔ (P × Q)
unfolding refuse_if
refuse_if-none true e rest p q = (λ x. cc, λ x. absurd (true_false (p.1 x.0)))
  where
    true_false : true ≡ false → ⊥
    true_false x = cc
refuse_if-none false e rest p q = (λ x. (p.0 refl, q.0 x), λ x. q.1 x.1)

pub last_none :
    {P : Type 0} (bad : Bool) (e : Invalid)
    → ((bad ≡ false) ↔ P)
    → (refuse_if bad e none ≡ none) ↔ P
last_none bad e p =
    let q = refuse_if-none {Q = Unit {0}} bad e none p (λ _. tt, λ _. refl) in
    (λ x. (q.0 x).0, λ x. q.1 (x, tt))

pub and_then-none :
    {P Q : Type 0} (a b : Option Invalid)
    → ((a ≡ none) ↔ P)
    → ((b ≡ none) ↔ Q)
    → (and_then a b ≡ none) ↔ (P × Q)
unfolding and_then
and_then-none none b p q = (λ x. (p.0 refl, q.0 x), λ x. q.1 x.1)
and_then-none (some e) b p q = (λ x. cc, λ x. absurd (some_none (p.1 x.0)))
  where
    some_none : some e ≡ none → ⊥
    some_none x = cc

-- Tests under a flag.
pub under :
    {R P : Type 0} (b : Bool) (checks : Option Invalid)
    → ((b ≡ true) ↔ R)
    → ((checks ≡ none) ↔ P)
    → ((if b then checks else none) ≡ none) ↔ (R → P)
under true checks r p = (λ x _. p.0 x, λ f. p.1 (f (r.0 refl)))
under false checks r p = (λ x y. absurd (false_is (r.1 y)), λ f. refl)
  where
    false_is : false ≡ true → ⊥
    false_is x = cc

pub regroup : {X P Q R : Type 0} → X ↔ (P ⊗ Q ⊗ R) → X ↔ ((P ⊗ Q) ⊗ R)
regroup (to, back) = (λ x. let (p, (q, r)) = to x in ((p, q), r), λ ((p, q), r). back (p, (q, r)))

pub regroup_four : {X P Q R S T : Type 0} → X ↔ (P ⊗ Q ⊗ R ⊗ S ⊗ T) → X ↔ ((P ⊗ Q ⊗ R ⊗ S) ⊗ T)
regroup_four (to, back) = (
  λ x. let (p, (q, (r, (s, t)))) = to x in ((p, (q, (r, s))), t),
  λ ((p, (q, (r, s))), t). back (p, (q, (r, (s, t)))),
)

pub same : {A : Type 0} → A ↔ A
same = (λ x. x, λ x. x)

-- The tests themselves.
pub is_empty-false : {A : Type 0} (l : List A) → (is_empty l ≡ false) ↔ (l ≢ [])
unfolding is_empty
is_empty-false [] = (λ x. cc, λ f. absurd (f refl))
is_empty-false (x ∷ l) = (λ x y. cc, λ f. refl)

pub positive : (n : ℕ) → ((n == 0) ≡ false) ↔ (0 < n)
positive n = ground arith

pub at_most : (k : ℕ) → (ltb 63 k ≡ false) ↔ (k ≤ 63)
at_most k = ground arith

pub is_negative-false : (i : ℤ) → (is_negative i ≡ false) ↔ IsAtLeast 0 i
unfolding is_negative IsAtLeast
is_negative-false (pos n) = (λ x. (n, refl, omega arith), λ x. refl)
is_negative-false (negsuc n) = (λ x. cc, λ (m, e, _). cc)

size : ℤ → ℕ
size (pos n) = n
size (negsuc n) = 0

pub below-false : (n : ℕ) (i : ℤ) → (below i n ≡ false) ↔ IsAtLeast n i
unfolding below IsAtLeast size
below-false n (pos m) = (λ x. (m, refl, ltb→le m n x), λ (k, e, b). le→ltb m n (at_pos e b))
  where
    at_pos : {k : ℕ} → pos m ≡ pos k → n ≤ k → n ≤ m
    at_pos {k} e b = subst (λ (i : ℤ). n ≤ size i) (sym e) b
below-false n (negsuc m) = (λ x. cc, λ (m, e, _). cc)

pub bad_level-false : (l : Level) → (bad_level l ≡ false) ↔ (l ≢ Level.other_level)
unfolding bad_level
bad_level-false l = ground arith

pub bad_format-false : (f : Format) → (bad_format f ≡ false) ↔ (f ≢ Format.other_format)
unfolding bad_format
bad_format-false f = ground arith

pub bad_discovery-false :
    (t : DiscoveryType) → (bad_discovery t ≡ false) ↔ (t ≢ DiscoveryType.other_type)
unfolding bad_discovery
bad_discovery-false t = ground arith

pub bad_method-false : (m : Method) → (bad_method m ≡ false) ↔ (m ≢ Method.unknown)
unfolding bad_method
bad_method-false m = ground arith

pub is_remote-true : (m : Method) → (is_remote m ≡ true) ↔ (m ≡ Method.remote)
unfolding is_remote
is_remote-true m = ground arith

pub bad_resend-false : (r : ResendType) → (bad_resend r ≡ false) ↔ (r ≢ ResendType.unknown_type)
unfolding bad_resend
bad_resend-false r = ground arith

pub bad_network-false : (n : Network) → (bad_network n ≡ false) ↔ (n ≢ Network.other_network)
unfolding bad_network
bad_network-false n = ground arith
