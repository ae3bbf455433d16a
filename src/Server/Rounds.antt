-- ===== src/Server/Rounds.antt =====
-- What one round of the loop of `Shutdown` in server/server.go does to the table.
use mathlib.Core.Logic.{ite, if_pos}
use mathlib.Core.Path.{subst}
use cable.Prelude.{
  ℕ, ◌≡◌, refl, sym, ap, ◌∙◌, arith, Option-cases, none, some, if_elim, List, [], ◌∷◌, inl, inr,
}
use cable.GoMap
use cable.GoMap.{Bytes, Bytes-discrete, lookup-Absent, Absent, Distinct}
use cable.Safe.RMap
use cable.Network.Conn.{Conn, is_idle}
use cable.Server.Table.{Handlers, Server, conn_at, get_conn, close}
use cable.Server.Shutdown.{visit, shutdown_one, round}
use cable.Safe.Counting.{IsCounted}
use cable.Server.Sound.{IsSound, Leads}
use cable.Server.Closing.{close-IsSound, get-close}

module _ {S : Type 0} (h : Handlers S) where
  -- Before the entries that are left: unless some connection was busy, they are the whole table.
  Left : ℕ → List (Bytes × ℕ) → ℕ × Server S → Type 0
  Left n m (active, s) =
      IsSound n s
      × (active ≡ 0 → (cid : Bytes) → get_conn cid s ≡ GoMap.lookup Bytes-discrete cid m)

  skipped :
      (cid k : Bytes) (i : ℕ) (m : List (Bytes × ℕ)) (d : Dec (◌≡◌ {A = Bytes} k cid))
      → Absent Bytes-discrete k m
      → ite d none (ite d (some i) (GoMap.lookup Bytes-discrete cid m))
        ≡ GoMap.lookup Bytes-discrete cid m
  skipped cid k i m (yes p) a = sym (
      subst (λ (x : Bytes). GoMap.lookup Bytes-discrete x m ≡ none) p
        (lookup-Absent Bytes-discrete k m a))
  skipped cid k i m (no p) a = refl

  gone :
      (n i : ℕ) (k : Bytes) (c : Conn) (m : List (Bytes × ℕ)) (s : Server S) (cid : Bytes)
      → conn_at i s ≡ some c
      → Absent Bytes-discrete k m
      → IsSound n s
      → ((x : Bytes) → get_conn x s ≡ GoMap.lookup Bytes-discrete x ((k, i) ∷ m))
      → get_conn cid (close h i s) ≡ GoMap.lookup Bytes-discrete cid m
  unfolding GoMap.lookup
  gone n i k c m s cid at a sound left =
      let (e, at', u, o) = sound.listed k i (left k ∙ if_pos (Bytes-discrete k k) refl _ _) in
      get-close h i e cid s at' o
      ∙ ap (λ (x : Bytes). ite (Bytes-discrete x cid) none (get_conn cid s)) u
      ∙ ap (ite (Bytes-discrete k cid) none) (left cid)
      ∙ skipped cid k i m (Bytes-discrete k cid) a

  visit-Left :
      (n i active : ℕ) (k : Bytes) (c : Conn) (m : List (Bytes × ℕ)) (s : Server S)
      → conn_at i s ≡ some c
      → Absent Bytes-discrete k m
      → Left n ((k, i) ∷ m) (active, s)
      → Left n m (visit h i c (active, s))
  unfolding Left visit
  visit-Left n i active k c m s at a (sound, left) =
      if_elim
        (λ (r : ℕ × Server S).
          IsSound n r.1
          × (r.0 ≡ 0 → (cid : Bytes) → get_conn cid r.1 ≡ GoMap.lookup Bytes-discrete cid m))
        (is_idle c) _ _
        (λ _. (close-IsSound h n i s sound, λ z cid. gone n i k c m s cid at a sound (left z)))
        (λ _. (sound, λ z. absurd (omega (arith, z))))

  -- A connection that is listed is in the store.
  missing-Left :
      (n i active : ℕ) (k : Bytes) (m : List (Bytes × ℕ)) (s : Server S)
      → conn_at i s ≡ none
      → Left n ((k, i) ∷ m) (active, s)
      → Left n m (active, s)
  unfolding Left GoMap.lookup
  missing-Left n i active k m s at (sound, left) = (
    sound,
    λ z. absurd (empty_place (sound.listed k i (left z k ∙ if_pos (Bytes-discrete k k) refl _ _))),
  )
    where
      empty_place : Leads k i s → ⊥
      empty_place (c, at', u, o) = cc

  round-Left :
      (n : ℕ) (m : List (Bytes × ℕ)) (r : ℕ × Server S)
      → Distinct Bytes-discrete m
      → Left n m r
      → Left n [] (RMap.range_entries (shutdown_one h) m r)
  unfolding RMap.range_entries shutdown_one
  round-Left n [] r d l = l
  round-Left n ((k, i) ∷ m) (active, s) (a, d) l = elim (Option-cases (conn_at i s)) [
    | inl e ↦
        rw (shutdown_one, e) (round-Left n m (active, s) d (missing-Left n i active k m s e l))
    | inr (c, e) ↦
        rw (shutdown_one, e)
          (round-Left n m (visit h i c (active, s)) d (visit-Left n i active k c m s e a l))
  ]

  pub round-IsSound :
      (n : ℕ) (s : Server S)
      → IsSound n s
      → IsSound n (round h s).1
        × ((round h s).0 ≡ 0 → (cid : Bytes) → get_conn cid (round h s).1 ≡ none)
  unfolding round RMap.range Left IsCounted get_conn RMap.get GoMap.lookup
  round-IsSound n s k = round-Left n s.conns.entries (0, s) k.counted.0 (k, λ _ cid. refl)
