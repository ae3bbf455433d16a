-- ===== src/Server/Counts.antt =====
-- What `KickConn` and `Brodcast` of server/server.go return, and whom they reach.
use mathlib.Core.Logic.{ite}
use mathlib.Core.Path.{subst}
use cable.Prelude.{
  false_true, ℕ, ◌+◌, ◌^◌, ◌≤◌, ◌<◌, ◌≡◌, refl, sym, ap, ◌∙◌, arith, false, not, Option, none,
  if_elim, Option-cases, inl, inr, List, [], ◌∷◌, length,
}
use cable.Errors.{Error}
use cable.GoMap.{Bytes, Bytes-discrete}
use cable.Safe.RMap
use cable.Safe.Counting.{IsCounted}
use cable.Packet.Types.{Message, close_kicked_out}
use cable.Network.Conn.{Waits}
use cable.Server.Table.{Handlers, Server, get_conn}
use cable.Server.Calls.{
  is_open, is_active, conn_count, kick_conn, send_to, count, brodcast_one, brodcast,
}
use cable.Server.Sound.{IsSound}
use cable.Server.Codes.{get-close_code}

unlisted :
    {S : Type 0} {cid other : Bytes} (d : Dec (◌≡◌ {A = Bytes} cid other)) (s : Server S)
    → get_conn cid s ≡ none
    → get_conn other s ≡ ite d none (get_conn other s)
unlisted (yes p) s e = sym (ap (λ (x : Bytes). get_conn x s) p) ∙ e
unlisted (no p) s e = refl

module _ {S : Type 0} (h : Handlers S) (w : Waits Bytes) where
  -- From a sound table, `KickConn` returns whether the client was active, and takes this client, and no
  -- other, off the table.
  pub get-kick_conn :
      (n : ℕ) (cid other : Bytes) (s : Server S)
      → IsSound n s
      → ((kick_conn h w cid s).0 ≡ is_active cid s)
        × (get_conn other (kick_conn h w cid s).1
            ≡ ite (Bytes-discrete cid other) none (get_conn other s))
  unfolding kick_conn is_active is_open
  get-kick_conn n cid other s k = elim (Option-cases (get_conn cid s)) [
    | inl e ↦ rw (kick_conn, is_active, e) (refl, unlisted (Bytes-discrete cid other) s e)
    | inr (i, e) ↦
        let (c, at, u, o) = k.listed cid i e in
        rw (kick_conn, is_active, e)
          (
            sym (ap is_open at ∙ ap not o),
            get-close_code h w i close_kicked_out c other s at o
                ∙ ap (λ (x : Bytes). ite (Bytes-discrete x other) none (get_conn other s)) u,
          )
  ]

module _ {S : Type 0} (w : Waits Bytes) where
  -- The counters of the loop, and how many of the entries are still to come.
  Counted : ℕ → ℕ × ℕ × Server S → Type 0
  Counted total (t, u, s) = (t ≡ total) × (u ≤ t)

  brodcast_one-Counted :
      (p : Message) (cid : Bytes) (i total : ℕ) (r : ℕ × ℕ × Server S)
      → total + 1 < 2 ^ 32
      → Counted total r
      → Counted (total + 1) (brodcast_one w p cid i r).1
  unfolding Counted brodcast_one count
  brodcast_one-Counted p cid i total (t, u, s) few (e, le) =
      elim (Option-cases (send_to w i p s).0) [
        | inl x ↦ rw (x) (omega (arith, e, few), omega (arith, e, few, le))
        | inr (y, x) ↦ rw (x) (omega (arith, e, few), omega (arith, e, few, le))
      ]

  loop-Counted :
      (p : Message) (m : List (Bytes × ℕ)) (total : ℕ) (r : ℕ × ℕ × Server S)
      → total + length m < 2 ^ 32
      → Counted total r
      → Counted (total + length m) (RMap.range_entries (brodcast_one w p) m r)
  unfolding RMap.range_entries brodcast_one
  loop-Counted p [] total r few k = subst (λ (x : ℕ). Counted x r) (omega arith) k
  loop-Counted p ((cid, i) ∷ m) total r few k =
      subst
        (λ (x : ℕ).
          Counted x (RMap.range_entries (brodcast_one w p) m (brodcast_one w p cid i r).1))
        (omega arith)
        (loop-Counted p m (total + 1) (brodcast_one w p cid i r).1 (omega (arith, few))
          (brodcast_one-Counted p cid i total r (omega (arith, few)) k))

  -- From a sound table of less than 2 ^ 32 clients, `Brodcast` of a server that is not shut down returns
  -- no error, as total the `ConnCount`, and at most as many successes.
  pub brodcast-counts :
      (n : ℕ) (p : Message) (s : Server S)
      → IsSound n s
      → s.closed ≡ false
      → length s.conns.entries < 2 ^ 32
      → ((brodcast w p s).0.0 ≡ conn_count s)
        × ((brodcast w p s).0.1 ≤ (brodcast w p s).0.0)
        × ((brodcast w p s).0.2 ≡ none)
  unfolding brodcast conn_count Counted IsCounted RMap.range
  brodcast-counts n p s k o few =
      if_elim
        (λ (r : (ℕ × ℕ × Option Error) × Server S).
          (r.0.0 ≡ s.conns.len) × (r.0.1 ≤ r.0.0) × (r.0.2 ≡ none))
        s.closed _ _ (false_true o)
        (λ _.
          let (t, le) =
            loop-Counted p s.conns.entries 0 (0, 0, s) (omega (arith, few)) (refl, omega arith) in
          (omega (arith, t, k.counted.1, few), le, refl))
