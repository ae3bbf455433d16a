-- ===== src/Server/Ends.antt =====
-- How the loop of `Shutdown` in server/server.go comes to an end.
use cable.Prelude.{
  ◌+◌, ◌*◌, ◌/◌, ◌-◌, ◌≤◌, ◌<◌, ltb, arith, ℕ, zero, suc, ◌≡◌, refl, ap, false, true, Bool,
  Bool-cases, Option-cases, Option, none, some, if_elim, inl, inr, ◌⊎◌, false_true, ◌==◌, ==_iff,
}
use cable.GoMap.{Bytes}
use cable.Errors.{Error}
use cable.Server.Table.{Handlers, Server, get_conn}
use cable.Server.Shutdown.{wait_time, wait, round, rounds, outcome, shutdown}
use cable.Server.Rounds.{round-IsSound}
use cable.Server.Sound.{IsSound}

wait_time-bound : (active : ℕ) → 50 ≤ wait_time active
unfolding wait_time
wait_time-bound active = ground arith

-- A wait of at least 50 ms brings the deadline nearer by as much.
wait-cases :
    (left ms b : ℕ)
    → 50 ≤ ms
    → left < 50 * (b + 2)
    → (wait (some left) ms ≡ none)
      ⊎ ((left' : ℕ) × (wait (some left) ms ≡ some (some left')) × (left' < 50 * (b + 1)))
unfolding wait
wait-cases left ms b long near = elim (Bool-cases (ltb left ms)) [
  | inl e ↦ inl (rw e refl)
  | inr e ↦ inr (left - ms, rw e refl, omega (arith, long, near))
]

wait-over : (left ms : ℕ) → 50 ≤ ms → left < 50 → wait (some left) ms ≡ none
unfolding wait
wait-over left ms long near = ground (arith, long, near)

-- Whatever happens in a wait that the context outlives, the table stays sound.
unfoldable pub Rests : {S : Type 0} → ℕ → (ℕ → Server S → Option (Server S)) → Type 0
Rests {S} n rest = (ms : ℕ) (s t : Server S) → rest ms s ≡ some t → IsSound n s → IsSound n t

module _ {S : Type 0} (h : Handlers S) where
  -- The loop has ended, and unless the context ended nobody is listed.
  Ended : Option (Bool × Server S) → Type 0
  Ended o =
      (r : Bool × Server S) × (o ≡ some r) × (r.0 ≡ true → (cid : Bytes) → get_conn cid r.1 ≡ none)

  round-Ended :
      (n fuel : ℕ) (rest : ℕ → Server S → Option (Server S)) (left : Option ℕ) (s : Server S)
      → IsSound n s
      → ((round h s).0 == 0) ≡ true
      → Ended (rounds h rest left (suc fuel) s)
  unfolding rounds Ended
  round-Ended n fuel rest left s k e =
      rw (rounds, e)
        ((true, (round h s).1), refl, λ _. (round-IsSound h n s k).1 ((==_iff _ 0).0 e))

  rounds-Ended :
      (n b d : ℕ) (rest : ℕ → Server S → Option (Server S)) (s : Server S)
      → Rests n rest
      → IsSound n s
      → d < 50 * (b + 1)
      → Ended (rounds h rest (some d) (suc b) s)
  unfolding rounds Ended Rests
  rounds-Ended n zero d rest s law k near = elim (Bool-cases ((round h s).0 == 0)) [
    | inl e ↦ round-Ended n zero rest (some d) s k e
    | inr e ↦
        let over =
          wait-over d (wait_time (round h s).0) (wait_time-bound (round h s).0)
            (omega (arith, near)) in
        rw (rounds, e, over) ((false, (round h s).1), refl, λ x. cc)
  ]
  rounds-Ended n (suc b) d rest s law k near = elim (Bool-cases ((round h s).0 == 0)) [
    | inl e ↦ round-Ended n (suc b) rest (some d) s k e
    | inr e ↦
        elim (wait-cases d (wait_time (round h s).0) b (wait_time-bound (round h s).0)
          (omega (arith, near))) [
            | inl over ↦ rw (rounds, e, over) ((false, (round h s).1), refl, λ x. cc)
            | inr (d', w, near') ↦
                elim (Option-cases (rest (wait_time (round h s).0) (round h s).1)) [
                  | inl r ↦ rw (rounds, e, w, r) ((false, (round h s).1), refl, λ x. cc)
                  | inr (t, r) ↦
                      rw (rounds, e, w, r)
                        (rounds-Ended n b d' rest t law (law _ _ t r (round-IsSound h n s k).0)
                          near')
                ]
          ]
  ]

  outcome-Ended :
      (e : Option Error) (o : Option (Bool × Server S))
      → Ended o
      → (x : Option Error) × (t : Server S) × (outcome h e o ≡ some (x, t))
        × (((x ≡ e) × ((cid : Bytes) → get_conn cid t ≡ none)) ⊎ (x ≡ some (Error.foreign true)))
  unfolding outcome Ended
  outcome-Ended e o ((true, t), p, clear) = (e, t, ap (outcome h e) p, inl (refl, clear refl))
  outcome-Ended e o ((false, t), p, clear) =
      (some (Error.foreign true), t, ap (outcome h e) p, inr refl)

  -- `Shutdown` of an open server in a sound state, whose context has a deadline `d` ms ahead and may be
  -- cancelled before, ends within `d / 50 + 1` rounds, whatever happens to the server in the waits, as long
  -- as its table stays sound: with the result of the transport's `Close` and an empty table, or with the
  -- error of the context.
  pub shutdown-ends :
      (n d : ℕ) (rest : ℕ → Server S → Option (Server S)) (e : Option Error) (s : Server S)
      → Rests n rest
      → IsSound n s
      → s.closed ≡ false
      → (x : Option Error) × (t : Server S) × (shutdown h rest (some d) e (suc (d / 50)) s
          ≡ some (x, t))
        × (((x ≡ e) × ((cid : Bytes) → get_conn cid t ≡ none)) ⊎ (x ≡ some (Error.foreign true)))
  unfolding shutdown get_conn
  shutdown-ends n d rest e s law k o =
      if_elim
        (λ (r : Option (Option Error × Server S)).
          (x : Option Error) × (t : Server S) × (r ≡ some (x, t))
          × (((x ≡ e) × ((cid : Bytes) → get_conn cid t ≡ none)) ⊎ (x ≡ some (Error.foreign true))))
        s.closed _ _ (false_true o)
        (λ _. outcome-Ended e _ (
          rounds-Ended n (d / 50) d rest (record s { closed = true }) law
            (record { counted = k.counted; listed = k.listed; alive = k.alive }) (omega arith)))
