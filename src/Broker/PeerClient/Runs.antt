-- ===== src/Broker/PeerClient/Runs.antt =====
-- What stays true of the connection of a `peerClient` of cluster/peer_client.go, whatever happens to it.
use cable.Prelude.{
  ℕ, ◌-◌, ◌<◌, ◌≡◌, ◌≢◌, refl, ap, ◌∙◌, arith, Bool, true, false, List, [], ◌∷◌, Option, none, some,
  if_elim, ltb, lt→ltb, false_true, ◌⊎◌, inl, inr, ==_iff,
}
use cable.GoMap.{Bytes}
use cable.Broker.PeerClient.{
  PeerClient, without, close_conn, same_addr, close, reconnect, connected, connect, on_timer,
  update_addr,
}

-- The connections that a client holds: its own, or none.
unfoldable pub held : Option ℕ → List ℕ
held none = []
held (some c) = c ∷ []

-- gRPC holds open the client's connection and no other, and a client that is ready has one.
unfoldable pub IsTidy : PeerClient → Type 0
IsTidy p = (p.opened ≡ held p.conn) × (p.ready ≡ true → (c : ℕ) × (p.conn ≡ some c))

-- It is ready, or a retry waits.
unfoldable pub IsAlive : PeerClient → Type 0
IsAlive p = (p.ready ≡ true) ⊎ (0 < p.timers)

close_conn-held : (o : Option ℕ) → close_conn o (held o) ≡ []
unfolding close_conn without held
close_conn-held none = refl
close_conn-held (some c) = rw ((==_iff c c).1 refl) refl

module _ (dial : ℕ → Bytes → Bool) where
  -- What happens to a client, with the addresses that discovery reports.
  pub data Event : Type 0 where
    connects timer_fires closes : Event
    reported : Bytes → Event

  unfoldable pub step : Event → PeerClient → PeerClient
  step connects p = connect dial p
  step timer_fires p = on_timer dial p
  step closes p = close p
  step (reported addr) p = update_addr dial addr p

  unfoldable pub run : List Event → PeerClient → PeerClient
  run [] p = p
  run (e ∷ es) p = run es (step e p)

  reconnected-IsTidy :
      (p : PeerClient)
      → p.ready ≡ false
      → p.opened ≡ held p.conn
      → IsTidy (connected dial (reconnect dial p))
  unfolding IsTidy reconnect connected held
  reconnected-IsTidy p off e =
      if_elim (λ (x : Bool × PeerClient). IsTidy (connected dial x)) (dial p.attempts p.addr) _ _
        (λ _. (
          ap (◌∷◌ p.attempts) (ap (close_conn p.conn) e ∙ close_conn-held p.conn),
          λ _. (p.attempts, refl),
        ))
        (λ _. (e, λ on. false_true off on))

  connect-IsTidy : (p : PeerClient) → IsTidy p → IsTidy (connect dial p)
  unfolding IsTidy connect
  connect-IsTidy p (e, r) =
      if_elim IsTidy p.ready _ _ (λ _. (e, r)) (λ off. reconnected-IsTidy p off e)

  on_timer-IsTidy : (p : PeerClient) → IsTidy p → IsTidy (on_timer dial p)
  unfolding IsTidy on_timer
  on_timer-IsTidy p t =
      if_elim IsTidy (ltb 0 p.timers) _ _
        (λ _. connect-IsTidy (record p { timers = p.timers - 1 }) t) (λ _. t)

  update_addr-IsTidy : (addr : Bytes) (p : PeerClient) → IsTidy p → IsTidy (update_addr dial addr p)
  unfolding IsTidy update_addr
  update_addr-IsTidy addr p (e, r) =
      if_elim IsTidy (same_addr p.addr addr) _ _ (λ _. (e, r))
        (λ _.
          connect-IsTidy (record p { addr = addr; ready = false }) (e, λ on. false_true refl on))

  close-IsTidy : (p : PeerClient) → IsTidy p → IsTidy (close p)
  unfolding IsTidy close held
  close-IsTidy p (e, r) =
      if_elim IsTidy p.ready _ _
        (λ _. (ap (close_conn p.conn) e ∙ close_conn-held p.conn, λ on. false_true refl on))
        (λ _. (e, r))

  step-IsTidy : (e : Event) (p : PeerClient) → IsTidy p → IsTidy (step e p)
  unfolding step
  step-IsTidy connects p t = connect-IsTidy p t
  step-IsTidy timer_fires p t = on_timer-IsTidy p t
  step-IsTidy closes p t = close-IsTidy p t
  step-IsTidy (reported addr) p t = update_addr-IsTidy addr p t

  -- However often a client connects, retries, is closed and gets a new address, gRPC holds open its own
  -- connection at most, and while it is ready it has one.
  pub run-IsTidy : (es : List Event) (p : PeerClient) → IsTidy p → IsTidy (run es p)
  unfolding run
  run-IsTidy [] p t = t
  run-IsTidy (e ∷ es) p t = run-IsTidy es (step e p) (step-IsTidy e p t)

  reconnected-IsAlive : (p : PeerClient) → IsAlive (connected dial (reconnect dial p))
  unfolding IsAlive reconnect connected
  reconnected-IsAlive p =
      if_elim (λ (x : Bool × PeerClient). IsAlive (connected dial x)) (dial p.attempts p.addr) _ _
        (λ _. inl refl) (λ _. inr (omega arith))

  connect-IsAlive : (p : PeerClient) → IsAlive (connect dial p)
  unfolding IsAlive connect
  connect-IsAlive p = if_elim IsAlive p.ready _ _ (λ on. inl on) (λ _. reconnected-IsAlive p)

  -- A client that has connected and is not closed is ready, or a retry waits, after each step.
  pub step-IsAlive : (e : Event) (p : PeerClient) → e ≢ closes → IsAlive p → IsAlive (step e p)
  unfolding step on_timer update_addr
  step-IsAlive connects p k a = connect-IsAlive p
  step-IsAlive timer_fires p k a =
      if_elim IsAlive (ltb 0 p.timers) _ _ (λ _. connect-IsAlive _) (λ _. a)
  step-IsAlive closes p k a = absurd (k refl)
  step-IsAlive (reported addr) p k a =
      if_elim IsAlive (same_addr p.addr addr) _ _ (λ _. a) (λ _. connect-IsAlive _)

  -- A client that is closed while a retry waits, before it is ready, connects when the timer fires.
  pub on_timer-close :
      (p : PeerClient)
      → p.ready ≡ false
      → 0 < p.timers
      → dial p.attempts p.addr ≡ true
      → (on_timer dial (close p)).ready ≡ true
  unfolding close on_timer connect reconnect connected
  on_timer-close p off waits accepts = rw (close, off, lt→ltb 0 p.timers waits, accepts) refl
