-- ===== src/Broker/Listed.antt =====
-- Whom the running listeners of cluster/broker.go list, which the sends of `sendToClients` keep, and which bounds
-- their successes.
use mathlib.Core.Path.{subst}
use mathlib.Core.Logic.{ite, if_pos, if_neg}
use cable.Prelude.{
  ℕ, ◌+◌, ◌%◌, ◌^◌, ◌≤◌, ◌≡◌, refl, sym, ap, ◌∙◌, arith, Bool, true, false, if◌then◌else◌, List, [],
  ◌∷◌, Option, none, some, if_elim, option_elim, Option-cases, Bool-cases, inl, inr, length, ◌==◌,
}
use cable.Errors.{Error}
use cable.GoMap
use cable.GoMap.{Bytes, Bytes-discrete, lookup-insert}
use cable.Safe.KeyMap
use cable.Safe.KeyMap.{KeyMap}
use cable.Packet.Types.{Message}
use cable.Network.Conn.{Waits}
use cable.Server.Table.{Server, get_conn, conn_at}
use cable.Server.Calls
use cable.Broker.Listeners.{
  Listener, Listeners, running, server_of, put_server, tally, send_at, send_over,
}

is_some : {A : Type 0} → Option A → Bool
is_some none = false
is_some (some _) = true

tally-present :
    (sent here : Bool) (n : ℕ)
    → (sent ≡ true → here ≡ true)
    → tally sent n ≤ n + (if here then 1 else 0)
unfolding tally
tally-present true true n k = omega arith
tally-present true false n k = absurd (false_is (k refl))
  where
    false_is : false ≡ true → ⊥
    false_is e = cc
tally-present false here n k = omega arith

module _ {S : Type 0} where
  -- An open server lists the client.
  unfoldable pub lists : Bytes → Option (Server S) → Bool
  unfolding is_some
  lists cid none = false
  lists cid (some s) = if s.closed then false else is_some (get_conn cid s)

  unfoldable pub present : Bytes → Bytes → Listeners S → Bool
  present cid net b = lists cid (server_of net b)

  -- How many of the connections are in the tables of the running listeners.
  unfoldable pub present_in : List (Bytes × Bytes) → Listeners S → ℕ
  present_in [] b = 0
  present_in ((cid, net) ∷ cids) b = (if present cid net b then 1 else 0) + present_in cids b

  pub present_in-length :
      (cids : List (Bytes × Bytes)) (b : Listeners S) → present_in cids b ≤ length cids
  unfolding present_in
  present_in-length [] b = omega arith
  present_in-length ((cid, net) ∷ cids) b = ground (arith, present_in-length cids b)

  module _ (me : ℕ) (ls : Listeners S) where
    -- How many of a node's connections a send can reach.
    unfoldable pub reach : ℕ → List (Bytes × Bytes) → ℕ
    reach id cids = if id == me then present_in cids ls else length cids

    unfoldable pub reach_of : ℕ → Option (List (Bytes × Bytes)) → ℕ
    reach_of id none = 0
    reach_of id (some cids) = reach id cids

    unfoldable pub reachable : Bytes → List (ℕ × KeyMap Bytes) → ℕ
    reachable key [] = 0
    reachable key ((id, keys) ∷ nodes) = reach_of id (KeyMap.get key keys) + reachable key nodes

  unfoldable pub SameLists : Listeners S → Listeners S → Type 0
  SameLists b c = (cid net : Bytes) → present cid net c ≡ present cid net b

  pub present_in-same :
      (cids : List (Bytes × Bytes)) (b c : Listeners S)
      → SameLists b c
      → present_in cids c ≡ present_in cids b
  unfolding present_in SameLists
  present_in-same [] b c same = refl
  present_in-same ((cid, net) ∷ cids) b c same =
      rw (same cid net, present_in-same cids b c same) refl

  module _ (w : Waits Bytes) where
    send_to-lists :
        (i : ℕ) (m : Message) (cid : Bytes) (s : Server S)
        → lists cid (some (Calls.send_to w i m s).1) ≡ lists cid (some s)
    unfolding lists Calls.send_to get_conn
    send_to-lists i m cid s =
        option_elim (λ (r : Option Error × Server S). lists cid (some r.1) ≡ lists cid (some s))
          (conn_at i s) _ _ (λ _. refl) (λ c _. refl)

    send_message-lists :
        (to : Bytes) (m : Message) (cid : Bytes) (s : Server S)
        → lists cid (some (Calls.send_message w to m s).1) ≡ lists cid (some s)
    unfolding Calls.send_message
    send_message-lists to m cid s =
        if_elim (λ (r : Option Error × Server S). lists cid (some r.1) ≡ lists cid (some s))
          s.closed _ _ (λ _. refl)
          (λ _.
            option_elim (λ (r : Option Error × Server S). lists cid (some r.1) ≡ lists cid (some s))
              (get_conn to s) _ _ (λ _. refl) (λ i _. send_to-lists i m cid s))

    -- A send without an error is to a client that is listed.
    send_message-listed :
        (cid : Bytes) (m : Message) (s : Server S)
        → (Calls.send_message w cid m s).0 ≡ none
        → lists cid (some s) ≡ true
    unfolding Calls.send_message lists is_some get_conn
    send_message-listed cid m s =
        if_elim (λ (r : Option Error × Server S). r.0 ≡ none → lists cid (some s) ≡ true) s.closed _
          _ (λ _ x. cc)
          (λ o.
            option_elim (λ (r : Option Error × Server S). r.0 ≡ none → lists cid (some s) ≡ true)
              (get_conn cid s) _ _ (λ _ x. cc) (λ i e _. rw (o, e) refl))

    started_lists :
        (cid : Bytes) (l : Listener S) (t s : Server S)
        → running (some l) ≡ some s
        → lists cid (some t) ≡ lists cid (some s)
        → lists cid (running (some (record l { server = t }))) ≡ lists cid (running (some l))
    unfolding running
    started_lists cid l t s at same = elim (Bool-cases l.started) [
      | inl e ↦
          let on : running (some (record l { server = t })) ≡ some t = rw (running, e) refl in
          ap (lists cid) on ∙ same ∙ sym (ap (lists cid) at)
      | inr e ↦ stopped e
    ]
      where
        stopped :
            l.started ≡ false
            → lists cid (running (some (record l { server = t }))) ≡ lists cid (running (some l))
        stopped e = rw (running, e) refl

    put_server-present :
        (net : Bytes) (t : Server S) (s : Server S) (b : Listeners S)
        → server_of net b ≡ some s
        → ((cid : Bytes) → lists cid (some t) ≡ lists cid (some s))
        → SameLists b (put_server net t b)
    unfolding SameLists present put_server server_of running
    put_server-present net t s b at same cid net' =
        elim (Option-cases (GoMap.lookup Bytes-discrete net b)) [
          | inl e ↦ rw (put_server, e) refl
          | inr (l, e) ↦ elim (Bytes-discrete net net') [
            | yes p ↦
                rw
                  (put_server, e, lookup-insert Bytes-discrete net net' (record l { server = t }) b)
                  (replaced l net' p e)
            | no ne ↦
                rw
                  (put_server, e, lookup-insert Bytes-discrete net net' (record l { server = t }) b)
                  (ap (λ o. lists cid (running o)) (if_neg (Bytes-discrete net net') ne _ _))
          ]
        ]
      where
        replaced :
            (l : Listener S) (other : Bytes)
            → ◌≡◌ {A = Bytes} net other
            → GoMap.lookup Bytes-discrete net b ≡ some l
            → lists cid (
                running (
                  ite
                    (Bytes-discrete net other)
                    (some (record l { server = t }))
                    (GoMap.lookup Bytes-discrete other b)))
              ≡ lists cid (running (GoMap.lookup Bytes-discrete other b))
        replaced l other p e =
            ap (λ (o : Option (Listener S)). lists cid (running o))
              (if_pos (Bytes-discrete net other) p _ _)
            ∙ started_lists cid l t s (sym (ap running e) ∙ at) (same cid)
            ∙ sym (
                ap (λ (o : Option (Listener S)). lists cid (running o))
                  (subst (λ (x : Bytes). GoMap.lookup Bytes-discrete x b ≡ some l) p e))

    -- A send keeps what the listeners list, and succeeds only to a client that is listed.
    send_at-present :
        (m : Message) (cid net : Bytes) (b : Listeners S)
        → SameLists b (send_at w m cid net b).1
          × ((send_at w m cid net b).0 ≡ true → present cid net b ≡ true)
    unfolding send_at present SameLists
    send_at-present m cid net b = elim (Option-cases (server_of net b)) [
      | inl e ↦ rw (send_at, e) (λ x y. refl, λ x. cc)
      | inr (s, e) ↦
          rw (send_at, e)
            (
              put_server-present net (Calls.send_message w cid m s).1 s b e
                  (λ x. send_message-lists cid m x s),
              λ sent. send_message-listed cid m s (was_sent _ sent),
            )
    ]
      where
        was_sent : (o : Option Error) → elim o [ none ↦ true | some _ ↦ false ] ≡ true → o ≡ none
        was_sent none e = refl
        was_sent (some x) e = cc

    pub send_over-present :
        (m : Message) (cids : List (Bytes × Bytes)) (t n : ℕ) (b : Listeners S)
        → (let r = send_over w m cids (t, n, b) in (r.1 ≤ n + present_in cids b) × SameLists b r.2)
    unfolding send_over present_in SameLists
    send_over-present m [] t n b = (omega arith, λ x y. refl)
    send_over-present m ((cid, net) ∷ cids) t n b =
        let (same, listed) = send_at-present m cid net b in
        let (sent, b') = send_at w m cid net b in
        let (few, kept) = send_over-present m cids ((t + 1) % 2 ^ 32) (tally sent n) b' in
        (
          omega (
            arith,
            few,
            tally-present sent (present cid net b) n listed,
            present_in-same cids b b' same,
          ),
          λ x y. kept x y ∙ same x y,
        )
