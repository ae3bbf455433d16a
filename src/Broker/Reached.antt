-- ===== src/Broker/Reached.antt =====
-- What `broker` of cluster/broker.go counts as a success: no more sends than there are connections that a
-- listener of the broker has, and connections that other nodes are said to have.
use mathlib.Core.Path.{subst}
use native.Mathlib.Decide.{ℕ_discrete}
use cable.Prelude.{
  ℕ, ◌+◌, ◌≤◌, ◌≡◌, refl, sym, ◌∙◌, arith, true, List, [], ◌∷◌, if_elim, option_elim, Option-cases,
  inl, inr, length, ◌==◌,
}
use cable.Errors.{Result, ok, err, panic}
use cable.GoMap
use cable.GoMap.{Bytes, Bytes-discrete, lookup-insert}
use cable.Safe.RMap
use cable.Safe.KeyMap
use cable.Safe.KeyMap.{KeyMap}
use cable.Packet.Types.{Message}
use cable.Network.Conn.{Waits}
use cable.Broker.Listeners.{Listeners, send_to_clients}
use cable.Broker.Peers.{
  Grpc, Peer, marshal_message, unmarshal_message, with_message, handle_to_user, call,
}
use cable.Broker.Peers
use cable.Broker.Routes.{
  Broker, Totals, sum, counted, put_peer, send_local, send_remote, send_node, send_by,
}
use cable.Broker.Listed.{
  present_in, present_in-length, present_in-same, SameLists, reach, reach_of, reachable,
  send_over-present,
}

module _ {S : Type 0} where
  module _ (w : Waits Bytes) where
    send_to_clients-present :
        (m : Message) (cids : List (Bytes × Bytes)) (b : Listeners S)
        → ((send_to_clients w m cids b).0.1 ≤ present_in cids b)
          × SameLists b (send_to_clients w m cids b).1
    unfolding send_to_clients
    send_to_clients-present m cids b =
        let (few, kept) = send_over-present w m cids 0 0 b in (omega (arith, few), kept)

    few_handled :
        (cids : List (Bytes × Bytes)) (r : Result Message) (b : Listeners S) (a : Totals)
        → (with_message (λ m c. send_to_clients w m cids c) r b).0 ≡ ok a
        → a.1 ≤ length cids
    unfolding with_message
    few_handled cids (ok m) b a e =
        subst (λ (x : Totals). x.1 ≤ length cids) (ok-injective e)
          (omega (arith, (send_to_clients-present m cids b).0, present_in-length cids b))
      where
        ok-injective : {x y : Totals} → ok x ≡ ok y → x ≡ y
        ok-injective e = cc
    few_handled cids (err _) b a e = cc
    few_handled cids panic b a e = cc

    module _ (g : Grpc S) where
      few_counted :
          (n : ℕ) (r : Result Totals) → ((a : Totals) → r ≡ ok a → a.1 ≤ n) → (counted r).1 ≤ n
      unfolding counted
      few_counted n (ok a) k = k a refl
      few_counted n (err _) k = omega arith
      few_counted n panic k = omega arith

      few_remote :
          (id : ℕ) (m : Message) (cids : List (Bytes × Bytes)) (p : Peer S)
          → (counted (Peers.send_to_user g w id m cids p).0).1 ≤ length cids
      unfolding Peers.send_to_user call handle_to_user counted
      few_remote id m cids p =
          if_elim (λ (r : Result Totals × Peer S). (counted r.0).1 ≤ length cids) p.ready _ _
            (λ _. few_counted (length cids) _ (λ a e.
              let (c, f) =
                g.invoke-response id (handle_to_user w (marshal_message m) cids) p.remote a e in
              few_handled cids (unmarshal_message (marshal_message m)) c a f))
            (λ _. omega arith)

      module _ {X : Type 0} (me : ℕ) (ls : Listeners S) where
        -- At most so many successes, on a broker with this id whose listeners list the same clients.
        Reaches : ℕ → Totals × Broker S X → Type 0
        Reaches top (r, b) = (r.1 ≤ top) × SameLists ls b.listeners × (b.node_id ≡ me)

        send_node-Reaches :
            (top : ℕ) (m : Message) (id : ℕ) (cids : List (Bytes × Bytes)) (r : Totals × Broker S X)
            → Reaches top r
            → Reaches (top + reach me ls id cids) (send_node g w m id cids r)
        unfolding send_node send_local send_remote put_peer Reaches reach sum SameLists
        send_node-Reaches top m id cids (r, b) (few, kept, same) =
            if_elim (Reaches (top + reach me ls id cids)) (id == b.node_id) _ _
              (λ e.
                let (sent, kept') = send_to_clients-present m cids b.listeners in
                let here : reach me ls id cids ≡ present_in cids ls =
                  rw (reach, sym same, e) refl in
                (
                  omega (arith, few, sent, here, present_in-same cids ls b.listeners kept),
                  λ x y. kept' x y ∙ kept x y,
                  same,
                ))
              (λ e.
                let away : reach me ls id cids ≡ length cids = rw (reach, sym same, e) refl in
                option_elim (Reaches (top + reach me ls id cids))
                  (GoMap.lookup ℕ_discrete id b.peers) _ _ (λ _. (omega (arith, few), kept, same))
                  (λ p _. (omega (arith, few, away, few_remote id m cids p), kept, same)))

        send_by-Reaches :
            (top : ℕ) (m : Message) (key : Bytes) (id : ℕ) (keys : KeyMap Bytes)
            (r : Totals × Broker S X)
            → Reaches top r
            → Reaches
                (top + reach_of me ls id (KeyMap.get key keys))
                (send_by g w m key id keys r).1
              × ((send_by g w m key id keys r).0 ≡ true)
        unfolding send_by reach_of Reaches
        send_by-Reaches top m key id keys r k = elim (Option-cases (KeyMap.get key keys)) [
          | inl e ↦ rw (send_by, e) ((omega (arith, k.0), k.1, k.2), refl)
          | inr (cids, e) ↦ rw (send_by, e) (send_node-Reaches top m id cids r k, refl)
        ]

        -- The loops of `SendToUser` and `SendToChannel`.
        loop-Reaches :
            (top : ℕ) (m : Message) (key : Bytes) (nodes : List (ℕ × KeyMap Bytes))
            (r : Totals × Broker S X)
            → Reaches top r
            → (RMap.range_entries (send_by g w m key) nodes r).0.1 ≤ top + reachable me ls key nodes
        unfolding RMap.range_entries reachable Reaches
        loop-Reaches top m key [] r k = omega (arith, k.0)
        loop-Reaches top m key ((id, keys) ∷ nodes) r k =
            let (k', on) = send_by-Reaches top m key id keys r k in
            rw on (
              omega (
                arith,
                loop-Reaches (top + reach_of me ls id (KeyMap.get key keys)) m key nodes
                    (send_by g w m key id keys r).1 k',
              ))

      pub range-reachable :
          {X : Type 0} (m : Message) (key : Bytes) (nodes : List (ℕ × KeyMap Bytes))
          (b : Broker S X)
          → (RMap.range_entries (send_by g w m key) nodes ((0, 0), b)).0.1
            ≤ reachable b.node_id b.listeners key nodes
      unfolding Reaches SameLists
      range-reachable m key nodes b = omega (
        arith,
        loop-Reaches b.node_id b.listeners 0 m key nodes ((0, 0), b)
            (omega arith, λ x y. refl, refl),
      )
