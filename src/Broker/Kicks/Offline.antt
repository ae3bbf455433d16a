-- ===== src/Broker/Kicks/Offline.antt =====
-- A user whom `KickUser` of cluster/broker.go kicks, and whom `IsOnline` then looks for, where the user's clients
-- are on the broker's own node.
use mathlib.Core.Path.{subst}
use cable.Prelude.{
  ℕ, ◌≡◌, refl, sym, true, false, List, [], ◌∷◌, Option, none, some, Option-cases, inl, inr, ◌⊎◌,
  ==_iff,
}
use cable.GoMap.{Bytes}
use cable.Safe.RMap.{range, range_entries}
use cable.Safe.KeyMap
use cable.Safe.KeyMap.{KeyMap}
use cable.Network.Conn.{Waits}
use cable.Server.Table.{Handlers}
use cable.Broker.Listeners.{Listeners, is_active, kick_conn}
use cable.Broker.Peers.{Grpc}
use cable.Broker.Routes.{Broker, ask_node, ask_by, is_online}
use cable.Broker.Users.{kick_node, kick_by, kick_user}
use cable.Broker.Kicks.{
  AllSound, kick_at-AllSound, kick_conn-stays, Kicked, kick_conn-Kicked, is_active-Kicked,
}

-- No other node has clients of the user.
unfoldable pub IsOnlyAt : Bytes → ℕ → List (ℕ × KeyMap Bytes) → Type 0
IsOnlyAt uid node [] = Unit
IsOnlyAt uid node ((id, users) ∷ ns) =
    ((id ≡ node) ⊎ (KeyMap.get uid users ≡ none)) × IsOnlyAt uid node ns

module _ {S : Type 0} (h : Bytes → Handlers S) (w : Waits Bytes) where
  -- What the loop does to the broker's own listeners.
  kicked_at : Option (List (Bytes × Bytes)) → Listeners S → Listeners S
  kicked_at none ls = ls
  kicked_at (some cids) ls = kick_conn h w cids ls

  kicked_all : Bytes → List (ℕ × KeyMap Bytes) → Listeners S → Listeners S
  kicked_all uid [] ls = ls
  kicked_all uid ((_, users) ∷ ns) ls = kicked_all uid ns (kicked_at (KeyMap.get uid users) ls)

  module _ (n : ℕ) where
    kick_conn-AllSound :
        (cids : List (Bytes × Bytes)) (ls : Listeners S)
        → AllSound n ls
        → AllSound n (kick_conn h w cids ls)
    unfolding kick_conn
    kick_conn-AllSound [] ls k = k
    kick_conn-AllSound ((cid, net) ∷ cids) ls k =
        kick_conn-AllSound cids _ (kick_at-AllSound h w n cid net ls k)

    stays-Kicked :
        (cids targets : List (Bytes × Bytes)) (ls : Listeners S)
        → AllSound n ls
        → Kicked h w n targets ls
        → Kicked h w n targets (kick_conn h w cids ls)
    unfolding Kicked
    stays-Kicked cids [] ls k gone = tt
    stays-Kicked cids ((cid, net) ∷ targets) ls k (one, gone) =
        (kick_conn-stays h w n cids cid net ls k one, stays-Kicked cids targets ls k gone)

    kicked_at-AllSound :
        (o : Option (List (Bytes × Bytes))) (ls : Listeners S)
        → AllSound n ls
        → AllSound n (kicked_at o ls)
    unfolding kicked_at
    kicked_at-AllSound none ls k = k
    kicked_at-AllSound (some cids) ls k = kick_conn-AllSound cids ls k

    kicked_all-Kicked :
        (uid : Bytes) (ns : List (ℕ × KeyMap Bytes)) (targets : List (Bytes × Bytes))
        (ls : Listeners S)
        → AllSound n ls
        → Kicked h w n targets ls
        → Kicked h w n targets (kicked_all uid ns ls)
    unfolding kicked_all kicked_at
    kicked_all-Kicked uid [] targets ls k gone = gone
    kicked_all-Kicked uid ((_, users) ∷ ns) targets ls k gone =
        kicked_all-Kicked uid ns targets _ (kicked_at-AllSound (KeyMap.get uid users) ls k)
          (after (KeyMap.get uid users))
      where
        after : (o : Option (List (Bytes × Bytes))) → Kicked h w n targets (kicked_at o ls)
        after none = gone
        after (some cids) = stays-Kicked cids targets ls k gone

    -- The clients of the user that are listed are gone.
    AreGone : Bytes → List (ℕ × KeyMap Bytes) → Listeners S → Type 0
    AreGone uid [] ls = Unit
    AreGone uid ((_, users) ∷ ns) ls =
        ((cids : List (Bytes × Bytes))
          → KeyMap.get uid users ≡ some cids
          → is_active cids ls ≡ false)
        × AreGone uid ns ls

    kicked_all-AreGone :
        (uid : Bytes) (ns : List (ℕ × KeyMap Bytes)) (ls : Listeners S)
        → AllSound n ls
        → AreGone uid ns (kicked_all uid ns ls)
    unfolding AreGone kicked_all kicked_at
    kicked_all-AreGone uid [] ls k = tt
    kicked_all-AreGone uid ((_, users) ∷ ns) ls k =
        let o = KeyMap.get uid users in
        (
          λ cids e. is_active-Kicked h w n cids _ (
              kicked_all-Kicked uid ns cids _ (kicked_at-AllSound o ls k) (
                subst (λ (p : Option (List (Bytes × Bytes))). Kicked h w n cids (kicked_at p ls))
                  (sym e) (kick_conn-Kicked h w n cids ls k))),
          kicked_all-AreGone uid ns _ (kicked_at-AllSound o ls k),
        )

module _ {S X : Type 0} (g : Grpc S) (h : Bytes → Handlers S) (w : Waits Bytes) where
  with_listeners : Broker S X → Listeners S → Broker S X
  with_listeners b ls = record b { listeners = ls }

  kick_by-own :
      (uid : Bytes) (id : ℕ) (users : KeyMap Bytes) (b : Broker S X)
      → (id ≡ b.node_id) ⊎ (KeyMap.get uid users ≡ none)
      → kick_by g h w uid id users b
        ≡ (true, with_listeners b (kicked_at h w (KeyMap.get uid users) b.listeners))
  unfolding kick_by kicked_at with_listeners kick_node
  kick_by-own uid id users b here = at (KeyMap.get uid users) refl here
    where
      at :
          (o : Option (List (Bytes × Bytes)))
          → KeyMap.get uid users ≡ o
          → (id ≡ b.node_id) ⊎ (KeyMap.get uid users ≡ none)
          → kick_by g h w uid id users b ≡ (true, with_listeners b (kicked_at h w o b.listeners))
      at none e k = rw (kick_by, e) refl
      at (some cids) e (inl own) = rw (kick_by, e, (==_iff id b.node_id).1 own) refl
      at (some cids) e (inr gone) = cc

  kick_all-own :
      (uid : Bytes) (ns : List (ℕ × KeyMap Bytes)) (b : Broker S X)
      → IsOnlyAt uid b.node_id ns
      → range_entries (kick_by g h w uid) ns b
        ≡ with_listeners b (kicked_all h w uid ns b.listeners)
  unfolding IsOnlyAt range_entries kicked_all with_listeners
  kick_all-own uid [] b k = refl
  kick_all-own uid ((id, users) ∷ ns) b (here, k) =
      rw (kick_by-own uid id users b here) (
        kick_all-own uid ns (with_listeners b (kicked_at h w (KeyMap.get uid users) b.listeners)) k)

  module _ (n : ℕ) where
    ask_by-gone :
        (uid : Bytes) (id : ℕ) (users : KeyMap Bytes) (b : Broker S X)
        → (id ≡ b.node_id) ⊎ (KeyMap.get uid users ≡ none)
        → ((cids : List (Bytes × Bytes))
            → KeyMap.get uid users ≡ some cids
            → is_active cids b.listeners ≡ false)
        → ask_by g uid id users (false, b) ≡ (true, (false, b))
    unfolding ask_by ask_node
    ask_by-gone uid id users b here gone = elim (Option-cases (KeyMap.get uid users)) [
      | inl e ↦ rw (ask_by, e) refl
      | inr (cids, e) ↦ elim here [
        | inl own ↦ rw (ask_by, e, (==_iff id b.node_id).1 own, gone cids e) refl
        | inr other ↦ cc
      ]
    ]

    asked-gone :
        (uid : Bytes) (ns : List (ℕ × KeyMap Bytes)) (b : Broker S X)
        → IsOnlyAt uid b.node_id ns
        → AreGone h w n uid ns b.listeners
        → range_entries (ask_by g uid) ns (false, b) ≡ (false, b)
    unfolding IsOnlyAt AreGone range_entries
    asked-gone uid [] b k gone = refl
    asked-gone uid ((id, users) ∷ ns) b (here, k) (one, gone) =
        rw (ask_by-gone uid id users b here one) (asked-gone uid ns b k gone)

    -- A user who is kicked is offline for the broker from then on, where only the broker's own node has clients
    -- of the user, and every listener that has started has a sound table.
    pub is_online-kick_user :
        (uid : Bytes) (b : Broker S X)
        → AllSound n b.listeners
        → IsOnlyAt uid b.node_id b.state.user_clients.entries
        → is_online g uid (kick_user g h w uid b) ≡ (false, kick_user g h w uid b)
    unfolding is_online kick_user range with_listeners
    is_online-kick_user uid b k only =
        let ns = b.state.user_clients.entries in
        let after : Broker S X = with_listeners b (kicked_all h w uid ns b.listeners) in
        rw (kick_all-own uid ns b only)
          (asked-gone uid ns after only (kicked_all-AreGone h w n uid ns b.listeners k))
