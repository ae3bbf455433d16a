-- ===== src/Broker/Kicks.antt =====
-- What `kickConn` of cluster/broker.go leaves of its targets on the broker's own listeners.
pub mod Offline
use mathlib.Core.Logic.{ite, if_pos}
use mathlib.Core.Option.{some-injective}
use mathlib.Core.Path.{subst}
use cable.Prelude.{
  ℕ, ◌≡◌, refl, sym, ap, ◌∙◌, Bool, true, false, List, [], ◌∷◌, Option, none, some, Option-cases,
  inl, inr, ◌⊎◌, option_elim, if◌then◌else◌,
}
use cable.GoMap
use cable.GoMap.{Bytes, Bytes-discrete, lookup-insert}
use cable.Network.Conn.{Waits}
use cable.Server.Table.{Handlers, Server, get_conn}
use cable.Server.Calls
use cable.Server.Sound.{IsSound}
use cable.Server.Arrivals.{is_active-none}
use cable.Server.Counts.{get-kick_conn}
use cable.Server.Runs.{kick_conn-IsSound}
use cable.Broker.Listeners.{
  Listener, Listeners, running, server_of, put_server, active_at, is_active, kick_at, kick_conn,
}

nothing : {A B : Type 0} {a : A} {o : Option A} → o ≡ none → o ≡ some a → B
nothing e f = cc

none_either : {A P : Type 0} (d : Dec P) (o : Option A) → o ≡ none → ite d none o ≡ none
none_either (yes p) o e = refl
none_either (no p) o e = e

module _ {S : Type 0} where
  -- Every listener that has started has a sound table.
  unfoldable pub AllSound : ℕ → Listeners S → Type 0
  AllSound n b = (net : Bytes) (s : Server S) → server_of net b ≡ some s → IsSound n s

  unfoldable pub Unlisted : Bytes → Bytes → Listeners S → Type 0
  Unlisted cid net b = (s : Server S) → server_of net b ≡ some s → get_conn cid s ≡ none

  replaced :
      (x : Bytes) (s t : Server S) (l : Listener S) {net : Bytes} (d : Dec (◌≡◌ {A = Bytes} net x))
      (o : Option (Listener S))
      → running (some l) ≡ some s
      → running (ite d (some (record l { server = t })) o) ≡ ite d (some t) (running o)
  unfolding running
  replaced x s t l (yes p) o r = started l.started l.server r
    where
      started :
          (b : Bool) (u : Server S)
          → (if b then some u else none) ≡ some s
          → (if b then some t else none) ≡ some t
      started true u e = refl
      started false u e = cc
  replaced x s t l (no p) o r = refl

  server_of-put_at :
      (net x : Bytes) (s t : Server S) (b : Listeners S) (o : Option (Listener S))
      → GoMap.lookup Bytes-discrete net b ≡ o
      → running o ≡ some s
      → server_of x (put_server net t b) ≡ ite (Bytes-discrete net x) (some t) (server_of x b)
  unfolding server_of put_server running
  server_of-put_at net x s t b none e r = cc
  server_of-put_at net x s t b (some l) e r =
      rw (put_server, e)
        (ap running (lookup-insert Bytes-discrete net x (record l { server = t }) b)
          ∙ replaced x s t l (Bytes-discrete net x) (GoMap.lookup Bytes-discrete x b) r)

  pub server_of-put_server :
      (net x : Bytes) (s t : Server S) (b : Listeners S)
      → server_of net b ≡ some s
      → server_of x (put_server net t b) ≡ ite (Bytes-discrete net x) (some t) (server_of x b)
  unfolding server_of
  server_of-put_server net x s t b r = server_of-put_at net x s t b _ refl r

  -- A property of the new server and of the others holds of each.
  after_put :
      (Q : Server S → Type 0) {net x : Bytes} (d : Dec (◌≡◌ {A = Bytes} net x)) (t u : Server S)
      (o : Option (Server S))
      → ite d (some t) o ≡ some u
      → (net ≡ x → Q t)
      → ((net ≡ x → ⊥) → o ≡ some u → Q u)
      → Q u
  after_put Q (yes p) t u o e f g = subst Q (some-injective t u e) (f p)
  after_put Q (no p) t u o e f g = g p e

  module _ (h : Bytes → Handlers S) (w : Waits Bytes) (n : ℕ) where
    -- What holds of a server, and of it once it has kicked the client, holds after the kick.
    kick_at-keeps :
        (Q : Server S → Type 0) (cid net x : Bytes) (b : Listeners S)
        → ((s : Server S)
            → server_of net b ≡ some s
            → net ≡ x
            → Q (Calls.kick_conn (h net) w cid s).1)
        → ((s : Server S)
            → ((net ≡ x → ⊥) ⊎ (server_of net b ≡ none))
            → server_of x b ≡ some s
            → Q s)
        → (u : Server S) → server_of x (kick_at h w cid net b) ≡ some u
        → Q u
    unfolding kick_at
    kick_at-keeps Q cid net x b f g u =
        option_elim (λ (c : Listeners S). server_of x c ≡ some u → Q u) (server_of net b) _ _
          (λ e a. g u (inr e) a)
          (λ s e a.
            after_put Q (Bytes-discrete net x) _ u (server_of x b)
              (sym (server_of-put_server net x s _ b e) ∙ a) (f s e) (λ ne. g u (inl ne)))

    pub kick_at-AllSound :
        (cid net : Bytes) (b : Listeners S) → AllSound n b → AllSound n (kick_at h w cid net b)
    unfolding AllSound
    kick_at-AllSound cid net b k x =
        kick_at-keeps (IsSound n) cid net x b
          (λ s e _. kick_conn-IsSound (h net) w n cid s (k net s e)) (λ s _ e. k x s e)

    kick_at-Unlisted :
        (cid net : Bytes) (b : Listeners S)
        → AllSound n b
        → Unlisted cid net (kick_at h w cid net b)
    unfolding AllSound Unlisted
    kick_at-Unlisted cid net b k =
        kick_at-keeps (λ (s : Server S). get_conn cid s ≡ none) cid net net b
          (λ s e _.
            (get-kick_conn (h net) w n cid cid s (k net s e)).1
            ∙ if_pos (Bytes-discrete cid cid) refl _ _)
          (λ s why e. elim why [ inl ne ↦ absurd (ne refl) | inr gone ↦ nothing gone e ])

    stays :
        (cid net other x : Bytes) (b : Listeners S)
        → AllSound n b
        → Unlisted other x b
        → Unlisted other x (kick_at h w cid net b)
    unfolding AllSound Unlisted
    stays cid net other x b k gone =
        kick_at-keeps (λ (s : Server S). get_conn other s ≡ none) cid net x b
          (λ s e p.
            (get-kick_conn (h net) w n cid other s (k net s e)).1
            ∙ none_either (Bytes-discrete cid other) _
                (gone s (ap (λ (y : Bytes). server_of y b) (sym p) ∙ e)))
          (λ s _ e. gone s e)

    pub kick_conn-stays :
        (targets : List (Bytes × Bytes)) (other x : Bytes) (b : Listeners S)
        → AllSound n b
        → Unlisted other x b
        → Unlisted other x (kick_conn h w targets b)
    unfolding kick_conn
    kick_conn-stays [] other x b k gone = gone
    kick_conn-stays ((cid, net) ∷ targets) other x b k gone =
        kick_conn-stays targets other x (kick_at h w cid net b) (kick_at-AllSound cid net b k)
          (stays cid net other x b k gone)

    unfoldable pub Kicked : List (Bytes × Bytes) → Listeners S → Type 0
    Kicked [] b = Unit
    Kicked ((cid, net) ∷ targets) b = Unlisted cid net b × Kicked targets b

    pub kick_conn-Kicked :
        (targets : List (Bytes × Bytes)) (b : Listeners S)
        → AllSound n b
        → Kicked targets (kick_conn h w targets b)
    unfolding Kicked kick_conn
    kick_conn-Kicked [] b k = tt
    kick_conn-Kicked ((cid, net) ∷ targets) b k =
        let c = kick_at h w cid net b in
        (
          kick_conn-stays targets cid net c (kick_at-AllSound cid net b k)
              (kick_at-Unlisted cid net b k),
          kick_conn-Kicked targets c (kick_at-AllSound cid net b k),
        )

    active_at-Unlisted :
        (cid net : Bytes) (b : Listeners S)
        → Unlisted cid net b
        → active_at cid (server_of net b) ≡ false
    unfolding Unlisted active_at
    active_at-Unlisted cid net b gone = elim (Option-cases (server_of net b)) [
      | inl e ↦ rw (active_at, e) refl
      | inr (s, e) ↦ rw (active_at, e) (is_active-none cid s (gone s e))
    ]

    pub is_active-Kicked :
        (targets : List (Bytes × Bytes)) (b : Listeners S)
        → Kicked targets b
        → is_active targets b ≡ false
    unfolding Kicked is_active
    is_active-Kicked [] b k = refl
    is_active-Kicked ((cid, net) ∷ targets) b (gone, k) =
        rw (active_at-Unlisted cid net b gone) (is_active-Kicked targets b k)

    -- Where every listener that has started has a sound table, none of the targets is active on the broker's
    -- listeners once `kickConn` has kicked them.
    pub is_active-kick_conn :
        (targets : List (Bytes × Bytes)) (b : Listeners S)
        → AllSound n b
        → is_active targets (kick_conn h w targets b) ≡ false
    is_active-kick_conn targets b k = is_active-Kicked targets _ (kick_conn-Kicked targets b k)
