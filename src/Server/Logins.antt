-- ===== src/Server/Logins.antt =====
-- What `doConnecton` of internal/network/transport_tcp.go, with `OnConnect` of server/server.go, makes of
-- the table of connections.
use mathlib.Core.Logic.{ite}
use mathlib.Core.Path.{subst}
use cable.Prelude.{
  ℕ, ◌≡◌, refl, sym, ◌∙◌, Option, none, some, if_elim, ◌==◌, ◌++◌, ◌∷◌, [], length, inl, inr,
}
use mathlib.Core.Option.{some-injective}
use cable.GoMap.{Bytes, Bytes-discrete}
use cable.Safe.RMap
use cable.Safe.RMap.{RMap}
use cable.Safe.Counting.{Change, apply, apply-IsCounted}
use cable.Packet.Types.{Connect, connect_accepted, close_duplicate_login}
use cable.Network.Conn.{Conn, Waits, new_conn}
use cable.Network.Fair.{IsLive, new_conn-IsLive}
use cable.Server.Table.{Handlers, Server, get_conn}
use cable.Server.Handlers.{evict, reject, accept, on_connect, do_connection}
use cable.Server.Sound.{IsSound, Leads, get-append_new, get-append_old, get-append, update-IsSound}
use cable.Server.Closing.{close-IsSound}
use cable.Server.Codes.{get-swap, connack_code-Same, close_code-IsSound}

pick :
    {P : Type 0} (Q : ℕ → Type 0) (d : Dec P) (i j : ℕ) (o : Option ℕ)
    → ite d (some i) o ≡ some j
    → (P → Q i)
    → (o ≡ some j → Q j)
    → Q j
pick Q (yes p) i j o e f g = subst Q (some-injective _ _ e) (f p)
pick Q (no p) i j o e f g = g e

module _ {S : Type 0} where
  pub with_app-IsSound :
      (n : ℕ) (a : S) (s : Server S) → IsSound n s → IsSound n (record s { app = a })
  unfolding get_conn
  with_app-IsSound n a s k = record { counted = k.counted; listed = k.listed; alive = k.alive }

  -- The store with one more connection.
  abbrev pub enter : Conn → Server S → Server S
  enter c s = record s { heap = s.heap ++ c ∷ [] }

  enter-IsSound :
      (n : ℕ) (c : Conn) (s : Server S) → IsLive n c → IsSound n s → IsSound n (enter c s)
  unfolding get_conn
  enter-IsSound n c s l k = record {
    counted = k.counted;
    listed = λ cid i g.
        let (e, at, u, o) = k.listed cid i g in (e, get-append_old s.heap c e i at, u, o);
    alive = λ i e at. elim (get-append s.heap c e i at) [
      | inl old ↦ k.alive i e old
      | inr p ↦ subst (IsLive n) p l
    ];
  }

  abbrev pub swapped : Bytes → ℕ → Server S → Server S
  swapped cid i s = record s { conns = (RMap.swap Bytes-discrete cid i s.conns).1 }

  pub get-swapped :
      (cid j_cid : Bytes) (i : ℕ) (s : Server S)
      → get_conn j_cid (swapped cid i s)
        ≡ ite (Bytes-discrete cid j_cid) (some i) (get_conn j_cid s)
  unfolding get_conn
  get-swapped cid j_cid i s = get-swap Bytes-discrete cid j_cid i s.conns

  swapped-IsSound :
      (n : ℕ) (cid : Bytes) (i : ℕ) (s : Server S)
      → Leads cid i s
      → IsSound n s
      → IsSound n (swapped cid i s)
  unfolding apply
  swapped-IsSound n cid i s (c, at, u, o) k = record {
    counted = apply-IsCounted Bytes-discrete (Change.swap cid i) s.conns k.counted;
    listed = λ j_cid j g.
        pick (λ (x : ℕ). Leads j_cid x s) (Bytes-discrete cid j_cid) i j (get_conn j_cid s)
          (sym (get-swapped cid j_cid i s) ∙ g) (λ p. (c, at, u ∙ p, o)) (k.listed j_cid j);
    alive = k.alive;
  }

module _ {S : Type 0} (h : Handlers S) (w : Waits Bytes) where
  evict-IsSound : (n : ℕ) (o : Option ℕ) (s : Server S) → IsSound n s → IsSound n (evict h w o s)
  unfolding evict
  evict-IsSound n none s k = k
  evict-IsSound n (some i) s k = close_code-IsSound h w n i close_duplicate_login s k

  accept-IsSound :
      (n : ℕ) (cid : Bytes) (i : ℕ) (s : Server S)
      → Leads cid i s
      → IsSound n s
      → IsSound n (accept h w i cid s)
  unfolding accept
  accept-IsSound n cid i s l k =
      update-IsSound n i _ _ (connack_code-Same n w connect_accepted)
        (evict-IsSound n _ (swapped cid i s) (swapped-IsSound n cid i s l k))

  reject-IsSound : (n i code : ℕ) (s : Server S) → IsSound n s → IsSound n (reject h w i code s)
  unfolding reject
  reject-IsSound n i code s k =
      close-IsSound h n i _ (update-IsSound n i _ s (connack_code-Same n w code) k)

  on_connect-IsSound :
      (n i : ℕ) (p : Connect) (s : Server S)
      → Leads p.identity.client_id i s
      → IsSound n s
      → IsSound n (on_connect h w i p s).1
  unfolding on_connect
  on_connect-IsSound n i p s l k =
      let (code, a) = h.connect_handler p s.app in
      if_elim (λ (r : ℕ × Server S). IsSound n r.1) (code == connect_accepted) _ _
        (λ _.
          accept-IsSound n p.identity.client_id i (record s { app = a }) l
            (with_app-IsSound n a s k))
        (λ _. reject-IsSound n i code (record s { app = a }) (with_app-IsSound n a s k))

  -- A new connection keeps the table sound.
  pub do_connection-IsSound :
      (n : ℕ) (p : Connect) (ip : Bytes) (s : Server S)
      → IsSound n s
      → IsSound n (do_connection h w n p ip s).1
  unfolding do_connection new_conn
  do_connection-IsSound n p ip s k =
      on_connect-IsSound n (length s.heap) p (enter (new_conn n p.identity ip) s)
        (new_conn n p.identity ip, get-append_new s.heap _, refl, refl)
        (enter-IsSound n (new_conn n p.identity ip) s (new_conn-IsLive n p.identity ip) k)
