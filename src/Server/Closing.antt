-- ===== src/Server/Closing.antt =====
-- What `close` of internal/network/conn.go, with `OnClose` of server/server.go, leaves of the table.
use mathlib.Core.Logic.{ite}
use mathlib.Core.Path.{subst}
use cable.Prelude.{
  ℕ, inl, inr, ◌≡◌, ◌≢◌, refl, sym, ap, ◌∙◌, false, Option, none, some, Option-cases, if_elim,
  option_elim, List, get_elem?,
}
use mathlib.Core.Option.{some-injective}
use cable.GoMap.{Bytes, Bytes-discrete}
use cable.Safe.RMap
use cable.Safe.RMap.{RMap}
use cable.Safe.Counting.{Change, IsCounted, apply, apply-IsCounted}
use cable.Safe.Lookups.{get-delete}
use cable.Packet.Types.{Identity}
use cable.Network.Conn.{Conn, shut}
use cable.Network.Fair.{shut-IsLive}
use cable.Server.Table.{
  Handlers, Server, conn_at, put_conn, get_conn, drop, on_close, close_conn, close,
}
use cable.Server.Sound.{IsSound, Leads, put_old, put-alive}

ite-some :
    {A : Type 0} {P : Type 0} (d : Dec P) (o : Option A) (a : A)
    → ite d none o ≡ some a
    → (P → ⊥) × (o ≡ some a)
ite-some (yes p) o a e = cc
ite-some (no p) o a e = (p, e)

module _ {S : Type 0} (h : Handlers S) where
  -- Whether or not the client is listed, the table is without it afterwards.
  on_close-conns :
      (id : Identity) (s : Server S)
      → (on_close h id s).conns ≡ (RMap.delete Bytes-discrete id.client_id s.conns).1
  unfolding on_close drop RMap.delete
  on_close-conns id s = elim (Option-cases (RMap.get Bytes-discrete id.client_id s.conns)) [
    | inl e ↦ rw (RMap.delete, e) refl
    | inr (i, e) ↦ rw (RMap.delete, e) refl
  ]

  on_close-heap : (id : Identity) (s : Server S) → (on_close h id s).heap ≡ s.heap
  unfolding on_close drop
  on_close-heap id s =
      if_elim (λ (t : Server S). t.heap ≡ s.heap)
        (RMap.delete Bytes-discrete id.client_id s.conns).0 _ _ (λ e. refl) (λ e. refl)

  pub get-on_close :
      (id : Identity) (cid : Bytes) (s : Server S)
      → get_conn cid (on_close h id s) ≡ ite (Bytes-discrete id.client_id cid) none (get_conn cid s)
  unfolding get_conn
  get-on_close id cid s =
      ap (RMap.get Bytes-discrete cid) (on_close-conns id s)
      ∙ get-delete Bytes-discrete id.client_id cid s.conns

  pub on_close-conn_at :
      (id : Identity) (j : ℕ) (s : Server S) → conn_at j (on_close h id s) ≡ conn_at j s
  on_close-conn_at id j s = ap (λ (xs : List Conn). get_elem? xs j) (on_close-heap id s)

  on_close-IsCounted :
      (id : Identity) (s : Server S)
      → IsCounted Bytes-discrete s.conns
      → IsCounted Bytes-discrete (on_close h id s).conns
  unfolding apply
  on_close-IsCounted id s k =
      subst (IsCounted Bytes-discrete) (sym (on_close-conns id s))
        (apply-IsCounted Bytes-discrete (Change.delete id.client_id) s.conns k)

  -- Another client's connection is another one.
  other_conn :
      (i j : ℕ) (c : Conn) (cid : Bytes) (s : Server S)
      → conn_at i s ≡ some c
      → c.id.client_id ≢ cid
      → Leads cid j s
      → i ≢ j
  other_conn i j c cid s at ne (e, k, u, o) p = ne (
      ap (λ (x : Conn). x.id.client_id)
        (some-injective _ _ (sym at ∙ ap (λ (x : ℕ). conn_at x s) p ∙ k))
      ∙ u)

  closed_conn-IsSound :
      (n i : ℕ) (c : Conn) (s : Server S)
      → IsSound n s
      → conn_at i s ≡ some c
      → IsSound n (on_close h c.id (put_conn i (shut c) s))
  unfolding get_conn
  closed_conn-IsSound n i c s k at = record {
    counted = on_close-IsCounted c.id (put_conn i (shut c) s) k.counted;
    listed = λ cid j g.
        let (ne, old) =
          ite-some (Bytes-discrete c.id.client_id cid) _ j
            (sym (get-on_close c.id cid (put_conn i (shut c) s)) ∙ g) in
        let (e, l, u, o) = k.listed cid j old in
        (
          e,
          on_close-conn_at c.id j (put_conn i (shut c) s)
              ∙ put_old i j c (shut c) s at (other_conn i j c cid s at ne (e, l, u, o))
              ∙ l,
          u,
          o,
        );
    alive = λ j e l.
        put-alive n i j c (shut c) e s k at (shut-IsLive n c (k.alive i c at))
          (sym (on_close-conn_at c.id j (put_conn i (shut c) s)) ∙ l);
  }

  pub close-IsSound : (n i : ℕ) (s : Server S) → IsSound n s → IsSound n (close h i s)
  unfolding close close_conn
  close-IsSound n i s k =
      option_elim (IsSound n) (conn_at i s) _ _ (λ e. k)
        (λ c e. if_elim (IsSound n) c.closed _ _ (λ _. k) (λ _. closed_conn-IsSound n i c s k e))

  open_conn :
      (i : ℕ) (c : Conn) (s : Server S)
      → c.closed ≡ false
      → close_conn h i c s ≡ on_close h c.id (put_conn i (shut c) s)
  unfolding close_conn
  open_conn i c s o =
      if_elim (λ (t : Server S). t ≡ on_close h c.id (put_conn i (shut c) s)) c.closed _ _ (λ e. cc)
        (λ e. refl)

  pub close_open :
      (i : ℕ) (c : Conn) (s : Server S)
      → conn_at i s ≡ some c
      → c.closed ≡ false
      → close h i s ≡ on_close h c.id (put_conn i (shut c) s)
  unfolding close
  close_open i c s at o = rw (close, at) (open_conn i c s o)

  pub on_close_listed :
      (id : Identity) (i : ℕ) (s : Server S)
      → get_conn id.client_id s ≡ some i
      → on_close h id s ≡ record s {
        conns = (RMap.delete Bytes-discrete id.client_id s.conns).1;
        app = h.close_handler id s.app;
      }
  unfolding on_close drop get_conn RMap.delete
  on_close_listed id i s e = rw (RMap.delete, e) refl

  -- `Close` of an open connection takes its client off the table, and no other.
  pub get-close :
      (i : ℕ) (c : Conn) (cid : Bytes) (s : Server S)
      → conn_at i s ≡ some c
      → c.closed ≡ false
      → get_conn cid (close h i s) ≡ ite (Bytes-discrete c.id.client_id cid) none (get_conn cid s)
  unfolding get_conn
  get-close i c cid s at o =
      ap (get_conn cid) (close_open i c s at o) ∙ get-on_close c.id cid (put_conn i (shut c) s)
