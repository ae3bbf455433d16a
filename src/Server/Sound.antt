-- ===== src/Server/Sound.antt =====
-- What is true of the table of server/server.go and of its connections between two calls.
use native.Mathlib.Decide.{ℕ_discrete}
use mathlib.Core.Path.{subst}
use mathlib.Core.Option.{some-injective}
use cable.Prelude.{
  ℕ, suc, zero, ◌≡◌, ◌≢◌, ◌⊎◌, inl, inr, refl, sym, ap, ◌∙◌, arith, Bool, false, List, [], ◌∷◌,
  ◌++◌, Option, some, if◌then◌else◌, get_elem?, set, length, ◌==◌, ==_iff, if_elim, option_elim,
}
use cable.GoMap.{Bytes, Bytes-discrete}
use cable.Safe.Counting.{IsCounted}
use cable.Packet.Types.{Identity}
use cable.Network.Conn.{Conn}
use cable.Network.Fair.{IsLive, Same}
use cable.Server.Table.{Server, conn_at, put_conn, get_conn, update}

module _ {A : Type 0} where
  pub get-set :
      (xs : List A) (i j : ℕ) (v c : A)
      → get_elem? xs i ≡ some c
      → get_elem? (set xs i v) j ≡ (if i == j then some v else get_elem? xs j)
  get-set [] i j v c e = cc
  get-set (x ∷ xs) zero zero v c e = refl
  get-set (x ∷ xs) zero (suc j) v c e = ground arith
  get-set (x ∷ xs) (suc i) zero v c e = ground arith
  get-set (x ∷ xs) (suc i) (suc j) v c e = ground (arith, get-set xs i j v c e)

  pub get-append_new : (xs : List A) (v : A) → get_elem? (xs ++ v ∷ []) (length xs) ≡ some v
  get-append_new [] v = refl
  get-append_new (x ∷ xs) v = get-append_new xs v

  pub get-append_old :
      (xs : List A) (v c : A) (i : ℕ)
      → get_elem? xs i ≡ some c
      → get_elem? (xs ++ v ∷ []) i ≡ some c
  get-append_old [] v c i e = cc
  get-append_old (x ∷ xs) v c zero e = e
  get-append_old (x ∷ xs) v c (suc i) e = get-append_old xs v c i e

  pub get-append :
      (xs : List A) (v c : A) (i : ℕ)
      → get_elem? (xs ++ v ∷ []) i ≡ some c
      → (get_elem? xs i ≡ some c) ⊎ (v ≡ c)
  get-append [] v c zero e = inr (cc)
  get-append [] v c (suc i) e = cc
  get-append (x ∷ xs) v c zero e = inl e
  get-append (x ∷ xs) v c (suc i) e = get-append xs v c i e

==-false : (i j : ℕ) → i ≢ j → (i == j) ≡ false
==-false i j ne = ground arith

module _ {S : Type 0} where
  -- The number leads to an open connection of the client.
  abbrev pub Leads : Bytes → ℕ → Server S → Type 0
  Leads cid i s = (c : Conn) × (conn_at i s ≡ some c) × (c.id.client_id ≡ cid) × (c.closed ≡ false)

  -- No client is listed twice and the counter is right; who is listed has an open connection with that
  -- client id; and every connection has a queue that was reached, which is open as long as it is.
  pub record IsSound (n : ℕ) (s : Server S) : Type 0 where
    pub counted : IsCounted Bytes-discrete s.conns
    pub listed : (cid : Bytes) (i : ℕ) → get_conn cid s ≡ some i → Leads cid i s
    pub alive : (i : ℕ) (c : Conn) → conn_at i s ≡ some c → IsLive n c

  -- What the table says after a write.
  conn_at-put :
      (i j : ℕ) (c d : Conn) (s : Server S)
      → conn_at i s ≡ some c
      → conn_at j (put_conn i d s) ≡ (if i == j then some d else conn_at j s)
  conn_at-put i j c d s e = get-set s.heap i j d c e

  pub put-alive :
      (n i j : ℕ) (c d e : Conn) (s : Server S)
      → IsSound n s
      → conn_at i s ≡ some c
      → IsLive n d
      → conn_at j (put_conn i d s) ≡ some e
      → IsLive n e
  put-alive n i j c d e s h at l k =
      if_elim (λ (o : Option Conn). o ≡ some e → IsLive n e) (i == j) (some d) (conn_at j s)
        (λ _ x. subst (IsLive n) (some-injective _ _ x) l) (λ _ x. h.alive j e x)
        (sym (conn_at-put i j c d s at) ∙ k)

  pub put_new :
      (i j : ℕ) (c d : Conn) (s : Server S)
      → conn_at i s ≡ some c
      → i ≡ j
      → conn_at j (put_conn i d s) ≡ some d
  put_new i j c d s at p =
      conn_at-put i j c d s at
      ∙ ap (λ (b : Bool). if b then some d else conn_at j s) ((==_iff i j).1 p)

  pub put_old :
      (i j : ℕ) (c d : Conn) (s : Server S)
      → conn_at i s ≡ some c
      → i ≢ j
      → conn_at j (put_conn i d s) ≡ conn_at j s
  put_old i j c d s at ne =
      conn_at-put i j c d s at
      ∙ ap (λ (b : Bool). if b then some d else conn_at j s) (==-false i j ne)

  put-Leads :
      (n i j : ℕ) (c d : Conn) (s : Server S) (cid : Bytes)
      → conn_at i s ≡ some c
      → Same n c d
      → Leads cid j s
      → Leads cid j (put_conn i d s)
  put-Leads n i j c d s cid at m (e, k, u, o) = elim (ℕ_discrete i j) [
    | yes p ↦
        let same = some-injective _ _ (sym at ∙ ap (λ (x : ℕ). conn_at x s) p ∙ k) in
        (
          d,
          put_new i j c d s at p,
          ap (λ (x : Identity). x.client_id) m.same_id ∙ ap (λ (x : Conn). x.id.client_id) same ∙ u,
          m.same_closed ∙ ap (λ (x : Conn). x.closed) same ∙ o,
        )
    | no ne ↦ (e, put_old i j c d s at ne ∙ k, u, o)
  ]

  -- A change of a connection that leaves its id and its end alone.
  pub put-IsSound :
      (n i : ℕ) (c d : Conn) (s : Server S)
      → IsSound n s
      → conn_at i s ≡ some c
      → Same n c d
      → IsSound n (put_conn i d s)
  unfolding get_conn
  put-IsSound n i c d s h at m = record {
    counted = h.counted;
    listed = λ cid j g. put-Leads n i j c d s cid at m (h.listed cid j g);
    alive = λ j e k. put-alive n i j c d e s h at (m.live (h.alive i c at)) k;
  }

  pub update-IsSound :
      (n i : ℕ) (f : Conn → Conn) (s : Server S)
      → ((c : Conn) → Same n c (f c))
      → IsSound n s
      → IsSound n (update i f s)
  unfolding update
  update-IsSound n i f s m h =
      option_elim (IsSound n) (conn_at i s) _ _ (λ e. h)
        (λ c e. put-IsSound n i c (f c) s h e (m c))
