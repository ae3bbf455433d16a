-- ===== src/Server/Arrivals.antt =====
-- Whom the table of server/server.go leads to once a client has connected.
use mathlib.Core.Logic.{ite, if_pos}
use cable.Prelude.{
  ℕ, ◌≡◌, ◌≢◌, refl, sym, ap, ◌∙◌, arith, false, true, Bool, Option, none, some, if_elim,
  if◌then◌else◌, not, List, get_elem?, [], ◌∷◌, ◌==◌, ==_iff, length,
}
use cable.GoMap.{Bytes, Bytes-discrete}
use cable.Safe.RMap
use cable.Safe.Lookups.{ite-ite}
use cable.Packet.Types.{Identity, Connect, connect_accepted, close_duplicate_login}
use cable.Network.Conn.{Conn, Waits, new_conn, connack_code}
use cable.Server.Table.{Handlers, Server, conn_at, get_conn, update}
use cable.Server.Handlers.{evict, reject, accept, on_connect, do_connection}
use cable.Server.Calls.{is_active, is_open}
use cable.Server.Sound.{IsSound, Leads, get-append_new, get-append_old, put_new}
use cable.Server.Closing.{get-close}
use cable.Server.Codes.{
  swap_old, update-at, get-update, connack_code-Same, get-close_code, conn_at-close_code,
}
use cable.Server.Logins.{enter, swapped, get-swapped}

-- A client that is accepted is listed if it was not: a client that was listed is off the table, as is
-- one that is refused.
abbrev pub arrived : ℕ → Option ℕ → ℕ → Option ℕ
arrived code none i = if code == connect_accepted then some i else none
arrived code (some _) i = none

get-length : {A : Type 0} (xs : List A) → get_elem? xs (length xs) ≡ none
get-length [] = refl
get-length (x ∷ xs) = get-length xs

-- What is listed is older than a connection that comes.
kept :
    {S : Type 0} {u : Bytes} (s : Server S) (a : S) (j : ℕ) (c : Conn)
    → Leads u j s
    → Leads u j (record (enter c s) { app = a }) × (j ≢ length s.heap)
kept s a j c (e, at, u, o) = (
  (e, get-append_old s.heap c e j at, u, o),
  λ p. some_none (sym at ∙ ap (get_elem? s.heap) p ∙ get-length s.heap),
)
  where
    some_none : some e ≡ none → ⊥
    some_none x = cc

unequal : {A : Type 0} {i j : ℕ} → i ≡ j → (i == j) ≡ false → A
unequal {i} {j} e x = absurd (ground arith)

pub is_active-none :
    {S : Type 0} (cid : Bytes) (s : Server S) → get_conn cid s ≡ none → is_active cid s ≡ false
unfolding is_active
is_active-none cid s e = rw (is_active, e) refl

module _ {S : Type 0} (h : Handlers S) (w : Waits Bytes) where
  evicted :
      (cid0 cid : Bytes) (i : ℕ) (o : Option ℕ) (s : Server S)
      → ((j : ℕ) → o ≡ some j → Leads cid0 j s)
      → get_conn cid (evict h w o (swapped cid0 i s))
        ≡ ite (Bytes-discrete cid0 cid) (arrived connect_accepted o i) (get_conn cid s)
  unfolding evict
  evicted cid0 cid i none s l = get-swapped cid0 cid i s
  evicted cid0 cid i (some j) s l =
      let (c, at, u, o) = l j refl in
      get-close_code h w j close_duplicate_login c cid (swapped cid0 i s) at o
      ∙ ap (λ (x : Bytes). ite (Bytes-discrete x cid) none (get_conn cid (swapped cid0 i s))) u
      ∙ ap (ite (Bytes-discrete cid0 cid) none) (get-swapped cid0 cid i s)
      ∙ ite-ite (Bytes-discrete cid0 cid) none (some i) (get_conn cid s)

  accepted :
      (cid0 cid : Bytes) (i : ℕ) (s : Server S)
      → ((j : ℕ) → get_conn cid0 s ≡ some j → Leads cid0 j s)
      → get_conn cid (accept h w i cid0 s)
        ≡ ite
            (Bytes-discrete cid0 cid)
            (arrived connect_accepted (get_conn cid0 s) i)
            (get_conn cid s)
  unfolding accept get_conn
  accepted cid0 cid i s l =
      get-update i (connack_code w connect_accepted) cid
        (evict h w (RMap.swap Bytes-discrete cid0 i s.conns).0 (swapped cid0 i s))
      ∙ ap (λ (o : Option ℕ). get_conn cid (evict h w o (swapped cid0 i s)))
          (swap_old Bytes-discrete cid0 i s.conns)
      ∙ evicted cid0 cid i (get_conn cid0 s) s l

  rejected :
      (i code : ℕ) (c : Conn) (cid : Bytes) (s : Server S)
      → conn_at i s ≡ some c
      → c.closed ≡ false
      → get_conn cid (reject h w i code s)
        ≡ ite (Bytes-discrete c.id.client_id cid) none (get_conn cid s)
  unfolding reject
  rejected i code c cid s at o =
      let f = connack_code w code in
      get-close h i (f c) cid (update i f s)
        (ap (λ (t : Server S). conn_at i t) (update-at i f c s at) ∙ put_new i i c (f c) s at refl)
        ((connack_code-Same 0 w code c).same_closed ∙ o)
      ∙ ap
          (λ (id : Identity).
            ite (Bytes-discrete id.client_id cid) none (get_conn cid (update i f s)))
          (connack_code-Same 0 w code c).same_id
      ∙ ap (ite (Bytes-discrete c.id.client_id cid) none) (get-update i f cid s)

  arrived-none :
      (code : ℕ) (o : Option ℕ) (i : ℕ)
      → (code == connect_accepted) ≡ false
      → arrived code o i ≡ none
  arrived-none code none i e = ap (λ (b : Bool). if b then some i else none) e
  arrived-none code (some _) i e = refl

  -- From a sound table, a connect packet changes the entry of its own client id only: a client that is
  -- accepted and was not listed is listed with the new connection, and a client that was listed, as one
  -- that is refused, is not listed any more, whoever sent the packet.
  pub get-do_connection :
      (n : ℕ) (p : Connect) (ip : Bytes) (cid : Bytes) (s : Server S)
      → IsSound n s
      → get_conn cid (do_connection h w n p ip s).1
        ≡ ite
            (Bytes-discrete p.identity.client_id cid)
            (arrived
              (h.connect_handler p s.app).0
              (get_conn p.identity.client_id s)
              (length s.heap))
            (get_conn cid s)
  unfolding do_connection on_connect new_conn get_conn
  get-do_connection n p ip cid s k =
      let (code, a) = h.connect_handler p s.app in
      let id = p.identity.client_id in
      let c = new_conn n p.identity ip in
      let t = record (enter c s) { app = a } in
      if_elim
        (λ (r : ℕ × Server S).
          get_conn cid r.1
          ≡ ite (Bytes-discrete id cid) (arrived code (get_conn id s) (length s.heap))
              (get_conn cid s))
        (code == connect_accepted) _ _
        (λ e.
          accepted id cid (length s.heap) t (λ j g. (kept s a j c (k.listed id j g)).0)
          ∙ ap
              (λ (x : ℕ).
                ite (Bytes-discrete id cid) (arrived x (get_conn id s) (length s.heap))
                  (get_conn cid s))
              (sym ((==_iff code connect_accepted).0 e)))
        (λ e.
          rejected (length s.heap) code c cid t (get-append_new s.heap c) refl
          ∙ ap (λ (x : Option ℕ). ite (Bytes-discrete id cid) x (get_conn cid s))
              (sym (arrived-none code (get_conn id s) (length s.heap) e)))

  evict-conn_at :
      (cid0 : Bytes) (i k : ℕ) (o : Option ℕ) (s : Server S)
      → ((j : ℕ) → o ≡ some j → Leads cid0 j s × (j ≢ k))
      → conn_at k (evict h w o (swapped cid0 i s)) ≡ conn_at k s
  unfolding evict
  evict-conn_at cid0 i k none s l = refl
  evict-conn_at cid0 i k (some j) s l =
      let ((c, at, u, o), ne) = l j refl in
      conn_at-close_code h w j k close_duplicate_login c (swapped cid0 i s) at o ne

  -- The connection that was accepted is open, listed or not.
  accepted_conn :
      (cid0 : Bytes) (i : ℕ) (c : Conn) (s : Server S)
      → conn_at i s ≡ some c
      → c.closed ≡ false
      → ((j : ℕ) → get_conn cid0 s ≡ some j → Leads cid0 j s × (j ≢ i))
      → is_open (conn_at i (accept h w i cid0 s)) ≡ true
  unfolding accept is_open get_conn
  accepted_conn cid0 i c s at o l =
      let f = connack_code w connect_accepted in
      let old = (RMap.swap Bytes-discrete cid0 i s.conns).0 in
      let t = evict h w old (swapped cid0 i s) in
      let at' =
        evict-conn_at cid0 i i old s (λ j e. l j (sym (swap_old Bytes-discrete cid0 i s.conns) ∙ e))
        ∙ at in
      ap is_open (ap (conn_at i) (update-at i f c t at') ∙ put_new i i c (f c) t at' refl)
      ∙ ap not ((connack_code-Same 0 w connect_accepted c).same_closed ∙ o)

  -- A second login of a client that is listed, from a sound table: the server accepts the new connection
  -- and it stays open, and yet the client is not active afterwards.
  pub duplicate_login :
      (n : ℕ) (p : Connect) (ip : Bytes) (j : ℕ) (s : Server S)
      → IsSound n s
      → get_conn p.identity.client_id s ≡ some j
      → (h.connect_handler p s.app).0 ≡ connect_accepted
      → (is_active p.identity.client_id (do_connection h w n p ip s).1 ≡ false)
        × (is_open (conn_at (length s.heap) (do_connection h w n p ip s).1) ≡ true)
  unfolding do_connection on_connect new_conn get_conn
  duplicate_login n p ip j s k e a =
      let (code, b) = h.connect_handler p s.app in
      let id = p.identity.client_id in
      let c = new_conn n p.identity ip in
      (
        is_active-none id _ (
            get-do_connection n p ip id s k
            ∙ if_pos (Bytes-discrete id id) refl _ _
            ∙ ap (λ (o : Option ℕ). arrived code o (length s.heap)) e),
        if_elim (λ (r : ℕ × Server S). is_open (conn_at (length s.heap) r.1) ≡ true)
            (code == connect_accepted) _ _
            (λ _.
              accepted_conn id (length s.heap) c (record (enter c s) { app = b })
                (get-append_new s.heap c) refl (λ i g. kept s b i c (k.listed id i g)))
            (λ x. unequal a x),
      )
