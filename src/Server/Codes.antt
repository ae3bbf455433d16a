-- ===== src/Server/Codes.antt =====
-- What `CloseCode` and the sends of internal/network/conn.go leave of the table of server/server.go.
use mathlib.Core.Logic.{ite}
use cable.Prelude.{ℕ, ◌≡◌, ◌≢◌, refl, sym, ap, ◌∙◌, false, Option, none, some, option_elim}
use cable.GoMap.{Bytes, Bytes-discrete}
use cable.Safe.RMap
use cable.Safe.RMap.{RMap}
use cable.Safe.Lookups.{get-add, get-modify}
use cable.Packet.Types.{Identity}
use cable.Network.Conn.{Conn, Waits, shut, announce, connack_code, send_pong}
use cable.Network.Fair.{Same, jump_packet-Same}
use cable.Server.Table.{Handlers, Server, conn_at, put_conn, get_conn, update, close_code}
use cable.Server.Sound.{IsSound, put_new, put_old, update-IsSound}
use cable.Server.Closing.{close-IsSound, close_open, get-close, on_close-conn_at}

module _ {K V : Type 0} (dec : Discrete K) where
  pub get-swap :
      (k j : K) (v : V) (m : RMap K V)
      → RMap.get dec j (RMap.swap dec k v m).1 ≡ ite (dec k j) (some v) (RMap.get dec j m)
  unfolding RMap.swap
  get-swap k j v m =
      option_elim
        (λ (r : Option V × RMap K V).
          RMap.get dec j r.1 ≡ ite (dec k j) (some v) (RMap.get dec j m))
        (RMap.get dec k m) _ _ (λ e. get-add dec k j v m) (λ a e. get-modify dec k j v m)

  pub swap_old : (k : K) (v : V) (m : RMap K V) → (RMap.swap dec k v m).0 ≡ RMap.get dec k m
  unfolding RMap.swap
  swap_old k v m =
      option_elim (λ (r : Option V × RMap K V). r.0 ≡ RMap.get dec k m) (RMap.get dec k m) _ _
        (λ e. sym e) (λ a e. sym e)

module _ (n : ℕ) (w : Waits Bytes) where
  pub announce-Same : (code : ℕ) (c : Conn) → Same n c (announce w code c)
  unfolding announce
  announce-Same code c = jump_packet-Same n w _ c

  pub connack_code-Same : (code : ℕ) (c : Conn) → Same n c (connack_code w code c)
  unfolding connack_code
  connack_code-Same code c = jump_packet-Same n w _ c

  pub send_pong-Same : (c : Conn) → Same n c (send_pong w c)
  unfolding send_pong
  send_pong-Same c = jump_packet-Same n w _ c

module _ {S : Type 0} where
  pub update-at :
      (i : ℕ) (f : Conn → Conn) (c : Conn) (s : Server S)
      → conn_at i s ≡ some c
      → update i f s ≡ put_conn i (f c) s
  unfolding update
  update-at i f c s at = rw (update, at) refl

  pub conns-update : (i : ℕ) (f : Conn → Conn) (s : Server S) → (update i f s).conns ≡ s.conns
  unfolding update
  conns-update i f s =
      option_elim (λ (t : Server S). t.conns ≡ s.conns) (conn_at i s) _ _ (λ e. refl) (λ c e. refl)

  pub app-update : (i : ℕ) (f : Conn → Conn) (s : Server S) → (update i f s).app ≡ s.app
  unfolding update
  app-update i f s =
      option_elim (λ (t : Server S). t.app ≡ s.app) (conn_at i s) _ _ (λ e. refl) (λ c e. refl)

  pub get-update :
      (i : ℕ) (f : Conn → Conn) (cid : Bytes) (s : Server S)
      → get_conn cid (update i f s) ≡ get_conn cid s
  unfolding get_conn
  get-update i f cid s = ap (RMap.get Bytes-discrete cid) (conns-update i f s)

  module _ (h : Handlers S) (w : Waits Bytes) where
    pub close_code-IsSound :
        (n i code : ℕ) (s : Server S) → IsSound n s → IsSound n (close_code h w i code s)
    unfolding close_code
    close_code-IsSound n i code s k =
        close-IsSound h n i (update i (announce w code) s)
          (update-IsSound n i (announce w code) s (announce-Same n w code) k)

    announced :
        (i code : ℕ) (c : Conn) (s : Server S)
        → conn_at i s ≡ some c
        → conn_at i (update i (announce w code) s) ≡ some (announce w code c)
    announced i code c s at =
        ap (λ (t : Server S). conn_at i t) (update-at i (announce w code) c s at)
        ∙ put_new i i c (announce w code c) s at refl

    -- `CloseCode` of an open connection takes its client off the table, and no other.
    pub get-close_code :
        (i code : ℕ) (c : Conn) (cid : Bytes) (s : Server S)
        → conn_at i s ≡ some c
        → c.closed ≡ false
        → get_conn cid (close_code h w i code s)
          ≡ ite (Bytes-discrete c.id.client_id cid) none (get_conn cid s)
    unfolding close_code
    get-close_code i code c cid s at o =
        get-close h i (announce w code c) cid (update i (announce w code) s)
          (announced i code c s at) ((announce-Same 0 w code c).same_closed ∙ o)
        ∙ ap
            (λ (id : Identity).
              ite (Bytes-discrete id.client_id cid) none
                (get_conn cid (update i (announce w code) s)))
            (announce-Same 0 w code c).same_id
        ∙ ap (ite (Bytes-discrete c.id.client_id cid) none) (get-update i (announce w code) cid s)

    pub conn_at-close_code :
        (i j code : ℕ) (c : Conn) (s : Server S)
        → conn_at i s ≡ some c
        → c.closed ≡ false
        → i ≢ j
        → conn_at j (close_code h w i code s) ≡ conn_at j s
    unfolding close_code
    conn_at-close_code i j code c s at o ne =
        let d = announce w code c in
        let t = update i (announce w code) s in
        let at' = announced i code c s at in
        ap (conn_at j) (close_open h i d t at' ((announce-Same 0 w code c).same_closed ∙ o))
        ∙ on_close-conn_at h d.id j (put_conn i (shut d) t)
        ∙ put_old i j d (shut d) t at' ne
        ∙ ap (conn_at j) (update-at i (announce w code) c s at)
        ∙ put_old i j c d s at ne
