-- ===== src/Server/Table.antt =====
-- The table of connections of server/server.go and what `close`, in internal/network/conn.go, does to it.
-- The connections are in a store, and a number stands for a pointer to one. The handlers change a state
-- of the program that embeds the server; they do not call the server.
use cable.Prelude.{ℕ, ◌⊎◌, Bool, false, List, [], Option, none, some, if◌then◌else◌, get_elem?, set}
use cable.Errors.{Error}
use cable.GoMap.{Bytes, Bytes-discrete}
use cable.Safe.RMap
use cable.Safe.RMap.{RMap}
use cable.Packet.Types.{Identity, Connect, Message, Request}
use cable.Network.Conn.{Conn, Waits, announce, shut}

-- What the options of `New` supply. A connect code that is not 0 refuses the client.
pub record Handlers (S : Type 0) : Type 0 where
  pub connect_handler : Connect → S → ℕ × S
  pub message_handler : Message → Identity → S → Option Error × S
  pub request_handler : Request → Identity → S → (Error ⊎ Bytes) × S
  pub close_handler : Identity → S → S

pub record Server (S : Type 0) : Type 0 where
  pub heap : List Conn
  pub conns : RMap Bytes ℕ
  pub closed : Bool
  pub app : S

-- `New`
unfoldable pub new_server : {S : Type 0} → S → Server S
new_server a = record { heap = []; conns = RMap.empty; closed = false; app = a }

module _ {S : Type 0} where
  abbrev pub conn_at : ℕ → Server S → Option Conn
  conn_at i s = get_elem? s.heap i

  abbrev pub put_conn : ℕ → Conn → Server S → Server S
  put_conn i c s = record s { heap = set s.heap i c }

  -- `GetConn`
  unfoldable pub get_conn : Bytes → Server S → Option ℕ
  get_conn cid s = RMap.get Bytes-discrete cid s.conns

  unfoldable pub update : ℕ → (Conn → Conn) → Server S → Server S
  update i f s = elim (conn_at i s) [ none ↦ s | some c ↦ put_conn i (f c) s ]

module _ {S : Type 0} (h : Handlers S) where
  -- `OnClose`
  unfoldable pub drop : Identity → Bool × RMap Bytes ℕ → Server S → Server S
  drop id (there, m) s = if there then record s { conns = m; app = h.close_handler id s.app } else s

  unfoldable pub on_close : Identity → Server S → Server S
  on_close id s = drop id (RMap.delete Bytes-discrete id.client_id s.conns) s

  -- `Close`
  unfoldable pub close_conn : ℕ → Conn → Server S → Server S
  close_conn i c s = if c.closed then s else on_close c.id (put_conn i (shut c) s)

  unfoldable pub close : ℕ → Server S → Server S
  close i s = elim (conn_at i s) [ none ↦ s | some c ↦ close_conn i c s ]

  -- `CloseCode`
  unfoldable pub close_code : Waits Bytes → ℕ → ℕ → Server S → Server S
  close_code w i code s = close i (update i (announce w code) s)
