-- ===== src/Server/Calls.antt =====
-- What the broker calls of server/server.go: `IsActive`, `ConnInfo`, `ConnCount`, `KickConn`,
-- `ExpelAllConns`, `SendMessage`, `SendRequest` and `Brodcast`. A number in the table always leads to a
-- connection, as a pointer does. The statistics and the log are left out.
use cable.Prelude.{ℕ, ◌+◌, ◌%◌, ◌^◌, Bool, true, false, not, Option, none, some, if◌then◌else◌}
use cable.Errors.{Error, XError}
use cable.GoMap.{Bytes}
use cable.Safe.RMap
use cable.Safe.RMap.{RMap}
use cable.Packet.Types.{Request, Message, close_kicked_out, close_server_expeled}
use cable.Network.Conn.{Conn, Waits}
use cable.Server.Table.{Handlers, Server, conn_at, put_conn, get_conn, close_code}
use cable.Network.Conn
use cable.Network.Requests.{begin_request}

pub record ConnInfo : Type 0 where
  pub ip : Bytes
  pub uid : Bytes
  pub cid : Bytes

unfoldable pub is_open : Option Conn → Bool
is_open none = false
is_open (some c) = not c.closed

unfoldable pub info_of : Option Conn → Option ConnInfo
info_of none = none
info_of (some c) = some (record { ip = c.ip; uid = c.id.user_id; cid = c.id.client_id })

-- The counters of `Brodcast`, two int32.
unfoldable pub count : Option Error → ℕ → ℕ
count none n = (n + 1) % 2 ^ 32
count (some _) n = n

module _ {S : Type 0} where
  unfoldable pub is_active : Bytes → Server S → Bool
  is_active cid s = elim (get_conn cid s) [ none ↦ false | some i ↦ is_open (conn_at i s) ]

  unfoldable pub conn_count : Server S → ℕ
  conn_count s = s.conns.len

  unfoldable pub conn_info : Bytes → Server S → Option ConnInfo
  conn_info cid s = elim (get_conn cid s) [ none ↦ none | some i ↦ info_of (conn_at i s) ]

module _ {S : Type 0} (h : Handlers S) (w : Waits Bytes) where
  unfoldable pub kick_conn : Bytes → Server S → Bool × Server S
  kick_conn cid s = elim (get_conn cid s) [
    | none ↦ (false, s)
    | some i ↦ (true, close_code h w i close_kicked_out s)
  ]

  unfoldable pub expel_all_conns : Server S → Server S
  expel_all_conns s =
      let s' =
        RMap.range
          (λ (cid : Bytes) (i : ℕ) (t : Server S). (true, close_code h w i close_server_expeled t))
          s.conns s in
      record s' { conns = RMap.empty }

module _ {S : Type 0} (w : Waits Bytes) where
  unfoldable pub send_to : ℕ → Message → Server S → Option Error × Server S
  send_to i p s = elim (conn_at i s) [
    | none ↦ (none, s)
    | some c ↦ let (e, c') = Conn.send_message w p c in (e, put_conn i c' s)
  ]

  unfoldable pub send_message : Bytes → Message → Server S → Option Error × Server S
  send_message cid p s =
      if s.closed then (some (Error.xerr XError.server_is_closed), s) else elim (get_conn cid s) [
        | none ↦ (some (Error.xerr XError.connection_not_found), s)
        | some i ↦ send_to i p s
      ]

  unfoldable pub brodcast_one : Message → Bytes → ℕ → ℕ × ℕ × Server S → Bool × (ℕ × ℕ × Server S)
  brodcast_one p cid i (total, success, s) =
      let (e, s') = send_to i p s in (true, ((total + 1) % 2 ^ 32, count e success, s'))

  unfoldable pub brodcast : Message → Server S → (ℕ × ℕ × Option Error) × Server S
  brodcast p s =
      if s.closed
      then ((0, 0, some (Error.xerr XError.server_is_closed)), s)
      else (let (total, success, s') = RMap.range (brodcast_one p) s.conns (0, 0, s) in
          ((total, success, none), s'))

  -- `SendRequest` up to its send.
  unfoldable pub request_to : ℕ → Request → Server S → (Option Error × ℕ × ℕ) × Server S
  request_to i p s = elim (conn_at i s) [
    | none ↦ ((none, 0, 0), s)
    | some c ↦ let (r, c') = begin_request w p c in (r, put_conn i c' s)
  ]

  unfoldable pub send_request : Bytes → Request → Server S → (Option Error × ℕ × ℕ) × Server S
  send_request cid p s =
      if s.closed
      then ((some (Error.xerr XError.server_is_closed), 0, 0), s)
      else elim (get_conn cid s) [
        | none ↦ ((some (Error.xerr XError.connection_not_found), 0, 0), s)
        | some i ↦ request_to i p s
      ]
