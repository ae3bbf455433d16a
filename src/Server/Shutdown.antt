-- ===== src/Server/Shutdown.antt =====
-- `Shutdown` of server/server.go. Its loop runs on fuel; in the wait between two rounds the server
-- changes, or the context ends: at its deadline, if it has one, or because it is cancelled.
use cable.Prelude.{
  ℕ, zero, suc, ◌+◌, ◌-◌, Bool, true, false, ltb, ◌==◌, if◌then◌else◌, Option, none, some,
}
use cable.Errors.{Error, XError}
use cable.GoMap.{Bytes}
use cable.Safe.RMap
use cable.Network.Conn.{Conn, is_idle}
use cable.Server.Table.{Handlers, Server, conn_at, close}

-- `waitTime`, in milliseconds.
unfoldable pub wait_time : ℕ → ℕ
wait_time active = if ltb 1000 active then 1000 else if ltb active 50 then 50 else active

-- The `select` between the deadline and the timer: what is left of the time after the wait.
unfoldable pub wait : Option ℕ → ℕ → Option (Option ℕ)
wait none ms = some none
wait (some left) ms = if ltb left ms then none else some (some (left - ms))

module _ {S : Type 0} (h : Handlers S) where
  unfoldable pub visit : ℕ → Conn → ℕ × Server S → ℕ × Server S
  visit i c (active, s) = if is_idle c then (active, close h i s) else (active + 1, s)

  -- One turn of the loop over the connections.
  unfoldable pub shutdown_one : Bytes → ℕ → ℕ × Server S → Bool × (ℕ × Server S)
  shutdown_one cid i r = elim (conn_at i r.1) [ none ↦ (true, r) | some c ↦ (true, visit i c r) ]

  -- How many connections still have packets to send, and the server without the others.
  unfoldable pub round : Server S → ℕ × Server S
  round s = RMap.range shutdown_one s.conns (0, s)

  -- The Boolean is false where the context ends. `left` is the time to the context's deadline.
  unfoldable pub rounds :
      (ℕ → Server S → Option (Server S)) → Option ℕ → ℕ → Server S → Option (Bool × Server S)
  rounds rest left zero s = none
  rounds rest left (suc fuel) s =
      let (active, s') = round s in
      elim (active == 0) [
        | true ↦ some (true, s')
        | false ↦ elim (wait left (wait_time active)) [
          | none ↦ some (false, s')
          | some left' ↦ elim (rest (wait_time active) s') [
            | none ↦ some (false, s')
            | some t ↦ rounds rest left' fuel t
          ]
        ]
      ]

  -- `Shutdown`, with the result of the transport's `Close`.
  unfoldable pub outcome :
      Option Error → Option (Bool × Server S) → Option (Option Error × Server S)
  outcome e none = none
  outcome e (some (true, s)) = some (e, s)
  outcome e (some (false, s)) = some (some (Error.foreign true), s)

  unfoldable pub shutdown :
      (ℕ → Server S → Option (Server S))
      → Option ℕ
      → Option Error
      → ℕ
      → Server S
      → Option (Option Error × Server S)
  shutdown rest left e fuel s =
      if s.closed
      then some (some (Error.xerr XError.server_already_closed), s)
      else outcome e (rounds rest left fuel (record s { closed = true }))
