-- ===== src/Network/Requests.antt =====
-- Pings and requests of internal/network/conn.go: the part of a call up to its send, the part when a
-- packet comes, and the deferred part. Other calls come in between.
use native.Mathlib.Decide.{ℕ_discrete}
use cable.Prelude.{ℕ, ◌+◌, ◌/◌, ◌%◌, ◌^◌, Option, none, some, if◌then◌else◌, ◌∷◌, ◌==◌, true, false}
use cable.Errors.{Error, XError}
use cable.GoMap
use cable.GoMap.{Bytes}
use cable.Packet.Types.{Packet, Request, Response, new_ping}
use cable.Network.Conn.{Conn, Waits, send_packet}

-- `p.ID = uint16(c.requestID.Add(1) / math.MaxUint16)` of a packet without an id.
unfoldable pub number_request : Request → Conn → Request × Conn
number_request p c =
    if p.id == 0
    then (let n = (c.request_id + 1) % 2 ^ 64 in
        (record p { id = (n / 65535) % 2 ^ 16 }, record c { request_id = n }))
    else (p, c)

-- A channel of its own waits for the response.
unfoldable pub register : Request → Conn → ℕ × Conn
register p c = (
  c.chans,
  record c {
    request_tasks = GoMap.insert ℕ_discrete p.id c.chans c.request_tasks;
    chans = c.chans + 1;
  },
)

-- The deferred part of `SendRequest`.
unfoldable pub end_request : ℕ → Conn → Conn
end_request id c = record c { request_tasks = GoMap.delete ℕ_discrete id c.request_tasks }

-- `recvResponse`
unfoldable pub recv_response : Response → Conn → Conn
recv_response p c = elim (GoMap.lookup ℕ_discrete p.id c.request_tasks) [
  | none ↦ c
  | some ch ↦ record c { answers = (ch, p) ∷ c.answers }
]

-- `recvPong`
unfoldable pub recv_pong : Conn → Conn
recv_pong c = elim c.ping_chan [ none ↦ c | some _ ↦ record c { ping_chan = some true } ]

-- The deferred part of `SendPing`.
unfoldable pub end_ping : Conn → Conn
end_ping c = record c { ping_chan = none }

module _ (w : Waits Bytes) where
  -- `SendRequest` up to its send: its id and channel, or its error.
  unfoldable pub begin_numbered : Request × Conn → (Option Error × ℕ × ℕ) × Conn
  begin_numbered (p, c) =
      let (ch, c') = register p c in
      let (e, c'') = send_packet w (Packet.request p) c' in ((e, p.id, ch), c'')

  unfoldable pub begin_request : Request → Conn → (Option Error × ℕ × ℕ) × Conn
  begin_request p c =
      if c.closed
      then ((some (Error.xerr XError.connection_is_closed), 0, 0), c)
      else begin_numbered (number_request p c)

  -- `SendPing` up to its send.
  unfoldable pub begin_ping : Conn → Option Error × Conn
  begin_ping c =
      if c.closed
      then (some (Error.xerr XError.connection_is_closed), c)
      else send_packet w (Packet.ping new_ping) (record c { ping_chan = some false })
