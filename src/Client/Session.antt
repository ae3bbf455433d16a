-- ===== src/Client/Session.antt =====
-- The traffic of client/client.go: `SendMessage`, `SendRequest`, the pings, `handlePacket` and `Close`, over the
-- status of Client/Connection and the sending queue of internal/queue/queue.go. A call that waits is split
-- where it waits. The log and the last time of the keepalive are left out.
use native.Mathlib.Decide.{ℕ_discrete}
use cable.Prelude.{
  ℕ, ◌+◌, ◌/◌, ◌%◌, ◌^◌, Bool, true, false, List, [], ◌∷◌, Option, none, some, if◌then◌else◌, ◌==◌,
  ◌⊎◌, inl, inr,
}
use cable.Errors.{Error, ClientError, CloseReason}
use cable.GoMap
use cable.GoMap.{Bytes}
use cable.Packet.Types.{
  Packet, Message, Request, Response, new_ping, new_pong, status_ok, status_bad_request,
  to_response,
}
use cable.Queue.Steps
use cable.Queue.Steps.{Queue, new_queue}
use cable.Network.Conn.{Waits, push}
use cable.Client.Connection.{Conn, Client, try_close, is_ready}

-- `Handler`, over a state of the program.
pub record Handler (X : Type 0) : Type 0 where
  pub on_message : Message → X → X
  pub on_request : Request → X → (Error ⊎ Bytes) × X

pub record Session (W X : Type 0) : Type 0 where
  pub client : Client W
  pub closed : Bool
  pub queue : Queue Packet
  pub ping_chan : Option Bool
  pub request_id : ℕ
  pub request_tasks : List (ℕ × ℕ)
  pub chans : ℕ
  pub answers : List (ℕ × Response)
  pub app : X

unfoldable pub not_ready : Error
not_ready = Error.client ClientError.connection_not_ready

-- The status code of the program's error.
unfoldable pub code_of : Error → ℕ
code_of (Error.status_code c) = c
code_of _ = status_bad_request

unfoldable pub reply : Request → Error ⊎ Bytes → Response
reply p (inl e) = to_response p (code_of e) []
reply p (inr body) = to_response p status_ok body

module _ {W X : Type 0} (lib : Conn W) (w : Waits Packet) where
  -- `sendPacket`
  unfoldable pub send_packet : Bool → Packet → Session W X → Option Error × Session W X
  send_packet jump p s =
      if is_ready lib s.client
      then (let (e, q) = push w jump p s.queue in (e, record s { queue = q }))
      else (some not_ready, s)

  -- The task of a packet, which the worker of the queue runs.
  unfoldable pub written : Option Error × W → Session W X → Session W X
  written (none, c) s = record s { client = record s.client { conn = c } }
  written (some e, c) s = record s { client = try_close lib e (record s.client { conn = c }) }

  unfoldable pub write_task : Packet → Session W X → Session W X
  write_task p s = if is_ready lib s.client then written (lib.write_packet p s.client.conn) s else s

  unfoldable pub send_message : Message → Session W X → Option Error × Session W X
  send_message p s =
      if is_ready lib s.client then send_packet false (Packet.message p) s else (some not_ready, s)

  -- `SendRequest` up to its send: its id and channel, or its error.
  unfoldable pub number_request : Request → Session W X → Request × Session W X
  number_request p s =
      if p.id == 0
      then (let n = (s.request_id + 1) % 2 ^ 64 in
          (record p { id = n / 65535 % 2 ^ 16 }, record s { request_id = n }))
      else (p, s)

  unfoldable pub begin_numbered : Request × Session W X → (Option Error × ℕ × ℕ) × Session W X
  begin_numbered (p, s) =
      let s' = record s {
        request_tasks = GoMap.insert ℕ_discrete p.id s.chans s.request_tasks;
        chans = s.chans + 1;
      } in
      let (e, s'') = send_packet false (Packet.request p) s' in ((e, p.id, s.chans), s'')

  unfoldable pub begin_request : Request → Session W X → (Option Error × ℕ × ℕ) × Session W X
  begin_request p s =
      if is_ready lib s.client
      then begin_numbered (number_request p s)
      else ((some not_ready, 0, 0), s)

  -- Its deferred part.
  unfoldable pub end_request : ℕ → Session W X → Session W X
  end_request id s = record s { request_tasks = GoMap.delete ℕ_discrete id s.request_tasks }

  -- `sendPing` up to its send and its deferred part, and what `SendPing` does with its error.
  unfoldable pub begin_ping : Session W X → Option Error × Session W X
  begin_ping s =
      if is_ready lib s.client
      then send_packet false (Packet.ping new_ping) (record s { ping_chan = some false })
      else (some not_ready, s)

  unfoldable pub end_ping : Session W X → Session W X
  end_ping s = record s { ping_chan = none }

  unfoldable pub ping_failed : Error → Session W X → Session W X
  ping_failed (Error.foreign true) s = record s {
    client = try_close lib (Error.close_reason CloseReason.ping_timeout) s.client;
  }
  ping_failed _ s = s

  -- `Close`, without the keepalive.
  unfoldable pub close : Session W X → Session W X
  close s = if s.closed then s else record s {
    closed = true;
    queue = Steps.close s.queue;
    client = record s.client { conn = lib.close s.client.conn };
  }

  unfoldable pub recv_request : Handler X → Request → Session W X → Session W X
  recv_request h p s =
      let (r, a) = h.on_request p s.app in
      (send_packet false (Packet.response (reply p r)) (record s { app = a })).1

  unfoldable pub recv_response : Response → Session W X → Session W X
  recv_response p s = elim (GoMap.lookup ℕ_discrete p.id s.request_tasks) [
    | none ↦ s
    | some ch ↦ record s { answers = (ch, p) ∷ s.answers }
  ]

  unfoldable pub recv_pong : Session W X → Session W X
  recv_pong s = elim s.ping_chan [ none ↦ s | some _ ↦ record s { ping_chan = some true } ]

  -- `handlePacket`
  unfoldable pub handle_packet : Handler X → Packet → Session W X → Session W X
  handle_packet h (Packet.message p) s = record s { app = h.on_message p s.app }
  handle_packet h (Packet.request p) s = recv_request h p s
  handle_packet h (Packet.response p) s = recv_response p s
  handle_packet h (Packet.ping _) s = (send_packet true (Packet.pong new_pong) s).1
  handle_packet h (Packet.pong _) s = recv_pong s
  handle_packet h (Packet.close p) s = record s {
    client = try_close lib (Error.close_code p.code) s.client;
  }
  handle_packet h (Packet.connect _) s = s
  handle_packet h (Packet.connack _) s = s

  -- One turn of the loop in `recv`, and whether it goes on.
  unfoldable pub recv_one : Handler X → Session W X → Bool × Session W X
  recv_one h s =
      let (got, c) = lib.read_packet s.client.conn in
      let s' = record s { client = record s.client { conn = c } } in
      elim got [
        | inl e ↦ (false, record s' { client = try_close lib e s'.client })
        | inr p ↦ (true, handle_packet h p s')
      ]
