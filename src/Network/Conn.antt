-- ===== src/Network/Conn.antt =====
-- `conn` of internal/network/conn.go with the identity and the address of its `rawconn`, and
-- `Queue.Push` of internal/queue/queue.go as one call sees it. A frame that the worker of the sending
-- queue runs is one that it writes. `Waits` stands for the time in which a call waits for room. The errors of the network,
-- the log and the statistics are left out.
use cable.Prelude.{
  ℕ, ◌≡◌, Bool, true, false, ltb, List, [], Option, none, some, if◌then◌else◌, length,
}
use cable.Errors.{Error, QueueError, XError, Result, ok, err, panic}
use cable.GoMap.{Bytes}
use cable.Packet.Types.{Identity, Packet, Message, Response, new_pong, new_connack, new_close}
use cable.Packet.Frame.{marshal}
use cable.Queue.Steps.{Queue, Reach, max_jumps, new_queue, send_jump, send_task}
use cable.Queue.Steps

pub record Conn : Type 0 where
  pub id : Identity
  pub ip : Bytes
  pub closed : Bool
  pub raw_closed : Bool
  pub queue : Queue Bytes
  -- `pingChan`, and whether a pong has come
  pub ping_chan : Option Bool
  pub request_id : ℕ
  -- The channel that waits for the response with an id, and how many channels have been made.
  pub request_tasks : List (ℕ × ℕ)
  pub chans : ℕ
  -- What the channels have passed on.
  pub answers : List (ℕ × Response)

unfoldable pub has_room : {T : Type 0} → Bool → Queue T → Bool
has_room jump q = if jump then ltb (length q.jumps) max_jumps else ltb (length q.tasks) q.capacity

-- What has become of a full queue when a call finds room in it, or nothing when the call's context ends
-- first. In between the queue goes through steps of its own, and it is not closed.
pub record Waits (T : Type 0) : Type 1 where
  pub wait : Bool → Queue T → Option (Queue T)
  pub wait-Reach :
      (n : ℕ) (jump : Bool) (q r : Queue T) → wait jump q ≡ some r → Reach n q → Reach n r
  pub wait-open :
      (jump : Bool) (q r : Queue T)
      → wait jump q ≡ some r
      → (r.closed ≡ q.closed) × (has_room jump r ≡ true)

unfoldable pub put : {T : Type 0} → Bool → T → Queue T → Queue T
put jump t q = if jump then send_jump t q.pushes q else send_task t q.pushes q

-- `Push`: its error, if any. A context that ends is an error with `Timeout()`.
module _ {T : Type 0} (w : Waits T) where
  unfoldable pub push_late : Bool → T → Queue T → Option Error × Queue T
  push_late jump t q = elim (w.wait jump q) [
    | none ↦ (some (Error.foreign true), q)
    | some r ↦ (none, put jump t r)
  ]

  unfoldable pub push : Bool → T → Queue T → Option Error × Queue T
  push jump t q =
      if q.closed
      then (some (Error.queue QueueError.queue_is_closed), q)
      else if has_room jump q
      then (none, put jump t q)
      else push_late jump t q

-- `newConn`
unfoldable pub new_conn : ℕ → Identity → Bytes → Conn
new_conn n id ip = record {
  id = id;
  ip = ip;
  closed = false;
  raw_closed = false;
  queue = new_queue n;
  ping_chan = none;
  request_id = 0;
  request_tasks = [];
  chans = 0;
  answers = [];
}

unfoldable pub is_idle : Conn → Bool
is_idle c = Steps.is_idle c.queue

module _ (w : Waits Bytes) where
  unfoldable pub push_frame : Bool → Result Bytes → Conn → Option Error × Conn
  push_frame jump (ok bytes) c =
      let (e, q) = push w jump bytes c.queue in (e, record c { queue = q })
  push_frame jump (err e) c = (some e, c)
  push_frame jump panic c = (some (Error.foreign false), c)

  -- `jumpPacket` and `SendPacket`. No clause of `marshal` panics.
  unfoldable pub jump_packet : Packet → Conn → Option Error × Conn
  jump_packet p c =
      if c.closed
      then (some (Error.xerr XError.connection_is_closed), c)
      else push_frame true (marshal p) c

  unfoldable pub send_packet : Packet → Conn → Option Error × Conn
  send_packet p c =
      if c.closed
      then (some (Error.xerr XError.connection_is_closed), c)
      else push_frame false (marshal p) c

  unfoldable pub send_message : Message → Conn → Option Error × Conn
  send_message p c = send_packet (Packet.message p) c

  unfoldable pub send_pong : Conn → Conn
  send_pong c = (jump_packet (Packet.pong new_pong) c).1

  unfoldable pub connack_code : ℕ → Conn → Conn
  connack_code code c = (jump_packet (Packet.connack (new_connack code)) c).1

  -- `CloseCode` before its call of `Close`.
  unfoldable pub announce : ℕ → Conn → Conn
  announce code c = (jump_packet (Packet.close (new_close code)) c).1

-- What `Close` does to an open connection itself.
unfoldable pub shut : Conn → Conn
shut c = record c { closed = true; raw_closed = true; queue = Steps.close c.queue }
