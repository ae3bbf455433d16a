-- ===== src/Client/Connection.antt =====
-- `client` of client/client.go, as far as its status goes. The network is a parameter, a `Conn` over a
-- state `W`. What connects is handed the client's `id`, which is not nil there. Goroutines and timers that are started are entered in `events`, the oldest first; a timer
-- that fires runs `on_timer`.
use cable.Prelude.{
  ℕ, Bool, true, false, ◌||◌, List, [], ◌∷◌, ◌++◌, ◌⊎◌, inl, inr, Option, none, some, if◌then◌else◌,
  ◌==◌,
}
use cable.Prelude.Words.{ℤ}
use cable.Errors.{
  Error, Result, ok, panic, client, connection_failed, close_code, connect_code, close_reason,
  normal,
}
use cable.Packet.Types.{Identity, Packet, new_connect, connect_accepted}
use cable.Client.Retrier
use cable.Client.Retrier.{Retrier}

pub data Status : Type 0 where
  unknown closed opened opening closing : Status

-- The constants of `Status`.
unfoldable pub status_number : Status → ℕ
status_number unknown = 0
status_number closed = 1
status_number opened = 2
status_number opening = 3
status_number closing = 4

unfoldable pub is_status : Status → Status → Bool
is_status s t = status_number s == status_number t

-- The interface `Conn`; an error and the connection after it, or what was asked for.
pub record Conn (W : Type 0) : Type 0 where
  pub dail : W → Option Error × W
  pub close : W → W
  pub read_packet : W → (Error ⊎ Packet) × W
  pub write_packet : Packet → W → Option Error × W

pub data Event : Type 0 where
  start_keepalive stop_keepalive start_recv : Event
  on_status : Status → Event
  after_func : ℤ → Event

pub record Client (W : Type 0) : Type 0 where
  -- nil where the options set none
  pub id : Option Identity
  pub conn : W
  pub status : Status
  pub retrier : Option Retrier
  pub retrying : Bool
  pub events : List Event

module _ {W : Type 0} (lib : Conn W) where
  abbrev emit : List Event → Client W → Client W
  emit es c = record c { events = c.events ++ es }

  -- The `switch` of `_setStatus`, and `OnStatus` behind it.
  unfoldable pub enter : Status → Client W → Client W
  enter closed c =
      emit (Event.stop_keepalive ∷ Event.on_status closed ∷ [])
        (record c { status = closed; conn = lib.close c.conn })
  enter opened c =
      emit (Event.start_keepalive ∷ Event.start_recv ∷ Event.on_status opened ∷ [])
        (record c { status = opened })
  enter opening c =
      emit (Event.stop_keepalive ∷ Event.on_status opening ∷ []) (record c { status = opening })
  enter closing c =
      emit (Event.stop_keepalive ∷ Event.on_status closing ∷ []) (record c { status = closing })
  enter unknown c = emit (Event.on_status unknown ∷ []) (record c { status = unknown })

  unfoldable pub set_status : Status → Client W → Client W
  set_status s c = if is_status c.status s then c else enter s c

  -- The answer to the CONNECT packet: no error where it is an accepting CONNACK.
  unfoldable pub answer : Packet → Option Error
  answer (Packet.connack ack) =
      if ack.code == connect_accepted then none else some (connect_code ack.code)
  answer (Packet.close p) = some (close_code p.code)
  answer _ = some (client connection_failed)

  unfoldable pub read_answer : Client W → Option Error × Client W
  read_answer c =
      let (got, w) = lib.read_packet c.conn in
      elim got [
        | inl e ↦ (some e, record c { conn = w })
        | inr p ↦ elim (answer p) [
          | some e ↦ (some e, record c { conn = w })
          | none ↦ (none, set_status opened (record c { conn = w }))
        ]
      ]

  unfoldable pub write_connect : Identity → Client W → Option Error × Client W
  write_connect id c =
      let (failed, w) = lib.write_packet (Packet.connect (new_connect id)) c.conn in
      elim failed [
        | some e ↦ (some e, record c { conn = w })
        | none ↦ read_answer (record c { conn = w })
      ]

  unfoldable pub reconnect : Identity → Client W → Option Error × Client W
  reconnect id c =
      let (failed, w) = lib.dail c.conn in
      elim failed [
        | some e ↦ (some e, record c { conn = w })
        | none ↦ write_connect id (record c { conn = w })
      ]

  unfoldable pub is_normal : Error → Bool
  is_normal (close_reason normal) = true
  is_normal _ = false

  -- The part of `tryClose` behind the tests of the reason.
  unfoldable pub retry_or_close : Error → Client W → Client W
  retry_or_close e c = elim c.retrier [
    | none ↦ set_status closed c
    | some r ↦
        let (turn, r') = Retrier.retry e r in
        elim turn [
          | none ↦ set_status closed (record c { retrier = some r' })
          | some delay ↦
              let c' = set_status opening (record c { retrier = some r'; retrying = true }) in
              record c' { events = c'.events ++ Event.after_func delay ∷ [] }
        ]
  ]

  unfoldable pub try_close : Error → Client W → Client W
  try_close e c = if c.retrying then c else elim c.id [
    | none ↦ c
    | some _ ↦
        if is_status c.status closed || is_status c.status closing
        then c
        else if is_normal e
        then set_status closed c
        else retry_or_close e c
  ]

  -- What follows a `reconnect` that the timer makes.
  unfoldable pub retried : Option Error × Client W → Client W
  retried (none, c) = c
  retried (some e, c) = try_close e (record c { retrying = false })

  -- The function that `tryClose` hands to `time.AfterFunc`.
  unfoldable pub on_timer : Identity → Client W → Client W
  on_timer id c = if is_status c.status opening then retried (reconnect id c) else c

  -- `c.retrier.Reset()` panics where there is no retrier.
  unfoldable pub give_up : Error → Client W → Result (Client W)
  give_up e c = elim c.retrier [
    | none ↦ panic
    | some r ↦ ok (try_close e (record c { retrying = false; retrier = some (Retrier.reset r) }))
  ]

  unfoldable pub connect : Identity → Client W → Result (Client W)
  connect id c =
      if is_status c.status opened || is_status c.status opening
      then ok c
      else let (failed, c') = reconnect id (set_status opening c) in
        elim failed [ none ↦ ok c' | some e ↦ give_up e c' ]

  unfoldable pub is_ready : Client W → Bool
  is_ready c = is_status c.status opened
