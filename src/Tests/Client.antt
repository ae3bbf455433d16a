-- ===== src/Tests/Client.antt =====
-- The client at concrete inputs.
use cable.Prelude.{ℕ, ◌+◌, ◌++◌, ◌≡◌, inr, Bool, true, List, [], ◌∷◌, none, some, refl}
use cable.Prelude.Words.{pos}
use cable.Errors.{Error, foreign}
use cable.Packet.Types.{Identity, Packet, new_connack, connect_accepted}
use cable.Client.Retrier
use cable.Client.Retrier.{Retrier, is_used_up, take_turn}
use cable.Client.Connection.{
  Status, opened, opening, status_number, is_status, Conn, Client, Event, enter, set_status, answer,
  read_answer, write_connect, reconnect, retried, try_close, on_timer,
}
use cable.Client.Connection
use cable.Client.Retries.{turns, granted, try_close-on_timer}
use cable.Client.KeepAlive.{
  KeepAlive, new_keepalive, start, wait, fires, hears, run_all, restarts, AreQuiet,
  waiting-restarts,
}
use cable.Client.KeepAlive as KeepAlive

abbrev twice : Retrier
twice = record { limit = pos 2; count = 0; filter = none; backoff = λ n. pos n }

abbrev failures : List Error
failures = foreign true ∷ foreign true ∷ foreign true ∷ []

two_turns : turns failures twice ≡ 2
unfolding turns granted Retrier.retry take_turn is_used_up
two_turns = refl

-- A server that accepts every client.
abbrev accepting : Conn ℕ
accepting = record {
  dail = λ w. (none, w + 1);
  close = λ w. w;
  read_packet = λ w. (inr (Packet.connack (new_connack connect_accepted)), w);
  write_packet = λ p w. (none, w);
}

abbrev anyone : Identity
anyone = record { user_id = 1 ∷ []; client_id = 2 ∷ []; password = [] }

abbrev new_client : Client ℕ
new_client = record {
  id = some anyone;
  conn = 0;
  status = opened;
  retrier = some twice;
  retrying = Bool.false;
  events = [];
}

-- The connection breaks, and `tryClose` starts a timer.
abbrev waiting : Client ℕ
waiting = try_close accepting (foreign true) new_client

waits : (waiting.status ≡ opening) × (waiting.retrying ≡ true)
unfolding try_close Connection.is_normal Connection.retry_or_close Retrier.retry take_turn
    is_used_up set_status is_status status_number enter
waits = (refl, refl)

connects : (reconnect accepting anyone waiting).0 ≡ none
unfolding reconnect write_connect read_answer answer new_connack
connects = refl

try_close-on_timer_example :
    ((on_timer accepting anyone waiting).status ≡ opened)
    × (try_close accepting (foreign true) (on_timer accepting anyone waiting)
        ≡ on_timer accepting anyone waiting)
try_close-on_timer_example =
    try_close-on_timer accepting anyone waiting (foreign true) waits.0 waits.1 connects

-- A keepalive that runs, since its start.
abbrev pinging : KeepAlive
pinging = start (new_keepalive 25 0)

abbrev quiet : List KeepAlive.Event
quiet = fires 30 ∷ hears 40 ∷ []

quiet-AreQuiet : AreQuiet quiet
unfolding AreQuiet
quiet-AreQuiet = tt

pinging-runs : pinging.stoped ≡ Bool.false
unfolding start new_keepalive wait
pinging-runs = refl

waiting-restarts_example : (run_all (restarts 2 ++ quiet) pinging).waiting ≡ pinging.waiting + 2
waiting-restarts_example = waiting-restarts 2 quiet pinging quiet-AreQuiet pinging-runs
