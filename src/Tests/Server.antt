-- ===== src/Tests/Server.antt =====
-- The server and its connections at concrete inputs.
use mathlib.Core.Logic.{ite}
use native.Mathlib.Decide.{ℕ_discrete}
use cable.Prelude.{
  ℕ, zero, suc, ◌+◌, ◌≤◌, ◌≡◌, ◌≢◌, ap, sym, refl, arith, true, false, Option, none, some, [], ◌∷◌,
  length, inr, ◌⊎◌,
}
use cable.Errors.{Error}
use cable.GoMap
use cable.GoMap.{Bytes, Bytes-discrete}
use cable.Safe.RMap
use cable.Packet.Types.{Connect, Message, new_connect, new_message, new_request, connect_accepted}
use cable.Network.Fair.{IsLive, new_conn-IsLive}
use cable.Safe.Counting.{IsCounted}
use mathlib.Core.Option.{some-injective}
use mathlib.Core.Path.{subst}
use cable.Network.Conn.{Conn, Waits, new_conn}
use cable.Network.Requests.{begin_request, end_request}
use cable.Network.Overlaps.{overlapping_requests}
use cable.Server.Table.{Handlers, Server, new_server, conn_at, get_conn}
use cable.Server.Handlers.{do_connection}
use cable.Server.Handlers
use cable.Server.Table
use cable.Server.Calls.{is_open, is_active, conn_count, kick_conn, brodcast}
use cable.Server.Shutdown.{shutdown}
use cable.Server.Sound.{IsSound, Leads}
use cable.Server.Arrivals.{arrived, get-do_connection, duplicate_login}
use cable.Server.Counts.{get-kick_conn, brodcast-counts}
use cable.Server.Runs.{Serves, begin, connected, Serves-IsSound}
use cable.Server.Ends.{Rests, shutdown-ends}

pub impossible : {A B : Type 0} {a : A} → none ≡ some a → B
impossible e = cc

-- Contexts that end at once.
abbrev pub impatient : Waits Bytes
impatient = record {
  wait = λ jump q. none;
  wait-Reach = λ n jump q r e p. impossible e;
  wait-open = λ jump q r e. impossible e;
}

-- A program that accepts everyone and counts who leaves.
abbrev pub counting : Handlers ℕ
counting = record {
  connect_handler = λ p s. (connect_accepted, s);
  message_handler = λ p id s. (none, s);
  request_handler = λ p id s. (inr [], s);
  close_handler = λ id s. s + 1;
}

abbrev pub alice : Connect
alice = new_connect (record { user_id = 1 ∷ []; client_id = 7 ∷ []; password = [] })

abbrev hello : Message
hello = new_message (5 ∷ [])

abbrev logged_in : Server ℕ
logged_in = (do_connection counting impatient 4 alice [] (new_server 0)).1

logged_in-Serves : Serves counting impatient 4 logged_in
logged_in-Serves = connected alice [] (begin 0)

Serves-IsSound_example : IsSound 4 logged_in
Serves-IsSound_example = Serves-IsSound counting impatient 4 logged_in logged_in-Serves

get-do_connection_example :
    get_conn (7 ∷ []) (do_connection counting impatient 4 alice [] logged_in).1
    ≡ ite
        (Bytes-discrete (7 ∷ []) (7 ∷ []))
        (arrived connect_accepted (get_conn (7 ∷ []) logged_in) (length logged_in.heap))
        (get_conn (7 ∷ []) logged_in)
unfolding new_connect
get-do_connection_example =
    get-do_connection counting impatient 4 alice [] (7 ∷ []) logged_in Serves-IsSound_example

listed_first : get_conn (7 ∷ []) logged_in ≡ some 0
unfolding new_connect new_server get_conn RMap.empty RMap.get GoMap.lookup Bytes-discrete
listed_first =
    get-do_connection counting impatient 4 alice [] (7 ∷ []) (new_server 0)
      (Serves-IsSound counting impatient 4 (new_server 0) (begin 0))

duplicate_login_example :
    (is_active (7 ∷ []) (do_connection counting impatient 4 alice [] logged_in).1 ≡ false)
    × (is_open (
          conn_at (length logged_in.heap) (do_connection counting impatient 4 alice [] logged_in).1)
        ≡ true)
unfolding new_connect
duplicate_login_example =
    duplicate_login counting impatient 4 alice [] 0 logged_in Serves-IsSound_example listed_first
      refl

get-kick_conn_example :
    ((kick_conn counting impatient (7 ∷ []) logged_in).0 ≡ is_active (7 ∷ []) logged_in)
    × (get_conn (8 ∷ []) (kick_conn counting impatient (7 ∷ []) logged_in).1
        ≡ ite (Bytes-discrete (7 ∷ []) (8 ∷ [])) none (get_conn (8 ∷ []) logged_in))
get-kick_conn_example =
    get-kick_conn counting impatient 4 (7 ∷ []) (8 ∷ []) logged_in Serves-IsSound_example

abbrev pub first_conn : Conn
first_conn = new_conn 4 (alice.identity) []

-- One client is listed, with an empty queue.
abbrev pub one_client : Server ℕ
one_client = record {
  heap = first_conn ∷ [];
  conns = record { entries = (7 ∷ [], 0) ∷ []; len = 1 };
  closed = false;
  app = 0;
}

only_listed :
    (cid : Bytes) (i : ℕ) (d : Dec (◌≡◌ {A = Bytes} (7 ∷ []) cid))
    → ite d (some 0) none ≡ some i
    → Leads cid i one_client
unfolding new_connect new_conn
only_listed cid i (yes p) e = (first_conn, ap (λ (o : Option ℕ). at_index o) (sym e), p, refl)
  where
    at_index : Option ℕ → Option Conn
    at_index none = none
    at_index (some j) = conn_at j one_client
only_listed cid i (no p) e = impossible e

only_alive : (i : ℕ) (c : Conn) → conn_at i one_client ≡ some c → IsLive 4 c
only_alive zero c e =
    subst (IsLive 4) (some-injective _ _ e) (new_conn-IsLive 4 (alice.identity) [])
only_alive (suc i) c e = impossible e

pub one_client-IsSound : IsSound 4 one_client
unfolding get_conn RMap.get GoMap.lookup IsCounted
one_client-IsSound = record {
  counted = ((tt, tt), refl);
  listed = λ cid i e. only_listed cid i (Bytes-discrete (7 ∷ []) cid) e;
  alive = only_alive;
}

brodcast-counts_example :
    ((brodcast impatient hello one_client).0.0 ≡ conn_count one_client)
    × ((brodcast impatient hello one_client).0.1 ≤ (brodcast impatient hello one_client).0.0)
    × ((brodcast impatient hello one_client).0.2 ≡ none)
brodcast-counts_example =
    brodcast-counts impatient 4 hello one_client one_client-IsSound refl (omega arith)

-- Waits in which nothing happens.
abbrev asleep : ℕ → Server ℕ → Option (Server ℕ)
asleep ms s = some s

asleep-Rests : Rests 4 asleep
unfolding Rests
asleep-Rests ms s t e k = subst (IsSound 4) (some-injective _ _ e) k

-- The client's CONNACK waits in its queue, and the deadline comes in the third round.
shutdown-ends_example :
    (x : Option Error) × (t : Server ℕ) × (shutdown counting asleep (some 120) none 3 logged_in
      ≡ some (x, t))
    × (((x ≡ none) × ((cid : Bytes) → get_conn cid t ≡ none)) ⊎ (x ≡ some (Error.foreign true)))
unfolding do_connection Handlers.on_connect Handlers.accept Table.update Handlers.evict RMap.swap
    RMap.get GoMap.lookup new_server RMap.empty
shutdown-ends_example =
    shutdown-ends counting 4 120 asleep none logged_in asleep-Rests Serves-IsSound_example refl

overlapping_requests_example :
    (let (a, d) = begin_request impatient (new_request [] []) first_conn in
      let (b, e) = begin_request impatient (new_request [] []) d in
      (a.1 ≡ 0)
      × (b.1 ≡ 0)
      × (a.2 ≢ b.2)
      × (GoMap.lookup ℕ_discrete 0 e.request_tasks ≡ some b.2)
      × (GoMap.lookup ℕ_discrete 0 (end_request 0 e).request_tasks ≡ none))
unfolding new_conn
overlapping_requests_example =
    overlapping_requests impatient [] [] [] [] first_conn refl (omega arith)
