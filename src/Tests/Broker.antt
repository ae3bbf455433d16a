-- ===== src/Tests/Broker.antt =====
-- The broker at concrete inputs.
use mathlib.Core.Logic.{ite}
use mathlib.Core.Option.{some-injective}
use mathlib.Core.Path.{subst}
use cable.Coder.Encoder
use cable.Packet.Body.{write_message, write_props}
use native.Mathlib.Decide.{ℕ_discrete}
use cable.Prelude.{ℕ, ◌^◌, ◌<◌, ◌≡◌, refl, arith, Bool, true, List, none, some, [], ◌∷◌, length}
use cable.Errors.{ok}
use cable.GoMap
use cable.GoMap.{Bytes, Bytes-discrete}
use cable.Coder.Collections.{IsProps}
use cable.Safe.RMap
use cable.Safe.KeyMap
use cable.Safe.KeyMap.{KeyMap}
use cable.Packet.Types.{Message, new_message}
use cable.Server.Table.{Server, get_conn}
use cable.Server.Sound.{IsSound}
use cable.Broker.Listeners.{Listeners, running, server_of, send_to_clients}
use cable.Broker.Peers.{Grpc, Peer, marshal_message, handle_to_user, handle_kick_conn}
use cable.Broker.Peers
use cable.Broker.Routes.{Broker, send_to_user}
use cable.Broker.Users.{kick_duplicate}
use cable.Broker.Calls.{kick_duplicate-unlisted, send_to_user-ready}
use cable.Broker.PeerClient.{new_peer_client}
use cable.Broker.PeerClient.Runs.{
  Event, connects, reported, closes, timer_fires, held, IsTidy, run, run-IsTidy,
}
use cable.Broker.Kicks.{AllSound}
use cable.Tests.Server.{impossible, impatient, counting, one_client, one_client-IsSound}

-- gRPC without failures.
abbrev pub direct : Grpc ℕ
direct = record { invoke = λ {A} id f b. f b; invoke-response = λ {A} id f b a e. (b, e) }

abbrev tcp : Bytes
tcp = 1 ∷ []

abbrev udp : Bytes
udp = 2 ∷ []

abbrev pub serving : Listeners ℕ
serving = (tcp, record { server = one_client; started = true; auto_start = true }) ∷ []

-- The client 7 of user 1 on TCP of node 2.
abbrev on_tcp : KeyMap Bytes
on_tcp = record { entries = (1 ∷ [], (7 ∷ [], tcp) ∷ []) ∷ []; len = 1 }

abbrev peer : Peer ℕ
peer = record { ready = true; remote = serving }

abbrev pub node : Broker ℕ ℕ
node = record {
  node_id = 1;
  state = record {
    user_clients = record { entries = (2, on_tcp) ∷ []; len = 1 };
    channel_clients = RMap.empty;
    client_channels = RMap.empty;
  };
  listeners = serving;
  peers = (2, peer) ∷ [];
  handlers = [];
  program = 0;
}

abbrev hello : Message
hello = new_message (5 ∷ [])

hello_short : length (marshal_message hello) < 2 ^ 63
unfolding marshal_message write_message write_props Encoder.write_uint8_map Encoder.write_uint8
    Encoder.write_bytes Encoder.new_encoder Encoder.pick new_message Encoder.write_uint8_entries
hello_short = omega arith

known_client : KeyMap.get_key (1 ∷ []) (7 ∷ []) on_tcp ≡ some tcp
unfolding KeyMap.get_key KeyMap.get RMap.get GoMap.lookup Bytes-discrete
known_client = refl

at_peer : GoMap.lookup ℕ_discrete 2 node.peers ≡ some peer
unfolding GoMap.lookup ℕ_discrete
at_peer = refl

listener-IsSound :
    (net : Bytes) (s : Server ℕ) (d : Dec (◌≡◌ {A = Bytes} tcp net))
    → running
        (ite d (some (record { server = one_client; started = true; auto_start = true })) none)
      ≡ some s
    → IsSound 4 s
unfolding running
listener-IsSound net s (yes p) e = subst (IsSound 4) (some-injective _ _ e) one_client-IsSound
listener-IsSound net s (no p) e = impossible e

pub serving-AllSound : AllSound 4 serving
unfolding AllSound server_of GoMap.lookup
serving-AllSound net s e = listener-IsSound net s (Bytes-discrete tcp net) e

-- The node on which the user is.
abbrev at_2 : Broker ℕ ℕ
at_2 = record node { node_id = 2 }

hello-IsProps : IsProps hello.props
unfolding new_message
hello-IsProps = record { distinct = tt; sized = tt; few = omega arith }

send_to_user-ready_example :
    Peers.send_to_user direct impatient 2 hello ((7 ∷ [], tcp) ∷ []) peer ≡ (
      ok (send_to_clients impatient hello ((7 ∷ [], tcp) ∷ []) serving).0,
      record peer { remote = (send_to_clients impatient hello ((7 ∷ [], tcp) ∷ []) serving).1 },
    )
send_to_user-ready_example =
    send_to_user-ready direct impatient 2 hello ((7 ∷ [], tcp) ∷ []) peer hello-IsProps hello_short
      refl refl

not_on_udp : (s : Server ℕ) → server_of udp serving ≡ some s → get_conn (7 ∷ []) s ≡ none
unfolding server_of running GoMap.lookup Bytes-discrete
not_on_udp s e = cc

kick_duplicate-unlisted_example :
    GoMap.lookup ℕ_discrete 2
      (kick_duplicate direct
        (λ net. counting)
        impatient
        (record { user_id = 1 ∷ []; client_id = 7 ∷ []; password = [] })
        udp
        2
        on_tcp
        node).1.peers
    ≡ some peer
kick_duplicate-unlisted_example =
    kick_duplicate-unlisted (λ net. counting) impatient direct
      (record { user_id = 1 ∷ []; client_id = 7 ∷ []; password = [] }) udp tcp 2 on_tcp peer node
      refl known_client at_peer refl not_on_udp

-- gRPC takes every address.
abbrev takes_all : ℕ → Bytes → Bool
takes_all n addr = true

abbrev life : List (Event takes_all)
life = connects ∷ reported (9 ∷ []) ∷ closes ∷ timer_fires ∷ []

new_peer_client-IsTidy : IsTidy (new_peer_client (8 ∷ []))
unfolding IsTidy held new_peer_client
new_peer_client-IsTidy = (refl, λ e. cc)

run-IsTidy_example : IsTidy (run takes_all life (new_peer_client (8 ∷ [])))
run-IsTidy_example = run-IsTidy takes_all life (new_peer_client (8 ∷ [])) new_peer_client-IsTidy
