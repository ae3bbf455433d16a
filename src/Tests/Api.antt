-- ===== src/Tests/Api.antt =====
-- The two interfaces of the program at concrete inputs.
use cable.Prelude.{inl, ℕ, ◌+◌, ◌≡◌, ◌≢◌, refl, true, false, [], ◌∷◌, none, some}
use cable.Prelude.Words.{pos}
use cable.Errors.{ok}
use cable.GoMap.{Bytes}
use cable.Booter.Auth.{Services}
use cable.Broker.Routes.{Program}
use cable.Booter.Config
use cable.Booter.Config.{Config, validate}
use cable.Booter.Api.{Backend}
use cable.Booter.Api.Http.{
  show_json, online, Verb, Request, Formats, Endpoint, Body, reply, serve, when_ready, same_verb,
  given, handle_send_to_user, status_ok, parse_kind, kind_in,
}
use cable.Booter.Api.Refusals.{is_refusal, serve-refused}
use cable.Booter.Api.Agree.{to_user, Carries, endpoint_of, verb_of, rpc, rendered, serve-rpc}
use cable.Booter.Api.Program.{Running, program_backend}
use cable.Broker.Kicks.Offline.{IsOnlyAt}
use cable.Booter.Api.Kicked.{program, is_online-kicked}
use cable.Tests.Broker.{direct, node, serving-AllSound}
use cable.Tests.Server.{impatient, counting}
use cable.Tests.Log.{node_1}
use cable.Tests.Log as Log
use cable.Tests.Booter.{sample}

-- A program that counts the messages it sends.
abbrev counter : Backend ℕ ℕ
counter = record {
  is_ready = λ w. true;
  inspects = λ w. (ok (w ∷ []), w);
  is_online = λ uid w. (true, w);
  kick_user = λ uid w. w + 1;
  kick_broker = λ id w. (none, w + 1);
  send_to_all = λ m w. (ok (1, 1), w + 1);
  send_to_user = λ uid m w. (ok (1, 1), w + 1);
  send_to_channel = λ channel m w. (ok (1, 1), w + 1);
  join_channel = λ uid channels w. (none, w + 1);
  leave_channel = λ uid channels w. (none, w + 1);
  list_channels = λ uid w. (ok [], w);
  list_users = λ id w. (ok [], w);
  start_listener = λ net w. (none, w + 1);
  stop_listener = λ net w. (none, w + 1);
}

-- Every kind is 5, and every form asks user 7 to join channel 8.
abbrev forms : Formats ℕ
forms = record {
  marshal = λ v. some [];
  decode_kick = λ bytes. some 2;
  decode_join = λ bytes. some (record { uid = 7 ∷ []; channels = (8 ∷ [], []) ∷ [] });
  trim_space = λ s. s;
  parse_int = λ s. some (pos 5);
  parse_uint = λ s. some 1;
}

abbrev request_for : Bytes → Request
request_for uid = record {
  verb = Verb.post;
  query_uid = [];
  query_node_id = [];
  header_uid = uid;
  header_channel = [];
  header_kind = [];
  body = some (1 ∷ []);
}

refuses-nobody : is_refusal (serve forms counter Endpoint.send_to_user (request_for []) 3).0 ≡ true
unfolding serve handle_send_to_user when_ready same_verb given Config.is_empty is_refusal
refuses-nobody = refl

serve-refused_example : (serve forms counter Endpoint.send_to_user (request_for []) 3).1 ≡ 3
serve-refused_example =
    serve-refused forms counter Endpoint.send_to_user (request_for []) 3 refuses-nobody

given-nonempty : {x : ℕ} {xs : Bytes} → ◌≢◌ {A = Bytes} (x ∷ xs) []
given-nonempty e = cc

message-Carries : Carries forms (request_for (7 ∷ [])) (to_user (7 ∷ []) 5 (1 ∷ []))
unfolding Carries parse_kind kind_in
message-Carries = (refl, given-nonempty, refl, refl)

serve-rpc_example :
    serve forms counter (endpoint_of (to_user (7 ∷ []) 5 (1 ∷ []))) (request_for (7 ∷ [])) 3
    ≡ rendered forms counter (rpc forms counter (to_user (7 ∷ []) 5 (1 ∷ [])) 3)
unfolding verb_of
serve-rpc_example =
    serve-rpc forms counter (to_user (7 ∷ []) 5 (1 ∷ [])) (request_for (7 ∷ [])) 3 refl refl
      message-Carries

-- No Redis, no HTTP and no tokens.
abbrev offline : Services ℕ
offline = record {
  is_hmac = λ token. false;
  verify = λ token key. none;
  redis_get = λ key w. (none, w);
  redis_hgetall = λ key w. (none, w);
  redis_hset = λ key entries w. (false, w);
  redis_hdel = λ key fields w. (false, w);
  http_get = λ url w. (none, w);
}

abbrev silent : Program ℕ
silent = record {
  on_user_connect = λ p x. (0, x);
  get_user_channels = λ uid x. [];
  on_user_closed = λ id x. x;
  submit = λ op x. (none, x + 1);
}

abbrev running : Running ℕ ℕ ℕ ℕ ℕ
running = record {
  booter = record { broker = node; message_route = []; producer = false; kafka = [] };
  world = 0;
  node = node_1;
}

-- The broker of node 2, which has the client 7 of user 1 on TCP.
abbrev at_home : Running ℕ ℕ ℕ ℕ ℕ
at_home = record running { booter = record running.booter { broker = record node { node_id = 2 } } }

abbrev asking : Request
asking = record (request_for []) { verb = Verb.get; query_uid = 1 ∷ [] }

home-IsOnlyAt : IsOnlyAt (1 ∷ []) 2 node.state.user_clients.entries
unfolding IsOnlyAt
home-IsOnlyAt = (inl refl, tt)

is_online-kicked_example :
    ((program forms direct
        (λ net. counting)
        impatient
        silent
        Log.counting
        offline
        sample.auth
        false
        (λ w. (ok [], w))
        (λ net w. (none, w))
        Endpoint.kick_user
        asking
        at_home).0
      ≡ reply status_ok Body.ok_text)
    × (program forms direct
          (λ net. counting)
          impatient
          silent
          Log.counting
          offline
          sample.auth
          false
          (λ w. (ok [], w))
          (λ net w. (none, w))
          Endpoint.is_online
          asking
          (program forms direct
            (λ net. counting)
            impatient
            silent
            Log.counting
            offline
            sample.auth
            false
            (λ w. (ok [], w))
            (λ net w. (none, w))
            Endpoint.kick_user
            asking
            at_home).1
        ≡ show_json forms
            (program_backend direct
              (λ net. counting)
              impatient
              silent
              Log.counting
              offline
              sample.auth
              false
              (λ w. (ok [], w))
              (λ net w. (none, w)))
            (online false)
            (program forms direct
              (λ net. counting)
              impatient
              silent
              Log.counting
              offline
              sample.auth
              false
              (λ w. (ok [], w))
              (λ net w. (none, w))
              Endpoint.kick_user
              asking
              at_home).1)
is_online-kicked_example =
    is_online-kicked forms direct (λ net. counting) impatient silent Log.counting offline
      sample.auth false (λ w. (ok [], w)) (λ net w. (none, w)) 4 asking at_home refl refl
      given-nonempty serving-AllSound home-IsOnlyAt
