-- ===== src/Booter/Api/Kicked.antt =====
-- A user who is kicked through cmd/cable/api_http.go, as its next request sees it.
use mathlib.Core.Path.{subst}
use cable.Prelude.{ℕ, ◌≡◌, ◌≢◌, refl, sym, ap, ◌∙◌, Bool, true, false, List, [], Option}
use cable.Errors.{Error, Result}
use cable.GoMap.{Bytes}
use cable.Network.Conn.{Waits}
use cable.Server.Table.{Handlers}
use cable.Cluster.Node.{RaftLibrary}
use cable.Broker.Peers.{Grpc}
use cable.Broker.Routes.{Program, Broker}
use cable.Broker.Kicks.{AllSound}
use cable.Broker.Kicks.Offline.{IsOnlyAt, is_online-kick_user}
use cable.Booter.Auth.{AuthConfig, Services}
use cable.Booter.Api.{Backend}
use cable.Booter.Api.Http.{
  Verb, Request, Formats, Reply, reply, status_ok, ok_text, Endpoint, serve, when_ready, same_verb,
  online, show_json, done, handle_kick_user, handle_is_online,
}
use cable.Booter.Api.Agree.{given_passes}
use cable.Booter.Api.Program.{Running, with_broker, program_backend}

module _ {W St : Type 0} (f : Formats St) (b : Backend W St) where
  get_passes :
      (r : Request) (k : W → Reply × W) (w : W)
      → b.is_ready w ≡ true
      → r.verb ≡ Verb.get
      → when_ready f b Verb.get r k w ≡ k w
  unfolding when_ready same_verb
  get_passes r k w e v = rw (when_ready, e, v) refl

  kick_passes :
      (r : Request) (w : W)
      → b.is_ready w ≡ true
      → r.verb ≡ Verb.get
      → r.query_uid ≢ []
      → serve f b Endpoint.kick_user r w ≡ (reply status_ok ok_text, b.kick_user r.query_uid w)
  unfolding serve handle_kick_user done
  kick_passes r w e v u = get_passes r _ w e v ∙ given_passes f b r.query_uid _ _ w u

  ask_passes :
      (r : Request) (w v : W) (on : Bool)
      → b.is_ready w ≡ true
      → r.verb ≡ Verb.get
      → r.query_uid ≢ []
      → b.is_online r.query_uid w ≡ (on, v)
      → serve f b Endpoint.is_online r w ≡ show_json f b (online on) v
  unfolding serve handle_is_online
  ask_passes r w v on e g u a =
      get_passes r _ w e g
      ∙ given_passes f b r.query_uid _ _ w u
      ∙ ap (λ (x : Bool × W). show_json f b (online (x.0)) (x.1)) a

module _ {S X W R C St : Type 0} (f : Formats St) (g : Grpc S) (h : Bytes → Handlers S)
    (waits : Waits Bytes) (p : Program X) (lib : RaftLibrary R C) (s : Services W) (c : AuthConfig)
    (client : Bool) (inspect : Running S X W R C → Result (List St) × Running S X W R C)
    (stop : Bytes → Running S X W R C → Option Error × Running S X W R C) where
  -- The program, over HTTP.
  abbrev pub program : Endpoint → Request → Running S X W R C → Reply × Running S X W R C
  program = serve f (program_backend g h waits p lib s c client inspect stop)

  -- While the cluster is ready, a request that kicks a user is answered with success, and the next request that
  -- asks for the user is answered that the user is not online, and changes nothing: where only the broker's own
  -- node has clients of the user, and every listener that has started has a sound table.
  pub is_online-kicked :
      (n : ℕ) (r : Request) (w : Running S X W R C)
      → w.node.ready ≡ true
      → r.verb ≡ Verb.get
      → r.query_uid ≢ []
      → AllSound n w.booter.broker.listeners
      → IsOnlyAt r.query_uid w.booter.broker.node_id w.booter.broker.state.user_clients.entries
      → ((program Endpoint.kick_user r w).0 ≡ reply status_ok ok_text)
        × (program Endpoint.is_online r (program Endpoint.kick_user r w).1
            ≡ show_json f
                (program_backend g h waits p lib s c client inspect stop)
                (online false)
                (program Endpoint.kick_user r w).1)
  unfolding program_backend with_broker
  is_online-kicked n r w e v u k only =
      let b = program_backend g h waits p lib s c client inspect stop in
      let kicked = b.kick_user r.query_uid w in
      let asked = is_online-kick_user g h waits n r.query_uid w.booter.broker k only in
      let answer : b.is_online r.query_uid kicked ≡ (false, kicked) =
        ap
          (λ (x : Bool × Broker S X).
            (x.0, record w { booter = record (w.booter) { broker = x.1 } }))
          asked in
      let passed = kick_passes f b r w e v u in
      (
        ap (λ (x : Reply × Running S X W R C). x.0) passed,
        subst
            (λ (x : Running S X W R C).
              serve f b Endpoint.is_online r x ≡ show_json f b (online false) x)
            (sym (ap (λ (x : Reply × Running S X W R C). x.1) passed))
            (ask_passes f b r kicked kicked false e v u answer),
      )
