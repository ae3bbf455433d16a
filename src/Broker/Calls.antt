-- ===== src/Broker/Calls.antt =====
-- What a call of cluster/peer_client.go does to the peer that answers it, in cluster/peer_server.go, when gRPC
-- runs the handler once.
use mathlib.Core.Logic.{if_pos, if_neg}
use mathlib.Core.Path.{subst}
use native.Mathlib.Decide.{ℕ_discrete}
use cable.Prelude.{
  ℕ, ◌^◌, ◌<◌, ◌≡◌, refl, sym, ap, ◌∙◌, Bool, true, false, List, [], ◌∷◌, Option, none, some,
  if_elim, option_elim, length, if◌then◌else◌, ◌==◌, false_true,
}
use cable.Errors.{Result, ok}
use cable.GoMap
use cable.GoMap.{Bytes, Bytes-discrete, lookup-insert}
use mathlib.Core.Option.{some-injective}
use cable.Coder.Encoder
use cable.Coder.Encoder.{Encoder}
use cable.Coder.Decoder
use cable.Coder.Decoder.{Decoder}
use cable.Coder.Collections.{IsProps}
use cable.Safe.KeyMap
use cable.Safe.KeyMap.{KeyMap}
use cable.Packet.Types.{Message, Identity}
use cable.Packet.Body.{read_message}
use cable.Packet.BodyTrip.{message_trip}
use cable.Network.Conn.{Waits}
use cable.Server.Table.{Handlers, Server, get_conn}
use cable.Server.Calls
use cable.Broker.Listeners.{
  Listener, Listeners, running, server_of, put_server, kick_at, kick_conn, send_to_clients,
}
use cable.Broker.Peers.{
  Grpc, Peer, marshal_message, unmarshal_message, with_message, handle_to_user, handle_kick_conn,
  call,
}
use cable.Broker.Peers
use cable.Broker.Routes.{Broker, Totals, put_peer}
use cable.Broker.Users.{kick_remote, kick_duplicate}

read_back :
    (m : Message) (bytes : Bytes) {d : Decoder}
    → read_message (Decoder.new_decoder bytes) ≡ ok (m, d)
    → unmarshal_message bytes ≡ ok m
unfolding unmarshal_message
read_back m bytes e = rw (unmarshal_message, e) refl

-- A message comes back from `coder.Marshal` and `coder.Unmarshal`.
unmarshal_message-marshal_message :
    (m : Message)
    → IsProps m.props
    → length (marshal_message m) < 2 ^ 63
    → unmarshal_message (marshal_message m) ≡ ok m
unfolding marshal_message unmarshal_message Encoder.pick Encoder.new_encoder Decoder.new_decoder
unmarshal_message-marshal_message m props short =
    let t = message_trip m props in
    let written : marshal_message m ≡ t.bytes =
      ap (λ (e : Encoder). e.buf) (t.writes Encoder.new_encoder) in
    ap unmarshal_message written
    ∙ read_back m t.bytes (t.reads [] (subst (λ (bs : Bytes). length bs < 2 ^ 63) written short))

-- Writing back what is there changes nothing.
insert-same :
    {K V : Type 0} (dec : Discrete K) (k : K) (v : V) (m : List (K × V))
    → GoMap.lookup dec k m ≡ some v
    → GoMap.insert dec k v m ≡ m
unfolding GoMap.lookup GoMap.insert
insert-same dec k v [] e = cc
insert-same dec k v ((j, w) ∷ m) e = elim (dec j k) [
  | yes p ↦
      let same = some-injective w v (sym (if_pos (dec j k) p _ _) ∙ e) in
      if_pos (dec j k) p _ _ ∙ ap (λ x. (j, x) ∷ m) (sym same)
  | no p ↦
      if_neg (dec j k) p _ _
      ∙ ap (◌∷◌ (j, w)) (insert-same dec k v m (sym (if_neg (dec j k) p _ _) ∙ e))
]

taken : {A : Type 0} (b : Bool) (x y : A) → (if b then some x else none) ≡ some y → y ≡ x
taken true x y e = sym (some-injective x y e)
taken false x y e = cc

module _ {S : Type 0} where
  with_same_server :
      (net : Bytes) (s : Server S) (o : Option (Listener S)) (b : Listeners S)
      → GoMap.lookup Bytes-discrete net b ≡ o
      → running o ≡ some s
      → put_server net s b ≡ b
  unfolding running put_server
  with_same_server net s none b e r = cc
  with_same_server net s (some l) b e r =
      rw (put_server, e)
        (ap (λ (x : Server S). GoMap.insert Bytes-discrete net (record l { server = x }) b)
            (taken l.started l.server s r)
          ∙ insert-same Bytes-discrete net l b e)

  module _ (h : Bytes → Handlers S) (w : Waits Bytes) where
    -- A listener that does not list the client is left as it is.
    kick_at-unlisted :
        (cid net : Bytes) (b : Listeners S)
        → ((s : Server S) → server_of net b ≡ some s → get_conn cid s ≡ none)
        → kick_at h w cid net b ≡ b
    unfolding kick_at server_of Calls.kick_conn
    kick_at-unlisted cid net b gone =
        option_elim (λ (x : Listeners S). x ≡ b) (server_of net b) _ _ (λ _. refl)
          (λ s e.
            ap (λ (x : Server S). put_server net x b) (rw (Calls.kick_conn, gone s e) refl)
            ∙ with_same_server net s _ b refl e)

    kick_conn-unlisted :
        (cid net : Bytes) (b : Listeners S)
        → ((s : Server S) → server_of net b ≡ some s → get_conn cid s ≡ none)
        → kick_conn h w ((cid, net) ∷ []) b ≡ b
    unfolding kick_conn
    kick_conn-unlisted cid net b gone = kick_at-unlisted cid net b gone

    kicked_peer :
        (g : Grpc S) (id : ℕ) (cid net : Bytes) (p : Peer S)
        → g.invoke id (handle_kick_conn h w ((cid, net) ∷ [])) p.remote
          ≡ handle_kick_conn h w ((cid, net) ∷ []) p.remote
        → ((s : Server S) → server_of net p.remote ≡ some s → get_conn cid s ≡ none)
        → (Peers.kick_conn g h w id ((cid, net) ∷ []) p).1 ≡ p
    unfolding Peers.kick_conn call handle_kick_conn
    kicked_peer g id cid net p once gone =
        if_elim (λ (x : Result (Unit {0}) × Peer S). x.1 ≡ p) p.ready _ _
          (λ _.
            ap (λ (x : Result (Unit {0}) × Listeners S). record p { remote = x.1 }) once
            ∙ ap (λ (x : Listeners S). record p { remote = x })
                (kick_conn-unlisted cid net p.remote gone))
          (λ _. refl)

    -- In the loop of `onUserConnect` for a user that connects on the network `net`, another node that has
    -- the user's client on a network `old`, that does not list it on `net` and on which gRPC runs the call
    -- once, if its client is ready, is left as it is: the old connection stays.
    pub kick_duplicate-unlisted :
        {X : Type 0} (g : Grpc S) (user : Identity) (net old : Bytes) (id : ℕ)
        (users : KeyMap Bytes) (p : Peer S) (b : Broker S X)
        → (id == b.node_id) ≡ false
        → KeyMap.get_key user.user_id user.client_id users ≡ some old
        → GoMap.lookup ℕ_discrete id b.peers ≡ some p
        → g.invoke id (handle_kick_conn h w ((user.client_id, net) ∷ [])) p.remote
          ≡ handle_kick_conn h w ((user.client_id, net) ∷ []) p.remote
        → ((s : Server S) → server_of net p.remote ≡ some s → get_conn user.client_id s ≡ none)
        → GoMap.lookup ℕ_discrete id (kick_duplicate g h w user net id users b).1.peers ≡ some p
    unfolding kick_duplicate kick_remote put_peer
    kick_duplicate-unlisted g user net old id users p b other known peer once gone =
        rw (kick_duplicate, other, known, kick_remote, peer)
          (lookup-insert ℕ_discrete id id _ b.peers
            ∙ if_pos (ℕ_discrete id id) refl _ _
            ∙ ap some (kicked_peer g id user.client_id net p once gone))

  module _ (g : Grpc S) (w : Waits Bytes) where
    -- On a peer that is ready and on which gRPC runs the call once, a message for a user, or for a channel,
    -- does what `sendToClients` does there with the same message, and the caller gets its counters.
    pub send_to_user-ready :
        (id : ℕ) (m : Message) (cids : List (Bytes × Bytes)) (p : Peer S)
        → IsProps m.props
        → length (marshal_message m) < 2 ^ 63
        → p.ready ≡ true
        → g.invoke id (handle_to_user w (marshal_message m) cids) p.remote
          ≡ handle_to_user w (marshal_message m) cids p.remote
        → Peers.send_to_user g w id m cids p ≡ (
          ok (send_to_clients w m cids p.remote).0,
          record p { remote = (send_to_clients w m cids p.remote).1 },
        )
    unfolding Peers.send_to_user call handle_to_user with_message
    send_to_user-ready id m cids p props short ready once =
        if_elim
          (λ (x : Result Totals × Peer S). x ≡ (
            ok (send_to_clients w m cids p.remote).0,
            record p { remote = (send_to_clients w m cids p.remote).1 },
          ))
          p.ready _ _
          (λ _.
            ap (λ (x : Result Totals × Listeners S). (x.0, record p { remote = x.1 }))
              (once
                ∙ ap
                    (λ (r : Result Message).
                      with_message (λ x c. send_to_clients w x cids c) r p.remote)
                    (unmarshal_message-marshal_message m props short)))
          (λ e. false_true e ready)
