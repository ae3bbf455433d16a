-- ===== src/Broker/Peers.antt =====
-- `peerClient` of cluster/peer_client.go, `peerServer` of cluster/peer_server.go, and the codec of
-- coder/codable.go between them. gRPC is a parameter.
use cable.Prelude.{ℕ, Bool, List, none, some, if◌then◌else◌, ◌≡◌}
use cable.Errors.{Error, XError, Result, ok, err, panic}
use cable.GoMap.{Bytes}
use cable.Coder.Encoder
use cable.Coder.Decoder
use cable.Packet.Types.{Message}
use cable.Packet.Body.{write_message, read_message}
use cable.Network.Conn.{Waits}
use cable.Server.Table.{Handlers}
use cable.Broker.Listeners
use cable.Broker.Listeners.{Listeners}

-- A call runs the handler of the peer once, several times, as its retries may, or never, and the peer may
-- change in between. What it returns as a response is a response of the handler.
pub record Grpc (S : Type 0) : Type 1 where
  pub invoke :
      {A : Type 0}
      → ℕ
      → (Listeners S → Result A × Listeners S)
      → Listeners S
      → Result A × Listeners S
  pub invoke-response :
      {A : Type 0} (id : ℕ) (f : Listeners S → Result A × Listeners S) (b : Listeners S) (a : A)
      → (invoke id f b).0 ≡ ok a
      → (c : Listeners S) × ((f c).0 ≡ ok a)

-- A client for a peer, with the listeners of the broker that it calls.
pub record Peer (S : Type 0) : Type 0 where
  pub ready : Bool
  pub remote : Listeners S

-- `coder.Marshal` and `coder.Unmarshal` of a message.
unfoldable pub marshal_message : Message → Bytes
marshal_message m = Encoder.pick (write_message m Encoder.new_encoder)

unfoldable pub unmarshal_message : Bytes → Result Message
unmarshal_message bytes = elim (read_message (Decoder.new_decoder bytes)) [
  | ok (m, _) ↦ ok m
  | err e ↦ err e
  | panic ↦ panic
]

module _ {S : Type 0} where
  -- How a handler answers a message that it may fail to read.
  unfoldable pub with_message :
      {A : Type 0}
      → (Message → Listeners S → A × Listeners S)
      → Result Message
      → Listeners S
      → Result A × Listeners S
  with_message f (ok m) b = let (a, b') = f m b in (ok a, b')
  with_message f (err _) b = (err (Error.xerr XError.invalid_peer_message), b)
  with_message f panic b = (panic, b)

  unfoldable pub handle_to_all : Waits Bytes → Bytes → Listeners S → Result (ℕ × ℕ) × Listeners S
  handle_to_all w data_bytes b =
      with_message (Listeners.send_to_all w) (unmarshal_message data_bytes) b

  -- `SendToUser` and `SendToChannel`, which are the same.
  unfoldable pub handle_to_user :
      Waits Bytes → Bytes → List (Bytes × Bytes) → Listeners S → Result (ℕ × ℕ) × Listeners S
  handle_to_user w data_bytes targets b =
      with_message (λ m c. Listeners.send_to_clients w m targets c) (unmarshal_message data_bytes) b

  unfoldable pub handle_is_online : List (Bytes × Bytes) → Listeners S → Result Bool × Listeners S
  handle_is_online targets b = (ok (Listeners.is_active targets b), b)

  unfoldable pub handle_kick_conn :
      (Bytes → Handlers S)
      → Waits Bytes
      → List (Bytes × Bytes)
      → Listeners S
      → Result (Unit {0}) × Listeners S
  handle_kick_conn h w targets b = (ok tt, Listeners.kick_conn h w targets b)

  unfoldable pub handle_start : Bytes → Listeners S → Result (Unit {0}) × Listeners S
  handle_start net b =
      let (e, b') = Listeners.start_listener net b in (elim e [ none ↦ ok tt | some x ↦ err x ], b')

module _ {S : Type 0} (g : Grpc S) where
  -- The calls of the client: `ErrPeerNotReady`, or gRPC's result.
  unfoldable pub call :
      {A : Type 0} → ℕ → (Listeners S → Result A × Listeners S) → Peer S → Result A × Peer S
  call id f p =
      if p.ready
      then (let (r, b) = g.invoke id f p.remote in (r, record p { remote = b }))
      else (err (Error.xerr XError.peer_not_ready), p)

  unfoldable pub send_to_all : Waits Bytes → ℕ → Message → Peer S → Result (ℕ × ℕ) × Peer S
  send_to_all w id m p = call id (handle_to_all w (marshal_message m)) p

  unfoldable pub send_to_user :
      Waits Bytes → ℕ → Message → List (Bytes × Bytes) → Peer S → Result (ℕ × ℕ) × Peer S
  send_to_user w id m cids p = call id (handle_to_user w (marshal_message m) cids) p

  unfoldable pub is_online : ℕ → List (Bytes × Bytes) → Peer S → Result Bool × Peer S
  is_online id targets p = call id (handle_is_online targets) p

  unfoldable pub kick_conn :
      (Bytes → Handlers S)
      → Waits Bytes
      → ℕ
      → List (Bytes × Bytes)
      → Peer S
      → Result (Unit {0}) × Peer S
  kick_conn h w id targets p = call id (handle_kick_conn h w targets) p

  unfoldable pub start_listener : ℕ → Bytes → Peer S → Result (Unit {0}) × Peer S
  start_listener id net p = call id (handle_start net) p
