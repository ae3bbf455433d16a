-- ===== src/Booter/Api/Rpc.antt =====
-- The methods of cmd/cable/api_grpc.go. A result is what gRPC gets: a response, an error, or a panic. The
-- empty response is `tt`; gRPC answers with the error where there is one.
use cable.Prelude.{ℕ, ◌%◌, ◌^◌, Bool, [], Option, none, some}
use cable.Errors.{Error, Result, ok, err}
use cable.GoMap.{Bytes}
use cable.Packet.Types.{Message}
use cable.Broker.Routes.{Totals}
use cable.Booter.Api.{Channels, Backend}

-- `packet.MessageKind(req.Kind)` keeps the low eight bits.
unfoldable pub message : ℕ → Bytes → Message
message kind payload = record { props = []; kind = kind % 2 ^ 8; payload = payload }

unfoldable pub replied : Option Error → Result (Unit {0})
replied none = ok tt
replied (some e) = err e

module _ {W St : Type 0} (b : Backend W St) where
  unfoldable pub rpc_is_online : Bytes → W → Result Bool × W
  rpc_is_online uid w = let (on, w') = b.is_online uid w in (ok on, w')

  unfoldable pub rpc_kick_user : Bytes → W → Result (Unit {0}) × W
  rpc_kick_user uid w = (ok tt, b.kick_user uid w)

  -- The error of `KickBroker` is dropped.
  unfoldable pub rpc_kick_node : ℕ → W → Result (Unit {0}) × W
  rpc_kick_node id w = let (_, w') = b.kick_broker id w in (ok tt, w')

  unfoldable pub rpc_send_to_all : ℕ → Bytes → W → Result Totals × W
  rpc_send_to_all kind payload w = b.send_to_all (message kind payload) w

  unfoldable pub rpc_send_to_user : Bytes → ℕ → Bytes → W → Result Totals × W
  rpc_send_to_user uid kind payload w = b.send_to_user uid (message kind payload) w

  unfoldable pub rpc_send_to_channel : Bytes → ℕ → Bytes → W → Result Totals × W
  rpc_send_to_channel channel kind payload w = b.send_to_channel channel (message kind payload) w

  unfoldable pub rpc_join_channel : Bytes → Channels → W → Result (Unit {0}) × W
  rpc_join_channel uid channels w = let (e, w') = b.join_channel uid channels w in (replied e, w')

  unfoldable pub rpc_leave_channel : Bytes → Channels → W → Result (Unit {0}) × W
  rpc_leave_channel uid channels w = let (e, w') = b.leave_channel uid channels w in (replied e, w')

  unfoldable pub rpc_list_channels : Bytes → W → Result Channels × W
  rpc_list_channels uid w = b.list_channels uid w

  unfoldable pub rpc_start_listener : Bytes → W → Result (Unit {0}) × W
  rpc_start_listener net w = let (e, w') = b.start_listener net w in (replied e, w')

  unfoldable pub rpc_stop_listener : Bytes → W → Result (Unit {0}) × W
  rpc_stop_listener net w = let (e, w') = b.stop_listener net w in (replied e, w')
