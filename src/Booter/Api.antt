-- ===== src/Booter/Api.antt =====
-- The two interfaces of the program to its operators: what cmd/cable/api_http.go and cmd/cable/api_grpc.go call
-- of the booter, the broker and the cluster.
pub mod Http
pub mod Rpc
pub mod Refusals
pub mod Agree
pub mod Program
pub mod Kicked
use cable.Prelude.{ℕ, Bool, List, Option}
use cable.Errors.{Error, Result}
use cable.GoMap.{Bytes}
use cable.Packet.Types.{Message}
use cable.Broker.Routes.{Totals}

-- `map[string]string`, and the map of a node's users.
abbrev pub Channels : Type 0
Channels = List (Bytes × Bytes)

abbrev pub Users : Type 0
Users = List (Bytes × Channels)

-- Over a state of the program and a type of a node's status.
pub record Backend (W St : Type 0) : Type 0 where
  pub is_ready : W → Bool
  pub inspects : W → Result (List St) × W
  pub is_online : Bytes → W → Bool × W
  pub kick_user : Bytes → W → W
  pub kick_broker : ℕ → W → Option Error × W
  pub send_to_all : Message → W → Result Totals × W
  pub send_to_user : Bytes → Message → W → Result Totals × W
  pub send_to_channel : Bytes → Message → W → Result Totals × W
  pub join_channel : Bytes → Channels → W → Option Error × W
  pub leave_channel : Bytes → Channels → W → Option Error × W
  pub list_channels : Bytes → W → Result Channels × W
  pub list_users : ℕ → W → Result Users × W
  pub start_listener : Bytes → W → Option Error × W
  pub stop_listener : Bytes → W → Option Error × W
