-- ===== src/Packet/Types.antt =====
-- The packet types of packet/packet.go, connect.go, message.go, request.go, response.go and close.go.
-- A Go struct that embeds `packet` has its properties in the field `props`.
use native.Mathlib.Decide.{ℕ_discrete}
use cable.Prelude.{ℕ, List, [], Option}
use cable.Errors.{Error, coder, packet, close_code}
use cable.GoMap.{Bytes, lookup, insert}

-- `map[uint8]string`
abbrev pub Props : Type 0
Props = List (ℕ × Bytes)

pub data PacketType : Type 0 where
  connect connack message request response ping pong close : PacketType

-- The constants of `PacketType`.
unfoldable pub type_code : PacketType → ℕ
type_code PacketType.connect = 0
type_code PacketType.connack = 1
type_code PacketType.message = 2
type_code PacketType.request = 3
type_code PacketType.response = 4
type_code PacketType.ping = 5
type_code PacketType.pong = 6
type_code PacketType.close = 7

pub record Identity : Type 0 where
  pub user_id : Bytes
  pub client_id : Bytes
  pub password : Bytes

pub record Connect : Type 0 where
  pub props : Props
  pub version : ℕ
  pub identity : Identity

pub record Connack : Type 0 where
  pub props : Props
  pub code : ℕ

pub record Message : Type 0 where
  pub props : Props
  pub kind : ℕ
  pub payload : Bytes

pub record Request : Type 0 where
  pub props : Props
  pub id : ℕ
  pub method : Bytes
  pub body : Bytes

pub record Response : Type 0 where
  pub props : Props
  pub id : ℕ
  pub code : ℕ
  pub body : Bytes

pub record Ping : Type 0 where
  pub props : Props

pub record Pong : Type 0 where
  pub props : Props

pub record Close : Type 0 where
  pub props : Props
  pub code : ℕ

-- The interface value `Packet`: one of the structs.
pub data Packet : Type 0 where
  connect : Connect → Packet
  connack : Connack → Packet
  message : Message → Packet
  request : Request → Packet
  response : Response → Packet
  ping : Ping → Packet
  pong : Pong → Packet
  close : Close → Packet

-- The methods `Type`.
unfoldable pub packet_type : Packet → PacketType
packet_type (Packet.connect _) = PacketType.connect
packet_type (Packet.connack _) = PacketType.connack
packet_type (Packet.message _) = PacketType.message
packet_type (Packet.request _) = PacketType.request
packet_type (Packet.response _) = PacketType.response
packet_type (Packet.ping _) = PacketType.ping
packet_type (Packet.pong _) = PacketType.pong
packet_type (Packet.close _) = PacketType.close

-- `packet.Get` and `packet.Set`
unfoldable pub get_prop : ℕ → Props → Option Bytes
get_prop key props = lookup ℕ_discrete key props

unfoldable pub set_prop : ℕ → Bytes → Props → Props
set_prop key value props = insert ℕ_discrete key value props

-- The status codes that the code names.
abbrev pub status_ok : ℕ
status_ok = 200

abbrev pub status_not_found : ℕ
status_not_found = 100

abbrev pub status_internal_error : ℕ
status_internal_error = 102

abbrev pub status_bad_request : ℕ
status_bad_request = 255

-- The connect codes.
abbrev pub connect_accepted : ℕ
connect_accepted = 0

abbrev pub connect_authfail : ℕ
connect_authfail = 1

-- The close codes, in the order of the `iota` block.
abbrev pub close_normal : ℕ
close_normal = 0

abbrev pub close_kicked_out : ℕ
close_kicked_out = 1

abbrev pub close_auth_timeout : ℕ
close_auth_timeout = 5

abbrev pub close_invalid_packet : ℕ
close_invalid_packet = 6

abbrev pub close_internal_error : ℕ
close_internal_error = 7

abbrev pub close_duplicate_login : ℕ
close_duplicate_login = 8

abbrev pub close_server_expeled : ℕ
close_server_expeled = 10

-- `AsCloseCode`
unfoldable pub as_close_code : Error → ℕ
as_close_code (close_code c) = c
as_close_code (packet _) = close_invalid_packet
as_close_code (coder _) = close_invalid_packet
as_close_code _ = close_internal_error

-- `NewConnect`, `NewConnack`, `NewMessage`, `NewRequest`, `NewPing`, `NewPong`, `NewClose`: a fresh
-- packet has no properties; the optional body is `[]` where the call leaves it out.
unfoldable pub new_connect : Identity → Connect
new_connect identity = record { props = []; version = 1; identity = identity }

unfoldable pub new_connack : ℕ → Connack
new_connack code = record { props = []; code = code }

unfoldable pub new_message : Bytes → Message
new_message payload = record { props = []; kind = 0; payload = payload }

unfoldable pub new_request : Bytes → Bytes → Request
new_request method body = record { props = []; id = 0; method = method; body = body }

unfoldable pub new_ping : Ping
new_ping = record { props = [] }

unfoldable pub new_pong : Pong
new_pong = record { props = [] }

unfoldable pub new_close : ℕ → Close
new_close code = record { props = []; code = code }

-- `Request.Response`
unfoldable pub to_response : Request → ℕ → Bytes → Response
to_response p code content = record { props = []; id = p.id; code = code; body = content }
