-- ===== src/Packet/Body.antt =====
-- `WriteTo` and `ReadFrom` of every packet: its body, behind the header.
use cable.Coder.Encoder
use cable.Coder.Encoder.{Encoder}
use cable.Coder.Decoder
use cable.Coder.Decoder.{Read, and_then, return}
use cable.Packet.Types.{
  Props, Identity, Connect, Connack, Message, Request, Response, Close, Packet,
}

-- `packet.WriteTo`, which each packet calls for its properties.
unfoldable pub write_props : Props → Encoder → Encoder
write_props props e = Encoder.write_uint8_map props e

unfoldable pub read_props : Read Props
read_props = Decoder.read_uint8_map

unfoldable pub write_identity : Identity → Encoder → Encoder
write_identity i e =
    Encoder.write_string i.password
      (Encoder.write_string i.client_id (Encoder.write_string i.user_id e))

unfoldable pub read_identity : Read Identity
read_identity = and_then Decoder.read_string λ user_id. and_then Decoder.read_string λ client_id.
    and_then Decoder.read_string
      λ password. return (record { user_id = user_id; client_id = client_id; password = password })

unfoldable pub write_connect : Connect → Encoder → Encoder
write_connect p e =
    write_props p.props (write_identity p.identity (Encoder.write_uint8 p.version e))

unfoldable pub read_connect : Read Connect
read_connect = and_then Decoder.read_uint8 λ version. and_then read_identity λ identity.
    and_then read_props
      λ props. return (record { props = props; version = version; identity = identity })

unfoldable pub write_connack : Connack → Encoder → Encoder
write_connack p e = write_props p.props (Encoder.write_uint8 p.code e)

unfoldable pub read_connack : Read Connack
read_connack =
    and_then Decoder.read_uint8
      λ code. and_then read_props λ props. return (record { props = props; code = code })

unfoldable pub write_message : Message → Encoder → Encoder
write_message p e =
    Encoder.write_bytes p.payload (write_props p.props (Encoder.write_uint8 p.kind e))

unfoldable pub read_message : Read Message
read_message = and_then Decoder.read_uint8 λ kind. and_then read_props λ props.
    and_then Decoder.read_all
      λ payload. return (record { props = props; kind = kind; payload = payload })

unfoldable pub write_request : Request → Encoder → Encoder
write_request p e =
    Encoder.write_bytes p.body
      (write_props p.props (Encoder.write_string p.method (Encoder.write_uint16 p.id e)))

unfoldable pub read_request : Read Request
read_request = and_then Decoder.read_uint16 λ id. and_then Decoder.read_string λ method.
    and_then read_props λ props.
      and_then Decoder.read_all
        λ body. return (record { props = props; id = id; method = method; body = body })

unfoldable pub write_response : Response → Encoder → Encoder
write_response p e =
    Encoder.write_bytes p.body
      (write_props p.props (Encoder.write_uint8 p.code (Encoder.write_uint16 p.id e)))

unfoldable pub read_response : Read Response
read_response = and_then Decoder.read_uint16 λ id. and_then Decoder.read_uint8 λ code.
    and_then read_props λ props.
      and_then Decoder.read_all
        λ body. return (record { props = props; id = id; code = code; body = body })

unfoldable pub write_close : Close → Encoder → Encoder
write_close p e = write_props p.props (Encoder.write_uint8 p.code e)

unfoldable pub read_close : Read Close
read_close =
    and_then Decoder.read_uint8
      λ code. and_then read_props λ props. return (record { props = props; code = code })

-- `p.WriteTo` by the dynamic type of `p`; `ping` and `pong` have that of `packet`.
unfoldable pub write_to : Packet → Encoder → Encoder
write_to (Packet.connect p) = write_connect p
write_to (Packet.connack p) = write_connack p
write_to (Packet.message p) = write_message p
write_to (Packet.request p) = write_request p
write_to (Packet.response p) = write_response p
write_to (Packet.ping p) = write_props p.props
write_to (Packet.pong p) = write_props p.props
write_to (Packet.close p) = write_close p
