-- ===== src/Server/Handlers.antt =====
-- The operations of server/server.go, `RecvPacket` of internal/network/conn.go and `doConnecton` of
-- internal/network/transport_tcp.go once the connect packet is read. The statistics and the log are
-- left out.
use cable.Prelude.{ℕ, ◌==◌, Option, none, some, ◌⊎◌, inl, inr, if◌then◌else◌, [], ◌∷◌, ◌++◌, length}
use cable.Errors.{Error}
use cable.GoMap.{Bytes, Bytes-discrete}
use cable.Safe.RMap
use cable.Safe.RMap.{RMap}
use cable.Packet.Types.{
  Identity, Connect, Message, Request, Response, Packet, connect_accepted, close_duplicate_login,
  status_ok, status_internal_error, to_response,
}
use cable.Network.Conn.{Conn, Waits, new_conn, connack_code, send_packet, send_pong}
use cable.Network.Requests.{recv_response, recv_pong}
use cable.Server.Table.{Handlers, Server, conn_at, update, close, close_code}

-- The status code of a handler's error.
unfoldable pub status_of : Error → ℕ
status_of (Error.status_code c) = c
status_of _ = status_internal_error

unfoldable pub answer : Request → Error ⊎ Bytes → Response
answer p (inl e) = to_response p (status_of e) []
answer p (inr body) = to_response p status_ok body

module _ {S : Type 0} (h : Handlers S) (w : Waits Bytes) where
  unfoldable pub evict : Option ℕ → Server S → Server S
  evict none s = s
  evict (some old) s = close_code h w old close_duplicate_login s

  unfoldable pub reject : ℕ → ℕ → Server S → Server S
  reject i code s = close h i (update i (connack_code w code) s)

  unfoldable pub accept : ℕ → Bytes → Server S → Server S
  accept i cid s =
      let (old, m) = RMap.swap Bytes-discrete cid i s.conns in
      update i (connack_code w connect_accepted) (evict old (record s { conns = m }))

  unfoldable pub on_connect : ℕ → Connect → Server S → ℕ × Server S
  on_connect i p s =
      let (code, a) = h.connect_handler p s.app in
      let s' = record s { app = a } in
      if code == connect_accepted
      then (code, accept i p.identity.client_id s')
      else (code, reject i code s')

  -- `doConnecton` with a connect packet, from an address, with the capacity of the server's queues.
  unfoldable pub do_connection : ℕ → Connect → Bytes → Server S → ℕ × Server S
  do_connection n p ip s =
      on_connect (length s.heap) p (record s { heap = s.heap ++ new_conn n p.identity ip ∷ [] })

  unfoldable pub on_message : Identity → Message → Server S → Server S
  on_message id p s = record s { app = (h.message_handler p id s.app).1 }

  unfoldable pub on_request : ℕ → Identity → Request → Server S → Server S
  on_request i id p s =
      let (r, a) = h.request_handler p id s.app in
      update i (λ (c : Conn). (send_packet w (Packet.response (answer p r)) c).1)
        (record s { app = a })

  unfoldable pub recv_open : ℕ → Conn → Packet → Server S → Server S
  recv_open i c (Packet.message p) s = on_message c.id p s
  recv_open i c (Packet.request p) s = on_request i c.id p s
  recv_open i c (Packet.response p) s = update i (recv_response p) s
  recv_open i c (Packet.ping _) s = update i (send_pong w) s
  recv_open i c (Packet.pong _) s = update i recv_pong s
  recv_open i c (Packet.close _) s = close h i s
  recv_open i c (Packet.connect _) s = s
  recv_open i c (Packet.connack _) s = s

  unfoldable pub recv_packet : ℕ → Packet → Server S → Server S
  recv_packet i p s = elim (conn_at i s) [
    | none ↦ s
    | some c ↦ if c.closed then s else recv_open i c p s
  ]
