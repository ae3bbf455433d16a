-- ===== src/Server/Transports.antt =====
-- The loops of internal/network/transport_tcp.go and of transport_udp.go that hand packets to the server, and
-- `waitConnPacket` of internal/network/conn.go. A stream and a way to read it are parameters, as in
-- Packet/Stream; the packets of one connection are handled in their order, one after the other. What goes to
-- a connection that has not been accepted, and the time in which it must send its first packet, are left out.
use cable.Prelude.{
  ℕ, zero, suc, Option, none, some, length, if◌then◌else◌, ◌==◌, ◌⊎◌, inl, inr, option_elim,
  if_elim,
}
use cable.Errors.{Result, ok, err, panic, Result-cases}
use cable.GoMap.{Bytes}
use cable.Packet.Types.{
  Connect, Packet, Props, get_prop, as_close_code, close_invalid_packet, connect_accepted,
}
use cable.Packet.Stream.{Reader, read_from}
use cable.Network.Conn.{Waits}
use cable.Server.Table.{Handlers, Server, get_conn, close_code}
use cable.Server.Handlers.{do_connection, recv_packet}
use cable.Server.Runs.{Serves, connected, received, failed}

-- What has become of a connection's goroutine: it still reads, it has returned, or it has panicked.
pub data Served (S : Type 0) : Type 0 where
  reading : Served S
  returned : Server S → Served S
  crashed : Served S

-- `waitConnPacket`: the connect packet and the rest of the stream, or the close code that is written back.
unfoldable pub first_packet : {R : Type 0} → Packet → R → (Connect × R) ⊎ ℕ
first_packet (Packet.connect p) r = inl (p, r)
first_packet _ r = inr close_invalid_packet

unfoldable pub wait_conn_packet : {R : Type 0} → Reader R → R → Result ((Connect × R) ⊎ ℕ)
wait_conn_packet reader r = elim (read_from reader r) [
  | ok (p, r') ↦ ok (first_packet p r')
  | err e ↦ ok (inr (as_close_code e))
  | panic ↦ panic
]

-- `p.Get`
unfoldable pub props_of : Packet → Props
props_of (Packet.connect p) = p.props
props_of (Packet.connack p) = p.props
props_of (Packet.message p) = p.props
props_of (Packet.request p) = p.props
props_of (Packet.response p) = p.props
props_of (Packet.ping p) = p.props
props_of (Packet.pong p) = p.props
props_of (Packet.close p) = p.props

-- `PropertyClientID`
abbrev pub property_client_id : ℕ
property_client_id = 3

module _ {S R : Type 0} (h : Handlers S) (w : Waits Bytes) (reader : Reader R) where
  -- The loop of `handleConn`, on fuel.
  unfoldable pub read_packets : ℕ → ℕ → R → Server S → Served S
  read_packets zero i r s = reading
  read_packets (suc fuel) i r s = elim (read_from reader r) [
    | ok (p, r') ↦ read_packets fuel i r' (recv_packet h w i p s)
    | err e ↦ returned (close_code h w i (as_close_code e) s)
    | panic ↦ crashed
  ]

  unfoldable pub begin_conn : ℕ → ℕ → Bytes → Result ((Connect × R) ⊎ ℕ) → Server S → Served S
  begin_conn fuel n ip (ok (inl (p, r))) s =
      let (code, s') = do_connection h w n p ip s in
      if code == connect_accepted then read_packets fuel (length s.heap) r s' else returned s'
  begin_conn fuel n ip (ok (inr _)) s = returned s
  begin_conn fuel n ip (err _) s = returned s
  begin_conn fuel n ip panic s = crashed

  -- `handleConn` of TCP, with the capacity of the queues and the address.
  unfoldable pub handle_conn : ℕ → ℕ → Bytes → R → Server S → Served S
  handle_conn fuel n ip r s = begin_conn fuel n ip (wait_conn_packet reader r) s

module _ {S : Type 0} (h : Handlers S) (w : Waits Bytes) (n : ℕ) where
  -- `handleConn` of UDP: a packet names its connection by a property.
  unfoldable pub handle_named : Option Bytes → Packet → Server S → Server S
  handle_named none p s = s
  handle_named (some cid) p s = elim (get_conn cid s) [ none ↦ s | some i ↦ recv_packet h w i p s ]

  unfoldable pub handle_datagram : Bytes → Packet → Server S → Server S
  handle_datagram ip (Packet.connect p) s = (do_connection h w n p ip s).1
  handle_datagram ip p s = handle_named (get_prop property_client_id (props_of p)) p s

module _ {S : Type 0} (h : Handlers S) (w : Waits Bytes) (n : ℕ) where
  -- Where the goroutine of a connection returns, the server is in a state that it can come to.
  unfoldable pub IsServed : Served S → Type 0
  IsServed reading = Unit
  IsServed (returned s) = Serves h w n s
  IsServed crashed = Unit

  handle_named-Serves :
      (o : Option Bytes) (p : Packet) (s : Server S)
      → Serves h w n s
      → Serves h w n (handle_named h w n o p s)
  unfolding handle_named
  handle_named-Serves none p s k = k
  handle_named-Serves (some cid) p s k =
      option_elim (Serves h w n) (get_conn cid s) _ _ (λ _. k) (λ i _. received i p k)

  -- A datagram, whatever packet it holds, takes a server to a state that it can come to.
  pub handle_datagram-Serves :
      (ip : Bytes) (p : Packet) (s : Server S)
      → Serves h w n s
      → Serves h w n (handle_datagram h w n ip p s)
  unfolding handle_datagram
  handle_datagram-Serves ip (Packet.connect p) s k = connected p ip k
  handle_datagram-Serves ip (Packet.connack p) s k = handle_named-Serves _ (Packet.connack p) s k
  handle_datagram-Serves ip (Packet.message p) s k = handle_named-Serves _ (Packet.message p) s k
  handle_datagram-Serves ip (Packet.request p) s k = handle_named-Serves _ (Packet.request p) s k
  handle_datagram-Serves ip (Packet.response p) s k = handle_named-Serves _ (Packet.response p) s k
  handle_datagram-Serves ip (Packet.ping p) s k = handle_named-Serves _ (Packet.ping p) s k
  handle_datagram-Serves ip (Packet.pong p) s k = handle_named-Serves _ (Packet.pong p) s k
  handle_datagram-Serves ip (Packet.close p) s k = handle_named-Serves _ (Packet.close p) s k

  module _ {R : Type 0} (reader : Reader R) where
    read_packets-IsServed :
        (fuel i : ℕ) (r : R) (s : Server S)
        → Serves h w n s
        → IsServed (read_packets h w reader fuel i r s)
    unfolding read_packets IsServed
    read_packets-IsServed zero i r s k = tt
    read_packets-IsServed (suc fuel) i r s k = elim (Result-cases (read_from reader r)) [
      | inl ((p, r'), e) ↦
          rw (read_packets, e)
            (read_packets-IsServed fuel i r' (recv_packet h w i p s) (received i p k))
      | inr x ↦ elim x [
        | inl (e, q) ↦ rw (read_packets, q) (failed i (as_close_code e) k)
        | inr q ↦ rw (read_packets, q) tt
      ]
    ]

    begin_conn-IsServed :
        (fuel : ℕ) (ip : Bytes) (x : Result ((Connect × R) ⊎ ℕ)) (s : Server S)
        → Serves h w n s
        → IsServed (begin_conn h w reader fuel n ip x s)
    unfolding begin_conn IsServed
    begin_conn-IsServed fuel ip (ok (inl (p, r))) s k =
        let (code, s') = do_connection h w n p ip s in
        if_elim IsServed (code == connect_accepted) _ _
          (λ _. read_packets-IsServed fuel (length s.heap) r s' (connected p ip k))
          (λ _. connected p ip k)
    begin_conn-IsServed fuel ip (ok (inr _)) s k = k
    begin_conn-IsServed fuel ip (err _) s k = k
    begin_conn-IsServed fuel ip panic s k = tt

    -- Whatever a client sends over TCP, and however its bytes arrive: where the goroutine of its connection
    -- returns, the server is in a state that its operations come to.
    pub handle_conn-IsServed :
        (fuel : ℕ) (ip : Bytes) (r : R) (s : Server S)
        → Serves h w n s
        → IsServed (handle_conn h w reader fuel n ip r s)
    unfolding handle_conn
    handle_conn-IsServed fuel ip r s k = begin_conn-IsServed fuel ip (wait_conn_packet reader r) s k
