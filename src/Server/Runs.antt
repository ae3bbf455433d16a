-- ===== src/Server/Runs.antt =====
-- What server/server.go keeps true, whatever its clients and its program do, in any order.
use cable.Prelude.{
  ℕ, ◌≡◌, refl, ◌∙◌, Bool, true, Option, none, some, option_elim, if_elim, List, [], ◌∷◌,
}
use cable.Errors.{Error}
use cable.GoMap
use cable.GoMap.{Bytes, Bytes-discrete}
use cable.Safe.RMap
use cable.Safe.RMap.{RMap}
use cable.Safe.Counting.{IsCounted}
use cable.Packet.Types.{Connect, Packet, Message, Request, close_server_expeled, close_kicked_out}
use cable.Queue.Steps.{Queue, Work, next, work}
use cable.Queue.Drain.{Work-closed}
use cable.Network.Conn
use cable.Network.Conn.{Conn, Waits, is_idle}
use cable.Network.Requests.{end_request, begin_ping, end_ping}
use cable.Network.Overlaps.{begin_request-Same, end_request-Same, begin_ping-Same, end_ping-Same}
use cable.Network.Fair.{Same, send_packet-Same, recv_response-Same, recv_pong-Same}
use cable.Server.Table.{
  Handlers, Server, new_server, conn_at, put_conn, get_conn, update, close, close_code,
}
use cable.Server.Handlers.{on_message, on_request, recv_open, recv_packet, do_connection}
use cable.Server.Calls.{
  request_to, send_request, kick_conn, expel_all_conns, send_to, send_message, brodcast_one,
  brodcast,
}
use cable.Server.Shutdown.{visit, shutdown_one, round}
use cable.Server.Sound.{IsSound, put-IsSound, update-IsSound}
use cable.Server.Closing.{close-IsSound}
use cable.Server.Codes.{close_code-IsSound, send_pong-Same}
use cable.Server.Logins.{with_app-IsSound, do_connection-IsSound}

no_entry : {A B : Type 0} {a : A} → none ≡ some a → B
no_entry e = cc

-- What every turn of a loop keeps, the loop keeps.
pub range-keeps :
    {K V S : Type 0} (P : S → Type 0) (f : K → V → S → Bool × S)
    → ((k : K) (v : V) (s : S) → P s → P (f k v s).1)
    → (m : List (K × V)) (s : S) → P s
    → P (RMap.range_entries f m s)
unfolding RMap.range_entries
range-keeps P f g [] s p = p
range-keeps P f g ((k, v) ∷ m) s p =
    if_elim P (f k v s).0 _ _ (λ _. range-keeps P f g m (f k v s).1 (g k v s p)) (λ _. g k v s p)

module _ {S : Type 0} (h : Handlers S) (w : Waits Bytes) (n : ℕ) where
  new_server-IsSound : (a : S) → IsSound n (new_server a)
  unfolding new_server get_conn RMap.empty RMap.get GoMap.lookup IsCounted
  new_server-IsSound a = record {
    counted = (tt, refl);
    listed = λ cid i e. no_entry e;
    alive = λ i c e. no_entry e;
  }

  recv_open-IsSound :
      (i : ℕ) (c : Conn) (p : Packet) (s : Server S)
      → IsSound n s
      → IsSound n (recv_open h w i c p s)
  unfolding recv_open on_message on_request
  recv_open-IsSound i c (Packet.message p) s k = with_app-IsSound n _ s k
  recv_open-IsSound i c (Packet.request p) s k =
      update-IsSound n i _ _ (send_packet-Same n w _) (with_app-IsSound n _ s k)
  recv_open-IsSound i c (Packet.response p) s k = update-IsSound n i _ s (recv_response-Same n p) k
  recv_open-IsSound i c (Packet.ping _) s k = update-IsSound n i _ s (send_pong-Same n w) k
  recv_open-IsSound i c (Packet.pong _) s k = update-IsSound n i _ s (recv_pong-Same n) k
  recv_open-IsSound i c (Packet.close _) s k = close-IsSound h n i s k
  recv_open-IsSound i c (Packet.connect _) s k = k
  recv_open-IsSound i c (Packet.connack _) s k = k

  recv_packet-IsSound :
      (i : ℕ) (p : Packet) (s : Server S) → IsSound n s → IsSound n (recv_packet h w i p s)
  unfolding recv_packet
  recv_packet-IsSound i p s k =
      option_elim (IsSound n) (conn_at i s) _ _ (λ _. k)
        (λ c _. if_elim (IsSound n) c.closed _ _ (λ _. k) (λ _. recv_open-IsSound i c p s k))

  pub kick_conn-IsSound :
      (cid : Bytes) (s : Server S) → IsSound n s → IsSound n (kick_conn h w cid s).1
  unfolding kick_conn
  kick_conn-IsSound cid s k =
      option_elim (λ (r : Bool × Server S). IsSound n r.1) (get_conn cid s) _ _ (λ _. k)
        (λ i _. close_code-IsSound h w n i close_kicked_out s k)

  emptied-IsSound : (s : Server S) → IsSound n s → IsSound n (record s { conns = RMap.empty })
  unfolding get_conn RMap.empty RMap.get GoMap.lookup IsCounted
  emptied-IsSound s k = record {
    counted = (tt, refl);
    listed = λ cid i e. no_entry e;
    alive = k.alive;
  }

  expel_all_conns-IsSound : (s : Server S) → IsSound n s → IsSound n (expel_all_conns h w s)
  unfolding expel_all_conns RMap.range
  expel_all_conns-IsSound s k = emptied-IsSound _ (
      range-keeps (IsSound n) _ (λ cid i t. close_code-IsSound h w n i close_server_expeled t)
        s.conns.entries s k)

  send_to-IsSound :
      (i : ℕ) (p : Message) (s : Server S) → IsSound n s → IsSound n (send_to w i p s).1
  unfolding send_to Conn.send_message
  send_to-IsSound i p s k =
      option_elim (λ (r : Option Error × Server S). IsSound n r.1) (conn_at i s) _ _ (λ _. k)
        (λ c at. put-IsSound n i c _ s k at (send_packet-Same n w (Packet.message p) c))

  send_message-IsSound :
      (cid : Bytes) (p : Message) (s : Server S)
      → IsSound n s
      → IsSound n (send_message w cid p s).1
  unfolding send_message
  send_message-IsSound cid p s k =
      if_elim (λ (r : Option Error × Server S). IsSound n r.1) s.closed _ _ (λ _. k)
        (λ _.
          option_elim (λ (r : Option Error × Server S). IsSound n r.1) (get_conn cid s) _ _ (λ _. k)
            (λ i _. send_to-IsSound i p s k))

  brodcast-IsSound : (p : Message) (s : Server S) → IsSound n s → IsSound n (brodcast w p s).1
  unfolding brodcast brodcast_one RMap.range
  brodcast-IsSound p s k =
      if_elim (λ (r : (ℕ × ℕ × Option Error) × Server S). IsSound n r.1) s.closed _ _ (λ _. k)
        (λ _.
          range-keeps (λ (r : ℕ × ℕ × Server S). IsSound n r.2) (brodcast_one w p)
            (λ cid i r. send_to-IsSound i p r.2) s.conns.entries (0, 0, s) k)

  send_request-IsSound :
      (cid : Bytes) (p : Request) (s : Server S)
      → IsSound n s
      → IsSound n (send_request w cid p s).1
  unfolding send_request request_to
  send_request-IsSound cid p s k =
      let P = λ (r : (Option Error × ℕ × ℕ) × Server S). IsSound n r.1 in
      if_elim P s.closed _ _ (λ _. k)
        (λ _.
          option_elim P (get_conn cid s) _ _ (λ _. k)
            (λ i _.
              option_elim P (conn_at i s) _ _ (λ _. k)
                (λ c at. put-IsSound n i c _ s k at (begin_request-Same n w p c))))

  turn-Same : (c : Conn) (q : Queue Bytes) → Work c.queue q → Same n c (record c { queue = q })
  turn-Same c q t = record {
    same_id = refl;
    same_closed = refl;
    live = λ l. record {
      reached = next l.reached (work t);
      in_step = Work-closed c.queue q t ∙ l.in_step;
    };
  }

  shut-IsSound : (s : Server S) → IsSound n s → IsSound n (record s { closed = true })
  unfolding get_conn
  shut-IsSound s k = record { counted = k.counted; listed = k.listed; alive = k.alive }

  visit-IsSound :
      (i : ℕ) (cid : Bytes) (r : ℕ × Server S)
      → IsSound n r.1
      → IsSound n (shutdown_one h cid i r).1.1
  unfolding shutdown_one visit
  visit-IsSound i cid r k =
      option_elim (λ (x : Bool × (ℕ × Server S)). IsSound n x.1.1) (conn_at i r.1) _ _ (λ _. k)
        (λ c _.
          if_elim (λ (x : ℕ × Server S). IsSound n x.1) (is_idle c) _ _
            (λ _. close-IsSound h n i r.1 k) (λ _. k))

  rounds-IsSound : (s : Server S) → IsSound n s → IsSound n (round h s).1
  unfolding round RMap.range
  rounds-IsSound s k =
      range-keeps (λ (r : ℕ × Server S). IsSound n r.1) (shutdown_one h)
        (λ cid i r. visit-IsSound i cid r) s.conns.entries (0, s) k

  -- The states of a server: its operations, the packets, pings and failures of its connections, the
  -- program's requests to clients, `Shutdown` and the workers of the sending queues, in any order.
  pub data Serves : Server S → Type 0 where
    begin : (a : S) → Serves (new_server a)
    connected :
        {s : Server S} (p : Connect) (ip : Bytes) → Serves s → Serves (do_connection h w n p ip s).1
    received : {s : Server S} (i : ℕ) (p : Packet) → Serves s → Serves (recv_packet h w i p s)
    -- a frame that could not be read, or a ping that was not answered
    failed : {s : Server S} (i code : ℕ) → Serves s → Serves (close_code h w i code s)
    kicked : {s : Server S} (cid : Bytes) → Serves s → Serves (kick_conn h w cid s).1
    expelled : {s : Server S} → Serves s → Serves (expel_all_conns h w s)
    sent : {s : Server S} (cid : Bytes) (p : Message) → Serves s → Serves (send_message w cid p s).1
    brodcasted : {s : Server S} (p : Message) → Serves s → Serves (brodcast w p s).1
    requested :
        {s : Server S} (cid : Bytes) (p : Request) → Serves s → Serves (send_request w cid p s).1
    -- `SendPing` of a connection, up to its send, and its deferred part
    pinged : {s : Server S} (i : ℕ) → Serves s → Serves (update i (λ c. (begin_ping w c).1) s)
    ping_ended : {s : Server S} (i : ℕ) → Serves s → Serves (update i end_ping s)
    -- `Close` of a connection
    ended : {s : Server S} (i : ℕ) → Serves s → Serves (close h i s)
    -- the start of `Shutdown`, and a round of its loop
    shut_down : {s : Server S} → Serves s → Serves (record s { closed = true })
    rounded : {s : Server S} → s.closed ≡ true → Serves s → Serves (round h s).1
    answered : {s : Server S} (i id : ℕ) → Serves s → Serves (update i (end_request id) s)
    worked :
        {s : Server S} (i : ℕ) (c : Conn) (q : Queue Bytes)
        → conn_at i s ≡ some c
        → Work c.queue q
        → Serves s
        → Serves (put_conn i (record c { queue = q }) s)

  -- Whatever the clients and the program do, in any order, before and during `Shutdown`: no client is listed twice and `ConnCount` is
  -- right; every client that is listed has an open connection, with its client id; and every connection
  -- has a sending queue that its worker and its senders can reach, which is open as long as it is.
  pub Serves-IsSound : (s : Server S) → Serves s → IsSound n s
  Serves-IsSound _ (begin a) = new_server-IsSound a
  Serves-IsSound _ (connected {s} p ip k) = do_connection-IsSound h w n p ip s (Serves-IsSound s k)
  Serves-IsSound _ (received {s} i p k) = recv_packet-IsSound i p s (Serves-IsSound s k)
  Serves-IsSound _ (failed {s} i code k) = close_code-IsSound h w n i code s (Serves-IsSound s k)
  Serves-IsSound _ (kicked {s} cid k) = kick_conn-IsSound cid s (Serves-IsSound s k)
  Serves-IsSound _ (expelled {s} k) = expel_all_conns-IsSound s (Serves-IsSound s k)
  Serves-IsSound _ (sent {s} cid p k) = send_message-IsSound cid p s (Serves-IsSound s k)
  Serves-IsSound _ (brodcasted {s} p k) = brodcast-IsSound p s (Serves-IsSound s k)
  Serves-IsSound _ (requested {s} cid p k) = send_request-IsSound cid p s (Serves-IsSound s k)
  Serves-IsSound _ (pinged {s} i k) =
      update-IsSound n i _ s (begin_ping-Same n w) (Serves-IsSound s k)
  Serves-IsSound _ (ping_ended {s} i k) =
      update-IsSound n i _ s (end_ping-Same n) (Serves-IsSound s k)
  Serves-IsSound _ (ended {s} i k) = close-IsSound h n i s (Serves-IsSound s k)
  Serves-IsSound _ (shut_down {s} k) = shut-IsSound s (Serves-IsSound s k)
  Serves-IsSound _ (rounded {s} e k) = rounds-IsSound s (Serves-IsSound s k)
  Serves-IsSound _ (answered {s} i id k) =
      update-IsSound n i _ s (end_request-Same n id) (Serves-IsSound s k)
  Serves-IsSound _ (worked {s} i c q at t k) =
      put-IsSound n i c _ s (Serves-IsSound s k) at (turn-Same c q t)
