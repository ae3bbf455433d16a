-- ===== src/Broker/PeerClient.antt =====
-- The connection of `peerClient` of cluster/peer_client.go, and the methods that no broker calls in
-- Broker.Peers. A gRPC connection is a number; whether gRPC accepts an address at an attempt, and the protobuf of a raft
-- message, are parameters. A retry that waits for its two seconds is a timer.
pub mod Runs
use cable.Prelude.{
  ℕ, ◌+◌, ◌-◌, ◌≡◌, ◌≢◌, refl, Bool, true, false, List, [], ◌∷◌, Option, none, some, if◌then◌else◌,
  ◌==◌, if_elim, ltb,
}
use cable.GoMap.{Bytes, Bytes-discrete}

pub record PeerClient : Type 0 where
  pub addr : Bytes
  pub ready : Bool
  pub conn : Option ℕ
  -- the connections that gRPC holds open, the attempts so far, and the retries that wait
  pub opened : List ℕ
  pub attempts : ℕ
  pub timers : ℕ

-- `newPeerClient`
unfoldable pub new_peer_client : Bytes → PeerClient
new_peer_client addr = record {
  addr = addr;
  ready = false;
  conn = none;
  opened = [];
  attempts = 0;
  timers = 0;
}

-- `conn.Close()`
unfoldable pub without : ℕ → List ℕ → List ℕ
without c [] = []
without c (d ∷ ds) = let rest = without c ds in if c == d then rest else d ∷ rest

unfoldable pub close_conn : Option ℕ → List ℕ → List ℕ
close_conn none open_conns = open_conns
close_conn (some c) open_conns = without c open_conns

unfoldable pub is_ready : PeerClient → Bool
is_ready p = p.ready

unfoldable pub same_addr : Bytes → Bytes → Bool
same_addr a b = elim (Bytes-discrete a b) [ yes _ ↦ true | no _ ↦ false ]

-- `Close`
unfoldable pub close : PeerClient → PeerClient
close p =
    if p.ready
    then record p { ready = false; conn = none; opened = close_conn p.conn p.opened }
    else p

module _ (dial : ℕ → Bytes → Bool) where
  -- `reconnnect`: whether gRPC takes the address, and the client with the new connection, whose number is
  -- that of the attempt.
  unfoldable pub reconnect : PeerClient → Bool × PeerClient
  reconnect p =
      if dial p.attempts p.addr
      then (
        true,
        record p {
          conn = some p.attempts;
          opened = p.attempts ∷ close_conn p.conn p.opened;
          attempts = p.attempts + 1;
        },
      )
      else (false, record p { attempts = p.attempts + 1 })

  -- `connect`
  unfoldable pub connected : Bool × PeerClient → PeerClient
  connected (true, p) = record p { ready = true }
  connected (false, p) = record p { timers = p.timers + 1 }

  unfoldable pub connect : PeerClient → PeerClient
  connect p = if p.ready then p else connected (reconnect p)

  -- The function of the timer.
  unfoldable pub on_timer : PeerClient → PeerClient
  on_timer p = if ltb 0 p.timers then connect (record p { timers = p.timers - 1 }) else p

  -- `updateAddr`
  unfoldable pub update_addr : Bytes → PeerClient → PeerClient
  update_addr addr p =
      if same_addr p.addr addr then p else connect (record p { addr = addr; ready = false })
