-- ===== src/Broker/Options.antt =====
-- The options of server/options.go and cluster/options.go, `Listener` of cluster/listener.go before it starts,
-- and what `NewBroker` of cluster/broker.go, `newCluster` of cluster/cluster.go and `newPeerServer` of
-- cluster/peer_server.go take from them. Handlers, logs and statistics are left out.
use cable.Prelude.{
  ℕ, ◌≡◌, refl, Bool, false, List, [], ◌∷◌, ◌++◌, Option, none, some, if◌then◌else◌, ltb,
}
use cable.Prelude.Words.{ℤ, pos}
use cable.Errors.{Result, ok, panic}
use cable.GoMap
use cable.GoMap.{Bytes, Bytes-discrete}

-- Options are functions on the settings, applied in order.
unfoldable pub apply_all : {A : Type 0} → List (A → A) → A → A
apply_all [] a = a
apply_all (f ∷ fs) a = apply_all fs (f a)

-- `options` of server/options.go. The flags say whether there is a TLS and a QUIC configuration.
pub record ServerOptions : Type 0 where
  pub network : Bytes
  pub tls_config : Bool
  pub quic_config : Bool
  pub conn_timeout : ℤ
  pub queue_capacity : ℤ

-- "tcp"
abbrev pub network_tcp : Bytes
network_tcp = 116 ∷ 99 ∷ 112 ∷ []

unfoldable pub default_server : ServerOptions
default_server = record {
  network = network_tcp;
  tls_config = false;
  quic_config = false;
  conn_timeout = pos 10;
  queue_capacity = pos 1024;
}

unfoldable pub server_options : List (ServerOptions → ServerOptions) → ServerOptions
server_options opts = apply_all opts default_server

unfoldable pub with_network : Bytes → ServerOptions → ServerOptions
with_network net o = record o { network = net }

unfoldable pub with_tls_config : Bool → ServerOptions → ServerOptions
with_tls_config given o = record o { tls_config = given }

unfoldable pub with_quic_config : Bool → ServerOptions → ServerOptions
with_quic_config given o = record o { quic_config = given }

unfoldable pub with_conn_timeout : ℤ → ServerOptions → ServerOptions
with_conn_timeout timeout o = record o { conn_timeout = timeout }

unfoldable pub with_send_queue : ℤ → ServerOptions → ServerOptions
with_send_queue capacity o = record o { queue_capacity = capacity }

-- `Listener`
pub record Listener : Type 0 where
  pub network : Bytes
  pub port : ℕ
  pub auto_start : Bool
  pub options : List (ServerOptions → ServerOptions)

unfoldable pub new_listener : Bytes → ℕ → Bool → List (ServerOptions → ServerOptions) → Listener
new_listener net port auto opts = record {
  network = net;
  port = port;
  auto_start = auto;
  options = opts ++ with_network net ∷ [];
}

unfoldable pub add_options : List (ServerOptions → ServerOptions) → Listener → Listener
add_options opts l = record l { options = l.options ++ opts }

-- `options` of cluster/options.go, over a type of discoveries.
pub record Options (D : Type 0) : Type 0 where
  pub node_id : ℕ
  pub peer_port : ℕ
  pub discovery : Option D
  pub listeners : List Listener
  pub cluster_size : ℤ

module _ {D : Type 0} where
  unfoldable pub new_options : List (Options D → Options D) → Options D
  new_options opts = apply_all opts (record {
    node_id = 0;
    peer_port = 4567;
    discovery = none;
    listeners = [];
    cluster_size = pos 3;
  })

  unfoldable pub with_peer_port : ℕ → Options D → Options D
  with_peer_port port o = record o { peer_port = port }

  unfoldable pub with_discovery : Option D → Options D → Options D
  with_discovery d o = record o { discovery = d }

  unfoldable pub with_listeners : List Listener → Options D → Options D
  with_listeners ls o = record o { listeners = ls }

  unfoldable pub with_node_id : ℕ → Options D → Options D
  with_node_id id o = record o { node_id = id }

  unfoldable pub with_cluster_size : ℤ → Options D → Options D
  with_cluster_size size o = record o { cluster_size = size }

-- What a broker is made of: the map of its listeners, the size of its cluster, the port where its peer server
-- listens, and its discovery.
pub record Parts (D : Type 0) : Type 0 where
  pub node_id : ℕ
  pub listeners : List (Bytes × Listener)
  pub size : ℤ
  pub serves_at : ℕ
  pub discovery : D

unfoldable pub by_network : List Listener → List (Bytes × Listener) → List (Bytes × Listener)
by_network [] m = m
by_network (l ∷ ls) m = by_network ls (GoMap.insert Bytes-discrete l.network l m)

module _ {D : Type 0} where
  -- `newCluster` calls a method of the discovery, which panics where it is nil.
  unfoldable pub parts : ℕ → Options D → Option D → Result (Parts D)
  parts id o none = panic
  parts id o (some d) = ok (record {
    node_id = id;
    listeners = by_network o.listeners [];
    size = o.cluster_size;
    serves_at = o.peer_port;
    discovery = d;
  })

  -- `NewBroker`, with what `GetNodeId` would return.
  unfoldable pub new_broker : ℕ → List (Options D → Options D) → Result (Parts D)
  new_broker fresh opts =
      let o = new_options opts in parts (if ltb 0 o.node_id then o.node_id else fresh) o o.discovery

-- Options that come later win.
pub apply_all-append :
    {A : Type 0} (fs gs : List (A → A)) (a : A)
    → apply_all (fs ++ gs) a ≡ apply_all gs (apply_all fs a)
unfolding apply_all
apply_all-append [] gs a = refl
apply_all-append (f ∷ fs) gs a = apply_all-append fs gs (f a)
