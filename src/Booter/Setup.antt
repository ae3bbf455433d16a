-- ===== src/Booter/Setup.antt =====
-- `newBooter` of cmd/cable/booter.go. The certificates of a listener are a parameter.
use cable.Prelude.{ℕ, ◌≡◌, Bool, false, [], ◌∷◌, Option, none, some, map}
use cable.Errors.{Result, ok, panic, ◌>>=◌}
use cable.GoMap.{Bytes}
use cable.Broker.Options.{
  with_send_queue, with_tls_config, with_quic_config, Listener, new_listener, with_node_id,
  with_cluster_size, with_discovery, with_listeners, Parts, new_broker,
}
use cable.Booter.Config.{Config, Network, ListenerConfig, TlsConfig}
use cable.Booter.Config.Load.{Finder, by_multicast, by_etcd, get_discovery}

-- The names of the networks; `validate` refuses any other name.
unfoldable pub network_name : Network → Bytes
network_name n = elim n [
  | Network.tcp ↦ 116 ∷ 99 ∷ 112 ∷ []
  | Network.tls ↦ 116 ∷ 108 ∷ 115 ∷ []
  | Network.ws ↦ 119 ∷ 115 ∷ []
  | Network.wss ↦ 119 ∷ 115 ∷ 115 ∷ []
  | Network.udp ↦ 117 ∷ 100 ∷ 112 ∷ []
  | Network.quic ↦ 113 ∷ 117 ∷ 105 ∷ 99 ∷ []
  | Network.other_network ↦ []
]

module _ (load : TlsConfig → Bool) where
  -- Whether there is a certificate: one that does not load is logged, and left out.
  unfoldable pub has_certificate : Option TlsConfig → Bool
  has_certificate none = false
  has_certificate (some t) = load t

  unfoldable pub listener_of : ListenerConfig → Listener
  listener_of l =
      let given = has_certificate l.tls in
      new_listener (network_name l.network) l.port l.auto_start
        (with_send_queue l.queue_size ∷ with_tls_config given ∷ with_quic_config given ∷ [])

  -- `newBooter`, with what `GetNodeId` and `getLocalIP` would return.
  unfoldable pub new_booter : ℕ → Option Bytes → Config → Result (Parts Finder)
  new_booter fresh ip c = do
    d ← get_discovery ip c
    new_broker fresh (
        with_node_id c.node_id
        ∷ with_cluster_size c.cluster_size
        ∷ with_discovery d
        ∷ with_listeners (map listener_of c.listeners)
        ∷ [])

-- The port that a discovery announces to the other nodes.
unfoldable pub announced : Finder → ℕ
announced (by_multicast id port) = port
announced (by_etcd id port endpoints) = port

-- A broker whose discovery announces this port, and whose peer server listens at 4567; or the panic, where
-- the host has no address.
unfoldable pub Announces : ℕ → Option Bytes → Result (Parts Finder) → Type 0
Announces port none r = r ≡ panic
Announces port (some _) r =
    (p : Parts Finder) × (r ≡ ok p) × (announced p.discovery ≡ port) × (p.serves_at ≡ 4567)
