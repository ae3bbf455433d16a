-- ===== src/Booter/Config/Requirements.antt =====
-- What a configuration must meet for `validate` of cmd/cable/config.go to accept it.
use cable.Prelude.{ℕ, ◌<◌, ◌≤◌, ◌≡◌, ◌≢◌, true, List, [], ◌∷◌, Option, some}
use cable.Prelude.Words.{ℤ, pos}
use cable.GoMap.{Bytes}
use cable.Booter.Auth.{AuthConfig, Method}
use cable.Booter.Messages.{Route, ResendType}
use cable.Booter.Config.{
  Network, Level, Format, DiscoveryType, TlsConfig, ListenerConfig, KafkaConfig, RedisConfig,
  LoggerConfig, TraceConfig, MetricsConfig, Config,
}

infixr 3 ◌⊗◌
abbrev pub ◌⊗◌ : Type 0 → Type 0 → Type 0
P ⊗ Q = P × Q

-- A number is at least `n`.
unfoldable pub IsAtLeast : ℕ → ℤ → Type 0
IsAtLeast n i = (m : ℕ) × (i ≡ pos m) × (n ≤ m)

unfoldable pub Each : {A : Type 0} → (A → Type 0) → List A → Type 0
Each P [] = Unit
Each P (x ∷ xs) = P x ⊗ Each P xs

-- The requirements on a configuration.
unfoldable pub ArePorts : Config → Type 0
ArePorts c = (0 < c.grpc_port) ⊗ (0 < c.http_port) ⊗ (0 < c.peer_port) ⊗ IsAtLeast 0 c.cluster_size

unfoldable pub IsTrace : TraceConfig → Type 0
IsTrace t = t.enabled ≡ true → t.otlp_endpoint ≢ []

unfoldable pub IsLogger : LoggerConfig → Type 0
IsLogger l = (l.level ≢ Level.other_level) ⊗ (l.format ≢ Format.other_format)

unfoldable pub IsMetrics : MetricsConfig → Type 0
IsMetrics m =
    m.enabled ≡ true → IsAtLeast 1 m.interval ⊗ (m.otlp_endpoint ≢ []) ⊗ (m.tenant_id ≢ [])

-- There is a first broker and it is not the empty string.
unfoldable pub IsKafka : KafkaConfig → Type 0
IsKafka k =
    k.enabled ≡ true
    → (first : Bytes) × (rest : List Bytes) × (k.brokers ≡ first ∷ rest) × (first ≢ [])

unfoldable pub IsRedis : RedisConfig → Bytes → Type 0
IsRedis r join_prefix = r.enabled ≡ true → (r.addresses ≢ []) ⊗ (join_prefix ≢ [])

unfoldable pub IsAuth : AuthConfig → Type 0
IsAuth a = (a.method ≢ Method.unknown) ⊗ (a.method ≡ Method.remote → a.auth_url ≢ [])

unfoldable pub IsEntry : ℕ × Route → Type 0
IsEntry (k, r) = (k ≤ 63) ⊗ (r.resend_type ≢ ResendType.unknown_type)

unfoldable pub AreRoutes : Option (List (ℕ × Route)) → Type 0
AreRoutes o = (routes : List (ℕ × Route)) × (o ≡ some routes) × Each IsEntry routes

unfoldable pub IsTls : Option TlsConfig → Type 0
IsTls o = (t : TlsConfig) → o ≡ some t → (t.cert_file ≢ []) × (t.key_file ≢ [])

unfoldable pub IsListener : ListenerConfig → Type 0
IsListener l =
    (0 < l.port) ⊗ (l.network ≢ Network.other_network) ⊗ IsAtLeast 0 l.queue_size ⊗ IsTls l.tls

unfoldable pub IsValid : Config → Type 0
IsValid c =
    ArePorts c
    ⊗ IsTrace c.trace
    ⊗ IsLogger c.logger
    ⊗ IsMetrics c.metrics
    ⊗ IsKafka c.kafka
    ⊗ IsRedis c.redis c.auth.join_prefix
    ⊗ (c.discovery.discovery_type ≢ DiscoveryType.other_type)
    ⊗ IsAuth c.auth
    ⊗ AreRoutes c.message_route
    ⊗ (c.listeners ≢ [])
    ⊗ Each IsListener c.listeners
