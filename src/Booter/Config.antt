-- ===== src/Booter/Config.antt =====
-- `config` of cmd/cable/config.go, as the YAML library reads it, and `validate`. A string that the code
-- compares with fixed words is a data type with one more constructor for any other string. The sections for
-- the program's own logs and traces have the fields that `validate` reads.
pub mod Requirements
pub mod Checks
pub mod Valid
pub mod Load
use cable.Prelude.{
  ℕ, Bool, true, false, List, [], ◌∷◌, Option, none, some, if◌then◌else◌, ◌==◌, ◌||◌, ltb,
}
use cable.Prelude.Words.{ℤ}
use cable.Prelude.Ints.{is_negative, below}
use cable.GoMap.{Bytes}
use cable.Booter.Auth.{AuthConfig, Method}
use cable.Booter.Messages.{Route, ResendType}

-- `Network` of a listener, `Logger.Level`, `Logger.Format` and `Discovery.Type`
pub data Network : Type 0 where
  tcp tls ws wss udp quic other_network : Network

pub data Level : Type 0 where
  level_info level_debug level_warn level_error level_fatal other_level : Level

pub data Format : Type 0 where
  json console other_format : Format

pub data DiscoveryType : Type 0 where
  multicast etcd other_type : DiscoveryType

pub record TlsConfig : Type 0 where
  pub cert_file : Bytes
  pub key_file : Bytes

pub record ListenerConfig : Type 0 where
  pub port : ℕ
  pub network : Network
  pub queue_size : ℤ
  pub auto_start : Bool
  pub tls : Option TlsConfig

pub record KafkaConfig : Type 0 where
  pub enabled : Bool
  pub brokers : List Bytes

-- The prefixes of the keys stand in `AuthConfig`.
pub record RedisConfig : Type 0 where
  pub enabled : Bool
  pub addresses : List Bytes

pub record LoggerConfig : Type 0 where
  pub level : Level
  pub format : Format
  pub otlp_endpoint : Bytes

pub record TraceConfig : Type 0 where
  pub enabled : Bool
  pub otlp_endpoint : Bytes

pub record MetricsConfig : Type 0 where
  pub enabled : Bool
  pub tenant_id : Bytes
  pub interval : ℤ
  pub otlp_endpoint : Bytes

pub record DiscoveryConfig : Type 0 where
  pub discovery_type : DiscoveryType
  pub endpoints : List Bytes

-- `MessageRoute` is a map, which a file may leave out.
pub record Config : Type 0 where
  pub auth : AuthConfig
  pub node_id : ℕ
  pub grpc_port : ℕ
  pub http_port : ℕ
  pub peer_port : ℕ
  pub cluster_size : ℤ
  pub trace : TraceConfig
  pub logger : LoggerConfig
  pub metrics : MetricsConfig
  pub kafka : KafkaConfig
  pub redis : RedisConfig
  pub discovery : DiscoveryConfig
  pub message_route : Option (List (ℕ × Route))
  pub listeners : List ListenerConfig

-- The errors of `validate`.
pub data Invalid : Type 0 where
  grpc_port_is_zero http_port_is_zero peer_port_is_zero invalid_cluster_size : Invalid
  trace_endpoint_is_empty invalid_level invalid_format : Invalid
  interval_below_one metrics_endpoint_is_empty tenant_is_empty : Invalid
  brokers_are_empty first_broker_is_empty addresses_are_empty join_prefix_is_empty : Invalid
  invalid_discovery invalid_method auth_url_is_empty : Invalid
  route_is_nil invalid_kind invalid_resend_type : Invalid
  no_listeners port_is_zero invalid_network invalid_queue_size : Invalid
  cert_file_is_empty key_file_is_empty : Invalid

-- `== ""` and `len(l) == 0`
unfoldable pub is_empty : {A : Type 0} → List A → Bool
is_empty [] = true
is_empty (_ ∷ _) = false

-- The tests of a string against all the words that are allowed for it.
unfoldable pub bad_level : Level → Bool
bad_level l = elim l [ other_level ↦ true | _ ↦ false ]

unfoldable pub bad_format : Format → Bool
bad_format f = elim f [ other_format ↦ true | _ ↦ false ]

unfoldable pub bad_discovery : DiscoveryType → Bool
bad_discovery t = elim t [ other_type ↦ true | _ ↦ false ]

unfoldable pub bad_method : Method → Bool
bad_method m = elim m [ Method.unknown ↦ true | _ ↦ false ]

unfoldable pub is_remote : Method → Bool
is_remote m = elim m [ Method.remote ↦ true | _ ↦ false ]

unfoldable pub bad_resend : ResendType → Bool
bad_resend r = elim r [ ResendType.unknown_type ↦ true | _ ↦ false ]

unfoldable pub bad_network : Network → Bool
bad_network n = elim n [ other_network ↦ true | _ ↦ false ]

-- `if bad { return e }`, before the rest.
unfoldable pub refuse_if : Bool → Invalid → Option Invalid → Option Invalid
refuse_if bad e rest = if bad then some e else rest

-- A group of tests, before the rest.
unfoldable pub and_then : Option Invalid → Option Invalid → Option Invalid
and_then none rest = rest
and_then (some e) rest = some e

unfoldable pub check_metrics : MetricsConfig → Option Invalid
check_metrics m =
    if m.enabled
    then refuse_if (below m.interval 1) Invalid.interval_below_one (
        refuse_if (is_empty m.otlp_endpoint) Invalid.metrics_endpoint_is_empty
          (refuse_if (is_empty m.tenant_id) Invalid.tenant_is_empty none))
    else none

unfoldable pub check_brokers : List Bytes → Option Invalid
check_brokers [] = some Invalid.brokers_are_empty
check_brokers (first ∷ _) = refuse_if (is_empty first) Invalid.first_broker_is_empty none

unfoldable pub check_kafka : KafkaConfig → Option Invalid
check_kafka k = if k.enabled then check_brokers k.brokers else none

unfoldable pub check_redis : RedisConfig → Bytes → Option Invalid
check_redis r join_prefix =
    if r.enabled
    then refuse_if (is_empty r.addresses) Invalid.addresses_are_empty
        (refuse_if (is_empty join_prefix) Invalid.join_prefix_is_empty none)
    else none

unfoldable pub check_auth : AuthConfig → Option Invalid
check_auth a = refuse_if (bad_method a.method) Invalid.invalid_method (
    if is_remote a.method
    then refuse_if (is_empty a.auth_url) Invalid.auth_url_is_empty none
    else none)

unfoldable pub check_entries : List (ℕ × Route) → Option Invalid
check_entries [] = none
check_entries ((k, r) ∷ routes) =
    refuse_if (ltb 63 k) Invalid.invalid_kind
      (refuse_if (bad_resend r.resend_type) Invalid.invalid_resend_type (check_entries routes))

unfoldable pub check_routes : Option (List (ℕ × Route)) → Option Invalid
check_routes none = some Invalid.route_is_nil
check_routes (some routes) = check_entries routes

unfoldable pub check_tls : Option TlsConfig → Option Invalid
check_tls none = none
check_tls (some t) =
    refuse_if (is_empty t.cert_file) Invalid.cert_file_is_empty
      (refuse_if (is_empty t.key_file) Invalid.key_file_is_empty none)

unfoldable pub check_each : List ListenerConfig → Option Invalid
check_each [] = none
check_each (l ∷ ls) = refuse_if (l.port == 0) Invalid.port_is_zero (
    refuse_if (bad_network l.network) Invalid.invalid_network (
      refuse_if (is_negative l.queue_size) Invalid.invalid_queue_size
        (and_then (check_tls l.tls) (check_each ls))))

unfoldable pub check_listeners : List ListenerConfig → Option Invalid
check_listeners ls = refuse_if (is_empty ls) Invalid.no_listeners (check_each ls)

unfoldable pub check_logger : LoggerConfig → Option Invalid
check_logger l =
    refuse_if (bad_level l.level) Invalid.invalid_level
      (refuse_if (bad_format l.format) Invalid.invalid_format none)

unfoldable pub check_trace : TraceConfig → Option Invalid
check_trace t =
    if t.enabled
    then refuse_if (is_empty t.otlp_endpoint) Invalid.trace_endpoint_is_empty none
    else none

unfoldable pub check_ports : Config → Option Invalid
check_ports c = refuse_if (c.grpc_port == 0) Invalid.grpc_port_is_zero (
    refuse_if (c.http_port == 0) Invalid.http_port_is_zero (
      refuse_if (c.peer_port == 0) Invalid.peer_port_is_zero
        (refuse_if (is_negative c.cluster_size) Invalid.invalid_cluster_size none)))

-- `validate`: the error of the first test that fails.
unfoldable pub validate : Config → Option Invalid
validate c = and_then (check_ports c) (
    and_then (check_trace c.trace) (
      and_then (check_logger c.logger) (
        and_then (check_metrics c.metrics) (
          and_then (check_kafka c.kafka) (
            and_then (check_redis c.redis c.auth.join_prefix) (
              and_then
                (refuse_if (bad_discovery c.discovery.discovery_type) Invalid.invalid_discovery
                  none)
                (and_then (check_auth c.auth)
                  (and_then (check_routes c.message_route) (check_listeners c.listeners)))))))))
