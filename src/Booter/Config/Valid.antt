-- ===== src/Booter/Config/Valid.antt =====
-- What `validate` of cmd/cable/config.go accepts.
use mathlib.Core.Path.{subst}
use mathlib.Core.List.{head-eq_of_cons-eq}
use mathlib.Core.Option.{some-injective}
use cable.Prelude.{ℕ, ◌≡◌, ◌≢◌, ◌↔◌, refl, sym, ◌∙◌, List, [], ◌∷◌, Option, none, some}
use cable.GoMap.{Bytes}
use cable.Booter.Auth.{AuthConfig}
use cable.Booter.Messages.{Route}
use cable.Booter.Config.{
  TlsConfig, ListenerConfig, KafkaConfig, RedisConfig, LoggerConfig, TraceConfig, MetricsConfig,
  Config, Invalid, is_empty, is_remote, check_metrics, check_brokers, check_kafka, check_redis,
  check_auth, check_entries, check_routes, check_tls, check_each, check_listeners, check_logger,
  check_trace, check_ports, validate,
}
use cable.Booter.Config.Requirements.{
  ◌⊗◌, Each, ArePorts, IsTrace, IsLogger, IsMetrics, IsKafka, IsRedis, IsAuth, IsEntry, AreRoutes,
  IsTls, IsListener, IsValid,
}
use cable.Booter.Config.Checks.{
  refuse_if-none, last_none, and_then-none, under, regroup, regroup_four, same, is_empty-false,
  positive, at_most, is_negative-false, below-false, bad_level-false, bad_format-false,
  bad_discovery-false, bad_method-false, is_remote-true, bad_resend-false, bad_network-false,
}

-- The groups.
check_ports-none : (c : Config) → (check_ports c ≡ none) ↔ ArePorts c
unfolding check_ports ArePorts
check_ports-none c = refuse_if-none _ _ _ (positive c.grpc_port) (
    refuse_if-none _ _ _ (positive c.http_port) (
      refuse_if-none _ _ _ (positive c.peer_port)
        (last_none _ _ (is_negative-false c.cluster_size))))

check_trace-none : (t : TraceConfig) → (check_trace t ≡ none) ↔ IsTrace t
unfolding check_trace IsTrace
check_trace-none t = under t.enabled _ same (last_none _ _ (is_empty-false t.otlp_endpoint))

check_logger-none : (l : LoggerConfig) → (check_logger l ≡ none) ↔ IsLogger l
unfolding check_logger IsLogger
check_logger-none l =
    refuse_if-none _ _ _ (bad_level-false l.level) (last_none _ _ (bad_format-false l.format))

check_metrics-none : (m : MetricsConfig) → (check_metrics m ≡ none) ↔ IsMetrics m
unfolding check_metrics IsMetrics
check_metrics-none m = under m.enabled _ same (
    refuse_if-none _ _ _ (below-false 1 m.interval) (
      refuse_if-none _ _ _ (is_empty-false m.otlp_endpoint)
        (last_none _ _ (is_empty-false m.tenant_id))))

HasBroker : List Bytes → Type 0
HasBroker brokers = (first : Bytes) × (rest : List Bytes) × (brokers ≡ first ∷ rest) × (first ≢ [])

check_brokers-none : (brokers : List Bytes) → (check_brokers brokers ≡ none) ↔ HasBroker brokers
unfolding check_brokers HasBroker
check_brokers-none [] = (λ x. cc, λ (_, _, e, _). cc)
check_brokers-none (first ∷ rest) =
    let (to, back) =
      last_none (is_empty first) Invalid.first_broker_is_empty (is_empty-false first) in
    (
      λ x. (first, rest, refl, to x),
      λ (other, _, e, given). back (λ x. given (sym (head-eq_of_cons-eq e) ∙ x)),
    )

check_kafka-none : (k : KafkaConfig) → (check_kafka k ≡ none) ↔ IsKafka k
unfolding check_kafka IsKafka HasBroker
check_kafka-none k = under k.enabled _ same (check_brokers-none k.brokers)

check_redis-none :
    (r : RedisConfig) (join_prefix : Bytes)
    → (check_redis r join_prefix ≡ none) ↔ IsRedis r join_prefix
unfolding check_redis IsRedis
check_redis-none r join_prefix =
    under r.enabled _ same (
      refuse_if-none _ _ _ (is_empty-false r.addresses)
        (last_none _ _ (is_empty-false join_prefix)))

check_auth-none : (a : AuthConfig) → (check_auth a ≡ none) ↔ IsAuth a
unfolding check_auth IsAuth
check_auth-none a = refuse_if-none _ _ _ (bad_method-false a.method) (
    under (is_remote a.method) _ (is_remote-true a.method)
      (last_none _ _ (is_empty-false a.auth_url)))

check_entries-none :
    (routes : List (ℕ × Route)) → (check_entries routes ≡ none) ↔ Each IsEntry routes
unfolding check_entries Each IsEntry
check_entries-none [] = (λ _. tt, λ _. refl)
check_entries-none ((k, r) ∷ routes) = regroup (
    refuse_if-none _ _ _ (at_most k)
      (refuse_if-none _ _ _ (bad_resend-false r.resend_type) (check_entries-none routes)))

check_routes-none : (o : Option (List (ℕ × Route))) → (check_routes o ≡ none) ↔ AreRoutes o
unfolding check_routes AreRoutes
check_routes-none none = (λ x. cc, λ (_, e, _). cc)
check_routes-none (some routes) =
    let (to, back) = check_entries-none routes in
    (
      λ x. (routes, refl, to x),
      λ (other, e, each). back (subst (Each IsEntry) (some-injective _ _ (sym e)) each),
    )

check_tls-none : (o : Option TlsConfig) → (check_tls o ≡ none) ↔ IsTls o
unfolding check_tls IsTls
check_tls-none none = (λ _ t e. cc, λ _. refl)
check_tls-none (some t) =
    let (to, back) =
      refuse_if-none (is_empty t.cert_file) Invalid.cert_file_is_empty _
        (is_empty-false t.cert_file)
        (last_none (is_empty t.key_file) Invalid.key_file_is_empty (is_empty-false t.key_file)) in
    (
      λ x other e.
          subst (λ (u : TlsConfig). (u.cert_file ≢ []) × (u.key_file ≢ [])) (some-injective _ _ e)
            (to x),
      λ f. back (f t refl),
    )

check_each-none : (ls : List ListenerConfig) → (check_each ls ≡ none) ↔ Each IsListener ls
unfolding check_each Each IsListener
check_each-none [] = (λ _. tt, λ _. refl)
check_each-none (l ∷ ls) = regroup_four (
    refuse_if-none _ _ _ (positive l.port) (
      refuse_if-none _ _ _ (bad_network-false l.network) (
        refuse_if-none _ _ _ (is_negative-false l.queue_size)
          (and_then-none _ _ (check_tls-none l.tls) (check_each-none ls)))))

check_listeners-none :
    (ls : List ListenerConfig) → (check_listeners ls ≡ none) ↔ ((ls ≢ []) ⊗ Each IsListener ls)
unfolding check_listeners
check_listeners-none ls = refuse_if-none _ _ _ (is_empty-false ls) (check_each-none ls)

-- `validate` accepts a configuration exactly when it meets the requirements of IsValid.
pub validate-IsValid : (c : Config) → (validate c ≡ none) ↔ IsValid c
unfolding validate IsValid
validate-IsValid c = and_then-none _ _ (check_ports-none c) (
    and_then-none _ _ (check_trace-none c.trace) (
      and_then-none _ _ (check_logger-none c.logger) (
        and_then-none _ _ (check_metrics-none c.metrics) (
          and_then-none _ _ (check_kafka-none c.kafka) (
            and_then-none _ _ (check_redis-none c.redis c.auth.join_prefix) (
              and_then-none _ _ (last_none _ _ (bad_discovery-false c.discovery.discovery_type)) (
                and_then-none _ _ (check_auth-none c.auth) (
                  and_then-none _ _ (check_routes-none c.message_route)
                    (check_listeners-none c.listeners)))))))))
