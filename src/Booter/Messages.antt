-- ===== src/Booter/Messages.antt =====
-- `OnUserMessage` of cmd/cable/booter.go and the booter's calls of the broker. A record for Kafka is kept in
-- the order in which it is produced; the goroutines of a call run one after the other. The traces, the log and
-- the record's trace headers are left out.
use native.Mathlib.Decide.{ℕ_discrete}
use cable.Prelude.{ℕ, Bool, false, List, [], ◌∷◌, ◌++◌, Option, none, some, if◌then◌else◌, map}
use cable.Errors.{Error, Result, ok}
use cable.GoMap
use cable.GoMap.{Bytes}
use cable.Packet.Types.{Identity, Message, get_prop}
use cable.Network.Conn.{Waits}
use cable.Broker.Peers.{Grpc}
use cable.Broker.Routes
use cable.Broker.Routes.{Program, Broker, Totals}
use cable.Booter.Auth.{AuthConfig, Services, join_key}

-- `resendType`; `unknown_type` is any other string.
pub data ResendType : Type 0 where
  resend_none resend_to_all resend_to_user resend_to_channel unknown_type : ResendType

pub record Route : Type 0 where
  pub enabled : Bool
  pub resend_type : ResendType
  pub kafka_topic : Bytes

-- A record for Kafka: its headers `toUser`, `toChannel`, `fromUser` and `fromClient`, the kind and the value.
pub record Produced : Type 0 where
  pub topic : Bytes
  pub kind : ℕ
  pub to_user : Bytes
  pub to_channel : Bytes
  pub sender : Identity
  pub value : Bytes

pub record Booter (S X : Type 0) : Type 0 where
  pub broker : Broker S X
  pub message_route : List (ℕ × Route)
  -- whether there is a producer, and what it has been handed
  pub producer : Bool
  pub kafka : List Produced

-- `PropertyUserID` and `PropertyChannel`
abbrev pub property_user_id : ℕ
property_user_id = 1

abbrev pub property_channel : ℕ
property_channel = 2

module _ {S X : Type 0} where
  -- `SendToKafka`
  unfoldable pub send_to_kafka :
      Bytes → Bytes → Bytes → Identity → Message → Booter S X → Booter S X
  send_to_kafka topic uid channel id m b = record b {
    kafka =
        b.kafka
        ++ record {
          topic = topic;
          kind = m.kind;
          to_user = uid;
          to_channel = channel;
          sender = id;
          value = m.payload;
        }
          ∷ [];
  }

  unfoldable pub to_topic : Bytes → Bytes → Bytes → Identity → Message → Booter S X → Booter S X
  to_topic [] uid channel id m b = b
  to_topic (c ∷ cs) uid channel id m b =
      if b.producer then send_to_kafka (c ∷ cs) uid channel id m b else b

  module _ (g : Grpc S) (w : Waits Bytes) where
    -- `SendToAll`, `SendToUser` and `SendToChannel`
    unfoldable pub send_to_all : Message → Booter S X → Result Totals × Booter S X
    send_to_all m b =
        let (r, b') = Routes.send_to_all g w m b.broker in (ok r, record b { broker = b' })

    unfoldable pub send_to_user : Bytes → Message → Booter S X → Result Totals × Booter S X
    send_to_user uid m b =
        let (r, b') = Routes.send_to_user g w uid m b.broker in (r, record b { broker = b' })

    unfoldable pub send_to_channel : Bytes → Message → Booter S X → Result Totals × Booter S X
    send_to_channel channel m b =
        let (r, b') = Routes.send_to_channel g w channel m b.broker in (r, record b { broker = b' })

    unfoldable pub to_user : Option Bytes → Route → Identity → Message → Booter S X → Booter S X
    to_user none r id m b = b
    to_user (some uid) r id m b = to_topic r.kafka_topic uid [] id m (send_to_user uid m b).1

    unfoldable pub to_channel : Option Bytes → Route → Identity → Message → Booter S X → Booter S X
    to_channel none r id m b = b
    to_channel (some channel) r id m b =
        to_topic r.kafka_topic [] channel id m (send_to_channel channel m b).1

    unfoldable pub routed : Route → Identity → Message → Booter S X → Booter S X
    routed r id m b = elim r.resend_type [
      | resend_none ↦ to_topic r.kafka_topic [] [] id m b
      | resend_to_all ↦ to_topic r.kafka_topic [] [] id m (send_to_all m b).1
      | resend_to_user ↦ to_user (get_prop property_user_id m.props) r id m b
      | resend_to_channel ↦ to_channel (get_prop property_channel m.props) r id m b
      | unknown_type ↦ to_topic r.kafka_topic [] [] id m b
    ]

    -- `OnUserMessage`, which returns no error.
    unfoldable pub on_user_message : Message → Identity → Booter S X → Booter S X
    on_user_message m id b = elim (GoMap.lookup ℕ_discrete m.kind b.message_route) [
      | none ↦ b
      | some r ↦ if r.enabled then routed r id m b else b
    ]

  module _ {W : Type 0} (s : Services W) (p : Program X) where
    -- `JoinChannel` and `LeaveChannel`: Redis first, and the raft log if Redis takes it.
    unfoldable pub after_redis :
        (Broker S X → Option Error × Broker S X)
        → Bool × W
        → Booter S X
        → Option Error × W × Booter S X
    after_redis f (taken, w) b =
        if taken
        then (let (e, b') = f b.broker in (e, w, record b { broker = b' }))
        else (some (Error.foreign false), w, b)

    unfoldable pub join_channel :
        AuthConfig
        → Bool
        → Bytes
        → List (Bytes × Bytes)
        → W
        → Booter S X
        → Option Error × W × Booter S X
    join_channel c client uid channels w b =
        if client
        then after_redis (Routes.join_channel p uid channels)
            (s.redis_hset (join_key c uid) channels w) b
        else (none, w, b)

    unfoldable pub leave_channel :
        AuthConfig
        → Bool
        → Bytes
        → List (Bytes × Bytes)
        → W
        → Booter S X
        → Option Error × W × Booter S X
    leave_channel c client uid channels w b =
        if client
        then after_redis (Routes.leave_channel p uid channels)
            (s.redis_hdel (join_key c uid) (map (λ (e : Bytes × Bytes). e.0) channels) w) b
        else (none, w, b)
