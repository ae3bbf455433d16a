-- ===== src/Errors.antt =====
-- The error values of coder/codable.go, packet/packet.go, packet/close.go, packet/response.go,
-- packet/connect.go, client/client.go, client/status.go and xerr/error.go, and the results of
-- fallible code. Codes that travel in packets are the bytes that stand for them.
use cable.Prelude.{ℕ, Bool, ◌≡◌, ◌⊎◌, inl, inr, refl}

-- `coder.Error`
pub data CoderError : Type 0 where
  varint_overflow buffer_too_short : CoderError

-- `packet.Error`
pub data PacketError : Type 0 where
  invalid_read_len unknown_packet_type packet_size_too_large message_kind_too_large : PacketError

-- `client.Error`
pub data ClientError : Type 0 where
  invalid_packet request_timed_out connection_failed connection_closed : ClientError
  connection_not_ready : ClientError

-- `client.CloseReason`
pub data CloseReason : Type 0 where
  normal ping_timeout network_error server_close : CloseReason

-- `xerr.Error`
pub data XError : Type 0 where
  peer_not_ready invalid_user_id invalid_channel request_timeout message_timeout : XError
  server_is_closed raft_node_not_ready invalid_peer_message connection_is_closed : XError
  sending_queue_is_full connection_not_found server_already_closed network_not_supported : XError
  invalid_peer_message_flag : XError

-- `queue.Error`
pub data QueueError : Type 0 where
  queue_is_full queue_is_closed : QueueError

-- The interface value `error`: its dynamic type and value. `foreign` is an error of another
-- library (the network, a context); the flag is its `Timeout()`.
pub data Error : Type 0 where
  coder : CoderError → Error
  packet : PacketError → Error
  client : ClientError → Error
  close_code : ℕ → Error
  close_reason : CloseReason → Error
  connect_code : ℕ → Error
  status_code : ℕ → Error
  queue : QueueError → Error
  xerr : XError → Error
  foreign : Bool → Error

-- A Go result `(value, error)`, or a run-time panic.
pub data Result {ℓ} (A : Type ℓ) : Type ℓ where
  ok : A → Result A
  err : Error → Result A
  panic : Result A

infixl 5 ◌>>=◌
abbrev pub ◌>>=◌ {ℓ κ} : {A : Type ℓ} {B : Type κ} → Result A → (A → Result B) → Result B
panic >>= f = panic
err e >>= f = err e
ok a >>= f = f a

pub Result-cases {ℓ} :
    {A : Type ℓ} (r : Result A)
    → ((a : A) × (r ≡ ok a)) ⊎ (((e : Error) × (r ≡ err e)) ⊎ (r ≡ panic))
Result-cases (ok a) = inl (a, refl)
Result-cases (err e) = inr (inl (e, refl))
Result-cases panic = inr (inr refl)
