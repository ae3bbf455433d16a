-- ===== src/Client/Options.antt =====
-- client/options.go and `New` of client/client.go: the settings of a client and what it takes from them. Times are
-- in nanoseconds. The flags say whether there is a TLS and a QUIC configuration; the handler and the log are left
-- out.
use cable.Prelude.{
  ℕ, ◌*◌, ◌-◌, ◌≡◌, refl, Bool, true, false, List, [], ◌∷◌, ◌++◌, Option, none, some, if◌then◌else◌,
  ltb, ◌==◌, ◌&&◌,
}
use cable.Prelude.Words.{ℤ, pos}
use cable.Errors.{Result, ok, panic, ◌>>=◌}
use cable.GoMap.{Bytes, Bytes-discrete}
use cable.Packet.Types.{Identity}
use cable.Broker.Options.{apply_all, apply_all-append}

-- The retrier of the options: the default one, one that is given, or nil.
pub data RetrierChoice : Type 0 where
  default_retrier no_retrier : RetrierChoice
  given_retrier : ℕ → RetrierChoice

pub record Options : Type 0 where
  pub id : Option Identity
  pub retrier : RetrierChoice
  pub ping_timeout : ℕ
  pub ping_interval : ℕ
  pub write_timeout : ℕ
  pub request_timeout : ℕ
  pub message_timeout : ℕ
  pub send_queue_capacity : ℤ
  pub tls_config : Bool
  pub quic_config : Bool

abbrev pub second : ℕ
second = 1000000000

unfoldable pub default_options : Options
default_options = record {
  id = none;
  retrier = default_retrier;
  ping_timeout = 5 * second;
  ping_interval = 60 * second;
  write_timeout = 5 * second;
  request_timeout = 5 * second;
  message_timeout = 5 * second;
  send_queue_capacity = pos 1024;
  tls_config = true;
  quic_config = true;
}

unfoldable pub new_options : List (Options → Options) → Options
new_options opts = apply_all opts default_options

unfoldable pub with_id : Identity → Options → Options
with_id id o = record o { id = some id }

unfoldable pub with_ping : ℕ → ℕ → Options → Options
with_ping timeout interval o = record o { ping_timeout = timeout; ping_interval = interval }

unfoldable pub with_retrier : RetrierChoice → Options → Options
with_retrier retrier o = record o { retrier = retrier }

unfoldable pub with_tls_config : Bool → Options → Options
with_tls_config given o = record o { tls_config = given }

unfoldable pub with_quic_config : Bool → Options → Options
with_quic_config given o = record o { quic_config = given }

unfoldable pub with_keepalive : ℕ → ℕ → Options → Options
with_keepalive timeout interval o = record o { ping_timeout = timeout; ping_interval = interval }

unfoldable pub with_write_timeout : ℕ → Options → Options
with_write_timeout timeout o = record o { write_timeout = timeout }

unfoldable pub with_request_timeout : ℕ → Options → Options
with_request_timeout timeout o = record o { request_timeout = timeout }

unfoldable pub with_message_timeout : ℕ → Options → Options
with_message_timeout timeout o = record o { message_timeout = timeout }

unfoldable pub with_send_queue : ℤ → Options → Options
with_send_queue capacity o = record o { send_queue_capacity = capacity }

-- `strings.Split(_, "://")`: the rest of the part that has begun, and the parts behind it, where `skip` bytes
-- belong to a separator.
unfoldable pub is_separator : Bytes → Bool
is_separator (a ∷ b ∷ c ∷ _) = (a == 58) && ((b == 47) && (c == 47))
is_separator (a ∷ b ∷ []) = false
is_separator (a ∷ []) = false
is_separator [] = false

unfoldable pub split : Bytes → ℕ → Bytes → List Bytes
split part skip [] = part ∷ []
split part skip (c ∷ cs) =
    let inside = ltb 0 skip in
    let starts = is_separator (c ∷ cs) in
    let part' : Bytes = if inside then part else if starts then [] else part ++ c ∷ [] in
    let skip' : ℕ = if inside then skip - 1 else if starts then 2 else 0 in
    let rest = split part' skip' cs in if inside then rest else if starts then part ∷ rest else rest

-- The connections that `New` chooses from.
pub data Transport : Type 0 where
  ws_conn wss_conn tcp_conn tls_conn quic_conn : Bytes → Transport
  udp_conn : Bytes → Bytes → Transport

unfoldable pub is_text : Bytes → Bytes → Bool
is_text a b = elim (Bytes-discrete a b) [ yes _ ↦ true | no _ ↦ false ]

-- What a client keeps: its timeout for messages is not among it.
pub record Made : Type 0 where
  pub id : Option Identity
  pub conn : Transport
  pub retrier : RetrierChoice
  pub capacity : ℤ
  pub ping_timeout : ℕ
  pub ping_interval : ℕ
  pub write_timeout : ℕ
  pub request_timeout : ℕ

-- `opts.id.ClientID`, where the identity may be nil.
unfoldable pub udp_of : Bytes → Option Identity → Result Transport
udp_of address none = panic
udp_of address (some id) = ok (udp_conn address id.client_id)

-- `wss`, `tls` and `quic` panic where their configuration is nil.
unfoldable pub need : Bool → Transport → Result Transport
need given t = if given then ok t else panic

-- "ws", "wss", "tcp", "tls", "udp" and "quic"; whether an address resolves is left to the connection.
unfoldable pub transport : Bytes → Bytes → Bytes → Options → Result Transport
transport network endpoint address o =
    if is_text network (119 ∷ 115 ∷ [])
    then ok (ws_conn endpoint)
    else if is_text network (119 ∷ 115 ∷ 115 ∷ [])
    then need o.tls_config (wss_conn endpoint)
    else if is_text network (116 ∷ 99 ∷ 112 ∷ [])
    then ok (tcp_conn address)
    else if is_text network (116 ∷ 108 ∷ 115 ∷ [])
    then need o.tls_config (tls_conn address)
    else if is_text network (117 ∷ 100 ∷ 112 ∷ [])
    then udp_of address o.id
    else if is_text network (113 ∷ 117 ∷ 105 ∷ 99 ∷ [])
    then need o.quic_config (quic_conn address)
    else panic

unfoldable pub made : Options → Transport → Made
made o t = record {
  id = o.id;
  conn = t;
  retrier = o.retrier;
  capacity = o.send_queue_capacity;
  ping_timeout = o.ping_timeout;
  ping_interval = o.ping_interval;
  write_timeout = o.write_timeout;
  request_timeout = o.request_timeout;
}

unfoldable pub of_parts : Bytes → List Bytes → Options → Result Made
of_parts endpoint (network ∷ address ∷ []) o =
    transport network endpoint address o >>= (λ t. ok (made o t))
of_parts endpoint (network ∷ address ∷ more ∷ parts) o = panic
of_parts endpoint (network ∷ []) o = panic
of_parts endpoint [] o = panic

-- `New`
unfoldable pub new_client : Bytes → List (Options → Options) → Result Made
new_client endpoint opts = of_parts endpoint (split [] 0 endpoint) (new_options opts)

of_parts-message_timeout :
    (endpoint : Bytes) (parts : List Bytes) (timeout : ℕ) (o : Options)
    → of_parts endpoint parts (with_message_timeout timeout o) ≡ of_parts endpoint parts o
unfolding of_parts with_message_timeout transport made
of_parts-message_timeout endpoint (network ∷ address ∷ []) timeout o = refl
of_parts-message_timeout endpoint (network ∷ address ∷ more ∷ parts) timeout o = refl
of_parts-message_timeout endpoint (network ∷ []) timeout o = refl
of_parts-message_timeout endpoint [] timeout o = refl

-- The option `WithMessageTimeout` makes no difference to a client.
pub new_client-message_timeout :
    (endpoint : Bytes) (opts : List (Options → Options)) (timeout : ℕ)
    → new_client endpoint (opts ++ with_message_timeout timeout ∷ []) ≡ new_client endpoint opts
unfolding new_client new_options apply_all
new_client-message_timeout endpoint opts timeout =
    rw (apply_all-append opts (with_message_timeout timeout ∷ []) default_options)
      (of_parts-message_timeout endpoint (split [] 0 endpoint) timeout (new_options opts))
