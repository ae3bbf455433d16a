-- ===== src/Booter/Api/Http.antt =====
-- The handlers of cmd/cable/api_http.go, with `ParseKind` of packet/message.go. JSON and the parsers of
-- numbers are parameters; the pages of Swagger and the traces are left out.
use cable.Prelude.{ℕ, Bool, true, false, List, [], Option, none, some, if◌then◌else◌, ltb, ◌==◌}
use cable.Prelude.Words.{ℤ, pos, negsuc}
use cable.Errors.{Error, Result, ok, err, panic}
use cable.GoMap.{Bytes}
use cable.Packet.Types.{Message}
use cable.Broker.Routes.{Totals}
use cable.Booter.Config.{is_empty}
use cable.Booter.Api.{Channels, Users, Backend}

pub data Verb : Type 0 where
  get post other_verb : Verb

-- A request: the values of its query and its header that the handlers read, empty where there is none, and
-- its body, if it can be read.
pub record Request : Type 0 where
  pub verb : Verb
  pub query_uid : Bytes
  pub query_node_id : Bytes
  pub header_uid : Bytes
  pub header_channel : Bytes
  pub header_kind : Bytes
  pub body : Option Bytes

pub record JoinReq : Type 0 where
  pub uid : Bytes
  pub channels : Channels

-- What a handler turns into JSON.
pub data Shown (St : Type 0) : Type 0 where
  statuses : List St → Shown St
  online : Bool → Shown St
  result : Totals → Shown St
  channels_of : Channels → Shown St
  users_of : Users → Shown St

pub record Formats (St : Type 0) : Type 0 where
  -- `json.MarshalIndent`, and `json.NewDecoder(r.Body).Decode` for the two forms
  pub marshal : Shown St → Option Bytes
  pub decode_kick : Option Bytes → Option ℕ
  pub decode_join : Option Bytes → Option JoinReq
  -- `strings.TrimSpace`, `strconv.ParseInt(_, 10, 32)` and `strconv.ParseUint(_, 10, 64)`
  pub trim_space : Bytes → Bytes
  pub parse_int : Bytes → Option ℤ
  pub parse_uint : Bytes → Option ℕ

pub data Reason : Type 0 where
  not_ready method_not_allowed uid_required channel_required channels_required : Reason
  id_required : Reason

pub data Body : Type 0 where
  ok_text : Body
  json : Bytes → Body
  text : Reason → Body
  failure : Error → Body

-- An answer with its status code, or a handler that panics.
pub data Reply : Type 0 where
  reply : ℕ → Body → Reply
  aborted : Reply

-- `http.StatusOK`, `StatusBadRequest`, `StatusMethodNotAllowed` and `StatusInternalServerError`
abbrev pub status_ok : ℕ
status_ok = 200

abbrev pub bad_request : ℕ
bad_request = 400

abbrev pub not_allowed : ℕ
not_allowed = 405

abbrev pub server_error : ℕ
server_error = 500

unfoldable pub same_verb : Verb → Verb → Bool
same_verb get get = true
same_verb post post = true
same_verb _ _ = false

-- The patterns of the mux.
pub data Endpoint : Type 0 where
  health inspect is_online kick_user kick_node send_to_all send_to_user send_to_channel : Endpoint
  join_channel leave_channel list_channels list_users : Endpoint

unfoldable pub kind_in : ℤ → Option ℕ
kind_in (pos n) = if ltb 255 n then none else some n
kind_in (negsuc n) = none

module _ {St : Type 0} (f : Formats St) where
  -- `ParseKind`
  unfoldable pub parse_kind : Bytes → Option ℕ
  parse_kind k = elim (f.parse_int (f.trim_space k)) [ none ↦ none | some i ↦ kind_in i ]

  unfoldable pub message_of : ℕ → Option Bytes → Option Message
  message_of kind none = none
  message_of kind (some payload) = some (record { props = []; kind = kind; payload = payload })

  -- `parseMessage`
  unfoldable pub parse_message : Request → Option Message
  parse_message r = elim (parse_kind r.header_kind) [
    | none ↦ none
    | some kind ↦ message_of kind r.body
  ]

module _ {W St : Type 0} (f : Formats St) (b : Backend W St) where
  -- The guards at the start of a handler: the cluster is ready, and the method is the right one.
  unfoldable pub when_ready : Verb → Request → (W → Reply × W) → W → Reply × W
  when_ready verb r k w =
      if b.is_ready w
      then (if same_verb r.verb verb then k w else (reply not_allowed (text method_not_allowed), w))
      else (reply server_error (text not_ready), w)

  -- A value that must not be empty.
  unfoldable pub given : {A : Type 0} → List A → Reason → (W → Reply × W) → W → Reply × W
  given x reason k w = if is_empty x then (reply bad_request (text reason), w) else k w

  -- A value that may fail to parse.
  unfoldable pub with_parsed : {A : Type 0} → Option A → (A → W → Reply × W) → W → Reply × W
  with_parsed none k w = (reply bad_request (failure (Error.foreign false)), w)
  with_parsed (some a) k w = k a w

  unfoldable pub show_json : Shown St → W → Reply × W
  show_json v w = elim (f.marshal v) [
    | none ↦ (reply server_error (failure (Error.foreign false)), w)
    | some bytes ↦ (reply status_ok (json bytes), w)
  ]

  -- How a handler ends after a call of the program.
  unfoldable pub done : Option Error → W → Reply × W
  done none w = (reply status_ok ok_text, w)
  done (some e) w = (reply server_error (failure e), w)

  unfoldable pub shown : {A : Type 0} → (A → Shown St) → Result A → W → Reply × W
  shown view (ok a) w = show_json (view a) w
  shown view (err e) w = (reply server_error (failure e), w)
  shown view panic w = (aborted, w)

  unfoldable pub handle_health : Request → W → Reply × W
  handle_health r w =
      if b.is_ready w
      then (reply status_ok ok_text, w)
      else (reply server_error (text not_ready), w)

  unfoldable pub handle_inspect : Request → W → Reply × W
  handle_inspect r w = let (ss, w') = b.inspects w in shown statuses ss w'

  unfoldable pub handle_is_online : Request → W → Reply × W
  handle_is_online r = when_ready get r (
      given r.query_uid uid_required
        (λ w. let (on, w') = b.is_online r.query_uid w in show_json (online on) w'))

  unfoldable pub handle_kick_user : Request → W → Reply × W
  handle_kick_user r =
      when_ready get r (given r.query_uid uid_required (λ w. done none (b.kick_user r.query_uid w)))

  -- `if kickReq.NodeId == 0`
  unfoldable pub kick_id : ℕ → W → Reply × W
  kick_id id w =
      if id == 0
      then (reply bad_request (text id_required), w)
      else (let (e, w') = b.kick_broker id w in done e w')

  unfoldable pub handle_kick_node : Request → W → Reply × W
  handle_kick_node r = when_ready post r (with_parsed (f.decode_kick r.body) kick_id)

  unfoldable pub handle_send_to_all : Request → W → Reply × W
  handle_send_to_all r = when_ready post r (
      with_parsed (parse_message f r) (λ m w. let (t, w') = b.send_to_all m w in shown result t w'))

  unfoldable pub handle_send_to_user : Request → W → Reply × W
  handle_send_to_user r = when_ready post r (
      given r.header_uid uid_required (
        with_parsed (parse_message f r)
          (λ m w. let (t, w') = b.send_to_user r.header_uid m w in shown result t w')))

  unfoldable pub handle_send_to_channel : Request → W → Reply × W
  handle_send_to_channel r = when_ready post r (
      given r.header_channel channel_required (
        with_parsed (parse_message f r)
          (λ m w. let (t, w') = b.send_to_channel r.header_channel m w in shown result t w')))

  -- `handleJoinChannel` and `handleLeaveChannel`, which differ in the call.
  unfoldable pub with_join : (Bytes → Channels → W → Option Error × W) → JoinReq → W → Reply × W
  with_join call q =
      given q.uid uid_required (
        given q.channels channels_required
          (λ w. let (e, w') = call q.uid q.channels w in done e w'))

  unfoldable pub handle_join_channel : Request → W → Reply × W
  handle_join_channel r =
      when_ready post r (with_parsed (f.decode_join r.body) (with_join b.join_channel))

  unfoldable pub handle_leave_channel : Request → W → Reply × W
  handle_leave_channel r =
      when_ready post r (with_parsed (f.decode_join r.body) (with_join b.leave_channel))

  unfoldable pub handle_list_channels : Request → W → Reply × W
  handle_list_channels r = when_ready get r (
      given r.query_uid uid_required
        (λ w. let (c, w') = b.list_channels r.query_uid w in shown channels_of c w'))

  unfoldable pub handle_list_users : Request → W → Reply × W
  handle_list_users r = when_ready get r (
      with_parsed (f.parse_uint r.query_node_id)
        (λ id w. let (u, w') = b.list_users id w in shown users_of u w'))

  -- The mux.
  unfoldable pub serve : Endpoint → Request → W → Reply × W
  serve health = handle_health
  serve inspect = handle_inspect
  serve is_online = handle_is_online
  serve kick_user = handle_kick_user
  serve kick_node = handle_kick_node
  serve send_to_all = handle_send_to_all
  serve send_to_user = handle_send_to_user
  serve send_to_channel = handle_send_to_channel
  serve join_channel = handle_join_channel
  serve leave_channel = handle_leave_channel
  serve list_channels = handle_list_channels
  serve list_users = handle_list_users
