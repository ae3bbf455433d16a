-- ===== src/Booter/Api/Agree.antt =====
-- What cmd/cable/api_http.go and cmd/cable/api_grpc.go have in common: the requests that both take, but for
-- `KickNode`, whose answers differ.
use mathlib.Core.Option.{some-injective}
use cable.Prelude.{
  ℕ, ◌≡◌, ◌≢◌, ◌%◌, ◌^◌, refl, sym, ap, ◌∙◌, Bool, true, false, List, [], ◌∷◌, Option, none, some,
  if◌then◌else◌, ltb, arith, ltb→le, option_elim,
}
use cable.Prelude.Words.{ℤ, pos, negsuc}
use cable.Errors.{Error, Result, ok, err, panic}
use cable.GoMap.{Bytes}
use cable.Broker.Routes.{Totals}
use cable.Booter.Config.{is_empty}
use cable.Booter.Api.{Channels, Backend}
use cable.Booter.Api.Http.{
  Verb, Request, Endpoint, Shown, channels_of, handle_is_online, handle_kick_user,
  handle_list_channels, serve, ok_text, failure, status_ok, server_error, result, reply, aborted,
  JoinReq, Formats, Reason, Reply, kind_in, parse_kind, message_of, parse_message, when_ready,
  same_verb, given, with_parsed, show_json, done, shown, handle_send_to_all, handle_send_to_user,
  handle_send_to_channel, with_join, handle_join_channel, handle_leave_channel,
}
use cable.Booter.Api.Rpc.{
  message, replied, rpc_is_online, rpc_kick_user, rpc_list_channels, rpc_send_to_all,
  rpc_send_to_user, rpc_send_to_channel, rpc_join_channel, rpc_leave_channel,
}

-- A request that both interfaces take, other than one that kicks a node.
pub data Call : Type 0 where
  to_all : ℕ → Bytes → Call
  to_user : Bytes → ℕ → Bytes → Call
  to_channel : Bytes → ℕ → Bytes → Call
  join leave : Bytes → Channels → Call
  online kick lists : Bytes → Call

pub data Answer : Type 0 where
  totals : Totals → Answer
  nothing : Answer
  is_on : Bool → Answer
  joined_to : Channels → Answer

unfoldable pub labelled : {A : Type 0} → (A → Answer) → Result A → Result Answer
labelled g (ok a) = ok (g a)
labelled g (err e) = err e
labelled g panic = panic

-- The handler of the call.
unfoldable pub endpoint_of : Call → Endpoint
endpoint_of (to_all _ _) = Endpoint.send_to_all
endpoint_of (to_user _ _ _) = Endpoint.send_to_user
endpoint_of (to_channel _ _ _) = Endpoint.send_to_channel
endpoint_of (join _ _) = Endpoint.join_channel
endpoint_of (leave _ _) = Endpoint.leave_channel
endpoint_of (online _) = Endpoint.is_online
endpoint_of (kick _) = Endpoint.kick_user
endpoint_of (lists _) = Endpoint.list_channels

-- The method of its requests.
unfoldable pub verb_of : Call → Verb
verb_of (online _) = Verb.get
verb_of (kick _) = Verb.get
verb_of (lists _) = Verb.get
verb_of _ = Verb.post

-- A message comes in the header and the body, its target in the header, the channels to join or leave in the
-- body, and any other name in the query.
unfoldable pub Carries : {St : Type 0} → Formats St → Request → Call → Type 0
Carries f r (to_all kind p) = (parse_kind f r.header_kind ≡ some kind) × (r.body ≡ some p)
Carries f r (to_user uid kind p) =
    (r.header_uid ≡ uid) × (uid ≢ []) × (parse_kind f r.header_kind ≡ some kind) × (r.body ≡ some p)
Carries f r (to_channel channel kind p) =
    (r.header_channel ≡ channel)
    × (channel ≢ [])
    × (parse_kind f r.header_kind ≡ some kind)
    × (r.body ≡ some p)
Carries f r (join uid channels) =
    (f.decode_join r.body ≡ some (record { uid = uid; channels = channels }))
    × (uid ≢ [])
    × (channels ≢ [])
Carries f r (leave uid channels) =
    (f.decode_join r.body ≡ some (record { uid = uid; channels = channels }))
    × (uid ≢ [])
    × (channels ≢ [])
Carries f r (online uid) = (r.query_uid ≡ uid) × (uid ≢ [])
Carries f r (kick uid) = (r.query_uid ≡ uid) × (uid ≢ [])
Carries f r (lists uid) = (r.query_uid ≡ uid) × (uid ≢ [])

kind_in-small : (i : ℤ) (n : ℕ) → kind_in i ≡ some n → n % 2 ^ 8 ≡ n
unfolding kind_in
kind_in-small (pos m) n e = within (ltb 255 m) refl e
  where
    within : (b : Bool) → ltb 255 m ≡ b → (if b then none else some m) ≡ some n → n % 2 ^ 8 ≡ n
    within true t e = cc
    within false t e = ground (arith, ltb→le 255 m t, some-injective m n e)
kind_in-small (negsuc m) n e = cc

module _ {St : Type 0} (f : Formats St) where
  parse_kind-small : (k : Bytes) (n : ℕ) → parse_kind f k ≡ some n → n % 2 ^ 8 ≡ n
  unfolding parse_kind
  parse_kind-small k n =
      option_elim (λ (o : Option ℕ). o ≡ some n → n % 2 ^ 8 ≡ n) (f.parse_int (f.trim_space k)) _ _
        (λ _ e. cc) (λ i _. kind_in-small i n)

  parse_message-message :
      (r : Request) (kind : ℕ) (p : Bytes)
      → parse_kind f r.header_kind ≡ some kind
      → r.body ≡ some p
      → parse_message f r ≡ some (message kind p)
  unfolding parse_message message_of message
  parse_message-message r kind p e body =
      rw (parse_message, e, body, parse_kind-small r.header_kind kind e) refl

module _ {W St : Type 0} (f : Formats St) (b : Backend W St) where
  -- The call over gRPC.
  unfoldable pub rpc : Call → W → Result Answer × W
  rpc (to_all kind p) w = let (t, w') = rpc_send_to_all b kind p w in (labelled totals t, w')
  rpc (to_user uid kind p) w =
      let (t, w') = rpc_send_to_user b uid kind p w in (labelled totals t, w')
  rpc (to_channel channel kind p) w =
      let (t, w') = rpc_send_to_channel b channel kind p w in (labelled totals t, w')
  rpc (join uid channels) w =
      let (t, w') = rpc_join_channel b uid channels w in (labelled (λ _. nothing) t, w')
  rpc (leave uid channels) w =
      let (t, w') = rpc_leave_channel b uid channels w in (labelled (λ _. nothing) t, w')
  rpc (online uid) w = let (t, w') = rpc_is_online b uid w in (labelled is_on t, w')
  rpc (kick uid) w = let (t, w') = rpc_kick_user b uid w in (labelled (λ _. nothing) t, w')
  rpc (lists uid) w = let (t, w') = rpc_list_channels b uid w in (labelled joined_to t, w')

  -- What HTTP makes of an answer.
  unfoldable pub rendered : Result Answer × W → Reply × W
  rendered (ok (totals t), w) = show_json f b (result t) w
  rendered (ok (is_on on), w) = show_json f b (Shown.online on) w
  rendered (ok (joined_to cs), w) = show_json f b (channels_of cs) w
  rendered (ok nothing, w) = (reply status_ok ok_text, w)
  rendered (err e, w) = (reply server_error (failure e), w)
  rendered (panic, w) = (aborted, w)

  shown-rendered :
      (t : Result Totals) (w : W) → shown f b result t w ≡ rendered (labelled totals t, w)
  unfolding shown rendered labelled
  shown-rendered (ok t) w = refl
  shown-rendered (err e) w = refl
  shown-rendered panic w = refl

  listed-rendered :
      (t : Result Channels) (w : W) → shown f b channels_of t w ≡ rendered (labelled joined_to t, w)
  unfolding shown rendered labelled
  listed-rendered (ok t) w = refl
  listed-rendered (err e) w = refl
  listed-rendered panic w = refl

  done-rendered :
      (e : Option Error) (w : W) → done f b e w ≡ rendered (labelled (λ _. nothing) (replied e), w)
  unfolding done rendered labelled replied
  done-rendered none w = refl
  done-rendered (some e) w = refl

  ready_passes :
      (r : Request) (k : W → Reply × W) (w : W)
      → b.is_ready w ≡ true
      → r.verb ≡ Verb.post
      → when_ready f b Verb.post r k w ≡ k w
  unfolding when_ready same_verb
  ready_passes r k w e v = rw (when_ready, e, v) refl

  get_passes :
      (r : Request) (k : W → Reply × W) (w : W)
      → b.is_ready w ≡ true
      → r.verb ≡ Verb.get
      → when_ready f b Verb.get r k w ≡ k w
  unfolding when_ready same_verb
  get_passes r k w e v = rw (when_ready, e, v) refl

  pub given_passes :
      {A : Type 0} (x : List A) (reason : Reason) (k : W → Reply × W) (w : W)
      → x ≢ []
      → given f b x reason k w ≡ k w
  unfolding given is_empty
  given_passes [] reason k w e = absurd (e refl)
  given_passes (x ∷ xs) reason k w e = refl

  parsed_passes :
      {A : Type 0} {o : Option A} (a : A) (k : A → W → Reply × W) (w : W)
      → o ≡ some a
      → with_parsed f b o k w ≡ k a w
  unfolding with_parsed
  parsed_passes a k w e = ap (λ o. with_parsed f b o k w) e

  joined :
      (call : Bytes → Channels → W → Option Error × W) (q : JoinReq) (w : W)
      → q.uid ≢ []
      → q.channels ≢ []
      → with_join f b call q w
        ≡ rendered (
          labelled (λ _. nothing) (replied (call q.uid q.channels w).0),
          (call q.uid q.channels w).1,
        )
  unfolding with_join
  joined call q w u c =
      given_passes q.uid _ _ w u ∙ given_passes q.channels _ _ w c ∙ done-rendered _ _

  -- While the cluster is ready, a request over HTTP, with the right method, that carries a call has the effect
  -- and the answer of the same call over gRPC. The calls are those that both interfaces take, but for
  -- `KickNode`.
  pub serve-rpc :
      (c : Call) (r : Request) (w : W)
      → b.is_ready w ≡ true
      → r.verb ≡ verb_of c
      → Carries f r c
      → serve f b (endpoint_of c) r w ≡ rendered (rpc c w)
  unfolding serve endpoint_of Carries rpc handle_send_to_all handle_send_to_user
      handle_send_to_channel handle_join_channel handle_leave_channel verb_of handle_is_online
      handle_kick_user handle_list_channels rpc_is_online rpc_kick_user rpc_list_channels rendered
      labelled done rpc_send_to_all rpc_send_to_user rpc_send_to_channel rpc_join_channel
      rpc_leave_channel
  serve-rpc (to_all kind p) r w e v (k, body) =
      ready_passes r _ w e v
      ∙ parsed_passes (message kind p) _ w (parse_message-message f r kind p k body)
      ∙ shown-rendered _ _
  serve-rpc (to_user uid kind p) r w e v (u, some_uid, k, body) =
      ready_passes r _ w e v
      ∙ given_passes r.header_uid _ _ w (λ x. some_uid (sym u ∙ x))
      ∙ parsed_passes (message kind p) _ w (parse_message-message f r kind p k body)
      ∙ shown-rendered _ _
      ∙ ap (λ (x : Bytes). rendered (rpc (to_user x kind p) w)) u
  serve-rpc (to_channel channel kind p) r w e v (u, some_channel, k, body) =
      ready_passes r _ w e v
      ∙ given_passes r.header_channel _ _ w (λ x. some_channel (sym u ∙ x))
      ∙ parsed_passes (message kind p) _ w (parse_message-message f r kind p k body)
      ∙ shown-rendered _ _
      ∙ ap (λ (x : Bytes). rendered (rpc (to_channel x kind p) w)) u
  serve-rpc (join uid channels) r w e v (q, u, c) =
      ready_passes r _ w e v ∙ parsed_passes _ _ w q ∙ joined b.join_channel _ w u c
  serve-rpc (leave uid channels) r w e v (q, u, c) =
      ready_passes r _ w e v ∙ parsed_passes _ _ w q ∙ joined b.leave_channel _ w u c
  serve-rpc (online uid) r w e v (u, some_uid) =
      get_passes r _ w e v
      ∙ given_passes r.query_uid _ _ w (λ x. some_uid (sym u ∙ x))
      ∙ ap (λ (x : Bytes). rendered (rpc (online x) w)) u
  serve-rpc (kick uid) r w e v (u, some_uid) =
      get_passes r _ w e v
      ∙ given_passes r.query_uid _ _ w (λ x. some_uid (sym u ∙ x))
      ∙ ap (λ (x : Bytes). rendered (rpc (kick x) w)) u
  serve-rpc (lists uid) r w e v (u, some_uid) =
      get_passes r _ w e v
      ∙ given_passes r.query_uid _ _ w (λ x. some_uid (sym u ∙ x))
      ∙ listed-rendered _ _
      ∙ ap (λ (x : Bytes). rendered (rpc (lists x) w)) u
