-- ===== src/Booter/Api/Refusals.antt =====
-- What the HTTP handlers of cmd/cable/api_http.go do when they refuse a request.
use cable.Prelude.{
  ℕ, ◌≡◌, ◌≢◌, ◌==◌, refl, Bool, true, false, List, Option, none, some, ◌&&◌, leb, ltb, if_elim,
  option_elim, false_true,
}
use cable.Errors.{Error, Result, ok, err, panic}
use cable.GoMap.{Bytes}
use cable.Booter.Config.{is_empty}
use cable.Booter.Api.{Channels, Backend}
use cable.Booter.Api.Http.{
  Verb, Request, parse_message, JoinReq, Shown, Formats, Reason, Reply, reply, aborted, Endpoint,
  same_verb, when_ready, given, with_parsed, show_json, done, shown, handle_health, handle_inspect,
  handle_is_online, handle_kick_user, kick_id, handle_kick_node, handle_send_to_all,
  handle_send_to_user, handle_send_to_channel, with_join, handle_join_channel, handle_leave_channel,
  handle_list_channels, handle_list_users, serve, text, not_ready, server_error,
}

-- A status code from 400 to 499.
unfoldable pub is_refusal : Reply → Bool
is_refusal (reply status _) = leb 400 status && ltb status 500
is_refusal aborted = false

module _ {W : Type 0} where
  -- If it is a refusal, the state is as before.
  Keeps : W → Reply × W → Type 0
  Keeps w (answer, w') = is_refusal answer ≡ true → w' ≡ w

  never : (w : W) (x : Reply × W) → is_refusal x.0 ≡ false → Keeps w x
  unfolding Keeps
  never w x e r = false_true e r

module _ {W St : Type 0} (f : Formats St) (b : Backend W St) where
  show_json-never : (v : Shown St) (w : W) → is_refusal (show_json f b v w).0 ≡ false
  unfolding show_json is_refusal
  show_json-never v w =
      option_elim (λ (x : Reply × W). is_refusal x.0 ≡ false) (f.marshal v) _ _ (λ _. refl)
        (λ bytes _. refl)

  shown-never :
      {A : Type 0} (view : A → Shown St) (r : Result A) (w : W)
      → is_refusal (shown f b view r w).0 ≡ false
  unfolding shown is_refusal
  shown-never view (ok a) w = show_json-never (view a) w
  shown-never view (err e) w = refl
  shown-never view panic w = refl

  done-never : (e : Option Error) (w : W) → is_refusal (done f b e w).0 ≡ false
  unfolding done is_refusal
  done-never none w = refl
  done-never (some e) w = refl

  when_ready-Keeps :
      (verb : Verb) (r : Request) (k : W → Reply × W) (w : W)
      → Keeps w (k w)
      → Keeps w (when_ready f b verb r k w)
  unfolding when_ready Keeps
  when_ready-Keeps verb r k w h =
      if_elim (Keeps w) (b.is_ready w) _ _
        (λ _. if_elim (Keeps w) (same_verb r.verb verb) _ _ (λ _. h) (λ _ _. refl)) (λ _ _. refl)

  given-Keeps :
      {A : Type 0} (x : List A) (reason : Reason) (k : W → Reply × W) (w : W)
      → Keeps w (k w)
      → Keeps w (given f b x reason k w)
  unfolding given Keeps
  given-Keeps x reason k w h = if_elim (Keeps w) (is_empty x) _ _ (λ _ _. refl) (λ _. h)

  with_parsed-Keeps :
      {A : Type 0} (o : Option A) (k : A → W → Reply × W) (w : W)
      → ((a : A) → Keeps w (k a w))
      → Keeps w (with_parsed f b o k w)
  unfolding with_parsed Keeps
  with_parsed-Keeps none k w h = λ _. refl
  with_parsed-Keeps (some a) k w h = h a

  kick_id-Keeps : (id : ℕ) (w : W) → Keeps w (kick_id f b id w)
  unfolding kick_id Keeps
  kick_id-Keeps id w =
      if_elim (Keeps w) (id == 0) _ _ (λ _ _. refl) (λ _. never w _ (done-never _ _))

  with_join-Keeps :
      (call : Bytes → Channels → W → Option Error × W) (q : JoinReq) (w : W)
      → Keeps w (with_join f b call q w)
  unfolding with_join
  with_join-Keeps call q w =
      given-Keeps q.uid Reason.uid_required _ w
        (given-Keeps q.channels Reason.channels_required _ w (never w _ (done-never _ _)))

  kept : (e : Endpoint) (r : Request) (w : W) → Keeps w (serve f b e r w)
  unfolding serve handle_health handle_inspect handle_is_online handle_kick_user handle_kick_node
      handle_send_to_all handle_send_to_user handle_send_to_channel handle_join_channel
      handle_leave_channel handle_list_channels handle_list_users is_refusal
  kept Endpoint.health r w =
      if_elim (Keeps w) (b.is_ready w) _ _ (λ _. never w _ refl) (λ _. never w _ refl)
  kept Endpoint.inspect r w = never w _ (shown-never _ _ _)
  kept Endpoint.is_online r w =
      when_ready-Keeps _ r _ w (given-Keeps r.query_uid _ _ w (never w _ (show_json-never _ _)))
  kept Endpoint.kick_user r w =
      when_ready-Keeps _ r _ w (given-Keeps r.query_uid _ _ w (never w _ (done-never none _)))
  kept Endpoint.kick_node r w =
      when_ready-Keeps _ r _ w
        (with_parsed-Keeps (f.decode_kick r.body) _ w (λ id. kick_id-Keeps id w))
  kept Endpoint.send_to_all r w =
      when_ready-Keeps _ r _ w
        (with_parsed-Keeps (parse_message f r) _ w (λ m. never w _ (shown-never _ _ _)))
  kept Endpoint.send_to_user r w = when_ready-Keeps _ r _ w (
      given-Keeps r.header_uid _ _ w
        (with_parsed-Keeps (parse_message f r) _ w (λ m. never w _ (shown-never _ _ _))))
  kept Endpoint.send_to_channel r w = when_ready-Keeps _ r _ w (
      given-Keeps r.header_channel _ _ w
        (with_parsed-Keeps (parse_message f r) _ w (λ m. never w _ (shown-never _ _ _))))
  kept Endpoint.join_channel r w =
      when_ready-Keeps _ r _ w
        (with_parsed-Keeps (f.decode_join r.body) _ w (λ q. with_join-Keeps b.join_channel q w))
  kept Endpoint.leave_channel r w =
      when_ready-Keeps _ r _ w
        (with_parsed-Keeps (f.decode_join r.body) _ w (λ q. with_join-Keeps b.leave_channel q w))
  kept Endpoint.list_channels r w =
      when_ready-Keeps _ r _ w (given-Keeps r.query_uid _ _ w (never w _ (shown-never _ _ _)))
  kept Endpoint.list_users r w =
      when_ready-Keeps _ r _ w
        (with_parsed-Keeps (f.parse_uint r.query_node_id) _ w (λ id. never w _ (shown-never _ _ _)))

  -- A handler that refuses a request, with a status from 400 to 499, has not changed the state of the
  -- program.
  pub serve-refused :
      (e : Endpoint) (r : Request) (w : W)
      → is_refusal (serve f b e r w).0 ≡ true
      → (serve f b e r w).1 ≡ w
  unfolding Keeps
  serve-refused e r w = kept e r w

  stopped :
      (k : W → Reply × W) (verb : Verb) (r : Request) (w : W)
      → b.is_ready w ≡ false
      → when_ready f b verb r k w ≡ (reply server_error (text not_ready), w)
  unfolding when_ready
  stopped k verb r w e = rw (when_ready, e) refl

  -- While the cluster is not ready, each handler but that of `/inspect` answers with an internal error and
  -- changes nothing.
  pub serve-not_ready :
      (e : Endpoint) (r : Request) (w : W)
      → b.is_ready w ≡ false
      → e ≢ Endpoint.inspect
      → serve f b e r w ≡ (reply server_error (text not_ready), w)
  unfolding serve handle_health handle_inspect handle_is_online handle_kick_user handle_kick_node
      handle_send_to_all handle_send_to_user handle_send_to_channel handle_join_channel
      handle_leave_channel handle_list_channels handle_list_users
  serve-not_ready Endpoint.health r w e k = rw (handle_health, e) refl
  serve-not_ready Endpoint.inspect r w e k = absurd (k refl)
  serve-not_ready Endpoint.is_online r w e k = stopped _ _ r w e
  serve-not_ready Endpoint.kick_user r w e k = stopped _ _ r w e
  serve-not_ready Endpoint.kick_node r w e k = stopped _ _ r w e
  serve-not_ready Endpoint.send_to_all r w e k = stopped _ _ r w e
  serve-not_ready Endpoint.send_to_user r w e k = stopped _ _ r w e
  serve-not_ready Endpoint.send_to_channel r w e k = stopped _ _ r w e
  serve-not_ready Endpoint.join_channel r w e k = stopped _ _ r w e
  serve-not_ready Endpoint.leave_channel r w e k = stopped _ _ r w e
  serve-not_ready Endpoint.list_channels r w e k = stopped _ _ r w e
  serve-not_ready Endpoint.list_users r w e k = stopped _ _ r w e
