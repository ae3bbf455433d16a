-- ===== src/Network/Overlaps.antt =====
-- Requests of internal/network/conn.go that are under way at once.
use mathlib.Core.Logic.{if_pos}
use native.Mathlib.Decide.{ℕ_discrete}
use cable.Prelude.{
  ℕ, ◌+◌, ◌/◌, ◌%◌, ◌^◌, ◌<◌, ◌≡◌, refl, sym, ap, ◌∙◌, arith, Bool, false, Option, none, some,
  if_elim, false_true, ◌≢◌, ◌==◌, List, [],
}
use cable.Errors.{Error, Result, ok, err, panic}
use cable.GoMap
use cable.GoMap.{Bytes, lookup-insert, lookup-delete}
use cable.Packet.Types.{Packet, Request, new_request}
use cable.Network.Conn.{Conn, Waits, push_frame, send_packet}
use cable.Network.Requests.{
  begin_ping, end_ping, number_request, register, begin_numbered, begin_request, end_request,
}
use cable.Network.Fair.{Same, Same-refl, send_packet-Same}

module _ (n : ℕ) where
  Same-trans : (c d e : Conn) → Same n c d → Same n d e → Same n c e
  Same-trans c d e x y = record {
    same_id = y.same_id ∙ x.same_id;
    same_closed = y.same_closed ∙ x.same_closed;
    live = λ l. y.live (x.live l);
  }

  requested :
      (c : Conn) (i m : ℕ) (ts : List (ℕ × ℕ))
      → Same n c (record c { request_id = i; request_tasks = ts; chans = m })
  requested c i m ts = record {
    same_id = refl;
    same_closed = refl;
    live = λ l. record { reached = l.reached; in_step = l.in_step };
  }

  number_request-Same : (p : Request) (c : Conn) → Same n c (number_request p c).1
  unfolding number_request
  number_request-Same p c =
      if_elim (λ (r : Request × Conn). Same n c r.1) (p.id == 0) _ _
        (λ _. requested c _ c.chans c.request_tasks) (λ _. Same-refl n c)

  begin_numbered-Same : (w : Waits Bytes) (r : Request × Conn) → Same n r.1 (begin_numbered w r).1
  unfolding begin_numbered register
  begin_numbered-Same w (p, c) =
      Same-trans c _ _ (requested c c.request_id (c.chans + 1) _)
        (send_packet-Same n w (Packet.request p) _)

  pub begin_request-Same :
      (w : Waits Bytes) (p : Request) (c : Conn) → Same n c (begin_request w p c).1
  unfolding begin_request
  begin_request-Same w p c =
      if_elim (λ (r : (Option Error × ℕ × ℕ) × Conn). Same n c r.1) c.closed _ _
        (λ _. Same-refl n c)
        (λ _.
          Same-trans c _ _ (number_request-Same p c) (begin_numbered-Same w (number_request p c)))

  pub end_request-Same : (id : ℕ) (c : Conn) → Same n c (end_request id c)
  unfolding end_request
  end_request-Same id c = requested c c.request_id c.chans _

module _ (n : ℕ) where
  pinging : (c : Conn) (o : Option Bool) → Same n c (record c { ping_chan = o })
  pinging c o = record {
    same_id = refl;
    same_closed = refl;
    live = λ l. record { reached = l.reached; in_step = l.in_step };
  }

  pub begin_ping-Same : (w : Waits Bytes) (c : Conn) → Same n c (begin_ping w c).1
  unfolding begin_ping
  begin_ping-Same w c =
      if_elim (λ (r : Option Error × Conn). Same n c r.1) c.closed _ _ (λ _. Same-refl n c)
        (λ _. Same-trans n c _ _ (pinging c (some false)) (send_packet-Same n w _ _))

  pub end_ping-Same : (c : Conn) → Same n c (end_ping c)
  unfolding end_ping
  end_ping-Same c = pinging c none

-- A send leaves the requests alone.
record SameRequests (c d : Conn) : Type 0 where
  same_number : d.request_id ≡ c.request_id
  same_tasks : d.request_tasks ≡ c.request_tasks
  same_chans : d.chans ≡ c.chans
  same_end : d.closed ≡ c.closed

kept_requests : (c : Conn) → SameRequests c c
kept_requests c = record {
  same_number = refl;
  same_tasks = refl;
  same_chans = refl;
  same_end = refl;
}

-- The number of the next request without an id.
abbrev next_id : ℕ → ℕ
next_id i = (i + 1) % 2 ^ 64 / 65535 % 2 ^ 16

first_id : (i : ℕ) → i < 65533 → next_id i ≡ 0
first_id i few = omega (arith, few)

second_id : (i j : ℕ) → i < 65533 → j ≡ (i + 1) % 2 ^ 64 → next_id j ≡ 0
second_id i j few e = omega (arith, few, e)

module _ (w : Waits Bytes) where
  push_frame-SameRequests :
      (jump : Bool) (r : Result Bytes) (c : Conn) → SameRequests c (push_frame w jump r c).1
  unfolding push_frame
  push_frame-SameRequests jump (ok bytes) c = record {
    same_number = refl;
    same_tasks = refl;
    same_chans = refl;
    same_end = refl;
  }
  push_frame-SameRequests jump (err e) c = kept_requests c
  push_frame-SameRequests jump panic c = kept_requests c

  send_packet-SameRequests : (p : Packet) (c : Conn) → SameRequests c (send_packet w p c).1
  unfolding send_packet
  send_packet-SameRequests p c =
      if_elim (λ (r : Option Error × Conn). SameRequests c r.1) c.closed _ _ (λ _. kept_requests c)
        (λ _. push_frame-SameRequests false _ c)

  record Begun (c : Conn) (r : (Option Error × ℕ × ℕ) × Conn) : Type 0 where
    begun_id : r.0.1 ≡ next_id c.request_id
    begun_chan : r.0.2 ≡ c.chans
    begun_number : r.1.request_id ≡ (c.request_id + 1) % 2 ^ 64
    begun_tasks :
        r.1.request_tasks ≡ GoMap.insert ℕ_discrete (next_id c.request_id) c.chans c.request_tasks
    begun_chans : r.1.chans ≡ c.chans + 1
    begun_end : r.1.closed ≡ c.closed

  begin_request-Begun :
      (method body : Bytes) (c : Conn)
      → c.closed ≡ false
      → Begun c (begin_request w (new_request method body) c)
  unfolding begin_request begin_numbered number_request register new_request
  begin_request-Begun method body c o =
      if_elim (Begun c) c.closed _ _ (λ e. false_true o e)
        (λ _.
          let k =
            send_packet-SameRequests
              (Packet.request
                (record { props = []; id = next_id c.request_id; method = method; body = body }))
              (record c {
                request_id = (c.request_id + 1) % 2 ^ 64;
                request_tasks =
                    GoMap.insert ℕ_discrete (next_id c.request_id) c.chans c.request_tasks;
                chans = c.chans + 1;
              }) in
          record {
            begun_id = refl;
            begun_chan = refl;
            begun_number = k.same_number;
            begun_tasks = k.same_tasks;
            begun_chans = k.same_chans;
            begun_end = k.same_end;
          })

  -- Two requests without an id, of which the second is made before the first is answered, on an open
  -- connection that has numbered less than 65533 requests before: both get the id 0, the response with
  -- that id goes to the second call, and once either call ends it goes to none.
  pub overlapping_requests :
      (m_a b_a m_b b_b : Bytes) (c : Conn)
      → c.closed ≡ false
      → c.request_id < 65533
      → (let (a, d) = begin_request w (new_request m_a b_a) c in
          let (b, e) = begin_request w (new_request m_b b_b) d in
          (a.1 ≡ 0)
          × (b.1 ≡ 0)
          × (a.2 ≢ b.2)
          × (GoMap.lookup ℕ_discrete 0 e.request_tasks ≡ some b.2)
          × (GoMap.lookup ℕ_discrete 0 (end_request 0 e).request_tasks ≡ none))
  unfolding end_request
  overlapping_requests m_a b_a m_b b_b c o few =
      let (a, d) = begin_request w (new_request m_a b_a) c in
      let (b, e) = begin_request w (new_request m_b b_b) d in
      let x = begin_request-Begun m_a b_a c o in
      let y = begin_request-Begun m_b b_b d (x.begun_end ∙ o) in
      let zero_id = second_id c.request_id d.request_id few x.begun_number in
      (
        x.begun_id ∙ first_id c.request_id few,
        y.begun_id ∙ zero_id,
        (λ p. absurd (omega (arith, p, x.begun_chan, y.begun_chan, x.begun_chans))),
        ap (GoMap.lookup ℕ_discrete 0) y.begun_tasks
            ∙ lookup-insert ℕ_discrete (next_id d.request_id) 0 d.chans d.request_tasks
            ∙ if_pos (ℕ_discrete (next_id d.request_id) 0) zero_id _ _
            ∙ ap some (sym y.begun_chan),
        lookup-delete ℕ_discrete 0 0 e.request_tasks ∙ if_pos (ℕ_discrete 0 0) refl _ _,
      )
