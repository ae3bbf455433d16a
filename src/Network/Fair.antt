-- ===== src/Network/Fair.antt =====
-- The sending queue of a connection of internal/network/conn.go is one that internal/queue/queue.go can
-- reach, whatever is sent.
use cable.Prelude.{ℕ, ◌≡◌, refl, ◌∙◌, Bool, true, false, if_elim, option_elim, ltb→lt, [], Option}
use cable.Errors.{Error, Result, ok, err, panic}
use cable.GoMap.{Bytes}
use cable.Packet.Types.{Packet, Identity, Response}
use cable.Queue.Steps.{
  Queue, Push, Reach, Step, next, start, max_jumps, new_queue, send_jump, send_task,
}
use cable.Queue.Steps
use cable.Network.Conn.{
  Conn, Waits, has_room, put, push_late, push, new_conn, push_frame, jump_packet, send_packet, shut,
}
use cable.Network.Requests.{recv_response, recv_pong}
use cable.GoMap
use native.Mathlib.Decide.{ℕ_discrete}

-- A call of `Push` that finds the queue open and with room takes three steps.
module _ {T : Type 0} where
  put-Reach :
      (n : ℕ) (jump : Bool) (t : T) (q : Queue T)
      → Reach n q
      → q.closed ≡ false
      → has_room jump q ≡ true
      → Reach n (put jump t q)
  unfolding has_room put send_jump send_task
  put-Reach n true t q p o r =
      next (next (next p (Step.call true t o refl)) (Step.reach_jumps [] q.pushes t refl refl))
        (Step.put_jump [] q.pushes t refl o (ltb→lt _ _ r) refl)
  put-Reach n false t q p o r =
      next (next (next p (Step.call false t o refl)) (Step.reach_tasks [] q.pushes t refl o refl))
        (Step.put_task [] q.pushes t refl o (ltb→lt _ _ r) refl)

  put-closed : (jump : Bool) (t : T) (q : Queue T) → (put jump t q).closed ≡ q.closed
  unfolding put send_jump send_task
  put-closed true t q = refl
  put-closed false t q = refl

  module _ (w : Waits T) where
    Kept : ℕ → Queue T → Option Error × Queue T → Type 0
    Kept n q (e, r) = Reach n r × (r.closed ≡ q.closed)

    push_late-Kept :
        (n : ℕ) (jump : Bool) (t : T) (q : Queue T)
        → Reach n q
        → q.closed ≡ false
        → Kept n q (push_late w jump t q)
    unfolding push_late Kept
    push_late-Kept n jump t q p o =
        option_elim (Kept n q) (w.wait jump q) _ _ (λ e. (p, refl))
          (λ r e. (
            put-Reach n jump t r (w.wait-Reach n jump q r e p) ((w.wait-open jump q r e).0 ∙ o)
                (w.wait-open jump q r e).1,
            put-closed jump t r ∙ (w.wait-open jump q r e).0,
          ))

    -- A call of `Push` leaves the queue in a state that the queue's steps reach, and as open as it was.
    push-Kept : (n : ℕ) (jump : Bool) (t : T) (q : Queue T) → Reach n q → Kept n q (push w jump t q)
    unfolding push Kept
    push-Kept n jump t q p =
        if_elim (Kept n q) q.closed _ _ (λ c. (p, refl))
          (λ o.
            if_elim (Kept n q) (has_room jump q) _ _
              (λ r. (put-Reach n jump t q p o r, put-closed jump t q))
              (λ r. push_late-Kept n jump t q p o))

-- The queue has been reached, and it is open as long as the connection is.
pub record IsLive (n : ℕ) (c : Conn) : Type 0 where
  pub reached : Reach n c.queue
  pub in_step : c.queue.closed ≡ c.closed

-- Nothing that the server looks at has changed.
pub record Same (n : ℕ) (c d : Conn) : Type 0 where
  pub same_id : d.id ≡ c.id
  pub same_closed : d.closed ≡ c.closed
  pub live : IsLive n c → IsLive n d

module _ (n : ℕ) where
  pub Same-refl : (c : Conn) → Same n c c
  Same-refl c = record { same_id = refl; same_closed = refl; live = λ l. l }

  module _ (w : Waits Bytes) where
    push_frame-Same :
        (jump : Bool) (r : Result Bytes) (c : Conn) → Same n c (push_frame w jump r c).1
    unfolding push_frame Kept
    push_frame-Same jump (ok bytes) c = record {
      same_id = refl;
      same_closed = refl;
      live = λ l. record {
        reached = (push-Kept w n jump bytes c.queue l.reached).0;
        in_step = (push-Kept w n jump bytes c.queue l.reached).1 ∙ l.in_step;
      };
    }
    push_frame-Same jump (err e) c = Same-refl c
    push_frame-Same jump panic c = Same-refl c

    pub jump_packet-Same : (p : Packet) (c : Conn) → Same n c (jump_packet w p c).1
    unfolding jump_packet
    jump_packet-Same p c =
        if_elim (λ (r : Option Error × Conn). Same n c r.1) c.closed _ _ (λ e. Same-refl c)
          (λ e. push_frame-Same true _ c)

    pub send_packet-Same : (p : Packet) (c : Conn) → Same n c (send_packet w p c).1
    unfolding send_packet
    send_packet-Same p c =
        if_elim (λ (r : Option Error × Conn). Same n c r.1) c.closed _ _ (λ e. Same-refl c)
          (λ e. push_frame-Same false _ c)

  pub recv_response-Same : (p : Response) (c : Conn) → Same n c (recv_response p c)
  unfolding recv_response
  recv_response-Same p c =
      option_elim (Same n c) (GoMap.lookup ℕ_discrete p.id c.request_tasks) _ _ (λ e. Same-refl c)
        (λ ch e. record {
          same_id = refl;
          same_closed = refl;
          live = λ l. record { reached = l.reached; in_step = l.in_step };
        })

  pub recv_pong-Same : (c : Conn) → Same n c (recv_pong c)
  unfolding recv_pong
  recv_pong-Same c =
      option_elim (Same n c) c.ping_chan _ _ (λ e. Same-refl c)
        (λ b e. record {
          same_id = refl;
          same_closed = refl;
          live = λ l. record { reached = l.reached; in_step = l.in_step };
        })

  pub shut-IsLive : (c : Conn) → IsLive n c → IsLive n (shut c)
  unfolding shut Steps.close
  shut-IsLive c l = record {
    reached = next l.reached (Step.shut refl);
    in_step =
        if_elim (λ (q : Queue Bytes). q.closed ≡ true) c.queue.closed _ _ (λ e. e) (λ _. refl);
  }

  pub new_conn-IsLive : (id : Identity) (ip : Bytes) → IsLive n (new_conn n id ip)
  unfolding new_conn new_queue
  new_conn-IsLive id ip = record { reached = start; in_step = refl }
