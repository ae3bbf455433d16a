-- ===== src/Queue/Drain.antt =====
-- How the worker of internal/queue/queue.go comes to an end of what waits, and what becomes of it on
-- `Close`.
use mathlib.Core.Path.{subst, sym, ap, ◌∙◌}
use cable.Prelude.{
  ℕ, ◌+◌, ◌*◌, ◌≤◌, ◌≡◌, ◌⊎◌, inl, inr, true, false, List, [], ◌∷◌, ◌++◌, length, append-nil,
  false_true, if_elim, arith, refl,
}
use cable.Queue.Steps.{
  Worker, Push, Queue, run_jump, run_task, run_discarded, close, Work, Works, Step, Reach, Leads,
  here, on, done, turn,
}
use cable.Queue.Order.{IsFair, Work-IsFair, Reach-IsFair}

-- Twice what waits, and one more for a worker at the outer `select`.
unfoldable pub at : Worker → ℕ
at Worker.top = 1
at Worker.inner = 0
at Worker.stopped = 0

at-bound : (w : Worker) → at w ≤ 1
unfolding at
at-bound Worker.top = omega arith
at-bound Worker.inner = omega arith
at-bound Worker.stopped = omega arith

module _ {T : Type 0} where
  unfoldable pub work_left : Queue T → ℕ
  work_left q = 2 * (length q.jumps + length q.tasks) + at q.worker

  -- The worker of an open queue that has nothing left waits in the inner `select`.
  pub record IsDrained (q : Queue T) : Type 0 where
    pub waits : q.worker ≡ Worker.inner
    pub no_jumps : q.jumps ≡ []
    pub no_tasks : q.tasks ≡ []
    pub jumps_ran : q.ran_jumps ≡ q.sent_jumps
    pub tasks_ran : q.ran_tasks ≡ q.sent_tasks

  pub Work-closed : (q r : Queue T) → Work q r → r.closed ≡ q.closed
  unfolding run_jump run_task run_discarded
  Work-closed q r (Work.take_jump t rest w e s) = ap (λ (x : Queue T). x.closed) s
  Work-closed q r (Work.no_jump w e c s) = ap (λ (x : Queue T). x.closed) s
  Work-closed q r (Work.take_task t rest w e s) = ap (λ (x : Queue T). x.closed) s
  Work-closed q r (Work.take_discarded t rest w c e s) = ap (λ (x : Queue T). x.closed) s
  Work-closed q r (Work.stop w e c s) = ap (λ (x : Queue T). x.closed) s

  Work-work_left : (q r : Queue T) → q.closed ≡ false → Work q r → 1 + work_left r ≤ work_left q
  unfolding run_jump run_task at work_left
  Work-work_left q r o (Work.take_jump t rest w e s) =
      subst (λ (x : Queue T). 1 + work_left x ≤ work_left q) (sym s)
        (omega (arith, ap length e, at-bound q.worker))
  Work-work_left q r o (Work.no_jump w e c s) =
      subst (λ (x : Queue T). 1 + work_left x ≤ work_left q) (sym s) (omega (arith, ap at w))
  Work-work_left q r o (Work.take_task t rest w e s) =
      subst (λ (x : Queue T). 1 + work_left x ≤ work_left q) (sym s)
        (omega (arith, ap length e, at-bound q.worker))
  Work-work_left q r o (Work.take_discarded t rest w c e s) = false_true o c
  Work-work_left q r o (Work.stop w e c s) = false_true o c

  Works-closed : (q : Queue T) {k : ℕ} {r : Queue T} → Works q k r → r.closed ≡ q.closed
  Works-closed q done = refl
  Works-closed q (turn {k} {r} {s} p w) = Work-closed r s w ∙ Works-closed q p

  -- Whatever the `select`s choose, the worker of an open queue to which nothing more is sent makes at
  -- most twice as many turns as frames wait, and one more.
  pub Works-work_left :
      (q : Queue T) {k : ℕ} {r : Queue T}
      → q.closed ≡ false
      → Works q k r
      → k + work_left r ≤ work_left q
  Works-work_left q o done = omega arith
  Works-work_left q o (turn {k} {r} {s} p w) =
      omega (arith, Works-work_left q o p, Work-work_left r s (Works-closed q p ∙ o) w)

  -- A worker that has not stopped can make a turn or has nothing left.
  progress :
      (n : ℕ) (q : Queue T) (w : Worker) (js ts : List T)
      → IsFair n q
      → q.closed ≡ false
      → q.worker ≡ w
      → q.jumps ≡ js
      → q.tasks ≡ ts
      → IsDrained q ⊎ ((r : Queue T) × Work q r)
  progress n q Worker.top [] ts h o w j t = inr (_, Work.no_jump w j o refl)
  progress n q Worker.top (x ∷ js) ts h o w j t = inr (_, Work.take_jump x js (inl w) j refl)
  progress n q Worker.inner (x ∷ js) ts h o w j t = inr (_, Work.take_jump x js (inr w) j refl)
  progress n q Worker.inner [] (x ∷ ts) h o w j t = inr (_, Work.take_task x ts w t refl)
  progress n q Worker.inner [] [] h o w j t = inl (record {
    waits = w;
    no_jumps = j;
    no_tasks = t;
    jumps_ran = sym (h.jumped ∙ ap (◌++◌ q.ran_jumps) j ∙ append-nil q.ran_jumps);
    tasks_ran = sym (
        h.tasked
        ∙ ap (λ (xs : List T). q.ran_tasks ++ (xs ++ q.discarded)) t
        ∙ ap (◌++◌ q.ran_tasks) (h.kept o)
        ∙ append-nil q.ran_tasks);
  })
  progress n q Worker.stopped js ts h o w j t = false_true o (h.ended w).0

  Works-IsFair : (n : ℕ) (q : Queue T) {k : ℕ} {r : Queue T} → IsFair n q → Works q k r → IsFair n r
  Works-IsFair n q h done = h
  Works-IsFair n q h (turn {k} {r} {s} p w) = Work-IsFair n r s (Works-IsFair n q h p) w

  -- In an open queue that was reached, and to which nothing more is sent, whatever the `select`s choose:
  -- the worker makes at most twice as many turns as frames wait, and one more, and after each it can make
  -- another turn, or waits for more, with every frame that was sent run.
  pub Reach-drains :
      (n : ℕ) (q : Queue T) {k : ℕ} {r : Queue T}
      → Reach n q
      → q.closed ≡ false
      → Works q k r
      → (k ≤ 2 * (length q.jumps + length q.tasks) + 1) × (IsDrained r ⊎ ((s : Queue T) × Work r s))
  unfolding work_left
  Reach-drains n q {k} {r} p o w = (
    omega (arith, Works-work_left q o w, at-bound q.worker),
    progress n r _ _ _ (Works-IsFair n q (Reach-IsFair n p) w) (Works-closed q w ∙ o) refl refl
        refl,
  )

  late_send :
      (q : Queue T) (others : List (Push T)) (t : T)
      → q.closed ≡ false
      → q.pushes ≡ Push.checked true t ∷ others
      → (r : Queue T) × Leads (close q) r × (r.panicked ≡ true)
  unfolding close
  late_send q others t o e =
      if_elim (λ (x : Queue T). (r : Queue T) × Leads x r × (r.panicked ≡ true)) q.closed _ _
        (λ c. false_true o c)
        (λ _. (
          _,
          on (on here (Step.reach_jumps [] others t e refl))
              (Step.put_closed [] others t refl refl refl),
          refl,
        ))

  -- A call of `Push` with a jump, past its test of `closed`.
  abbrev pub past_test : T → Queue T → Queue T
  past_test t q = record q { pushes = Push.checked true t ∷ q.pushes }

  -- An open queue that was reached has not panicked. A call of `Push` with a jump can pass its test on it,
  -- and when `Close` comes before the call's send, the send can panic, on a closed channel.
  pub Reach-panics :
      (n : ℕ) (q : Queue T) (t : T)
      → Reach n q
      → q.closed ≡ false
      → (q.panicked ≡ false)
        × Step q (past_test t q)
        × Step (past_test t q) (close (past_test t q))
        × ((r : Queue T) × Leads (close (past_test t q)) r × (r.panicked ≡ true))
  Reach-panics n q t p o = (
    (Reach-IsFair n p).unbroken o,
    Step.call true t o refl,
    Step.shut refl,
    late_send (past_test t q) q.pushes t o refl,
  )
