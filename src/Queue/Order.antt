-- ===== src/Queue/Order.antt =====
-- What is true of internal/queue/queue.go in every interleaving.
use mathlib.Core.Path.{subst, sym, ap, ◌∙◌}
use cable.Prelude.{
  ℕ, ◌≤◌, ◌<◌, ◌≡◌, Bool, true, false, List, [], ◌∷◌, ◌++◌, length, length-append, append_assoc,
  append-nil, if_elim, false_true, arith, refl,
}
use cable.Queue.Steps.{
  Worker, Push, Queue, max_jumps, new_queue, run_jump, run_task, send_jump, send_task,
  run_discarded, send_discarded, close, Work, Step, Reach, start, next,
}

-- What was sent is what has run, what waits and what `Close` discarded, in this order, of which an open queue
-- has discarded nothing and a closed one has no task that waits; the channels hold no more than their
-- capacities; a worker that has stopped has left no jump, and stops on a closed queue only, as only a
-- closed queue panics.
pub record IsFair {T : Type 0} (n : ℕ) (q : Queue T) : Type 0 where
  pub size : q.capacity ≡ n
  pub jumped : q.sent_jumps ≡ q.ran_jumps ++ q.jumps
  pub tasked : q.sent_tasks ≡ q.ran_tasks ++ (q.tasks ++ q.discarded)
  pub kept : q.closed ≡ false → q.discarded ≡ []
  pub dropped : q.closed ≡ true → q.tasks ≡ []
  pub few_jumps : length q.jumps ≤ max_jumps
  pub few_tasks : length (q.tasks ++ q.discarded) ≤ n
  pub unbroken : q.closed ≡ false → q.panicked ≡ false
  pub ended : q.worker ≡ Worker.stopped → (q.closed ≡ true) × (q.jumps ≡ [])

running : {A : Type 0} → Worker.top ≡ Worker.stopped → A
running e = cc

module _ {T : Type 0} where
  -- The first of what waits goes behind what has run.
  moved :
      (sent ran waits rest : List T) (t : T)
      → sent ≡ ran ++ waits
      → waits ≡ t ∷ rest
      → sent ≡ (ran ++ t ∷ []) ++ rest
  moved sent ran waits rest t e w = e ∙ ap (◌++◌ ran) w ∙ sym (append_assoc ran (t ∷ []) rest)

  -- What is sent goes behind what waits.
  joined :
      (sent ran waits : List T) (t : T)
      → sent ≡ ran ++ waits
      → sent ++ t ∷ [] ≡ ran ++ (waits ++ t ∷ [])
  joined sent ran waits t e = ap (λ (xs : List T). xs ++ t ∷ []) e ∙ append_assoc ran waits (t ∷ [])

  past_nil :
      (waits discarded : List T) (t : T)
      → discarded ≡ []
      → (waits ++ discarded) ++ t ∷ [] ≡ (waits ++ t ∷ []) ++ discarded
  past_nil waits discarded t e =
      subst (λ (d : List T). (waits ++ d) ++ t ∷ [] ≡ (waits ++ t ∷ []) ++ d) (sym e)
        (ap (λ (xs : List T). xs ++ t ∷ []) (append-nil waits) ∙ sym (append-nil (waits ++ t ∷ [])))

  cons_nil : {A : Type 0} {t : T} {rest : List T} → ◌≡◌ {A = List T} (t ∷ rest) [] → A
  cons_nil e = cc

  -- Whatever moves, but for the worker's end and `Close`, keeps what the worker has left.
  same :
      (n : ℕ) (q : Queue T) (ps : List (Push T)) (b : Bool)
      → (q.closed ≡ false → b ≡ false)
      → IsFair n q
      → IsFair n (record q { pushes = ps; panicked = b })
  same n q ps b u h = record {
    size = h.size;
    jumped = h.jumped;
    tasked = h.tasked;
    few_jumps = h.few_jumps;
    few_tasks = h.few_tasks;
    kept = h.kept;
    dropped = h.dropped;
    unbroken = u;
    ended = h.ended;
  }

  run_jump-IsFair :
      (n : ℕ) (q : Queue T) (t : T) (rest : List T)
      → IsFair n q
      → q.jumps ≡ t ∷ rest
      → IsFair n (run_jump t rest q)
  unfolding run_jump
  run_jump-IsFair n q t rest h e = record {
    size = h.size;
    jumped = moved q.sent_jumps q.ran_jumps q.jumps rest t h.jumped e;
    tasked = h.tasked;
    kept = h.kept;
    dropped = h.dropped;
    unbroken = h.unbroken;
    few_jumps = omega (arith, h.few_jumps, ap length e);
    few_tasks = h.few_tasks;
    ended = λ w. running w;
  }

  run_task-IsFair :
      (n : ℕ) (q : Queue T) (t : T) (rest : List T)
      → IsFair n q
      → q.tasks ≡ t ∷ rest
      → IsFair n (run_task t rest q)
  unfolding run_task
  run_task-IsFair n q t rest h e = record {
    size = h.size;
    jumped = h.jumped;
    tasked =
        moved q.sent_tasks q.ran_tasks (q.tasks ++ q.discarded) (rest ++ q.discarded) t h.tasked
          (ap (λ (xs : List T). xs ++ q.discarded) e);
    kept = h.kept;
    dropped = λ c. cons_nil (sym e ∙ h.dropped c);
    unbroken = h.unbroken;
    few_jumps = h.few_jumps;
    few_tasks = omega (
      arith,
      h.few_tasks,
      ap length e,
      length-append q.tasks q.discarded,
      length-append rest q.discarded,
    );
    ended = λ w. running w;
  }

  run_discarded-IsFair :
      (n : ℕ) (q : Queue T) (t : T) (rest : List T)
      → IsFair n q
      → q.closed ≡ true
      → q.discarded ≡ t ∷ rest
      → IsFair n (run_discarded t rest q)
  unfolding run_discarded
  run_discarded-IsFair n q t rest h c e = record {
    size = h.size;
    jumped = h.jumped;
    tasked =
        moved q.sent_tasks q.ran_tasks (q.tasks ++ q.discarded) rest t h.tasked
          (ap (λ (xs : List T). xs ++ q.discarded) (h.dropped c) ∙ e)
        ∙ ap (λ (xs : List T). (q.ran_tasks ++ t ∷ []) ++ (xs ++ rest)) (sym (h.dropped c));
    kept = λ o. false_true o c;
    dropped = h.dropped;
    unbroken = h.unbroken;
    few_jumps = h.few_jumps;
    few_tasks = omega (
      arith,
      h.few_tasks,
      ap length e,
      length-append q.tasks q.discarded,
      length-append q.tasks rest,
    );
    ended = λ w. running w;
  }

  send_jump-IsFair :
      (n : ℕ) (q : Queue T) (t : T) (ps : List (Push T))
      → IsFair n q
      → q.closed ≡ false
      → length q.jumps < max_jumps
      → IsFair n (send_jump t ps q)
  unfolding send_jump
  send_jump-IsFair n q t ps h c room = record {
    size = h.size;
    jumped = joined q.sent_jumps q.ran_jumps q.jumps t h.jumped;
    tasked = h.tasked;
    kept = h.kept;
    dropped = h.dropped;
    unbroken = h.unbroken;
    few_jumps = omega (arith, length-append q.jumps (t ∷ []), room);
    few_tasks = h.few_tasks;
    ended = λ w. open_ended (h.ended w).0;
  }
    where
      open_ended : {A : Type 0} → q.closed ≡ true → A
      open_ended e = cc

  send_task-IsFair :
      (n : ℕ) (q : Queue T) (t : T) (ps : List (Push T))
      → IsFair n q
      → q.closed ≡ false
      → length q.tasks < q.capacity
      → IsFair n (send_task t ps q)
  unfolding send_task
  send_task-IsFair n q t ps h o room = record {
    size = h.size;
    jumped = h.jumped;
    tasked =
        joined q.sent_tasks q.ran_tasks (q.tasks ++ q.discarded) t h.tasked
        ∙ ap (◌++◌ q.ran_tasks) (past_nil q.tasks q.discarded t (h.kept o));
    kept = h.kept;
    dropped = λ c. false_true o c;
    unbroken = h.unbroken;
    few_jumps = h.few_jumps;
    few_tasks = omega (
      arith,
      length-append q.tasks (t ∷ []),
      length-append (q.tasks ++ t ∷ []) q.discarded,
      ap length (h.kept o),
      room,
      h.size,
    );
    ended = h.ended;
  }

  send_discarded-IsFair :
      (n : ℕ) (q : Queue T) (t : T) (ps : List (Push T))
      → IsFair n q
      → q.closed ≡ true
      → length q.discarded < q.capacity
      → IsFair n (send_discarded t ps q)
  unfolding send_discarded
  send_discarded-IsFair n q t ps h c room = record {
    size = h.size;
    jumped = h.jumped;
    tasked =
        joined q.sent_tasks q.ran_tasks (q.tasks ++ q.discarded) t h.tasked
        ∙ ap (◌++◌ q.ran_tasks) (append_assoc q.tasks q.discarded (t ∷ []));
    kept = λ o. false_true o c;
    dropped = h.dropped;
    unbroken = h.unbroken;
    few_jumps = h.few_jumps;
    few_tasks = omega (
      arith,
      length-append q.discarded (t ∷ []),
      length-append q.tasks (q.discarded ++ t ∷ []),
      ap length (h.dropped c),
      room,
      h.size,
    );
    ended = h.ended;
  }

  close-IsFair : (n : ℕ) (q : Queue T) → IsFair n q → IsFair n (close q)
  unfolding close
  close-IsFair n q h =
      if_elim (IsFair n) q.closed _ _ (λ _. h)
        (λ o. record {
          size = h.size;
          jumped = h.jumped;
          tasked =
              h.tasked
              ∙ ap (λ (xs : List T). q.ran_tasks ++ (q.tasks ++ xs)) (h.kept o)
              ∙ ap (◌++◌ q.ran_tasks) (append-nil q.tasks);
          kept = λ c. false_true c refl;
          dropped = λ _. refl;
          unbroken = λ c. false_true c refl;
          few_jumps = h.few_jumps;
          few_tasks = omega (arith, h.few_tasks, length-append q.tasks q.discarded);
          ended = λ w. (refl, (h.ended w).1);
        })

  pub Work-IsFair : (n : ℕ) (q r : Queue T) → IsFair n q → Work q r → IsFair n r
  Work-IsFair n q r h (Work.take_jump t rest w e s) =
      subst (IsFair n) (sym s) (run_jump-IsFair n q t rest h e)
  Work-IsFair n q r h (Work.no_jump w e c s) = subst (IsFair n) (sym s) (record {
    size = h.size;
    jumped = h.jumped;
    tasked = h.tasked;
    few_jumps = h.few_jumps;
    few_tasks = h.few_tasks;
    kept = h.kept;
    dropped = h.dropped;
    unbroken = h.unbroken;
    ended = λ i. cc;
  })
  Work-IsFair n q r h (Work.take_task t rest w e s) =
      subst (IsFair n) (sym s) (run_task-IsFair n q t rest h e)
  Work-IsFair n q r h (Work.take_discarded t rest w c e s) =
      subst (IsFair n) (sym s) (run_discarded-IsFair n q t rest h c e)
  Work-IsFair n q r h (Work.stop w e c s) = subst (IsFair n) (sym s) (record {
    size = h.size;
    jumped = h.jumped;
    tasked = h.tasked;
    few_jumps = h.few_jumps;
    few_tasks = h.few_tasks;
    kept = h.kept;
    dropped = h.dropped;
    unbroken = h.unbroken;
    ended = λ i. (c, e);
  })

  Step-IsFair : (n : ℕ) (q r : Queue T) → IsFair n q → Step q r → IsFair n r
  Step-IsFair n q r h (Step.work w) = Work-IsFair n q r h w
  Step-IsFair n q r h (Step.call jump t c s) = subst (IsFair n) (sym s) (same n q _ _ h.unbroken h)
  Step-IsFair n q r h (Step.put_jump xs ys t e c room s) =
      subst (IsFair n) (sym s) (send_jump-IsFair n q t _ h c room)
  Step-IsFair n q r h (Step.put_task xs ys t e o room s) =
      subst (IsFair n) (sym s) (send_task-IsFair n q t _ h o room)
  Step-IsFair n q r h (Step.put_discarded xs ys t e c room s) =
      subst (IsFair n) (sym s) (send_discarded-IsFair n q t _ h c room)
  Step-IsFair n q r h (Step.shut s) = subst (IsFair n) (sym s) (close-IsFair n q h)
  Step-IsFair n q r h (Step.reach_jumps xs ys t e s) =
      subst (IsFair n) (sym s) (same n q _ _ h.unbroken h)
  Step-IsFair n q r h (Step.reach_tasks xs ys t e c s) =
      subst (IsFair n) (sym s) (same n q _ _ h.unbroken h)
  Step-IsFair n q r h (Step.reach_nil xs ys t e c s) =
      subst (IsFair n) (sym s) (same n q _ _ h.unbroken h)
  Step-IsFair n q r h (Step.put_closed xs ys t e c s) =
      subst (IsFair n) (sym s) (same n q _ _ (λ o. false_true o c) h)
  Step-IsFair n q r h (Step.give_up xs ys p e s) =
      subst (IsFair n) (sym s) (same n q _ _ h.unbroken h)

  new_queue-IsFair : (n : ℕ) → IsFair n (new_queue {T = T} n)
  unfolding new_queue
  new_queue-IsFair n = record {
    size = refl;
    jumped = refl;
    tasked = refl;
    kept = λ _. refl;
    dropped = λ _. refl;
    unbroken = λ _. refl;
    few_jumps = omega arith;
    few_tasks = omega arith;
    ended = λ w. running w;
  }

  -- In every interleaving of the worker, the calls of `Push` and `Close`: the frames of either kind run
  -- in the order in which they were sent, none twice and none before it was sent, and a jump that was sent
  -- has run or waits; a task that was sent has run or waits as long as the queue is open, and in a closed
  -- queue has run or is in the channel that `Close` discarded; the channels keep to their capacities;
  -- only a closed queue panics; and the worker stops only on a closed queue, with every jump that was
  -- sent run.
  pub Reach-IsFair : (n : ℕ) {q : Queue T} → Reach n q → IsFair n q
  Reach-IsFair n start = new_queue-IsFair n
  Reach-IsFair n (next {q} {r} p s) = Step-IsFair n q r (Reach-IsFair n p) s
