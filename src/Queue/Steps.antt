-- ===== src/Queue/Steps.antt =====
-- `Queue` of internal/queue/queue.go, its worker `run` and its callers, one channel operation or one
-- access to `closed` or `tasks` at a time. The tasks are values that the worker passes on in order.
-- `Close` is one step. A worker past the outer `select` is taken to hold the channel of tasks that was there
-- before `Close`, as a call of `Push` in its `select` does: `discarded` is what is in that channel from then
-- on, `tasks` what is in the channel `mq.tasks`. `pushes` are the calls of `Push` that are under way, and `ran` and the two `sent` lists are history.
use cable.Prelude.{
  ℕ, ◌+◌, ◌<◌, ◌≡◌, ◌⊎◌, Bool, true, false, List, [], ◌∷◌, ◌++◌, length, ◌==◌, if◌then◌else◌,
}

-- Where the worker stands: at the outer `select`, or at the inner one, which holds both channels.
pub data Worker : Type 0 where
  top inner stopped : Worker

-- Where a call of `Push` stands: past the test of `closed`, or in the `select` on a channel, which for
-- a task is nil where the queue was closed in between.
pub data Push (T : Type 0) : Type 0 where
  checked : Bool → T → Push T
  sending : Bool → T → Push T
  stuck : T → Push T

pub record Queue (T : Type 0) : Type 0 where
  pub jumps : List T
  pub tasks : List T
  pub discarded : List T
  pub capacity : ℕ
  pub closed : Bool
  pub worker : Worker
  pub pushes : List (Push T)
  pub sent_jumps : List T
  pub sent_tasks : List T
  pub ran_jumps : List T
  pub ran_tasks : List T
  pub panicked : Bool

-- The capacity of `jumps`.
abbrev pub max_jumps : ℕ
max_jumps = 5

-- `New`, which panics for a capacity below 1.
unfoldable pub new_queue : {T : Type 0} → ℕ → Queue T
new_queue n = record {
  jumps = [];
  tasks = [];
  discarded = [];
  capacity = n;
  closed = false;
  worker = Worker.top;
  pushes = [];
  sent_jumps = [];
  sent_tasks = [];
  ran_jumps = [];
  ran_tasks = [];
  panicked = false;
}

module _ {T : Type 0} where
  -- `task()` of a jump, and of a task.
  unfoldable pub run_jump : T → List T → Queue T → Queue T
  run_jump t rest q = record q {
    jumps = rest;
    worker = Worker.top;
    ran_jumps = q.ran_jumps ++ t ∷ [];
  }

  unfoldable pub run_task : T → List T → Queue T → Queue T
  run_task t rest q = record q {
    tasks = rest;
    worker = Worker.top;
    ran_tasks = q.ran_tasks ++ t ∷ [];
  }

  unfoldable pub send_jump : T → List (Push T) → Queue T → Queue T
  send_jump t others q = record q {
    jumps = q.jumps ++ t ∷ [];
    sent_jumps = q.sent_jumps ++ t ∷ [];
    pushes = others;
  }

  unfoldable pub send_task : T → List (Push T) → Queue T → Queue T
  send_task t others q = record q {
    tasks = q.tasks ++ t ∷ [];
    sent_tasks = q.sent_tasks ++ t ∷ [];
    pushes = others;
  }

  -- What a worker or a call does with the channel of tasks that `Close` has taken out of the queue.
  unfoldable pub run_discarded : T → List T → Queue T → Queue T
  run_discarded t rest q = record q {
    discarded = rest;
    worker = Worker.top;
    ran_tasks = q.ran_tasks ++ t ∷ [];
  }

  unfoldable pub send_discarded : T → List (Push T) → Queue T → Queue T
  send_discarded t others q = record q {
    discarded = q.discarded ++ t ∷ [];
    sent_tasks = q.sent_tasks ++ t ∷ [];
    pushes = others;
  }

  -- `Close`, whose first call closes the channel of jumps and discards the channel of tasks.
  unfoldable pub close : Queue T → Queue T
  close q = if q.closed then q else record q { closed = true; tasks = []; discarded = q.tasks }

  -- `Len`, `IsIdle` and `IsFull`: `Close` sets the channel of tasks to nil, which has no length and no
  -- capacity.
  unfoldable pub len : Queue T → ℕ
  len q = length q.tasks + length q.jumps

  unfoldable pub is_idle : Queue T → Bool
  is_idle q = len q == 0

  unfoldable pub is_full : Queue T → Bool
  is_full q = length q.tasks == (if q.closed then 0 else q.capacity)

  -- One turn of the worker in `run`.
  pub data Work (q r : Queue T) : Type 0 where
    take_jump :
        (t : T) (rest : List T)
        → (q.worker ≡ Worker.top) ⊎ (q.worker ≡ Worker.inner)
        → q.jumps ≡ t ∷ rest
        → r ≡ run_jump t rest q
        → Work q r
    no_jump :
        q.worker ≡ Worker.top
        → q.jumps ≡ []
        → q.closed ≡ false
        → r ≡ record q { worker = Worker.inner }
        → Work q r
    take_task :
        (t : T) (rest : List T)
        → q.worker ≡ Worker.inner
        → q.tasks ≡ t ∷ rest
        → r ≡ run_task t rest q
        → Work q r
    take_discarded :
        (t : T) (rest : List T)
        → q.worker ≡ Worker.inner
        → q.closed ≡ true
        → q.discarded ≡ t ∷ rest
        → r ≡ run_discarded t rest q
        → Work q r
    stop :
        (q.worker ≡ Worker.top) ⊎ (q.worker ≡ Worker.inner)
        → q.jumps ≡ []
        → q.closed ≡ true
        → r ≡ record q { worker = Worker.stopped }
        → Work q r

  -- One step of the worker or of a call. `xs` and `ys` are the calls around the one that moves.
  pub data Step (q r : Queue T) : Type 0 where
    work : Work q r → Step q r
    -- `Push`, which returns ErrQueueIsClosed from a closed queue
    call :
        (jump : Bool) (t : T)
        → q.closed ≡ false
        → r ≡ record q { pushes = Push.checked jump t ∷ q.pushes }
        → Step q r
    reach_jumps :
        (xs ys : List (Push T)) (t : T)
        → q.pushes ≡ xs ++ Push.checked true t ∷ ys
        → r ≡ record q { pushes = xs ++ Push.sending true t ∷ ys }
        → Step q r
    reach_tasks :
        (xs ys : List (Push T)) (t : T)
        → q.pushes ≡ xs ++ Push.checked false t ∷ ys
        → q.closed ≡ false
        → r ≡ record q { pushes = xs ++ Push.sending false t ∷ ys }
        → Step q r
    reach_nil :
        (xs ys : List (Push T)) (t : T)
        → q.pushes ≡ xs ++ Push.checked false t ∷ ys
        → q.closed ≡ true
        → r ≡ record q { pushes = xs ++ Push.stuck t ∷ ys }
        → Step q r
    put_jump :
        (xs ys : List (Push T)) (t : T)
        → q.pushes ≡ xs ++ Push.sending true t ∷ ys
        → q.closed ≡ false
        → length q.jumps < max_jumps
        → r ≡ send_jump t (xs ++ ys) q
        → Step q r
    -- a send on a closed channel
    put_closed :
        (xs ys : List (Push T)) (t : T)
        → q.pushes ≡ xs ++ Push.sending true t ∷ ys
        → q.closed ≡ true
        → r ≡ record q { panicked = true }
        → Step q r
    put_task :
        (xs ys : List (Push T)) (t : T)
        → q.pushes ≡ xs ++ Push.sending false t ∷ ys
        → q.closed ≡ false
        → length q.tasks < q.capacity
        → r ≡ send_task t (xs ++ ys) q
        → Step q r
    put_discarded :
        (xs ys : List (Push T)) (t : T)
        → q.pushes ≡ xs ++ Push.sending false t ∷ ys
        → q.closed ≡ true
        → length q.discarded < q.capacity
        → r ≡ send_discarded t (xs ++ ys) q
        → Step q r
    -- the context of a call ends
    give_up :
        (xs ys : List (Push T)) (p : Push T)
        → q.pushes ≡ xs ++ p ∷ ys
        → r ≡ record q { pushes = xs ++ ys }
        → Step q r
    -- `Close`
    shut : r ≡ close q → Step q r

  pub data Reach (n : ℕ) : Queue T → Type 0 where
    start : Reach n (new_queue n)
    next : {q r : Queue T} → Reach n q → Step q r → Reach n r

  -- What can become of a queue.
  pub data Leads (q : Queue T) : Queue T → Type 0 where
    here : Leads q q
    on : {r s : Queue T} → Leads q r → Step r s → Leads q s

  -- A run of the worker alone, of this many turns.
  pub data Works (q : Queue T) : ℕ → Queue T → Type 0 where
    done : Works q 0 q
    turn : {k : ℕ} {r s : Queue T} → Works q k r → Work r s → Works q (1 + k) s
