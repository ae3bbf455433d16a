-- ===== src/Client/KeepAlive.antt =====
-- `KeepAlive` of internal/keepalive/keepalive.go: a run that is not stopped pings after a silence and leaves a
-- timer for the next run. Times are numbers of nanoseconds on one clock; the pings are kept with their times.
use cable.Prelude.{
  ℕ, zero, suc, ◌+◌, ◌-◌, ◌≡◌, refl, ap, ◌∙◌, arith, Bool, true, false, List, [], ◌∷◌, ◌++◌,
  if◌then◌else◌, ltb, ltb→lt, if_elim,
}

pub record KeepAlive : Type 0 where
  pub stoped : Bool
  pub interval : ℕ
  pub last_packet_time : ℕ
  -- the runs that have been started or that wait for their timer
  pub waiting : ℕ
  pub pings : List ℕ

-- `New`
unfoldable pub new_keepalive : ℕ → ℕ → KeepAlive
new_keepalive interval now = record {
  stoped = true;
  interval = interval;
  last_packet_time = now;
  waiting = 0;
  pings = [];
}

-- `sendPing`
unfoldable pub send_ping : ℕ → KeepAlive → KeepAlive
send_ping now k =
    if ltb (now - k.last_packet_time) k.interval
    then k
    else record k { pings = k.pings ++ now ∷ [] }

unfoldable pub wait : KeepAlive → KeepAlive
wait k = record k { waiting = k.waiting + 1 }

-- `run`, which `Start` starts and the timer calls.
unfoldable pub run : ℕ → KeepAlive → KeepAlive
run now k = if k.stoped then k else wait (send_ping now k)

-- A run that waits begins.
unfoldable pub fire : ℕ → KeepAlive → KeepAlive
fire now k = if ltb 0 k.waiting then run now (record k { waiting = k.waiting - 1 }) else k

-- `Start`
unfoldable pub start : KeepAlive → KeepAlive
start k = if k.stoped then wait (record k { stoped = false }) else k

-- `Stop`
unfoldable pub stop : KeepAlive → KeepAlive
stop k = record k { stoped = true }

-- `UpdateTime`
unfoldable pub update_time : ℕ → KeepAlive → KeepAlive
update_time now k = record k { last_packet_time = now }

-- What happens to a keepalive, with the times.
pub data Event : Type 0 where
  starts stops : Event
  fires hears : ℕ → Event

unfoldable pub step : Event → KeepAlive → KeepAlive
step starts k = start k
step stops k = stop k
step (fires now) k = fire now k
step (hears now) k = update_time now k

unfoldable pub run_all : List Event → KeepAlive → KeepAlive
run_all [] k = k
run_all (e ∷ es) k = run_all es (step e k)

send_ping-waiting : (now : ℕ) (k : KeepAlive) → (send_ping now k).waiting ≡ k.waiting
unfolding send_ping
send_ping-waiting now k =
    if_elim (λ (x : KeepAlive). x.waiting ≡ k.waiting) (ltb (now - k.last_packet_time) k.interval) _
      _ (λ _. refl) (λ _. refl)

send_ping-stoped : (now : ℕ) (k : KeepAlive) → (send_ping now k).stoped ≡ k.stoped
unfolding send_ping
send_ping-stoped now k =
    if_elim (λ (x : KeepAlive). x.stoped ≡ k.stoped) (ltb (now - k.last_packet_time) k.interval) _ _
      (λ _. refl) (λ _. refl)

run-on : (now : ℕ) (k : KeepAlive) → k.stoped ≡ false → run now k ≡ wait (send_ping now k)
unfolding run
run-on now k e = ap (λ (b : Bool). if b then k else wait (send_ping now k)) e

-- A run that begins while the keepalive is not stopped leaves one run behind.
pub fire-waiting :
    (now : ℕ) (k : KeepAlive)
    → k.stoped ≡ false
    → ((fire now k).waiting ≡ k.waiting) × ((fire now k).stoped ≡ false)
unfolding fire run wait
fire-waiting now k e =
    if_elim (λ (x : KeepAlive). (x.waiting ≡ k.waiting) × (x.stoped ≡ false)) (ltb 0 k.waiting) _ _
      (λ some_wait.
        let left : KeepAlive = record k { waiting = k.waiting - 1 } in
        let on = run-on now left e in
        let kept = send_ping-waiting now left in
        let one = ltb→lt 0 k.waiting some_wait in
        (
          ap (λ (x : KeepAlive). x.waiting) on ∙ omega (arith, kept, one),
          ap (λ (x : KeepAlive). x.stoped) on ∙ send_ping-stoped now left ∙ e,
        ))
      (λ _. (refl, e))

-- A keepalive that is stopped and started again before its timer, `n` times.
unfoldable pub restarts : ℕ → List Event
restarts zero = []
restarts (suc n) = stops ∷ starts ∷ restarts n

-- Events other than stops and starts.
unfoldable pub AreQuiet : List Event → Type 0
AreQuiet [] = Unit
AreQuiet (fires _ ∷ es) = AreQuiet es
AreQuiet (hears _ ∷ es) = AreQuiet es
AreQuiet (starts ∷ es) = ⊥
AreQuiet (stops ∷ es) = ⊥

quiet_waiting :
    (es : List Event) (k : KeepAlive)
    → AreQuiet es
    → k.stoped ≡ false
    → (run_all es k).waiting ≡ k.waiting
unfolding AreQuiet run_all step update_time
quiet_waiting [] k q e = refl
quiet_waiting (fires now ∷ es) k q e =
    let (same, on) = fire-waiting now k e in quiet_waiting es (fire now k) q on ∙ same
quiet_waiting (hears now ∷ es) k q e = quiet_waiting es (update_time now k) q e
quiet_waiting (starts ∷ es) k q e = absurd q
quiet_waiting (stops ∷ es) k q e = absurd q

-- A keepalive that runs, and that is stopped and started again `n` times before its timer, has `n` runs more
-- that wait for their timer, from then on: as many more are left however often they run and packets
-- arrive, until it is stopped or started again.
pub waiting-restarts :
    (n : ℕ) (es : List Event) (k : KeepAlive)
    → AreQuiet es
    → k.stoped ≡ false
    → (run_all (restarts n ++ es) k).waiting ≡ k.waiting + n
unfolding restarts run_all step start stop wait
waiting-restarts zero es k q e = quiet_waiting es k q e ∙ omega arith
waiting-restarts (suc n) es k q e =
    let again : KeepAlive = record k { stoped = false; waiting = k.waiting + 1 } in
    waiting-restarts n es again q refl ∙ omega arith
