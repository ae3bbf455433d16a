-- ===== src/Tests/Queue.antt =====
-- Runs of the sending queue at concrete inputs.
use cable.Prelude.{ℕ, ◌+◌, ◌*◌, ◌≤◌, ◌≡◌, ◌⊎◌, true, false, [], ◌∷◌, inl, refl, arith, length}
use cable.Queue.Steps.{
  Queue, Worker, new_queue, run_jump, send_jump, send_task, Work, Works, Step, Reach, start, next,
  done, turn, Leads, close,
}
use cable.Queue.Order.{IsFair, Reach-IsFair}
use cable.Queue.Drain.{IsDrained, work_left, Works-work_left, Reach-drains, Reach-panics, past_test}

-- A queue for one task, in which a task and then a jump wait.
abbrev one_task : Queue ℕ
one_task = send_task 7 [] (new_queue 1)

abbrev both : Queue ℕ
both = send_jump 8 [] one_task

both-Reach : Reach 1 both
unfolding new_queue send_task send_jump
both-Reach =
    next
      (next
        (next
          (next
            (next (next start (Step.call false 7 refl refl))
              (Step.reach_tasks [] [] 7 refl refl refl))
            (Step.put_task [] [] 7 refl refl (omega arith) refl))
          (Step.call true 8 refl refl))
        (Step.reach_jumps [] [] 8 refl refl))
      (Step.put_jump [] [] 8 refl refl (omega arith) refl)

both-open : both.closed ≡ false
unfolding new_queue send_task send_jump
both-open = refl

Reach-IsFair_example : IsFair 1 both
Reach-IsFair_example = Reach-IsFair 1 both-Reach

-- The jump runs first.
abbrev after_jump : Queue ℕ
after_jump = record both { jumps = []; worker = Worker.top; ran_jumps = 8 ∷ [] }

first_turn : Works both 1 after_jump
unfolding new_queue send_task send_jump run_jump
first_turn = turn done (Work.take_jump 8 [] (inl refl) refl refl)

Works-work_left_example : 1 + work_left after_jump ≤ work_left both
Works-work_left_example = Works-work_left both both-open first_turn

Reach-drains_example :
    (1 ≤ 2 * (length both.jumps + length both.tasks) + 1)
    × (IsDrained after_jump ⊎ ((s : Queue ℕ) × Work after_jump s))
Reach-drains_example = Reach-drains 1 both both-Reach both-open first_turn

Reach-panics_example :
    (both.panicked ≡ false)
    × Step both (past_test 9 both)
    × Step (past_test 9 both) (close (past_test 9 both))
    × ((r : Queue ℕ) × Leads (close (past_test 9 both)) r × (r.panicked ≡ true))
Reach-panics_example = Reach-panics 1 both 9 both-Reach both-open
