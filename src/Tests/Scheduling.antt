-- ===== src/Tests/Scheduling.antt =====
-- A scheduler of two slots, and a history in which three jobs are accepted.
use mathlib.Core.List.{Sublist}
use runnerd.Prelude.{◌≡◌, refl, List, [], ◌∷◌, ◌++◌, some, none, ok}
use runnerd.Prelude.Assoc.{contains, remove}
use runnerd.Scheduler.{
  JobScheduler, make_scheduler, enqueue, take_front, take_next_job_to_start,
  on_job_reached_terminal_state, Call, enqueues, takes, finishes, cancels, done, next_job, call,
  run,
}
use runnerd.Scheduler.Spec.{spec_run}
use runnerd.Scheduler.Invariant.{IsConsistent, make_scheduler-IsConsistent, run-IsConsistent}
use runnerd.Scheduler.Refinement.{view, run-Refines}
use runnerd.Scheduler.Fifo.{
  accepted, started, started-append-waiting, started-append-waiting-sublist,
}

abbrev two_slots : JobScheduler
two_slots = record { max_running = 2; waiting_jobs = []; waiting_job_ids = []; active_job_ids = [] }

two_slots_made : make_scheduler 2 ≡ ok two_slots
unfolding make_scheduler
two_slots_made = refl

two_slots-IsConsistent : IsConsistent two_slots
two_slots-IsConsistent = make_scheduler-IsConsistent 2 two_slots_made

abbrev history : List Call
history =
    enqueues 1
    ∷ enqueues 2
    ∷ enqueues 3
    ∷ takes
    ∷ takes
    ∷ takes
    ∷ finishes 1
    ∷ takes
    ∷ finishes 2
    ∷ []

history_answers :
    (run history two_slots).0
    ≡ ok done
      ∷ ok done
      ∷ ok done
      ∷ ok (next_job (some 1))
      ∷ ok (next_job (some 2))
      ∷ ok (next_job none)
      ∷ ok done
      ∷ ok (next_job (some 3))
      ∷ ok done
      ∷ []
unfolding run call enqueue take_next_job_to_start take_front on_job_reached_terminal_state contains
    remove
history_answers = refl

abbrev busy_history : List Call
busy_history =
    enqueues 4 ∷ enqueues 5 ∷ enqueues 4 ∷ cancels 4 ∷ takes ∷ cancels 5 ∷ finishes 9 ∷ []

run-Refines_example :
    ((run busy_history two_slots).0 ≡ (spec_run busy_history (view two_slots)).0)
    × (view (run busy_history two_slots).1 ≡ (spec_run busy_history (view two_slots)).1)
run-Refines_example = run-Refines busy_history two_slots two_slots-IsConsistent

run-IsConsistent_example : IsConsistent (run busy_history two_slots).1
run-IsConsistent_example = run-IsConsistent busy_history two_slots two_slots-IsConsistent

started-append-waiting_example :
    two_slots.waiting_jobs ++ accepted history two_slots
    ≡ started history two_slots ++ (run history two_slots).1.waiting_jobs
started-append-waiting_example = started-append-waiting history two_slots two_slots-IsConsistent tt

started-append-waiting-sublist_example :
    Sublist
      (started busy_history two_slots ++ (run busy_history two_slots).1.waiting_jobs)
      (two_slots.waiting_jobs ++ accepted busy_history two_slots)
started-append-waiting-sublist_example =
    started-append-waiting-sublist busy_history two_slots two_slots-IsConsistent
