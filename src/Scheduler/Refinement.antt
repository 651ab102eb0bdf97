-- ===== src/Scheduler/Refinement.antt =====
-- The scheduler implements its specification: what the second container of ids and the internal
-- checks add is never seen.
use runnerd.Prelude.{
  ℕ, ◌≡◌, refl, true, List, [], ◌∷◌, arith, Result, ltb, length, Bool-cases, inl, inr,
}
use runnerd.Prelude.Assoc.{contains}
use runnerd.Scheduler.{
  JobScheduler, enqueue, take_next_job_to_start, on_job_reached_terminal_state, cancel_queued_job,
  Call, enqueues, takes, finishes, cancels, call, run, Answer,
}
use runnerd.Scheduler.Spec.{Slots, spec_call, spec_run}
use runnerd.Scheduler.Invariant.{IsConsistent, call-IsConsistent}

abbrev pub view : JobScheduler → Slots
view s = record { limit = s.max_running; queue = s.waiting_jobs; running = s.active_job_ids }

-- The answer is the specification's, and so is what is left.
abbrev pub Refines : Result Answer × JobScheduler → Result Answer × Slots → Type 0
Refines r q = (r.0 ≡ q.0) × (view r.1 ≡ q.1)

take_front-Refines :
    (q : List ℕ) (s : JobScheduler)
    → IsConsistent s
    → s.waiting_jobs ≡ q
    → ltb (length s.active_job_ids) s.max_running ≡ true
    → Refines (call takes s) (spec_call takes (view s))
unfolding call take_next_job_to_start spec_call contains
take_front-Refines [] s v e free = ground arith
take_front-Refines (j ∷ rest) s v e free = ground (arith, v.apart j)

-- From a consistent state each call answers as the specification does, exceptions included, and
-- leaves the state that the specification leaves. The internal consistency errors never occur.
pub call-Refines :
    (c : Call) (s : JobScheduler) → IsConsistent s → Refines (call c s) (spec_call c (view s))
unfolding call spec_call enqueue take_next_job_to_start on_job_reached_terminal_state
    cancel_queued_job
call-Refines (enqueues j) s v = ground (arith, v.mirrored j)
call-Refines takes s v = elim (Bool-cases (ltb (length s.active_job_ids) s.max_running)) [
  | inl free ↦ take_front-Refines s.waiting_jobs s v refl free
  | inr full ↦ ground arith
]
call-Refines (finishes j) s v = ground arith
call-Refines (cancels j) s v = ground (arith, v.mirrored j)

-- From a consistent state, each call of any history is answered as the specification answers it,
-- exceptions included, and the history leaves the state that the specification leaves.
pub run-Refines :
    (cs : List Call) (s : JobScheduler)
    → IsConsistent s
    → ((run cs s).0 ≡ (spec_run cs (view s)).0) × (view (run cs s).1 ≡ (spec_run cs (view s)).1)
unfolding run spec_run
run-Refines [] s v = (refl, refl)
run-Refines (c ∷ cs) s v =
    let (answered, left) = call-Refines c s v in
    let (answers, final) = run-Refines cs (call c s).1 (call-IsConsistent c s v) in (cc, cc)
