-- ===== src/Scheduler/Invariant.antt =====
-- The scheduler's three containers stay consistent.
use runnerd.Prelude.{
  ℕ, ◌≤◌, ◌<◌, ◌≡◌, refl, true, false, List, [], ◌∷◌, ◌++◌, arith, ok, raise, Result, ◌==◌, length,
  Bool-cases, inl, inr, leb,
}
use runnerd.Prelude.Assoc.{
  contains, remove, Distinct, contains-append, contains-remove, remove-Distinct, length-remove,
  append-Distinct,
}
use runnerd.Scheduler.{
  JobScheduler, make_scheduler, enqueue, take_next_job_to_start, take_front,
  on_job_reached_terminal_state, cancel_queued_job, Call, enqueues, takes, finishes, cancels, call,
  answer, Answer, run,
}

abbrev empty : ℕ → JobScheduler
empty n = record { max_running = n; waiting_jobs = []; waiting_job_ids = []; active_job_ids = [] }

-- The set of waiting ids mirrors the queue, no job waits and runs at once, none waits twice, and
-- no more jobs run than there are slots.
pub record IsConsistent (s : JobScheduler) : Type 0 where
  pub has_slots : 0 < s.max_running
  pub queue_distinct : Distinct s.waiting_jobs
  pub ids_distinct : Distinct s.waiting_job_ids
  pub active_distinct : Distinct s.active_job_ids
  pub mirrored : (j : ℕ) → contains j s.waiting_job_ids ≡ contains j s.waiting_jobs
  pub apart : (j : ℕ) → contains j s.waiting_jobs ≡ true → contains j s.active_job_ids ≡ false
  pub bounded : length s.active_job_ids ≤ s.max_running

-- A scheduler that the constructor makes is consistent.
pub make_scheduler-IsConsistent :
    (n : ℕ) {s : JobScheduler} → make_scheduler n ≡ ok s → IsConsistent s
unfolding make_scheduler contains
make_scheduler-IsConsistent n {s} e = elim (Bool-cases (n == 0)) [
  | inl z ↦ absurd (ground arith)
  | inr z ↦
      let made : s ≡ empty n = ground arith in
      rw made (record {
        has_slots = ground arith;
        queue_distinct = tt;
        ids_distinct = tt;
        active_distinct = tt;
        mirrored = λ j. refl;
        apart = λ j h. refl;
        bounded = omega arith;
      })
]

module _ (j : ℕ) (s : JobScheduler) (v : IsConsistent s) where
  pushed-IsConsistent :
      contains j s.waiting_jobs ≡ false
      → contains j s.active_job_ids ≡ false
      → IsConsistent (record s {
        waiting_jobs = s.waiting_jobs ++ j ∷ [];
        waiting_job_ids = j ∷ s.waiting_job_ids;
      })
  unfolding contains
  pushed-IsConsistent fresh idle = record {
    has_slots = v.has_slots;
    queue_distinct = append-Distinct j s.waiting_jobs v.queue_distinct fresh;
    ids_distinct = ground (arith, v.mirrored j);
    active_distinct = v.active_distinct;
    mirrored = λ k. ground (arith, v.mirrored k, contains-append k s.waiting_jobs (j ∷ []));
    apart = λ k h. ground (arith, v.apart k, contains-append k s.waiting_jobs (j ∷ []));
    bounded = v.bounded;
  }

  -- enqueue changes nothing, or adds the new job at the end of the queue.
  pub enqueue-IsConsistent : IsConsistent (enqueue j s).1
  unfolding enqueue
  enqueue-IsConsistent = ground (arith, v, v.mirrored j, pushed-IsConsistent)

  pub finish-IsConsistent : IsConsistent (on_job_reached_terminal_state j s).1
  unfolding on_job_reached_terminal_state
  finish-IsConsistent = elim (Bool-cases (contains j s.active_job_ids)) [
    | inr e ↦ rw (e, on_job_reached_terminal_state) v
    | inl e ↦
        rw (e, on_job_reached_terminal_state)
          (record {
            has_slots = v.has_slots;
            queue_distinct = v.queue_distinct;
            ids_distinct = v.ids_distinct;
            active_distinct = remove-Distinct j s.active_job_ids v.active_distinct;
            mirrored = v.mirrored;
            apart = λ k h.
                ground (arith, v.apart k, contains-remove j k s.active_job_ids v.active_distinct);
            bounded = omega (arith, length-remove j s.active_job_ids e, v.bounded);
          })
  ]

  cancelled-IsConsistent : IsConsistent (record s {
    waiting_jobs = remove j s.waiting_jobs;
    waiting_job_ids = remove j s.waiting_job_ids;
  })
  cancelled-IsConsistent = record {
    has_slots = v.has_slots;
    queue_distinct = remove-Distinct j s.waiting_jobs v.queue_distinct;
    ids_distinct = remove-Distinct j s.waiting_job_ids v.ids_distinct;
    active_distinct = v.active_distinct;
    mirrored = λ k. ground (
      arith,
      v.mirrored k,
      contains-remove j k s.waiting_jobs v.queue_distinct,
      contains-remove j k s.waiting_job_ids v.ids_distinct,
    );
    apart = λ k h. ground (arith, v.apart k, contains-remove j k s.waiting_jobs v.queue_distinct);
    bounded = v.bounded;
  }

  pub cancel_queued_job-IsConsistent : IsConsistent (cancel_queued_job j s).1
  unfolding cancel_queued_job
  cancel_queued_job-IsConsistent = ground (arith, v, cancelled-IsConsistent)

-- The front of the queue takes a slot.
started-IsConsistent :
    (j : ℕ) (rest : List ℕ) (s : JobScheduler)
    → IsConsistent s
    → s.waiting_jobs ≡ j ∷ rest
    → length s.active_job_ids < s.max_running
    → IsConsistent (record s {
      waiting_jobs = rest;
      waiting_job_ids = remove j s.waiting_job_ids;
      active_job_ids = j ∷ s.active_job_ids;
    })
unfolding contains
started-IsConsistent j rest s v e free = record {
  has_slots = v.has_slots;
  queue_distinct = queue.1;
  ids_distinct = remove-Distinct j s.waiting_job_ids v.ids_distinct;
  active_distinct = (ground (arith, v.apart j), v.active_distinct);
  mirrored = λ k.
      ground (arith, queue, v.mirrored k, contains-remove j k s.waiting_job_ids v.ids_distinct);
  apart = λ k h. ground (arith, queue, v.apart k);
  bounded = omega arith;
}
  where
    queue : (contains j rest ≡ false) × Distinct rest
    queue = rw e at (v.queue_distinct)

pub take_front-IsConsistent :
    (q : List ℕ) (s : JobScheduler)
    → IsConsistent s
    → s.waiting_jobs ≡ q
    → length s.active_job_ids < s.max_running
    → IsConsistent (take_front q s).1
unfolding take_front
take_front-IsConsistent [] s v e free = v
take_front-IsConsistent (j ∷ rest) s v e free =
    ground (arith, v, started-IsConsistent j rest s v e free)

pub take_next_job_to_start-IsConsistent :
    (s : JobScheduler) → IsConsistent s → IsConsistent (take_next_job_to_start s).1
unfolding take_next_job_to_start
take_next_job_to_start-IsConsistent s v =
    elim (Bool-cases (leb s.max_running (length s.active_job_ids))) [
      | inl full ↦ rw (full, take_next_job_to_start) v
      | inr free ↦
          rw (free, take_next_job_to_start)
            (take_front-IsConsistent s.waiting_jobs s v refl (ground arith))
    ]

pub answer_state {ℓ} : {A S : Type ℓ} (f : A → Answer) (r : Result A × S) → (answer f r).1 ≡ r.1
answer_state f (ok a, s) = refl
answer_state f (raise e, s) = refl

-- Every call of a public method, also one that throws, leaves the scheduler consistent.
pub call-IsConsistent : (c : Call) (s : JobScheduler) → IsConsistent s → IsConsistent (call c s).1
unfolding call
call-IsConsistent (enqueues j) s v = rw answer_state (enqueue-IsConsistent j s v)
call-IsConsistent takes s v = rw answer_state (take_next_job_to_start-IsConsistent s v)
call-IsConsistent (finishes j) s v = rw answer_state (finish-IsConsistent j s v)
call-IsConsistent (cancels j) s v = rw answer_state (cancel_queued_job-IsConsistent j s v)

-- A scheduler that is consistent is so after any history of calls.
pub run-IsConsistent :
    (cs : List Call) (s : JobScheduler) → IsConsistent s → IsConsistent (run cs s).1
unfolding run
run-IsConsistent [] s v = v
run-IsConsistent (c ∷ cs) s v = run-IsConsistent cs (call c s).1 (call-IsConsistent c s v)
