-- ===== src/Scheduler.antt =====
-- include/runnerd/job_scheduler.h and src/job_scheduler.cpp: the FIFO queue and the running slots.
-- The deque is a list, oldest first; the two hash sets are lists. That an allocation fails, which
-- enqueue undoes, is not modelled.
pub mod Spec
pub mod Invariant
pub mod Refinement
pub mod Fifo
use runnerd.Prelude.{
  ℕ, Bool, true, false, not, ◌||◌, List, [], ◌∷◌, ◌++◌, Option, none, some, Exception, Result, Act,
  ok, raise, invalid_argument, logic_error, codes, ◌==◌, leb, if◌then◌else◌, length,
}
use runnerd.Prelude.Assoc.{contains, remove}

pub record JobScheduler : Type 0 where
  pub max_running : ℕ
  pub waiting_jobs : List ℕ
  pub waiting_job_ids : List ℕ
  pub active_job_ids : List ℕ

-- set.insert(k): the set, and whether k is new
abbrev set_insert : ℕ → List ℕ → List ℕ × Bool
set_insert k s = if contains k s then (s, false) else (k ∷ s, true)

-- The constructor.
unfoldable pub make_scheduler : ℕ → Result JobScheduler
make_scheduler max_running =
    if max_running == 0
    then raise (invalid_argument (codes "max_running must be greater than zero"))
    else ok (record {
      max_running = max_running;
      waiting_jobs = [];
      waiting_job_ids = [];
      active_job_ids = [];
    })

unfoldable pub enqueue : ℕ → Act JobScheduler (Unit {0})
enqueue job_id s =
    if job_id == 0
    then (raise (invalid_argument (codes "job id must be greater than zero")), s)
    else if contains job_id s.waiting_job_ids || contains job_id s.active_job_ids
    then (raise (logic_error (codes "job is already scheduled")), s)
    else let (ids, inserted) = set_insert job_id s.waiting_job_ids in
      if not inserted
      then (raise (logic_error (codes "duplicate waiting job id")), s)
      else (ok tt, record s { waiting_jobs = s.waiting_jobs ++ job_id ∷ []; waiting_job_ids = ids })

-- The second half of takeNextJobToStart, on the queue's front and the rest.
unfoldable pub take_front : List ℕ → Act JobScheduler (Option ℕ)
take_front [] s = (ok none, s)
take_front (job_id ∷ rest) s =
    let (ids, inserted) = set_insert job_id s.active_job_ids in
    if not inserted
    then (raise (logic_error (codes "waiting job already occupies a running slot")), s)
    else (
      ok (some job_id),
      record s {
        waiting_jobs = rest;
        waiting_job_ids = remove job_id s.waiting_job_ids;
        active_job_ids = ids;
      },
    )

unfoldable pub take_next_job_to_start : Act JobScheduler (Option ℕ)
unfolding take_front
take_next_job_to_start s =
    if leb s.max_running (length s.active_job_ids)
    then (ok none, s)
    else take_front s.waiting_jobs s

unfoldable pub on_job_reached_terminal_state : ℕ → Act JobScheduler (Unit {0})
on_job_reached_terminal_state job_id s =
    if contains job_id s.active_job_ids
    then (ok tt, record s { active_job_ids = remove job_id s.active_job_ids })
    else (raise (logic_error (codes "terminal job does not occupy a running slot")), s)

unfoldable pub cancel_queued_job : ℕ → Act JobScheduler Bool
cancel_queued_job job_id s =
    if not (contains job_id s.waiting_job_ids)
    then (ok false, s)
    else if not (contains job_id s.waiting_jobs)
    then (raise (logic_error (codes "waiting job id is missing from FIFO queue")), s)
    else (
      ok true,
      record s {
        waiting_jobs = remove job_id s.waiting_jobs;
        waiting_job_ids = remove job_id s.waiting_job_ids;
      },
    )

unfoldable pub running_count : JobScheduler → ℕ
running_count s = length s.active_job_ids

unfoldable pub waiting_count : JobScheduler → ℕ
waiting_count s = length s.waiting_jobs

unfoldable pub is_waiting : ℕ → JobScheduler → Bool
is_waiting job_id s = contains job_id s.waiting_job_ids

unfoldable pub is_running : ℕ → JobScheduler → Bool
is_running job_id s = contains job_id s.active_job_ids

-- The public methods that change the scheduler, as calls with their answers.
pub data Call : Type 0 where
  enqueues : ℕ → Call
  takes : Call
  finishes : ℕ → Call
  cancels : ℕ → Call

pub data Answer : Type 0 where
  done : Answer
  next_job : Option ℕ → Answer
  removed : Bool → Answer

abbrev pub answer {ℓ} : {A S : Type ℓ} → (A → Answer) → Result A × S → Result Answer × S
answer f (ok a, s) = (ok (f a), s)
answer f (raise e, s) = (raise e, s)

unfoldable pub call : Call → Act JobScheduler Answer
call (enqueues job_id) s = answer (λ _. done) (enqueue job_id s)
call takes s = answer next_job (take_next_job_to_start s)
call (finishes job_id) s = answer (λ _. done) (on_job_reached_terminal_state job_id s)
call (cancels job_id) s = answer removed (cancel_queued_job job_id s)

-- A history of calls, and what each of them answered.
unfoldable pub run : List Call → JobScheduler → List (Result Answer) × JobScheduler
run [] s = ([], s)
run (c ∷ cs) s = let (answers, final) = run cs (call c s).1 in ((call c s).0 ∷ answers, final)
