-- ===== src/Scheduler/Spec.antt =====
-- What the scheduler promises: one queue and one set of slots, and no way to be inconsistent.
use runnerd.Prelude.{
  ℕ, true, false, ◌||◌, List, [], ◌∷◌, ◌++◌, none, some, Result, ok, raise, invalid_argument,
  logic_error, codes, ◌==◌, ltb, if◌then◌else◌, length,
}
use runnerd.Prelude.Assoc.{contains, remove}
use runnerd.Scheduler.{Call, enqueues, takes, finishes, cancels, Answer, done, next_job, removed}

pub record Slots : Type 0 where
  pub limit : ℕ
  pub queue : List ℕ
  pub running : List ℕ

start : List ℕ → Slots → Result Answer × Slots
start [] v = (ok (next_job none), v)
start (j ∷ rest) v = (ok (next_job (some j)), record v { queue = rest; running = j ∷ v.running })

-- A job id is used once at a time; the front of the queue starts when a slot is free.
unfoldable pub spec_call : Call → Slots → Result Answer × Slots
unfolding start
spec_call (enqueues j) v =
    if j == 0
    then (raise (invalid_argument (codes "job id must be greater than zero")), v)
    else if contains j v.queue || contains j v.running
    then (raise (logic_error (codes "job is already scheduled")), v)
    else (ok done, record v { queue = v.queue ++ j ∷ [] })
spec_call takes v =
    if ltb (length v.running) v.limit then start v.queue v else (ok (next_job none), v)
spec_call (finishes j) v =
    if contains j v.running
    then (ok done, record v { running = remove j v.running })
    else (raise (logic_error (codes "terminal job does not occupy a running slot")), v)
spec_call (cancels j) v =
    if contains j v.queue
    then (ok (removed true), record v { queue = remove j v.queue })
    else (ok (removed false), v)

unfoldable pub spec_run : List Call → Slots → List (Result Answer) × Slots
spec_run [] v = ([], v)
spec_run (c ∷ cs) v =
    let (answers, final) = spec_run cs (spec_call c v).1 in ((spec_call c v).0 ∷ answers, final)
