-- ===== src/Tests/Jobs.antt =====
-- Job specifications and transitions.
use runnerd.Prelude.{ℕ, ◌≤◌, ◌≡◌, refl, ◌↔◌, true, List, [], ◌∷◌, some, arith, ok, codes}
use runnerd.Prelude.Int.{pos}
use runnerd.Job.{
  succeeded, queued, running, terminating, cancelled, JobSpec, Job, new_job, can_transition,
  validate_job_spec, transition_job,
}
use runnerd.Job.Validity.{IsValidSpec, validate_job_spec-IsValidSpec}
use runnerd.Job.Lifecycle.{
  Transition, can_transition-Transition, attempts, Attempted, attempts-Attempted, StatePath, stay,
  step, StatePath-bounded,
}

-- `/bin/sleep 5`, for half a second
abbrev pub sleep_spec : JobSpec
sleep_spec = record {
  argv = codes "/bin/sleep" ∷ codes "5" ∷ [];
  execution_timeout = some (pos 500);
}

abbrev pub sleep_path : List ℕ
sleep_path = codes "bin/sleep"

pub sleep_spec-IsValid : IsValidSpec sleep_spec
unfolding codes
sleep_spec-IsValid = record {
  absolute = (sleep_path, codes "5" ∷ [], refl);
  whole = omega arith;
  positive = omega arith;
}

validate_job_spec-IsValidSpec_example :
    (validate_job_spec sleep_spec ≡ ok tt) ↔ IsValidSpec sleep_spec
validate_job_spec-IsValidSpec_example = validate_job_spec-IsValidSpec sleep_spec

can_transition-Transition_example :
    (can_transition running terminating ≡ true) ↔ Transition running terminating
can_transition-Transition_example = can_transition-Transition running terminating

abbrev sleeping : Job
sleeping = new_job 7 sleep_spec

-- The third call throws, since the job has ended.
attempts-Attempted_example :
    Attempted
      (running ∷ succeeded ∷ running ∷ [])
      sleeping
      (attempts (running ∷ succeeded ∷ running ∷ []) sleeping)
attempts-Attempted_example = attempts-Attempted (running ∷ succeeded ∷ running ∷ []) sleeping

attempts_end :
    attempts (running ∷ succeeded ∷ running ∷ []) sleeping
    ≡ (2, record sleeping { state = succeeded })
unfolding transition_job can_transition new_job
attempts_end = refl

cancelled_life : StatePath queued cancelled 3
unfolding can_transition
cancelled_life = step {b = running} refl (step {b = terminating} refl (step refl stay))

StatePath-bounded_example : 3 ≤ 3
StatePath-bounded_example = StatePath-bounded cancelled_life
