-- ===== src/Job.antt =====
-- include/runnerd/job.h and src/job.cpp: the job states, their transitions, the job record and the
-- check of a job's parameters. A JobState outside the enumeration, which those switches answer
-- with an exception, has no value here.
pub mod Lifecycle
pub mod Validity
use runnerd.Prelude.{
  ℕ, Bool, true, false, ◌||◌, not, List, [], ◌∷◌, Option, none, some, Exception, Result, Act, ok,
  raise, invalid_argument, logic_error, codes, ◌++◌, ◌==◌, if◌then◌else◌,
}
use runnerd.Prelude.Int.{ℤ, is_nonpositive}
use runnerd.Prelude.Assoc.{contains}

pub data JobState : Type 0 where
  queued running terminating succeeded failed cancelled timed_out interrupted : JobState

pub data TerminationCause : Type 0 where
  by_cancel by_timeout : TerminationCause

-- The enumerator's value, by which C++ compares two states.
abbrev pub ordinal : JobState → ℕ
ordinal queued = 0
ordinal running = 1
ordinal terminating = 2
ordinal succeeded = 3
ordinal failed = 4
ordinal cancelled = 5
ordinal timed_out = 6
ordinal interrupted = 7

abbrev pub is : JobState → JobState → Bool
is a b = ordinal a == ordinal b

unfoldable pub job_state_name : JobState → List ℕ
job_state_name queued = codes "QUEUED"
job_state_name running = codes "RUNNING"
job_state_name terminating = codes "TERMINATING"
job_state_name succeeded = codes "SUCCEEDED"
job_state_name failed = codes "FAILED"
job_state_name cancelled = codes "CANCELLED"
job_state_name timed_out = codes "TIMED_OUT"
job_state_name interrupted = codes "INTERRUPTED"

unfoldable pub is_terminal : JobState → Bool
is_terminal succeeded = true
is_terminal failed = true
is_terminal cancelled = true
is_terminal timed_out = true
is_terminal interrupted = true
is_terminal queued = false
is_terminal running = false
is_terminal terminating = false

unfoldable pub can_transition : JobState → JobState → Bool
can_transition queued to = is to running || is to failed || is to cancelled || is to interrupted
can_transition running to =
    is to succeeded || is to failed || is to terminating || is to interrupted
can_transition terminating to = is to cancelled || is to timed_out || is to interrupted
can_transition succeeded to = false
can_transition failed to = false
can_transition cancelled to = false
can_transition timed_out to = false
can_transition interrupted to = false

-- The timeout counts milliseconds, in a signed type.
pub record JobSpec : Type 0 where
  pub argv : List (List ℕ)
  pub execution_timeout : Option ℤ

pub record Job : Type 0 where
  pub id : ℕ
  pub spec : JobSpec
  pub state : JobState
  pub pid : Option ℕ
  pub process_group_id : Option ℕ
  pub termination_cause : Option TerminationCause
  pub exit_code : Option ℕ
  pub exit_signal : Option ℕ
  pub failure_message : List ℕ
  pub standard_output : List ℕ
  pub standard_error : List ℕ

-- A default-constructed Job with its id and spec set, as the daemon makes it.
unfoldable pub new_job : ℕ → JobSpec → Job
new_job id spec = record {
  id = id;
  spec = spec;
  state = queued;
  pid = none;
  process_group_id = none;
  termination_cause = none;
  exit_code = none;
  exit_signal = none;
  failure_message = [];
  standard_output = [];
  standard_error = [];
}

-- The loop over the arguments, which looks for a NUL byte in each.
unfoldable pub check_arguments : List (List ℕ) → Result (Unit {0})
check_arguments [] = ok tt
check_arguments (argument ∷ rest) =
    if contains 0 argument
    then raise (invalid_argument (codes "job argument contains a NUL byte"))
    else check_arguments rest

unfoldable pub check_timeout : Option ℤ → Result (Unit {0})
check_timeout none = ok tt
check_timeout (some timeout) =
    if is_nonpositive timeout
    then raise (invalid_argument (codes "execution timeout must be positive"))
    else ok tt

-- The checks on the program's path; the later checks follow by `rest`.
unfoldable pub check_program : List (List ℕ) → Result (Unit {0}) → Result (Unit {0})
check_program [] rest = raise (invalid_argument (codes "job argv must not be empty"))
check_program ([] ∷ arguments) rest =
    raise (invalid_argument (codes "job argv[0] must not be empty"))
check_program ((first ∷ path) ∷ arguments) rest =
    if first == b'/'
    then rest
    else raise (invalid_argument (codes "job argv[0] must be an absolute path"))

abbrev next {ℓ} : {B : Type ℓ} → Result (Unit {0}) → Result B → Result B
next (ok _) r = r
next (raise e) r = raise e

unfoldable pub validate_job_spec : JobSpec → Result (Unit {0})
unfolding check_program check_arguments check_timeout
validate_job_spec spec =
    check_program spec.argv
      (next (check_arguments spec.argv) (check_timeout spec.execution_timeout))

unfoldable pub transition_job : JobState → Act Job (Unit {0})
transition_job to job =
    if not (can_transition job.state to)
    then (
      raise (
          logic_error (
            codes "invalid job state transition from "
            ++ job_state_name job.state
            ++ codes " to "
            ++ job_state_name to)),
      job,
    )
    else (ok tt, record job { state = to })
