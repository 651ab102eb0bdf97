-- ===== src/Monitor/Settle.antt =====
-- src/process_monitor.cpp: tryFinalizeJob, which settles a job once its process has exited and its
-- three pipes are at their ends.
pub mod Outcome
pub mod Verdict
use runnerd.Prelude.{
  ℕ, ◌+◌, ◌*◌, Bool, true, false, not, ◌&&◌, List, [], ◌∷◌, ◌++◌, Option, none, some, Result, Act,
  ok, raise, continue, out_of_range, logic_error, codes, ◌==◌, if◌then◌else◌, length, is_empty,
  take, drop,
}
use runnerd.Prelude.Assoc.{lookup, insert, erase}
use runnerd.Job.{
  JobState, queued, running, terminating, succeeded, failed, cancelled, timed_out, TerminationCause,
  by_cancel, by_timeout, Job, is, transition_job,
}
use runnerd.Numbers.{to_string}
use runnerd.Monitor.{WaitStatus, exited, signaled, unexpected, ActiveProcess, ProcessMonitor}

-- sizeof(ChildStartupError)
abbrev pub startup_error_size : ℕ
startup_error_size = 8

-- Four bytes of memory as a number, the lowest first, as on x86-64.
unfoldable pub host_word : List ℕ → ℕ
host_word (a ∷ b ∷ c ∷ d ∷ _) = a + 256 * (b + 256 * (c + 256 * d))
host_word _ = 0

unfoldable pub startup_stage_name : ℕ → List ℕ
startup_stage_name stage =
    if stage == 1
    then codes "parent-death check"
    else if stage == 2
    then codes "PR_SET_PDEATHSIG"
    else if stage == 3
    then codes "setpgid"
    else if stage == 4
    then codes "dup2 stdin"
    else if stage == 5
    then codes "dup2 stdout"
    else if stage == 6
    then codes "dup2 stderr"
    else if stage == 7
    then codes "execve"
    else codes "unknown startup stage"

-- transitionJob to FAILED, and the message.
unfoldable pub fail_with : List ℕ → Act Job (Unit {0})
fail_with message job =
    continue (transition_job failed job)
      λ _ job'. (ok tt, record job' { failure_message = message })

-- The state that a cause leads to.
unfoldable pub state_for : TerminationCause → JobState
state_for by_cancel = cancelled
state_for by_timeout = timed_out

unfoldable pub settle_terminating : WaitStatus → Option TerminationCause → Act Job (Unit {0})
unfolding state_for
settle_terminating status none job =
    (raise (logic_error (codes "terminating job has no termination cause")), job)
settle_terminating (exited code) (some cause) job =
    transition_job (state_for cause) (record job { exit_code = some code })
settle_terminating (signaled signal) (some cause) job =
    transition_job (state_for cause) (record job { exit_signal = some signal })
settle_terminating unexpected (some cause) job =
    (raise (logic_error (codes "terminating job has unexpected waitpid status")), job)

-- A process that started, by its exit.
unfoldable pub settle_exit : WaitStatus → Act Job (Unit {0})
unfolding fail_with
settle_exit (exited code) job =
    let job' : Job = record job { exit_code = some code } in
    if code == 0
    then transition_job succeeded job'
    else fail_with (codes "process exited with code " ++ to_string code) job'
settle_exit (signaled signal) job =
    fail_with (codes "process terminated by signal " ++ to_string signal)
      (record job { exit_signal = some signal })
settle_exit unexpected job = fail_with (codes "unexpected waitpid status") job

abbrev pub is_complete : ActiveProcess → Bool
is_complete p = p.child_exited && p.stdout_eof && p.stderr_eof && p.startup_error_eof

-- The end of tryFinalizeJob, if the job could be settled, or what an exception leaves.
unfoldable pub finish_settle :
    ℕ → ActiveProcess → Job → Result (Unit {0}) × Job → Act ProcessMonitor (Unit {0})
finish_settle job_id p old (raise e, job) m = (
  raise e,
  record m {
    jobs = insert job_id job m.jobs;
    active_jobs =
        insert job_id
          (record p { output_bytes = old.standard_output; error_bytes = old.standard_error })
          m.active_jobs;
  },
)
finish_settle job_id p old (ok _, job) m = (
  ok tt,
  record m {
    jobs = insert job_id job m.jobs;
    pid_to_job = erase p.pid m.pid_to_job;
    active_jobs = erase job_id m.active_jobs;
    notifications =
        if m.terminal_job_callback then m.notifications ++ job.id ∷ [] else m.notifications;
  },
)

-- std::strerror belongs to the C library; an error number is given by its 32 bits.
module _ (strerror : ℕ → List ℕ) where
  unfoldable pub startup_failure : List ℕ → List ℕ
  unfolding host_word startup_stage_name
  startup_failure bytes =
      codes "child startup failed at "
      ++ startup_stage_name (host_word (take 4 bytes))
      ++ codes ": "
      ++ strerror (host_word (drop 4 bytes))

  -- From the test for TERMINATING to the log line.
  unfoldable pub settle : ActiveProcess → Act Job (Unit {0})
  unfolding settle_terminating settle_exit startup_failure
  settle p job =
      if is job.state terminating
      then settle_terminating p.wait_status job.termination_cause job
      else if is_empty p.startup_error_bytes
      then settle_exit p.wait_status job
      else if length p.startup_error_bytes == startup_error_size
      then fail_with (startup_failure p.startup_error_bytes) job
      else fail_with (codes "malformed child startup error record") job

  unfoldable pub try_finalize_job : ℕ → Act ProcessMonitor (Unit {0})
  unfolding settle finish_settle
  try_finalize_job job_id m = elim (lookup job_id m.active_jobs) [
    | none ↦ (ok tt, m)
    | some p ↦ if not (is_complete p) then (ok tt, m) else elim (lookup job_id m.jobs) [
      | none ↦ (raise (out_of_range []), m)
      | some job ↦
          finish_settle job_id p job
            (settle p
              (record job { standard_output = p.output_bytes; standard_error = p.error_bytes }))
            m
    ]
  ]
