-- ===== src/Monitor/Settle/Verdict.antt =====
-- Which state a complete process gives its job, and what of the process the job keeps.
use runnerd.Prelude.{
  ℕ, zero, suc, true, false, List, [], ◌∷◌, Option, none, some, Result, ok, ◌==◌, ◌≡◌, ◌≢◌, ◌↔◌,
  refl, ◌∙◌, ◌⊎◌, arith, length, Bool-cases, Option-cases, inl, inr,
}
use runnerd.Prelude.Assoc.{lookup, lookup-insert}
use runnerd.Job.{
  JobState, running, terminating, failed, succeeded, cancelled, timed_out, TerminationCause,
  by_cancel, by_timeout, Job, is, can_transition, transition_job,
}
use runnerd.Monitor.{WaitStatus, exited, signaled, unexpected, ActiveProcess, ProcessMonitor}
use runnerd.Monitor.Settle.{
  fail_with, state_for, settle_terminating, settle_exit, startup_error_size, settle, is_complete,
  finish_settle, try_finalize_job,
}
use runnerd.Monitor.Settle.Outcome.{fail_with_running, live_state}
use runnerd.Monitor.Invariant.{IsConsistent, is_live}

abbrev exit_code_of : WaitStatus → Option ℕ → Option ℕ
exit_code_of (exited code) old = some code
exit_code_of _ old = old

abbrev exit_signal_of : WaitStatus → Option ℕ → Option ℕ
exit_signal_of (signaled signal) old = some signal
exit_signal_of _ old = old

-- A job that was running succeeds exactly if its program was started and exited with 0, and fails
-- otherwise; one that was terminating ends as its cause says, however its process ended.
pub record Verdict (p : ActiveProcess) (job job' : Job) : Type 0 where
  pub succeeds :
      (job'.state ≡ succeeded)
      ↔ ((job.state ≡ running) × (p.startup_error_bytes ≡ []) × (p.wait_status ≡ exited 0))
  pub fails :
      (job'.state ≡ failed)
      ↔ ((job.state ≡ running) × ((p.startup_error_bytes ≢ []) ⊎ (p.wait_status ≢ exited 0)))
  pub cancels :
      (job'.state ≡ cancelled)
      ↔ ((job.state ≡ terminating) × (job.termination_cause ≡ some by_cancel))
  pub times_out :
      (job'.state ≡ timed_out)
      ↔ ((job.state ≡ terminating) × (job.termination_cause ≡ some by_timeout))
  pub output : job'.standard_output ≡ p.output_bytes
  pub error_output : job'.standard_error ≡ p.error_bytes

-- The same as a table.
abbrev fate : JobState → Option TerminationCause → List ℕ → WaitStatus → JobState
fate terminating (some cause) bytes status = state_for cause
fate terminating none bytes status = terminating
fate state cause [] (exited zero) = succeeded
fate state cause bytes status = failed

fate-Verdict :
    (p : ActiveProcess) (job job' : Job)
    → is_live job ≡ true
    → job'.state ≡ fate job.state job.termination_cause p.startup_error_bytes p.wait_status
    → job'.standard_output ≡ p.output_bytes
    → job'.standard_error ≡ p.error_bytes
    → Verdict p job job'
unfolding state_for
fate-Verdict p job job' live h o e = record {
  succeeds = ground arith;
  fails = ground arith;
  cancels = ground arith;
  times_out = ground arith;
  output = o;
  error_output = e;
}

-- An end without an exception, in a state, with the output kept.
data Ends (job : Job) (state : JobState) : Result (Unit {0}) × Job → Type 0 where
  ends :
      {job' : Job}
      → job'.state ≡ state
      → job'.standard_output ≡ job.standard_output
      → job'.standard_error ≡ job.standard_error
      → Ends job state (ok tt, job')

fail_with-Ends :
    (message : List ℕ) (job other : Job)
    → other.state ≡ running
    → other.standard_output ≡ job.standard_output
    → other.standard_error ≡ job.standard_error
    → Ends job failed (fail_with message other)
fail_with-Ends message job other h o e = rw (fail_with_running message other h) (ends refl o e)

transition_job-Ends :
    (to : JobState) (job other : Job)
    → can_transition other.state to ≡ true
    → other.standard_output ≡ job.standard_output
    → other.standard_error ≡ job.standard_error
    → Ends job to (transition_job to other)
unfolding transition_job
transition_job-Ends to job other h o e = rw (transition_job, h) (ends refl o e)

settle_exit-Ends :
    (status : WaitStatus) (job : Job)
    → job.state ≡ running
    → Ends job (fate running none [] status) (settle_exit status job)
unfolding settle_exit can_transition
settle_exit-Ends (exited zero) job h = transition_job-Ends succeeded job _ (rw h refl) refl refl
settle_exit-Ends (exited (suc code)) job h =
    let positive : (suc code == 0) ≡ false = ground arith in
    rw positive (fail_with-Ends _ job _ h refl refl)
settle_exit-Ends (signaled signal) job h = fail_with-Ends _ job _ h refl refl
settle_exit-Ends unexpected job h = fail_with-Ends _ job _ h refl refl

settle_terminating-Ends :
    (status : WaitStatus) (cause : TerminationCause) (job : Job)
    → job.state ≡ terminating
    → status ≢ unexpected
    → Ends job (state_for cause) (settle_terminating status (some cause) job)
unfolding settle_terminating can_transition state_for
settle_terminating-Ends (exited code) cause job h known =
    transition_job-Ends (state_for cause) job _ (rw h (ground arith)) refl refl
settle_terminating-Ends (signaled signal) cause job h known =
    transition_job-Ends (state_for cause) job _ (rw h (ground arith)) refl refl
settle_terminating-Ends unexpected cause job h known = absurd (known refl)

fate_running :
    (state : JobState) (cause : Option TerminationCause) (bytes : List ℕ) (status : WaitStatus)
    → state ≡ running
    → fate state cause bytes status ≡ fate running none bytes status
fate_running state cause bytes status h = rw h (ground arith)

fate_terminating :
    (state : JobState) (known : Option TerminationCause) (bytes : List ℕ) (status : WaitStatus)
    (cause : TerminationCause)
    → state ≡ terminating
    → known ≡ some cause
    → fate state known bytes status ≡ state_for cause
fate_terminating state known bytes status cause h c = rw (h, c) refl

live_cause :
    (job : Job)
    → is_live job ≡ true
    → job.state ≡ terminating
    → (cause : TerminationCause) × (job.termination_cause ≡ some cause)
live_cause job live h = elim (Option-cases job.termination_cause) [
  | inl c ↦ absurd (ground arith)
  | inr (cause, c) ↦ (cause, c)
]

settle_caused :
    (status : WaitStatus) (o : Option TerminationCause) (cause : TerminationCause) (job : Job)
    → o ≡ some cause
    → job.state ≡ terminating
    → status ≢ unexpected
    → Ends job (state_for cause) (settle_terminating status o job)
settle_caused status o cause job c h known = rw c (settle_terminating-Ends status cause job h known)

module _ (strerror : ℕ → List ℕ) where
  settle_running-Ends :
      (p : ActiveProcess) (bytes : List ℕ) (job : Job)
      → p.startup_error_bytes ≡ bytes
      → job.state ≡ running
      → Ends job (fate running none bytes p.wait_status) (settle strerror p job)
  unfolding settle
  settle_running-Ends p [] job b h =
      let other : is job.state terminating ≡ false = rw h refl in
      rw (other, settle, b) (settle_exit-Ends p.wait_status job h)
  settle_running-Ends p (x ∷ bytes) job b h =
      let other : is job.state terminating ≡ false = rw h refl in
      elim (Bool-cases (length (x ∷ bytes) == startup_error_size)) [
        | inl e ↦ rw (other, settle, b, e) (fail_with-Ends _ job job h refl refl)
        | inr e ↦ rw (other, settle, b, e) (fail_with-Ends _ job job h refl refl)
      ]

  settle-Ends :
      (p : ActiveProcess) (job : Job)
      → is_live job ≡ true
      → (job.state ≡ terminating → p.wait_status ≢ unexpected)
      → Ends job
          (fate job.state job.termination_cause p.startup_error_bytes p.wait_status)
          (settle strerror p job)
  unfolding settle
  settle-Ends p job live known = elim (live_state job live) [
    | inl h ↦
        rw (fate_running job.state job.termination_cause p.startup_error_bytes p.wait_status h)
          (settle_running-Ends p p.startup_error_bytes job refl h)
    | inr h ↦
        let (cause, c) = live_cause job live h in
        let same : is job.state terminating ≡ true = rw h refl in
        rw
          (
            fate_terminating job.state job.termination_cause p.startup_error_bytes p.wait_status
                cause h c,
            settle,
            same,
          )
          (settle_caused p.wait_status job.termination_cause cause job c h (known h))
  ]

  finish_settle-Verdict :
      (j : ℕ) (p : ActiveProcess) (job swapped : Job) (m : ProcessMonitor)
      (r : Result (Unit {0}) × Job)
      → is_live job ≡ true
      → swapped.standard_output ≡ p.output_bytes
      → swapped.standard_error ≡ p.error_bytes
      → Ends swapped (fate job.state job.termination_cause p.startup_error_bytes p.wait_status) r
      → (m' : ProcessMonitor) × (job' : Job) × (finish_settle j p job r m ≡ (ok tt, m'))
        × (lookup j m'.jobs ≡ some job')
        × Verdict p job job'
  unfolding finish_settle
  finish_settle-Verdict j p job swapped m _ live o e (ends {job'} h q r) = (
    _,
    job',
    refl,
    ground (arith, lookup-insert j j job' m.jobs),
    fate-Verdict p job job' live h (q ∙ o) (r ∙ e),
  )

  -- From a consistent monitor, once the process of a job has exited and its pipes are at their ends,
  -- tryFinalizeJob returns, if waitpid has told the exit or the signal of a job that is terminating,
  -- and the job has its output and the state that its exit, its startup and its cause decide.
  pub try_finalize_job-Verdict :
      (j : ℕ) (p : ActiveProcess) (job : Job) (m : ProcessMonitor)
      → IsConsistent m
      → lookup j m.active_jobs ≡ some p
      → lookup j m.jobs ≡ some job
      → is_complete p ≡ true
      → (job.state ≡ terminating → p.wait_status ≢ unexpected)
      → (m' : ProcessMonitor) × (job' : Job) × (try_finalize_job strerror j m ≡ (ok tt, m'))
        × (lookup j m'.jobs ≡ some job')
        × Verdict p job job'
  unfolding try_finalize_job
  try_finalize_job-Verdict j p job m c e f d known =
      let live : is_live job ≡ true = ground (arith, c.agrees j) in
      rw (try_finalize_job, e, d, f)
        (finish_settle-Verdict j p job _ m _ live refl refl (settle-Ends p _ live known))
