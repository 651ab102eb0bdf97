-- ===== src/Monitor/Settle/Outcome.antt =====
-- What settling does to a job: it ends in a state that is terminal, or keeps the state it has.
use runnerd.Prelude.{
  ℕ, true, false, List, Option, none, some, Result, Exception, ok, raise, ◌==◌, ◌≡◌, refl, ◌∙◌, ◌⊎◌,
  arith, is_empty, length, Bool-cases, inl, inr,
}
use runnerd.Job.{
  JobState, running, terminating, failed, succeeded, TerminationCause, Job, is, is_terminal,
  can_transition, transition_job,
}
use runnerd.Monitor.{WaitStatus, exited, signaled, unexpected, ActiveProcess}
use runnerd.Monitor.Settle.{
  fail_with, state_for, settle_terminating, settle_exit, startup_error_size, settle,
}
use runnerd.Monitor.Invariant.{is_live}

-- How a live job leaves the settling.
pub data Settled (job : Job) : Result (Unit {0}) × Job → Type 0 where
  ended :
      {job' : Job}
      → job'.id ≡ job.id
      → job'.spec ≡ job.spec
      → is_terminal job'.state ≡ true
      → can_transition job.state job'.state ≡ true
      → Settled job (ok tt, job')
  kept :
      {job' : Job} {e : Exception}
      → job'.id ≡ job.id
      → job'.spec ≡ job.spec
      → job'.state ≡ job.state
      → job'.termination_cause ≡ job.termination_cause
      → Settled job (raise e, job')

pub fail_with_running :
    (message : List ℕ) (job : Job)
    → job.state ≡ running
    → fail_with message job ≡ (ok tt, record job { state = failed; failure_message = message })
unfolding fail_with transition_job can_transition
fail_with_running message job h = rw (h, fail_with, transition_job) refl

fail_with-Settled :
    (message : List ℕ) (job : Job) → job.state ≡ running → Settled job (fail_with message job)
unfolding is_terminal can_transition
fail_with-Settled message job h =
    rw (fail_with_running message job h) (ended refl refl refl (rw h refl))

-- Only these fields matter.
resettle :
    (other job : Job) (r : Result (Unit {0}) × Job)
    → other.id ≡ job.id
    → other.spec ≡ job.spec
    → other.state ≡ job.state
    → other.termination_cause ≡ job.termination_cause
    → Settled other r
    → Settled job r
resettle other job _ i s t c (ended a b d e) = ended (a ∙ i) (b ∙ s) d (rw t at e)
resettle other job _ i s t c (kept a b d e) = kept (a ∙ i) (b ∙ s) (d ∙ t) (e ∙ c)

transition_job-Settled :
    (to : JobState) (job : Job)
    → can_transition job.state to ≡ true
    → is_terminal to ≡ true
    → Settled job (transition_job to job)
unfolding transition_job
transition_job-Settled to job h t = rw (transition_job, h) (ended refl refl t h)

settle_exit-Settled :
    (status : WaitStatus) (job : Job) → job.state ≡ running → Settled job (settle_exit status job)
unfolding settle_exit can_transition is_terminal
settle_exit-Settled (exited code) job h =
    let job' : Job = record job { exit_code = some code } in
    resettle job' job _ refl refl refl refl (elim (Bool-cases (code == 0)) [
      | inl e ↦ rw e (transition_job-Settled succeeded job' (rw h refl) refl)
      | inr e ↦ rw e (fail_with-Settled _ job' h)
    ])
settle_exit-Settled (signaled signal) job h =
    let job' : Job = record job { exit_signal = some signal } in
    resettle job' job _ refl refl refl refl (fail_with-Settled _ job' h)
settle_exit-Settled unexpected job h = fail_with-Settled _ job h

settle_terminating-Settled :
    (status : WaitStatus) (cause : Option TerminationCause) (job : Job)
    → job.state ≡ terminating
    → Settled job (settle_terminating status cause job)
unfolding settle_terminating can_transition is_terminal state_for
settle_terminating-Settled status none job h = kept refl refl refl refl
settle_terminating-Settled (exited code) (some cause) job h =
    let job' : Job = record job { exit_code = some code } in
    resettle job' job _ refl refl refl refl
      (transition_job-Settled (state_for cause) job' (rw h (ground arith)) (ground arith))
settle_terminating-Settled (signaled signal) (some cause) job h =
    let job' : Job = record job { exit_signal = some signal } in
    resettle job' job _ refl refl refl refl
      (transition_job-Settled (state_for cause) job' (rw h (ground arith)) (ground arith))
settle_terminating-Settled unexpected (some cause) job h = kept refl refl refl refl

pub live_state :
    (job : Job) → is_live job ≡ true → (job.state ≡ running) ⊎ (job.state ≡ terminating)
live_state job h = ground arith

module _ (strerror : ℕ → List ℕ) where
  settle_running :
      (p : ActiveProcess) (job : Job) → job.state ≡ running → Settled job (settle strerror p job)
  unfolding settle
  settle_running p job h =
      let other : is job.state terminating ≡ false = rw h refl in
      rw (other, settle)
        (elim (Bool-cases (is_empty p.startup_error_bytes)) [
          | inl e ↦ rw e (settle_exit-Settled p.wait_status job h)
          | inr e ↦ rw e (elim (Bool-cases (length p.startup_error_bytes == startup_error_size)) [
            | inl whole ↦ rw whole (fail_with-Settled _ job h)
            | inr part ↦ rw part (fail_with-Settled _ job h)
          ])
        ])

  settle_terminating_lem :
      (p : ActiveProcess) (job : Job)
      → job.state ≡ terminating
      → Settled job (settle strerror p job)
  unfolding settle
  settle_terminating_lem p job h =
      let same : is job.state terminating ≡ true = rw h refl in
      rw (same, settle) (settle_terminating-Settled p.wait_status job.termination_cause job h)

  pub settle-Settled :
      (p : ActiveProcess) (job : Job) → is_live job ≡ true → Settled job (settle strerror p job)
  settle-Settled p job h = elim (live_state job h) [
    | inl e ↦ settle_running p job e
    | inr e ↦ settle_terminating_lem p job e
  ]
