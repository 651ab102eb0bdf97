-- ===== src/Monitor/Invariant/Terminate.antt =====
-- requestTerminate: what it leaves, by what it answers.
use runnerd.Prelude.{
  ℕ, Bool, true, false, List, [], ◌∷◌, ◌++◌, some, Result, ok, continue, continue-cases, ◌≡◌, refl,
  ◌∙◌, arith, Option-cases, Bool-cases, inl, inr, ap,
}
use runnerd.Prelude.Assoc.{lookup, insert, lookup-insert}
use runnerd.Job.{
  JobState, Job, running, terminating, TerminationCause, is, is_terminal, transition_job,
  can_transition,
}
use runnerd.Monitor.{ActiveProcess, ProcessMonitor, Effect, signalled_group}
use runnerd.Monitor.Signals.{
  SignalCalls, finish_exited_child_before_signal, sigterm, set_cause, mark_terminating,
  request_terminate,
}
use runnerd.Monitor.Invariant.{IsConsistent}
use runnerd.Monitor.Invariant.Progress.{Progress, Progress_refl}
use runnerd.Monitor.Invariant.Signals.{finish_exited_child_before_signal-Progress}
use runnerd.Monitor.Invariant.Requests.{
  Outcome, signalled, finished, thrown, send_signal-cases, unfinished,
}

is_eq : (a b : JobState) → is a b ≡ true → a ≡ b
is_eq a b h = ground arith

-- SIGTERM has been sent to the group of a job that was running, which is now terminating for the
-- cause; before that came the progress that the look for an exit makes.
pub record Asked (j : ℕ) (cause : TerminationCause) (m m' : ProcessMonitor) : Type 0 where
  pub before : ProcessMonitor
  pub job : Job
  pub process : ActiveProcess
  pub progress : Progress m before
  pub there : lookup j before.active_jobs ≡ some process
  pub job_there : lookup j before.jobs ≡ some job
  pub was_running : job.state ≡ running
  pub result : m' ≡ record before {
    jobs =
        insert j (record job { state = terminating; termination_cause = some cause }) before.jobs;
    effects = before.effects ++ signalled_group process.process_group_id sigterm ∷ [];
  }
  pub consistent : IsConsistent m'

mark_terminating_lem :
    (j : ℕ) (cause : TerminationCause) (job : Job) (m : ProcessMonitor)
    → lookup j m.jobs ≡ some job
    → job.state ≡ running
    → mark_terminating j cause m ≡ (
      ok true,
      record m {
        jobs = insert j (record job { state = terminating; termination_cause = some cause }) m.jobs;
      },
    )
unfolding mark_terminating set_cause transition_job can_transition
mark_terminating_lem j cause job m e h =
    let allowed : can_transition job.state terminating ≡ true = rw h refl in
    let done : transition_job terminating job ≡ (ok tt, record job { state = terminating }) =
      rw (transition_job, allowed) refl in
    rw (e, mark_terminating, done) refl

terminating-IsConsistent :
    (j0 : ℕ) (cause : TerminationCause) (job : Job) (p : ActiveProcess) (m : ProcessMonitor)
    → lookup j0 m.jobs ≡ some job
    → lookup j0 m.active_jobs ≡ some p
    → IsConsistent m
    → IsConsistent (record m {
      jobs = insert j0 (record job { state = terminating; termination_cause = some cause }) m.jobs;
    })
terminating-IsConsistent j0 cause job p m e f c = record {
  agrees = λ j.
      let job' : Job = record job { state = terminating; termination_cause = some cause } in
      ground (arith, lookup-insert j0 j job' m.jobs, c.agrees j);
  tracked = c.tracked;
  registered = c.registered;
}

with_effects :
    (m : ProcessMonitor) (es : List Effect)
    → IsConsistent m
    → IsConsistent (record m { effects = es })
with_effects m es c = record { agrees = c.agrees; tracked = c.tracked; registered = c.registered }

module _ (strerror : ℕ → List ℕ) where
  -- From a consistent monitor, requestTerminate answers true exactly when it has sent SIGTERM to the
  -- group of the running job and made it terminating for the cause; otherwise it sends no signal
  -- and no job's state changes but by ending. The monitor stays consistent in all cases.
  pub request_terminate-Outcome :
      (j : ℕ) (cause : TerminationCause) (calls : SignalCalls) (m : ProcessMonitor)
      → IsConsistent m
      → Outcome m (Asked j cause m) (request_terminate strerror j cause calls m)
  unfolding request_terminate is_terminal
  request_terminate-Outcome j cause calls m c = elim (Option-cases (lookup j m.jobs)) [
    | inl e ↦ rw (e, request_terminate) (thrown (Progress_refl m c))
    | inr (job, e) ↦ elim (Bool-cases (is job.state running)) [
      | inr h ↦ rw (e, request_terminate, h) (thrown (Progress_refl m c))
      | inl h ↦
          rw (e, request_terminate, h)
            (let p = finish_exited_child_before_signal-Progress strerror j calls m c in
              continue-cases (Outcome m (Asked j cause m))
                (finish_exited_child_before_signal strerror j calls m) _
                (λ x s r. thrown (rw r at p))
                λ exited s r.
                  let q : Progress m s = rw r at p in
                  elim (Bool-cases exited) [
                    | inl y ↦ rw y (finished q)
                    | inr n ↦
                        let (job', g, t) =
                          unfinished strerror j calls m s job c e
                            (rw (is_eq job.state running h) refl)
                            (r ∙ ap (λ (b : Bool). (ok b, s)) n) in
                        rw n (
                          send_signal-cases j sigterm _ calls.kill s
                            (λ (sent : Result Bool × ProcessMonitor). Outcome m (Asked j cause m) (
                              continue sent λ (sent : Bool) (s : ProcessMonitor). elim sent [
                                | false ↦ (ok false, s)
                                | true ↦ mark_terminating j cause s
                              ]))
                            (λ x. thrown q) (finished q)
                            λ p f.
                              let there : ProcessMonitor = record s {
                                effects =
                                    s.effects ++ signalled_group p.process_group_id sigterm ∷ [];
                              } in
                              rw
                                (mark_terminating_lem j cause job' there g
                                  (t ∙ is_eq job.state running h))
                                (signalled (record {
                                  before = s;
                                  job = job';
                                  process = p;
                                  progress = q;
                                  there = f;
                                  job_there = g;
                                  was_running = t ∙ is_eq job.state running h;
                                  result = refl;
                                  consistent =
                                      with_effects _ _ (
                                        terminating-IsConsistent j cause job' p s g f q.consistent);
                                })))
                  ])
    ]
  ]
