-- ===== src/Monitor/Invariant/Kill.antt =====
-- forceKill: what it leaves, by what it answers.
use runnerd.Prelude.{
  ℕ, Bool, true, List, [], ◌∷◌, ◌++◌, some, ok, continue-cases, ◌≡◌, refl, ◌∙◌, arith, Option-cases,
  Bool-cases, inl, inr, ap,
}
use runnerd.Prelude.Assoc.{lookup}
use runnerd.Job.{JobState, Job, terminating, is, is_terminal}
use runnerd.Monitor.{ActiveProcess, ProcessMonitor, signalled_group, has_value}
use runnerd.Monitor.Signals.{SignalCalls, finish_exited_child_before_signal, sigkill, force_kill}
use runnerd.Monitor.Invariant.{IsConsistent}
use runnerd.Monitor.Invariant.Progress.{Progress, Progress_refl}
use runnerd.Monitor.Invariant.Signals.{finish_exited_child_before_signal-Progress}
use runnerd.Monitor.Invariant.Requests.{
  Outcome, signalled, finished, thrown, send_signal-cases, unfinished,
}

is_eq : (a b : JobState) → is a b ≡ true → a ≡ b
is_eq a b h = ground arith

-- SIGKILL has been sent to the group of the job, which is still terminating, after the progress
-- that the look for an exit makes.
pub record Killed (j : ℕ) (m m' : ProcessMonitor) : Type 0 where
  pub before : ProcessMonitor
  pub job : Job
  pub process : ActiveProcess
  pub progress : Progress m before
  pub there : lookup j before.active_jobs ≡ some process
  pub job_there : lookup j before.jobs ≡ some job
  pub still : job.state ≡ terminating
  pub result : m' ≡ record before {
    effects = before.effects ++ signalled_group process.process_group_id sigkill ∷ [];
  }

module _ (strerror : ℕ → List ℕ) where
  -- From a consistent monitor, forceKill answers true only after SIGKILL to the job's group, and
  -- otherwise sends nothing; in all cases no job's state changes but by ending.
  pub force_kill-Outcome :
      (j : ℕ) (calls : SignalCalls) (m : ProcessMonitor)
      → IsConsistent m
      → Outcome m (Killed j m) (force_kill strerror j calls m)
  unfolding force_kill is_terminal
  force_kill-Outcome j calls m c = elim (Option-cases (lookup j m.jobs)) [
    | inl e ↦ rw (e, force_kill) (thrown (Progress_refl m c))
    | inr (job, e) ↦ elim (Bool-cases (is job.state terminating)) [
      | inr h ↦ rw (e, force_kill, h) (thrown (Progress_refl m c))
      | inl h ↦ elim (Bool-cases (has_value job.termination_cause)) [
        | inr k ↦ rw (e, force_kill, h, k) (thrown (Progress_refl m c))
        | inl k ↦
            rw (e, force_kill, h, k)
              (let p = finish_exited_child_before_signal-Progress strerror j calls m c in
                continue-cases (Outcome m (Killed j m))
                  (finish_exited_child_before_signal strerror j calls m) _
                  (λ x s r. thrown (rw r at p))
                  λ exited s r.
                    let q : Progress m s = rw r at p in
                    elim (Bool-cases exited) [
                      | inl y ↦ rw y (finished q)
                      | inr n ↦
                          let (job', g, t) =
                            unfinished strerror j calls m s job c e
                              (rw (is_eq job.state terminating h) refl)
                              (r ∙ ap (λ (b : Bool). (ok b, s)) n) in
                          rw n (
                            send_signal-cases j sigkill _ calls.kill s (Outcome m (Killed j m))
                              (λ x. thrown q) (finished q)
                              λ p f. signalled (record {
                                before = s;
                                job = job';
                                process = p;
                                progress = q;
                                there = f;
                                job_there = g;
                                still = t ∙ is_eq job.state terminating h;
                                result = refl;
                              }))
                    ])
      ]
    ]
  ]
