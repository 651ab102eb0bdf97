-- ===== src/Monitor/Invariant/Requests.antt =====
-- What requestTerminate and forceKill have in common.
use runnerd.Prelude.{
  ℕ, Bool, true, false, List, [], ◌∷◌, ◌++◌, Option, none, some, Result, Exception, system_error,
  ok, raise, continue-eq-ok, ◌==◌, if◌then◌else◌, ◌≡◌, refl, ◌∙◌, arith, Option-cases, Bool-cases,
  inl, inr, ap, sym,
}
use runnerd.Prelude.Assoc.{lookup}
use runnerd.Job.{Job, is_terminal}
use runnerd.Monitor.{ActiveProcess, ProcessMonitor, signalled_group}
use runnerd.Monitor.Settle.{try_finalize_job}
use runnerd.Monitor.Signals.{
  Wait, SignalCalls, check_child, drain_all, job_is_terminal, finish_exited,
  finish_exited_child_before_signal, no_process, send_signal_to_process_group,
}
use runnerd.Monitor.Invariant.{IsConsistent}
use runnerd.Monitor.Invariant.Progress.{JobMoves, absent, stays, ends, Progress}
use runnerd.Monitor.Invariant.Signals.{finish_exited_child_before_signal-Progress}

abbrev ended : Option Job → Bool
ended none = false
ended (some job) = is_terminal job.state

check_child-jobs :
    (j : ℕ) (p : ActiveProcess) (wait : Wait) (m : ProcessMonitor)
    → (check_child j p wait m).1.jobs ≡ m.jobs
unfolding check_child
check_child-jobs j p wait m = ground arith

ok_inj : {a b : Bool} → ok a ≡ ok b → a ≡ b
ok_inj h = ground arith

job_is_terminal-ended :
    (j : ℕ) (m m' : ProcessMonitor)
    → job_is_terminal j m ≡ (ok false, m')
    → ended (lookup j m'.jobs) ≡ false
unfolding job_is_terminal
job_is_terminal-ended j m m' h = elim (Option-cases (lookup j m.jobs)) [
  | inl e ↦ absurd (cc (rw (e, job_is_terminal) at h))
  | inr (job, e) ↦
      let both : (ok (is_terminal job.state), m) ≡ (ok false, m') = rw (e, job_is_terminal) at h in
      let jobs : m.jobs ≡ m'.jobs = ap (λ r. r.1.jobs) both in
      let open_still : ok (is_terminal job.state) ≡ ok false = ap (λ r. r.0) both in
      rw (sym jobs, e) (ok_inj open_still)
]

still_there :
    {a b : Option Job} {job : Job}
    → JobMoves a b
    → a ≡ some job
    → ended b ≡ false
    → (job' : Job) × (b ≡ some job') × (job'.state ≡ job.state)
still_there absent e h = absurd cc
still_there (stays {a} {b} i s t) e h =
    let same : some a ≡ some _ = e in (b, refl, ground (arith, t))
still_there (ends i s t q) e h = absurd cc

-- How a request for a signal leaves the monitor, where `Sent` says what it leaves with the signal.
pub data Outcome (m : ProcessMonitor) (Sent : ProcessMonitor → Type 0)
    : Result Bool × ProcessMonitor → Type 0 where
  signalled : {m' : ProcessMonitor} → Sent m' → Outcome m Sent (ok true, m')
  finished : {m' : ProcessMonitor} → Progress m m' → Outcome m Sent (ok false, m')
  thrown : {m' : ProcessMonitor} {e : Exception} → Progress m m' → Outcome m Sent (raise e, m')

pub send_signal-cases :
    (j signal : ℕ) (operation : List ℕ) (kill : Option ℕ) (m : ProcessMonitor)
    (P : Result Bool × ProcessMonitor → Type 0)
    → ((e : Exception) → P (raise e, m))
    → P (ok false, m)
    → ((p : ActiveProcess)
        → lookup j m.active_jobs ≡ some p
        → P (
          ok true,
          record m { effects = m.effects ++ signalled_group p.process_group_id signal ∷ [] },
        ))
    → P (send_signal_to_process_group j signal operation kill m)
unfolding send_signal_to_process_group
send_signal-cases j signal operation kill m P threw gone sent =
    elim (Option-cases (lookup j m.active_jobs)) [
      | inl e ↦ rw (e, send_signal_to_process_group) (threw _)
      | inr (p, e) ↦ elim (Bool-cases (p.process_group_id == 0)) [
        | inl z ↦ rw (e, send_signal_to_process_group, z) (threw _)
        | inr z ↦ rw (e, send_signal_to_process_group, z) (by_kill kill p e)
      ]
    ]
  where
    by_kill :
        (kill : Option ℕ) (p : ActiveProcess)
        → lookup j m.active_jobs ≡ some p
        → P (elim kill [
          | none ↦ (
            ok true,
            record m { effects = m.effects ++ signalled_group p.process_group_id signal ∷ [] },
          )
          | some error_number ↦
              if error_number == no_process
              then (ok false, m)
              else (raise (system_error error_number operation), m)
        ])
    by_kill none p e = sent p e
    by_kill (some error_number) p e = elim (Bool-cases (error_number == no_process)) [
      | inl z ↦ rw z gone
      | inr z ↦ rw z (threw _)
    ]

module _ (strerror : ℕ → List ℕ) where
  finish_exited-ended :
      (j : ℕ) (p : ActiveProcess) (calls : SignalCalls) (exited : Bool) (m m' : ProcessMonitor)
      → finish_exited strerror j p calls exited m ≡ (ok false, m')
      → ended (lookup j m.jobs) ≡ false
      → ended (lookup j m'.jobs) ≡ false
  unfolding finish_exited
  finish_exited-ended j p calls false m m' h e =
      let jobs : m.jobs ≡ m'.jobs = ap (λ r. r.1.jobs) h in rw (sym jobs) e
  finish_exited-ended j p calls true m m' h e =
      let (_, m1, _, h1) = continue-eq-ok (drain_all p calls m) _ h in
      let (_, m2, _, h2) = continue-eq-ok (try_finalize_job strerror j m1) _ h1 in
      job_is_terminal-ended j m2 m' h2

  finish_exited_child-ended :
      (j : ℕ) (calls : SignalCalls) (m m' : ProcessMonitor)
      → finish_exited_child_before_signal strerror j calls m ≡ (ok false, m')
      → ended (lookup j m.jobs) ≡ false
      → ended (lookup j m'.jobs) ≡ false
  unfolding finish_exited_child_before_signal
  finish_exited_child-ended j calls m m' h e = elim (Option-cases (lookup j m.active_jobs)) [
    | inl gone ↦ absurd (cc (rw (gone, finish_exited_child_before_signal) at h))
    | inr (p, found) ↦
        let (exited, m1, h1, h2) =
          continue-eq-ok (check_child j p calls.wait m) _
            (rw (found, finish_exited_child_before_signal) at h) in
        let jobs : m.jobs ≡ m1.jobs =
          sym (check_child-jobs j p calls.wait m) ∙ ap (λ r. r.1.jobs) h1 in
        finish_exited-ended j p calls exited m1 m' h2 (rw (sym jobs) e)
  ]

  -- If no exit stands in the way of a signal, the job is in the state that it was in.
  pub unfinished :
      (j : ℕ) (calls : SignalCalls) (m m' : ProcessMonitor) (job : Job)
      → IsConsistent m
      → lookup j m.jobs ≡ some job
      → is_terminal job.state ≡ false
      → finish_exited_child_before_signal strerror j calls m ≡ (ok false, m')
      → (job' : Job) × (lookup j m'.jobs ≡ some job') × (job'.state ≡ job.state)
  unfinished j calls m m' job c e open_still h =
      let p : Progress m m' =
        rw h at (finish_exited_child_before_signal-Progress strerror j calls m c) in
      still_there (p.jobs j) e (finish_exited_child-ended j calls m m' h (rw e open_still))
