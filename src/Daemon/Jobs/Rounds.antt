-- ===== src/Daemon/Jobs/Rounds.antt =====
-- What a round of pumpScheduler does to the queue.
use runnerd.Prelude.{
  ℕ, ◌≤◌, List, [], ◌∷◌, Option, none, some, Result, Exception, ok, raise, continue-cases, leb,
  length, ◌≡◌, ◌⊎◌, refl, sym, ap, ◌∙◌, arith, Option-cases, Bool-cases, inl, inr,
}
use runnerd.Prelude.Int.{ℤ}
use runnerd.Prelude.Assoc.{lookup, contains}
use runnerd.Job.{running, is, is_terminal}
use runnerd.Scheduler.{
  JobScheduler, take_front, take_next_job_to_start, on_job_reached_terminal_state,
}
use runnerd.Timeouts.{Calls}
use runnerd.Monitor.Start.{start_job}
use runnerd.Daemon.Jobs.{
  Daemon, System, on_monitor, on_scheduler, on_timeouts, schedule_execution, account_started,
  pump_round,
}

-- The queue is empty, or all slots are taken.
abbrev pub Saturated : JobScheduler → Type 0
Saturated s = (s.waiting_jobs ≡ []) ⊎ (s.max_running ≤ length s.active_job_ids)

-- What takeNextJobToStart may answer, and what it does to the queue and the slots.
pub data Taken (s : JobScheduler) : Result (Option ℕ) × JobScheduler → Type 0 where
  nothing : Saturated s → Taken s (ok none, s)
  front :
      {job_id : ℕ} {s' : JobScheduler}
      → s.waiting_jobs ≡ job_id ∷ s'.waiting_jobs
      → s'.active_job_ids ≡ job_id ∷ s.active_job_ids
      → Taken s (ok (some job_id), s')
  broken : {e : Exception} → Taken s (raise e, s)

take_front-Taken :
    (s : JobScheduler) (queue : List ℕ) → s.waiting_jobs ≡ queue → Taken s (take_front queue s)
unfolding take_front
take_front-Taken s [] h = nothing (inl h)
take_front-Taken s (job_id ∷ rest) h = elim (Bool-cases (contains job_id s.active_job_ids)) [
  | inl e ↦ rw e broken
  | inr e ↦ rw e (front h refl)
]

pub take_next-Taken : (s : JobScheduler) → Taken s (take_next_job_to_start s)
unfolding take_next_job_to_start
take_next-Taken s = elim (Bool-cases (leb s.max_running (length s.active_job_ids))) [
  | inl e ↦ rw (e, take_next_job_to_start) (nothing (inr (ground (arith, e))))
  | inr e ↦ rw (e, take_next_job_to_start) (take_front-Taken s s.waiting_jobs refl)
]

terminal-waiting :
    (job_id : ℕ) (s : JobScheduler)
    → (on_job_reached_terminal_state job_id s).1.waiting_jobs ≡ s.waiting_jobs
unfolding on_job_reached_terminal_state
terminal-waiting job_id s = ground arith

schedule_execution-waiting :
    (job_id : ℕ) (timeout : Option ℤ) (c : Calls) (d : Daemon)
    → (schedule_execution job_id timeout c d).1.scheduler.waiting_jobs ≡ d.scheduler.waiting_jobs
unfolding schedule_execution on_timeouts
schedule_execution-waiting job_id none c d = refl
schedule_execution-waiting job_id (some timeout) c d = refl

account_started-waiting :
    (job_id : ℕ) (c : Calls) (d : Daemon)
    → (account_started job_id c d).1.scheduler.waiting_jobs ≡ d.scheduler.waiting_jobs
unfolding account_started on_scheduler
account_started-waiting job_id c d = elim (Option-cases (lookup job_id d.monitor.jobs)) [
  | inl e ↦ rw (account_started, e) refl
  | inr (job, e) ↦ elim (Bool-cases (is_terminal job.state)) [
    | inl t ↦ rw (account_started, e, t) (terminal-waiting job_id d.scheduler)
    | inr t ↦ elim (Bool-cases (is job.state running)) [
      | inl r ↦
          rw (account_started, e, t, r)
            (schedule_execution-waiting job_id job.spec.execution_timeout c d)
      | inr r ↦ rw (account_started, e, t, r) refl
    ]
  ]
]

module _ (strerror : ℕ → List ℕ) (s : System) where
  pub pump_round-waiting :
      (job_id : ℕ) (d : Daemon)
      → (pump_round strerror s job_id d).1.scheduler.waiting_jobs ≡ d.scheduler.waiting_jobs
  unfolding pump_round on_monitor
  pump_round-waiting job_id d =
      continue-cases
        (λ (r : Result (Unit {0}) × Daemon). r.1.scheduler.waiting_jobs ≡ d.scheduler.waiting_jobs)
        (on_monitor (start_job strerror job_id (s.start job_id)) d) _
        (λ e d' h. sym (ap (λ r. r.1.scheduler.waiting_jobs) h))
        λ _ d' h.
          account_started-waiting job_id (s.execution job_id) d'
          ∙ sym (ap (λ r. r.1.scheduler.waiting_jobs) h)
