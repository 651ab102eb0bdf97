-- ===== src/Daemon/Jobs/Slots.antt =====
-- What a round of pumpScheduler does to the slots and the job table.
use runnerd.Prelude.{
  ℕ, List, Option, none, some, Result, ok, continue-cases, true, false, ◌==◌, ◌≡◌, refl, sym, ap,
  ◌∙◌, arith, Option-cases, Bool-cases, inl, inr,
}
use runnerd.Prelude.Int.{ℤ}
use runnerd.Prelude.Assoc.{lookup, contains, contains-remove}
use runnerd.Job.{Job, running, is, is_terminal}
use runnerd.Scheduler.{JobScheduler, on_job_reached_terminal_state}
use runnerd.Scheduler.Invariant.{IsConsistent, finish-IsConsistent}
use runnerd.Timeouts.{Calls}
use runnerd.Monitor.{ProcessMonitor}
use runnerd.Monitor.Start.{start_job}
use runnerd.Monitor.Start.Table.{Past, Past-same}
use runnerd.Monitor.Start.Leaving.{start_job-others, start_job-Past}
use runnerd.Daemon.Jobs.{
  Daemon, System, on_monitor, on_scheduler, on_timeouts, schedule_execution, account_started,
  pump_round,
}

-- The job runs and holds a slot, or it has ended and holds none.
pub data Placed (i : ℕ) (d : Daemon) : Type 0 where
  runs :
      {job : Job}
      → lookup i d.monitor.jobs ≡ some job
      → is job.state running ≡ true
      → contains i d.scheduler.active_job_ids ≡ true
      → Placed i d
  ended :
      {job : Job}
      → lookup i d.monitor.jobs ≡ some job
      → is_terminal job.state ≡ true
      → contains i d.scheduler.active_job_ids ≡ false
      → Placed i d

pub Placed-same :
    {i : ℕ} {d d' : Daemon}
    → lookup i d'.monitor.jobs ≡ lookup i d.monitor.jobs
    → contains i d'.scheduler.active_job_ids ≡ contains i d.scheduler.active_job_ids
    → Placed i d
    → Placed i d'
Placed-same e a (runs found r slot) = runs (e ∙ found) r (a ∙ slot)
Placed-same e a (ended found t slot) = ended (e ∙ found) t (a ∙ slot)

schedule_execution-scheduler :
    (job_id : ℕ) (timeout : Option ℤ) (c : Calls) (d : Daemon)
    → (schedule_execution job_id timeout c d).1.scheduler ≡ d.scheduler
unfolding schedule_execution on_timeouts
schedule_execution-scheduler job_id none c d = refl
schedule_execution-scheduler job_id (some timeout) c d = refl

schedule_execution-monitor :
    (job_id : ℕ) (timeout : Option ℤ) (c : Calls) (d : Daemon)
    → (schedule_execution job_id timeout c d).1.monitor ≡ d.monitor
unfolding schedule_execution on_timeouts
schedule_execution-monitor job_id none c d = refl
schedule_execution-monitor job_id (some timeout) c d = refl

account_started-jobs :
    (job_id : ℕ) (c : Calls) (d : Daemon)
    → (account_started job_id c d).1.monitor.jobs ≡ d.monitor.jobs
unfolding account_started on_scheduler schedule_execution on_timeouts
account_started-jobs job_id c d = ground arith

-- Either it gives the slot of the job back, or it leaves the scheduler alone.
data Accounts (job_id : ℕ) (s : JobScheduler) : JobScheduler → Type 0 where
  released : Accounts job_id s (on_job_reached_terminal_state job_id s).1
  same_slots : {s' : JobScheduler} → s' ≡ s → Accounts job_id s s'

account_started-Accounts :
    (job_id : ℕ) (c : Calls) (d : Daemon)
    → Accounts job_id d.scheduler (account_started job_id c d).1.scheduler
unfolding account_started on_scheduler
account_started-Accounts job_id c d = elim (Option-cases (lookup job_id d.monitor.jobs)) [
  | inl e ↦ rw (account_started, e) (same_slots refl)
  | inr (job, e) ↦ elim (Bool-cases (is_terminal job.state)) [
    | inl t ↦ rw (account_started, e, t) released
    | inr t ↦ elim (Bool-cases (is job.state running)) [
      | inl r ↦
          rw (account_started, e, t, r)
            (same_slots (schedule_execution-scheduler job_id job.spec.execution_timeout c d))
      | inr r ↦ rw (account_started, e, t, r) (same_slots refl)
    ]
  ]
]

Accounts-IsConsistent :
    {job_id : ℕ} {s s' : JobScheduler} → Accounts job_id s s' → IsConsistent s → IsConsistent s'
Accounts-IsConsistent {job_id} {s} released v = finish-IsConsistent job_id s v
Accounts-IsConsistent (same_slots e) v = rw e v

finish-others :
    (job_id i : ℕ) (s : JobScheduler)
    → (job_id == i) ≡ false
    → IsConsistent s
    → contains i (on_job_reached_terminal_state job_id s).1.active_job_ids
      ≡ contains i s.active_job_ids
unfolding on_job_reached_terminal_state
finish-others job_id i s d v =
    ground (arith, d, contains-remove job_id i s.active_job_ids v.active_distinct)

Accounts-others :
    {job_id : ℕ} {s s' : JobScheduler} (i : ℕ)
    → (job_id == i) ≡ false
    → IsConsistent s
    → Accounts job_id s s'
    → contains i s'.active_job_ids ≡ contains i s.active_job_ids
Accounts-others {job_id} {s} i d v released = finish-others job_id i s d v
Accounts-others i d v (same_slots e) = ap (λ (s : JobScheduler). contains i s.active_job_ids) e

account_started-Placed :
    (job_id : ℕ) (c : Calls) (d : Daemon)
    → IsConsistent d.scheduler
    → contains job_id d.scheduler.active_job_ids ≡ true
    → (account_started job_id c d).0 ≡ ok tt
    → Placed job_id (account_started job_id c d).1
unfolding account_started on_scheduler on_job_reached_terminal_state
account_started-Placed job_id c d v slot = elim (Option-cases (lookup job_id d.monitor.jobs)) [
  | inl e ↦ rw (account_started, e) (λ h. absurd cc)
  | inr (job, e) ↦ elim (Bool-cases (is_terminal job.state)) [
    | inl t ↦
        rw (account_started, e, t, on_job_reached_terminal_state, slot)
          (λ h. ended e t (
            ground
              (arith, contains-remove job_id job_id d.scheduler.active_job_ids v.active_distinct)))
    | inr t ↦ elim (Bool-cases (is job.state running)) [
      | inl r ↦
          rw (account_started, e, t, r)
            (λ h.
              Placed-same {d = d}
                (ap (λ (m : ProcessMonitor). lookup job_id m.jobs)
                  (schedule_execution-monitor job_id job.spec.execution_timeout c d))
                (ap (λ (s : JobScheduler). contains job_id s.active_job_ids)
                  (schedule_execution-scheduler job_id job.spec.execution_timeout c d))
                (runs e r slot))
      | inr r ↦ rw (account_started, e, t, r) (λ h. absurd cc)
    ]
  ]
]

-- A round on a job, however it ends.
pub record Round (job_id : ℕ) (d : Daemon) (r : Result (Unit {0}) × Daemon) : Type 0 where
  pub left : Past job_id r.1.monitor.jobs
  pub others : (i : ℕ) → (job_id == i) ≡ false → lookup i r.1.monitor.jobs ≡ lookup i d.monitor.jobs
  pub consistent : IsConsistent d.scheduler → IsConsistent r.1.scheduler
  pub slots :
      (i : ℕ)
      → (job_id == i) ≡ false
      → IsConsistent d.scheduler
      → contains i r.1.scheduler.active_job_ids ≡ contains i d.scheduler.active_job_ids
  pub placed :
      IsConsistent d.scheduler
      → contains job_id d.scheduler.active_job_ids ≡ true
      → r.0 ≡ ok tt
      → Placed job_id r.1

module _ (strerror : ℕ → List ℕ) (s : System) where
  -- A step before the accounting that keeps the scheduler.
  account_started-Round :
      (job_id : ℕ) (d d' : Daemon)
      → d'.monitor ≡ (start_job strerror job_id (s.start job_id) d.monitor).1
      → d'.scheduler ≡ d.scheduler
      → Round job_id d (account_started job_id (s.execution job_id) d')
  account_started-Round job_id d d' m q =
      let c = s.execution job_id in
      let jobs = account_started-jobs job_id c d' ∙ ap (λ (m : ProcessMonitor). m.jobs) m in
      let accounts = account_started-Accounts job_id c d' in
      record {
        left =
            Past-same (ap (lookup job_id) jobs)
              (start_job-Past strerror job_id (s.start job_id) d.monitor);
        others = λ i other.
            ap (lookup i) jobs
            ∙ start_job-others strerror job_id (s.start job_id) d.monitor i other;
        consistent = λ v. Accounts-IsConsistent accounts (rw q v);
        slots = λ i other v.
            Accounts-others i other (rw q v) accounts
            ∙ ap (λ (s : JobScheduler). contains i s.active_job_ids) q;
        placed = λ v slot. account_started-Placed job_id c d' (rw q v) (rw q slot);
      }

  pub pump_round-Round : (job_id : ℕ) (d : Daemon) → Round job_id d (pump_round strerror s job_id d)
  unfolding pump_round on_monitor
  pump_round-Round job_id d =
      continue-cases (Round job_id d) (on_monitor (start_job strerror job_id (s.start job_id)) d) _
        (λ e d' h.
          let jobs = sym (ap (λ r. r.1.monitor.jobs) h) in
          let q = sym (ap (λ r. r.1.scheduler) h) in
          record {
            left =
                Past-same (ap (lookup job_id) jobs)
                  (start_job-Past strerror job_id (s.start job_id) d.monitor);
            others = λ i other.
                ap (lookup i) jobs
                ∙ start_job-others strerror job_id (s.start job_id) d.monitor i other;
            consistent = λ v. rw q v;
            slots = λ i other v. ap (λ (s : JobScheduler). contains i s.active_job_ids) q;
            placed = λ v slot thrown. absurd cc;
          })
        λ _ d' h.
          account_started-Round job_id d d' (sym (ap (λ r. r.1.monitor) h))
            (sym (ap (λ r. r.1.scheduler) h))
