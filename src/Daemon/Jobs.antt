-- ===== src/Daemon/Jobs.antt =====
-- src/runnerd_main.cpp: the functions that join the scheduler, the process monitor and the timeout
-- manager. What the system calls return stands in a record of functions of the job. What is
-- written to the log is left out.
pub mod Rounds
pub mod Slots
pub mod Taking
pub mod Pumping
pub mod Notifications
use runnerd.Prelude.{
  ℕ, zero, suc, ◌+◌, ◌%◌, ◌^◌, Bool, true, false, not, List, [], ◌∷◌, ◌++◌, Option, none, some,
  Exception, Result, Act, ok, raise, continue, system_error, logic_error, out_of_range, codes,
  if◌then◌else◌, length,
}
use runnerd.Prelude.Int.{ℤ, pos}
use runnerd.Prelude.Assoc.{lookup, insert}
use runnerd.Job.{
  JobState, queued, running, terminating, cancelled, by_cancel, Job, is, is_terminal,
  transition_job,
}
use runnerd.Scheduler.{
  JobScheduler, take_next_job_to_start, on_job_reached_terminal_state, cancel_queued_job,
}
use runnerd.Timeouts.{TimeoutManager, Calls, schedule, cancel}
use runnerd.Monitor.{ProcessMonitor}
use runnerd.Monitor.Signals.{SignalCalls, request_terminate, force_kill}
use runnerd.Monitor.Start.{StartCalls, start_job}

-- What main owns. The job table and the notifications stand in the monitor.
pub record Daemon : Type 0 where
  pub monitor : ProcessMonitor
  pub scheduler : JobScheduler
  pub timeouts : TimeoutManager
  pub next_job_id : ℕ

-- The system calls while one event is handled: a job is started, asked to terminate and killed at
-- most once each, and its execution and grace deadlines are set at most once each.
pub record System : Type 0 where
  pub start : ℕ → StartCalls
  pub terminate : ℕ → SignalCalls
  pub kill : ℕ → SignalCalls
  pub execution : ℕ → Calls
  pub grace : ℕ → Calls

unfoldable pub on_monitor {ℓ} : {A : Type ℓ} → Act ProcessMonitor A → Act Daemon A
on_monitor f d = ((f d.monitor).0, record d { monitor = (f d.monitor).1 })

unfoldable pub on_scheduler {ℓ} : {A : Type ℓ} → Act JobScheduler A → Act Daemon A
on_scheduler f d = ((f d.scheduler).0, record d { scheduler = (f d.scheduler).1 })

unfoldable pub on_timeouts {ℓ} : {A : Type ℓ} → Act TimeoutManager A → Act Daemon A
on_timeouts f d = ((f d.timeouts).0, record d { timeouts = (f d.timeouts).1 })

unfoldable pub drop_deadline : ℕ → Daemon → Daemon
drop_deadline job_id d = record d { timeouts = cancel job_id d.timeouts }

-- notifications.pop_front()
unfoldable pub pop_notification : List ℕ → Daemon → Daemon
pop_notification rest d = record d { monitor = record (d.monitor) { notifications = rest } }

-- kTerminationGracePeriod, in milliseconds
abbrev pub termination_grace_period : ℤ
termination_grace_period = pos 1000

-- The loop's round for a started job that runs: its execution deadline, if it has one.
unfoldable pub schedule_execution : ℕ → Option ℤ → Calls → Act Daemon (Unit {0})
unfolding on_timeouts
schedule_execution job_id none c d = (ok tt, d)
schedule_execution job_id (some timeout) c d = on_timeouts (schedule job_id timeout c) d

-- A round of pumpScheduler after startJob.
unfoldable pub account_started : ℕ → Calls → Act Daemon (Unit {0})
unfolding on_scheduler schedule_execution
account_started job_id c d = elim (lookup job_id d.monitor.jobs) [
  | none ↦ (raise (out_of_range []), d)
  | some job ↦
      if is_terminal job.state
      then on_scheduler (on_job_reached_terminal_state job_id) d
      else if not (is job.state running)
      then (raise (logic_error (codes "started job is neither RUNNING nor terminal")), d)
      else schedule_execution job_id job.spec.execution_timeout c d
]

module _ (strerror : ℕ → List ℕ) (s : System) where
  -- The try block and the catch block, which kills at once.
  unfoldable pub grace_scheduled : ℕ → Result (Unit {0}) × Daemon → Result (Unit {0}) × Daemon
  unfolding drop_deadline on_monitor
  grace_scheduled job_id (ok _, d) = (ok tt, d)
  grace_scheduled job_id (raise e, d) =
      continue (on_monitor (force_kill strerror job_id (s.kill job_id)) (drop_deadline job_id d))
        λ _ d. (ok tt, d)

  unfoldable pub schedule_force_kill_deadline : ℕ → Act Daemon (Unit {0})
  unfolding grace_scheduled on_timeouts drop_deadline
  schedule_force_kill_deadline job_id d = grace_scheduled job_id (
      on_timeouts (schedule job_id termination_grace_period (s.grace job_id))
        (drop_deadline job_id d))

  unfoldable pub pump_round : ℕ → Act Daemon (Unit {0})
  unfolding on_monitor account_started
  pump_round job_id d =
      continue (on_monitor (start_job strerror job_id (s.start job_id)) d)
        λ _ d. account_started job_id (s.execution job_id) d

  -- The rest of a round of the loop, and the rounds after it.
  unfoldable pub pump_next : Act Daemon (Unit {0}) → Option ℕ → Act Daemon (Unit {0})
  unfolding pump_round
  pump_next rounds none d = (ok tt, d)
  pump_next rounds (some job_id) d = continue (pump_round job_id d) λ _ d. rounds d

  -- Each round takes a job from the queue, so one more than its length is fuel enough.
  unfoldable pub pump_loop : ℕ → Act Daemon (Unit {0})
  unfolding on_scheduler pump_next
  pump_loop zero d = (ok tt, d)
  pump_loop (suc fuel) d =
      continue (on_scheduler take_next_job_to_start d) (pump_next (pump_loop fuel))

  unfoldable pub pump_scheduler : Act Daemon (Unit {0})
  unfolding pump_loop
  pump_scheduler d = pump_loop (suc (length d.scheduler.waiting_jobs)) d

  -- A round of processTerminalJobNotifications, for a notification that has been taken out.
  unfoldable pub process_notification : ℕ → Act Daemon (Unit {0})
  unfolding drop_deadline on_scheduler pump_scheduler
  process_notification job_id d = elim (lookup job_id d.monitor.jobs) [
    | none ↦ (raise (logic_error (codes "terminal notification refers to an unknown job")), d)
    | some job ↦
        if not (is_terminal job.state)
        then (raise (logic_error (codes "terminal notification refers to a non-terminal job")), d)
        else continue (on_scheduler (on_job_reached_terminal_state job_id) (drop_deadline job_id d))
            λ _ d. pump_scheduler d
  ]

  -- The body of the loop on what is pending, and the rounds after it.
  unfoldable pub next_notification : List ℕ → Act Daemon (Unit {0}) → Act Daemon (Unit {0})
  unfolding process_notification pop_notification
  next_notification [] rounds d = (ok tt, d)
  next_notification (job_id ∷ rest) rounds d =
      continue (process_notification job_id (pop_notification rest d)) λ _ d. rounds d

  -- A round adds no notification, so their number is fuel enough.
  unfoldable pub notification_loop : ℕ → Act Daemon (Unit {0})
  unfolding next_notification
  notification_loop zero d = (ok tt, d)
  notification_loop (suc fuel) d =
      next_notification d.monitor.notifications (notification_loop fuel) d

  unfoldable pub process_terminal_job_notifications : Act Daemon (Unit {0})
  unfolding notification_loop
  process_terminal_job_notifications d = notification_loop (length d.monitor.notifications) d
