-- ===== src/Daemon/DeadlineEvents.antt =====
-- src/runnerd_main.cpp: handleDeadlineEvent, and the loop of main on the events of the timerfd and
-- of the process monitor.
use runnerd.Prelude.{
  ℕ, Bool, List, [], ◌∷◌, none, some, Act, ok, raise, continue, runtime_error, logic_error, codes,
  if◌then◌else◌,
}
use runnerd.Prelude.Assoc.{lookup}
use runnerd.Job.{
  JobState, queued, running, terminating, succeeded, failed, cancelled, timed_out, interrupted,
  by_timeout,
}
use runnerd.Timeouts.{Calls, Read, handle_readable}
use runnerd.Monitor.Signals.{request_terminate, force_kill}
use runnerd.Monitor.Events.{EventCalls, handle_file_descriptor_event}
use runnerd.Daemon.Jobs.{
  Daemon, System, on_monitor, on_timeouts, schedule_force_kill_deadline,
  process_terminal_job_notifications,
}

module _ (strerror : ℕ → List ℕ) (s : System) where
  -- A round of the loop over the expired jobs, on the job's state.
  unfoldable pub expire_in : JobState → ℕ → Act Daemon (Unit {0})
  unfolding on_monitor schedule_force_kill_deadline
  expire_in running job_id d =
      continue (on_monitor (request_terminate strerror job_id by_timeout (s.terminate job_id)) d)
        λ requested d.
          if requested then schedule_force_kill_deadline strerror s job_id d else (ok tt, d)
  expire_in terminating job_id d =
      continue (on_monitor (force_kill strerror job_id (s.kill job_id)) d) λ _ d. (ok tt, d)
  expire_in queued job_id d =
      (raise (logic_error (codes "queued job unexpectedly has an active deadline")), d)
  expire_in succeeded job_id d = (ok tt, d)
  expire_in failed job_id d = (ok tt, d)
  expire_in cancelled job_id d = (ok tt, d)
  expire_in timed_out job_id d = (ok tt, d)
  expire_in interrupted job_id d = (ok tt, d)

  unfoldable pub expire_job : ℕ → Act Daemon (Unit {0})
  unfolding expire_in
  expire_job job_id d = elim (lookup job_id d.monitor.jobs) [
    | none ↦ (raise (logic_error (codes "deadline refers to an unknown job")), d)
    | some job ↦ expire_in job.state job_id d
  ]

  unfoldable pub expire_jobs : List ℕ → Act Daemon (Unit {0})
  unfolding expire_job
  expire_jobs [] d = (ok tt, d)
  expire_jobs (job_id ∷ rest) d = continue (expire_job job_id d) λ _ d. expire_jobs rest d

  -- `broken` tells whether the mask has EPOLLERR or EPOLLHUP.
  unfoldable pub handle_deadline_event : Bool → List Read → Calls → Act Daemon (Unit {0})
  unfolding on_timeouts expire_jobs
  handle_deadline_event broken reads c d =
      if broken
      then (raise (runtime_error (codes "timerfd reported EPOLLERR or EPOLLHUP")), d)
      else continue (on_timeouts (handle_readable reads c) d) λ expired d. expire_jobs expired d

  -- The branch of main's loop for the timerfd.
  unfoldable pub deadline_event : Bool → List Read → Calls → Act Daemon (Unit {0})
  unfolding handle_deadline_event process_terminal_job_notifications
  deadline_event broken reads c d =
      continue (handle_deadline_event broken reads c d)
        λ _ d. process_terminal_job_notifications strerror s d

  -- The branch of main's loop for the descriptors of the monitor.
  unfoldable pub monitor_event : ℕ → Bool → EventCalls → Act Daemon (Unit {0})
  unfolding on_monitor process_terminal_job_notifications
  monitor_event fd readable c d =
      continue (on_monitor (handle_file_descriptor_event strerror fd readable c) d)
        λ _ d. process_terminal_job_notifications strerror s d
