-- ===== src/Monitor/Invariant.antt =====
-- What the containers of src/process_monitor.cpp keep in step: the job table, the processes, their
-- pids and their descriptors.
pub mod Processes
pub mod Progress
pub mod Finalize
pub mod Registration
pub mod Undo
pub mod Starting
pub mod Launches
pub mod Kill
pub mod Terminate
pub mod Requests
pub mod Signals
pub mod Events
pub mod Pipes
use runnerd.Prelude.{
  ℕ, Bool, true, false, not, ◌&&◌, ◌||◌, List, Option, none, some, ◌==◌, ◌≡◌, ◌↔◌,
}
use runnerd.Prelude.Assoc.{lookup}
use runnerd.Job.{JobState, running, terminating, Job, is}
use runnerd.Monitor.{
  ProcessFdKind, standard_output, standard_error, startup_error, TrackedFd, ActiveProcess,
  ProcessMonitor, has_value,
}

-- A state in which a job has a process.
abbrev pub has_process : JobState → Bool
has_process running = true
has_process terminating = true
has_process _ = false

-- The job of a process: what is terminating has a cause.
abbrev pub is_live : Job → Bool
is_live job = is job.state running || is job.state terminating && has_value job.termination_cause

-- A pipe is at its end exactly when its descriptor is gone.
abbrev pub is_shut : Option ℕ → Bool → Bool
is_shut none eof = eof
is_shut (some fd) eof = not eof

abbrev pub is_shaped : ActiveProcess → Bool
is_shaped p =
    not (p.process_group_id == 0)
    && is_shut p.stdout_fd p.stdout_eof
    && is_shut p.stderr_fd p.stderr_eof
    && is_shut p.startup_error_fd p.startup_error_eof

-- What the job table and the processes say of one id.
abbrev pub agree : ℕ → Option Job → Option ActiveProcess → Bool
agree j none none = true
agree j none (some p) = false
agree j (some job) none = job.id == j && not (has_process job.state)
agree j (some job) (some p) = job.id == j && is_live job && is_shaped p

abbrev pub pipe_fd : ProcessFdKind → ActiveProcess → Option ℕ
pipe_fd standard_output p = p.stdout_fd
pipe_fd standard_error p = p.stderr_fd
pipe_fd startup_error p = p.startup_error_fd

unfoldable pub pipe_of : ℕ → ProcessFdKind → List (ℕ × ActiveProcess) → Option ℕ
pipe_of j k active = elim (lookup j active) [ none ↦ none | some p ↦ pipe_fd k p ]

unfoldable pub pid_of : ℕ → List (ℕ × ActiveProcess) → Option ℕ
pid_of j active = elim (lookup j active) [ none ↦ none | some p ↦ some p.pid ]

-- Exactly the jobs that run or terminate have a process; exactly the open pipes are tracked, each
-- for its own job; exactly the pids of the processes are known.
pub record IsConsistent (m : ProcessMonitor) : Type 0 where
  pub agrees : (j : ℕ) → agree j (lookup j m.jobs) (lookup j m.active_jobs) ≡ true
  pub tracked :
      (fd j : ℕ) (k : ProcessFdKind)
      → (lookup fd m.tracked_fds ≡ some (record { job_id = j; kind = k }))
        ↔ (pipe_of j k m.active_jobs ≡ some fd)
  pub registered :
      (pid j : ℕ) → (lookup pid m.pid_to_job ≡ some j) ↔ (pid_of j m.active_jobs ≡ some pid)
