-- ===== src/Monitor.antt =====
-- include/runnerd/process_monitor.h and src/process_monitor.cpp: the processes of the jobs that have
-- been started, with their pipes, their exit and the settling of their jobs. What the system calls
-- return is an argument of each operation, and what they do is noted in order. The monitor refers
-- to the daemon's job table, and the daemon's callback appends to a queue: both stand in its record.
pub mod Pipes
pub mod Settle
pub mod Signals
pub mod Start
pub mod Events
pub mod Invariant
pub mod Runs
use runnerd.Prelude.{
  ℕ, Bool, true, false, ◌||◌, not, List, [], ◌∷◌, ◌++◌, Option, none, some, Result, Act, ok, raise,
  invalid_argument, logic_error, codes, ◌==◌, if◌then◌else◌, is_empty,
}
use runnerd.Prelude.Assoc.{lookup}
use runnerd.Job.{Job}

-- A wait status, as WIFEXITED, WEXITSTATUS, WIFSIGNALED and WTERMSIG read it.
pub data WaitStatus : Type 0 where
  exited : ℕ → WaitStatus
  signaled : ℕ → WaitStatus
  unexpected : WaitStatus

pub data ProcessFdKind : Type 0 where
  standard_output standard_error startup_error : ProcessFdKind

pub record TrackedFd : Type 0 where
  pub job_id : ℕ
  pub kind : ProcessFdKind

-- A descriptor that is -1 is none. The status is read only after the child has exited.
pub record ActiveProcess : Type 0 where
  pub pid : ℕ
  pub process_group_id : ℕ
  pub stdout_fd : Option ℕ
  pub stderr_fd : Option ℕ
  pub startup_error_fd : Option ℕ
  pub stdout_eof : Bool
  pub stderr_eof : Bool
  pub startup_error_eof : Bool
  pub child_exited : Bool
  pub wait_status : WaitStatus
  pub output_bytes : List ℕ
  pub error_bytes : List ℕ
  pub startup_error_bytes : List ℕ

-- What the monitor does to the system, apart from epoll: close(fd), kill(-group, signal),
-- kill(pid, signal) and the waitpid(pid) that awaits a child which was killed.
pub data Effect : Type 0 where
  closed : ℕ → Effect
  signalled_group : ℕ → ℕ → Effect
  signalled_process : ℕ → ℕ → Effect
  awaited : ℕ → Effect

pub record ProcessMonitor : Type 0 where
  pub sigchld_fd : ℕ
  pub jobs : List (ℕ × Job)
  pub active_jobs : List (ℕ × ActiveProcess)
  pub pid_to_job : List (ℕ × ℕ)
  pub tracked_fds : List (ℕ × TrackedFd)
  pub terminal_job_callback : Bool
  -- the ids that the callback has been given
  pub notifications : List ℕ
  pub effects : List Effect

abbrev pub has_value {ℓ} : {A : Type ℓ} → Option A → Bool
has_value none = false
has_value (some a) = true

unfoldable pub owns_file_descriptor : ℕ → ProcessMonitor → Bool
owns_file_descriptor fd m = fd == m.sigchld_fd || has_value (lookup fd m.tracked_fds)

-- `given` tells whether the callback is not empty.
unfoldable pub set_terminal_job_callback : Bool → Act ProcessMonitor (Unit {0})
set_terminal_job_callback given m =
    if not given
    then (raise (invalid_argument (codes "terminal job callback must not be empty")), m)
    else if not (is_empty m.active_jobs)
    then (raise (logic_error (codes "terminal job callback must be set before starting jobs")), m)
    else if m.terminal_job_callback
    then (raise (logic_error (codes "terminal job callback is already set")), m)
    else (ok tt, record m { terminal_job_callback = true })
