-- ===== src/Monitor/Start.antt =====
-- src/process_monitor.cpp: startJob, with what it undoes if a step of it fails.
pub mod Notifications
pub mod Table
pub mod Leaving
use runnerd.Prelude.{
  ℕ, zero, Bool, true, false, not, List, [], ◌∷◌, ◌++◌, Option, none, some, Exception, Result, Act,
  ok, raise, continue, invalid_argument, logic_error, length_error, runtime_error, overflow_error,
  out_of_range, system_error, codes, ◌==◌, ltb, if◌then◌else◌,
}
use runnerd.Prelude.Assoc.{lookup, insert, erase}
use runnerd.Job.{JobState, queued, running, failed, Job, is, transition_job}
use runnerd.Monitor.{
  WaitStatus, unexpected, ProcessFdKind, standard_output, standard_error, startup_error, TrackedFd,
  ActiveProcess, ProcessMonitor, Effect, closed, signalled_group, signalled_process, awaited,
  has_value,
}
use runnerd.Monitor.Settle.{fail_with}
use runnerd.Monitor.Signals.{sigkill}

-- LaunchedProcess of include/runnerd/process_launcher.h
pub record LaunchedProcess : Type 0 where
  pub pid : ℕ
  pub process_group_id : ℕ
  pub stdout_fd : ℕ
  pub stderr_fd : ℕ
  pub startup_error_fd : ℕ

-- What launchProcess returns or throws, and the errnos of the three calls of epoll_ctl.
pub record StartCalls : Type 0 where
  pub launch : Result LaunchedProcess
  pub add_stdout : Option ℕ
  pub add_stderr : Option ℕ
  pub add_startup_error : Option ℕ

-- ActiveProcess(pid, process_group_id, stdout_fd, stderr_fd, startup_error_fd)
unfoldable pub new_process : LaunchedProcess → ActiveProcess
new_process l = record {
  pid = l.pid;
  process_group_id = l.process_group_id;
  stdout_fd = some l.stdout_fd;
  stderr_fd = some l.stderr_fd;
  startup_error_fd = some l.startup_error_fd;
  stdout_eof = false;
  stderr_eof = false;
  startup_error_eof = false;
  child_exited = false;
  wait_status = unexpected;
  output_bytes = [];
  error_bytes = [];
  startup_error_bytes = [];
}

unfoldable pub kill_and_reap_process : ℕ → ℕ → List Effect
kill_and_reap_process pid group =
    if pid == 0
    then []
    else (if ltb 0 group then signalled_group group sigkill else signalled_process pid sigkill)
      ∷ awaited pid
      ∷ []

-- The destructor of a LaunchedProcessGuard that has not been released.
unfoldable pub drop_launched : LaunchedProcess → List Effect
unfolding kill_and_reap_process
drop_launched l =
    closed l.stdout_fd
    ∷ closed l.stderr_fd
    ∷ closed l.startup_error_fd
    ∷ kill_and_reap_process l.pid l.process_group_id

-- A write through a reference to a job of the table.
unfoldable pub update_job : ℕ → Act Job (Unit {0}) → Act ProcessMonitor (Unit {0})
update_job job_id f m = elim (lookup job_id m.jobs) [
  | none ↦ (raise (out_of_range []), m)
  | some job ↦ ((f job).0, record m { jobs = insert job_id (f job).1 m.jobs })
]

unfoldable pub register_process_fd :
    ℕ → ℕ → ProcessFdKind → Option ℕ → Act ProcessMonitor (Unit {0})
register_process_fd fd job_id kind epoll_add m =
    if has_value (lookup fd m.tracked_fds)
    then (raise (logic_error (codes "process fd is already registered")), m)
    else elim epoll_add [
      | none ↦ (
        ok tt,
        record m {
          tracked_fds = insert fd (record { job_id = job_id; kind = kind }) m.tracked_fds;
        },
      )
      | some error_number ↦ (
        raise (system_error error_number (codes "add process pipe to epoll")),
        record m {
          tracked_fds =
              erase fd (insert fd (record { job_id = job_id; kind = kind }) m.tracked_fds);
        },
      )
    ]

-- One round of the loop of abandonStartedJob.
unfoldable pub abandon_fd : Option ℕ → ProcessMonitor → ProcessMonitor
abandon_fd none m = m
abandon_fd (some fd) m = record m {
  tracked_fds = erase fd m.tracked_fds;
  effects = m.effects ++ closed fd ∷ [];
}

unfoldable pub abandon_started_job : ℕ → List ℕ → Act ProcessMonitor (Unit {0})
unfolding abandon_fd kill_and_reap_process update_job fail_with
abandon_started_job job_id message m = elim (lookup job_id m.active_jobs) [
  | none ↦ (ok tt, m)
  | some p ↦
      let m' = abandon_fd p.startup_error_fd (abandon_fd p.stderr_fd (abandon_fd p.stdout_fd m)) in
      update_job job_id (fail_with message) (record m' {
        pid_to_job = erase p.pid m'.pid_to_job;
        active_jobs = erase job_id m'.active_jobs;
        effects = m'.effects ++ kill_and_reap_process p.pid p.process_group_id;
      })
]

-- The try block that makes a launched process known.
unfoldable pub register_process : ℕ → LaunchedProcess → StartCalls → Act ProcessMonitor (Unit {0})
unfolding register_process_fd update_job
register_process job_id l c m =
    if has_value (lookup l.pid m.pid_to_job)
    then (raise (logic_error (codes "child pid is already registered")), m)
    else continue
        (register_process_fd l.stdout_fd job_id standard_output c.add_stdout
          (record m { pid_to_job = insert l.pid job_id m.pid_to_job }))
        λ _ m.
          continue (register_process_fd l.stderr_fd job_id standard_error c.add_stderr m) λ _ m.
            continue
              (register_process_fd l.startup_error_fd job_id startup_error c.add_startup_error m)
              λ _ m. update_job job_id (transition_job running) m

-- job.pid and job.process_group_id are set.
unfoldable pub set_pid : LaunchedProcess → Act Job (Unit {0})
set_pid l job = (ok tt, record job { pid = some l.pid; process_group_id = some l.process_group_id })

module _ (strerror : ℕ → List ℕ) where
  -- exception.what(); std::system_error's is the operation's name and the text of the error.
  unfoldable pub what : Exception → List ℕ
  what (invalid_argument text) = text
  what (logic_error text) = text
  what (length_error text) = text
  what (runtime_error text) = text
  what (overflow_error text) = text
  what (out_of_range text) = text
  what (system_error error_number operation) = operation ++ codes ": " ++ strerror error_number

  -- The catch block around the registration.
  unfoldable pub abandon_on_failure :
      ℕ → Result (Unit {0}) × ProcessMonitor → Result (Unit {0}) × ProcessMonitor
  unfolding what abandon_started_job
  abandon_on_failure job_id (ok _, m) = (ok tt, m)
  abandon_on_failure job_id (raise e, m) =
      abandon_started_job job_id (codes "failed to monitor child process: " ++ what e) m

  unfoldable pub fail_queued_job : ℕ → Exception → Act ProcessMonitor (Unit {0})
  unfolding what update_job fail_with
  fail_queued_job job_id e m =
      update_job job_id (fail_with (codes "launchProcess failed: " ++ what e)) m

  unfoldable pub start_launched : ℕ → LaunchedProcess → StartCalls → Act ProcessMonitor (Unit {0})
  unfolding new_process drop_launched set_pid update_job register_process abandon_on_failure
      fail_queued_job
  start_launched job_id l c m =
      if has_value (lookup job_id m.active_jobs)
      then fail_queued_job job_id (logic_error (codes "job already has an active process"))
          (record m { effects = m.effects ++ drop_launched l })
      else continue
          (update_job job_id (set_pid l)
            (record m { active_jobs = insert job_id (new_process l) m.active_jobs }))
          λ _ m. abandon_on_failure job_id (register_process job_id l c m)

  unfoldable pub start_job : ℕ → StartCalls → Act ProcessMonitor (Unit {0})
  unfolding start_launched fail_queued_job
  start_job job_id c m = elim (lookup job_id m.jobs) [
    | none ↦ (raise (out_of_range []), m)
    | some job ↦
        if not (is job.state queued)
        then (raise (logic_error (codes "only QUEUED jobs can be started")), m)
        else elim c.launch [
          | raise e ↦ fail_queued_job job_id e m
          | ok l ↦ start_launched job_id l c m
        ]
  ]
