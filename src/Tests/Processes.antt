-- ===== src/Tests/Processes.antt =====
-- A monitor with a queued job, and one with a job that runs.
use runnerd.Prelude.{
  ℕ, true, false, List, [], ◌∷◌, ◌++◌, none, some, Result, ok, raise, arith, ap, sym, ◌≡◌, refl,
  codes, continue,
}
use runnerd.Prelude.Assoc.{lookup}
use runnerd.Job.{running, terminating, by_timeout, by_cancel, Job, new_job}
use runnerd.Tests.Jobs.{sleep_spec}
use runnerd.Monitor.{
  exited, unexpected, standard_output, standard_error, TrackedFd, ActiveProcess, ProcessMonitor,
}
use runnerd.Monitor.Pipes.{received, end_of_stream, interrupted, drain_process_fd}
use runnerd.Monitor.Pipes.Chunks.{drain_process_fd-append}
use runnerd.Monitor.Settle.{try_finalize_job}
use runnerd.Monitor.Settle.Verdict.{Verdict, try_finalize_job-Verdict}
use runnerd.Monitor.Signals.{SignalCalls, unchanged, request_terminate, force_kill}
use runnerd.Monitor.Start.{LaunchedProcess, StartCalls, start_job}
use runnerd.Monitor.Events.{EventCalls, reaped, whole_records, handle_file_descriptor_event}
use runnerd.Monitor.Invariant.{IsConsistent, pipe_of, pid_of}
use runnerd.Monitor.Invariant.Progress.{Progress}
use runnerd.Monitor.Invariant.Events.{handle_file_descriptor_event-Progress}
use runnerd.Monitor.Invariant.Requests.{Outcome}
use runnerd.Monitor.Invariant.Kill.{Killed, force_kill-Outcome}
use runnerd.Monitor.Invariant.Terminate.{Asked, request_terminate-Outcome}
use runnerd.Monitor.Invariant.Launches.{IsFresh}
use runnerd.Monitor.Invariant.Starting.{Start, start_job-Start}
use runnerd.Monitor.Runs.{stay, then, starts, handles, Run-IsConsistent}

abbrev pub no_text : ℕ → List ℕ
no_text error_number = codes "error"

abbrev pub waiting_job : Job
waiting_job = new_job 7 sleep_spec

-- A monitor with the signalfd 5 and the job, and no process.
abbrev pub idle_monitor : ProcessMonitor
idle_monitor = record {
  sigchld_fd = 5;
  jobs = (7, waiting_job) ∷ [];
  active_jobs = [];
  pid_to_job = [];
  tracked_fds = [];
  terminal_job_callback = true;
  notifications = [];
  effects = [];
}

idle_monitor-IsConsistent : IsConsistent idle_monitor
unfolding lookup pipe_of pid_of new_job
idle_monitor-IsConsistent = record {
  agrees = λ j. ground arith;
  tracked = λ fd j k. ground arith;
  registered = λ pid j. ground arith;
}

abbrev launched_process : LaunchedProcess
launched_process = record {
  pid = 100;
  process_group_id = 100;
  stdout_fd = 10;
  stderr_fd = 11;
  startup_error_fd = 12;
}

-- The second call of epoll_ctl fails.
abbrev pub full_epoll : StartCalls
full_epoll = record {
  launch = ok launched_process;
  add_stdout = none;
  add_stderr = some 28;
  add_startup_error = none;
}

abbrev value : Result LaunchedProcess → LaunchedProcess
value (ok l) = l
value (raise e) = launched_process

launched_process-IsFresh : IsFresh idle_monitor launched_process
unfolding lookup
launched_process-IsFresh = record {
  pid = refl;
  leads = refl;
  positive = refl;
  stdout_fd = refl;
  stderr_fd = refl;
  startup_error_fd = refl;
  stderr_distinct = refl;
  startup_distinct = (refl, refl);
}

any_launch-IsFresh : (l : LaunchedProcess) → full_epoll.launch ≡ ok l → IsFresh idle_monitor l
any_launch-IsFresh l e =
    let same : launched_process ≡ l = ap value e in rw (sym same) launched_process-IsFresh

start_job-Start_example :
    Start no_text 7 waiting_job full_epoll.launch idle_monitor
      (start_job no_text 7 full_epoll idle_monitor)
unfolding lookup new_job
start_job-Start_example =
    start_job-Start no_text 7 waiting_job idle_monitor full_epoll idle_monitor-IsConsistent refl
      refl any_launch-IsFresh

abbrev running_job : Job
running_job = record waiting_job { state = running; pid = some 100; process_group_id = some 100 }

abbrev sleeping_process : ActiveProcess
sleeping_process = record {
  pid = 100;
  process_group_id = 100;
  stdout_fd = some 10;
  stderr_fd = some 11;
  startup_error_fd = none;
  stdout_eof = false;
  stderr_eof = false;
  startup_error_eof = true;
  child_exited = false;
  wait_status = unexpected;
  output_bytes = codes "so far";
  error_bytes = [];
  startup_error_bytes = [];
}

abbrev stdout_entry : TrackedFd
stdout_entry = record { job_id = 7; kind = standard_output }

abbrev stderr_entry : TrackedFd
stderr_entry = record { job_id = 7; kind = standard_error }

abbrev running_monitor : ProcessMonitor
running_monitor = record idle_monitor {
  jobs = (7, running_job) ∷ [];
  active_jobs = (7, sleeping_process) ∷ [];
  pid_to_job = (100, 7) ∷ [];
  tracked_fds = (10, stdout_entry) ∷ (11, stderr_entry) ∷ [];
}

running_monitor-IsConsistent : IsConsistent running_monitor
unfolding lookup pipe_of pid_of new_job
running_monitor-IsConsistent = record {
  agrees = λ j. ground arith;
  tracked = λ fd j k. ground arith;
  registered = λ pid j. ground arith;
}

-- The process has exited, nothing more is in its pipes, and both signals can be sent.
abbrev pub sends : SignalCalls
sends = record {
  wait = unchanged;
  stdout_reads = [];
  stderr_reads = [];
  startup_error_reads = [];
  kill = none;
}

request_terminate-Outcome_example :
    Outcome running_monitor
      (Asked 7 by_timeout running_monitor)
      (request_terminate no_text 7 by_timeout sends running_monitor)
request_terminate-Outcome_example =
    request_terminate-Outcome no_text 7 by_timeout sends running_monitor
      running_monitor-IsConsistent

abbrev terminating_monitor : ProcessMonitor
terminating_monitor = record running_monitor {
  jobs = (7, record running_job { state = terminating; termination_cause = some by_cancel }) ∷ [];
}

terminating_monitor-IsConsistent : IsConsistent terminating_monitor
unfolding lookup pipe_of pid_of new_job
terminating_monitor-IsConsistent = record {
  agrees = λ j. ground arith;
  tracked = λ fd j k. ground arith;
  registered = λ pid j. ground arith;
}

force_kill-Outcome_example :
    Outcome terminating_monitor
      (Killed 7 terminating_monitor)
      (force_kill no_text 7 sends terminating_monitor)
force_kill-Outcome_example =
    force_kill-Outcome no_text 7 sends terminating_monitor terminating_monitor-IsConsistent

-- The child has exited with 0, and the pipe of its output has come to its end.
abbrev exits : EventCalls
exits = record {
  signal_reads = whole_records ∷ [];
  reaps = reaped 100 (exited 0) ∷ [];
  pipe_reads = received (codes " done") ∷ end_of_stream ∷ [];
}

handle_file_descriptor_event-Progress_example :
    Progress running_monitor (handle_file_descriptor_event no_text 10 true exits running_monitor).1
handle_file_descriptor_event-Progress_example =
    handle_file_descriptor_event-Progress no_text 10 true exits running_monitor
      running_monitor-IsConsistent

Run-IsConsistent_example :
    IsConsistent
      (handle_file_descriptor_event no_text 5 true exits
        (start_job no_text 7 full_epoll idle_monitor).1).1
Run-IsConsistent_example =
    Run-IsConsistent no_text
      (then (starts 7 full_epoll any_launch-IsFresh) (then (handles 5 true exits) stay))
      idle_monitor-IsConsistent

drain_process_fd-append_example :
    drain_process_fd 10
      ((received (codes "a") ∷ interrupted ∷ []) ++ received (codes "b") ∷ end_of_stream ∷ [])
      running_monitor
    ≡ continue
        (drain_process_fd 10 (received (codes "a") ∷ interrupted ∷ []) running_monitor)
        λ _ m. drain_process_fd 10 (received (codes "b") ∷ end_of_stream ∷ []) m
unfolding lookup
drain_process_fd-append_example =
    drain_process_fd-append 10 running_monitor stdout_entry sleeping_process
      (received (codes "a") ∷ interrupted ∷ []) (received (codes "b") ∷ end_of_stream ∷ []) refl
      refl

abbrev ended_process : ActiveProcess
ended_process = record sleeping_process {
  stdout_fd = none;
  stderr_fd = none;
  stdout_eof = true;
  stderr_eof = true;
  child_exited = true;
  wait_status = exited 0;
}

abbrev ended_monitor : ProcessMonitor
ended_monitor = record running_monitor { active_jobs = (7, ended_process) ∷ []; tracked_fds = [] }

ended_monitor-IsConsistent : IsConsistent ended_monitor
unfolding lookup pipe_of pid_of new_job
ended_monitor-IsConsistent = record {
  agrees = λ j. ground arith;
  tracked = λ fd j k. ground arith;
  registered = λ pid j. ground arith;
}

try_finalize_job-Verdict_example :
    (m' : ProcessMonitor) × (job' : Job) × (try_finalize_job no_text 7 ended_monitor ≡ (ok tt, m'))
    × (lookup 7 m'.jobs ≡ some job')
    × Verdict ended_process running_job job'
unfolding lookup
try_finalize_job-Verdict_example =
    try_finalize_job-Verdict no_text 7 ended_process running_job ended_monitor
      ended_monitor-IsConsistent refl refl refl (λ e. absurd cc)
