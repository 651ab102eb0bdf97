-- ===== src/Monitor/Signals.antt =====
-- src/process_monitor.cpp: requestTerminate and forceKill, and the check for a child that has exited
-- before a signal is sent.
use runnerd.Prelude.{
  ℕ, Bool, true, false, not, List, [], ◌∷◌, ◌++◌, Option, none, some, Result, Act, ok, raise,
  continue, out_of_range, logic_error, system_error, codes, ◌==◌, if◌then◌else◌,
}
use runnerd.Prelude.Assoc.{lookup, insert}
use runnerd.Job.{running, terminating, TerminationCause, Job, is, is_terminal, transition_job}
use runnerd.Monitor.{WaitStatus, ActiveProcess, ProcessMonitor, signalled_group, has_value}
use runnerd.Monitor.Pipes.{PipeRead, update_process, drain_process_fd}
use runnerd.Monitor.Settle.{try_finalize_job}

-- waitpid(pid, &status, WNOHANG). A call that is interrupted is made again: the last one counts.
pub data Wait : Type 0 where
  changed : WaitStatus → Wait
  unchanged : Wait
  wait_failed : ℕ → Wait

-- ECHILD, ESRCH, SIGTERM and SIGKILL of Linux
abbrev pub no_child : ℕ
no_child = 10

abbrev pub no_process : ℕ
no_process = 3

abbrev pub sigterm : ℕ
sigterm = 15

abbrev pub sigkill : ℕ
sigkill = 9

-- What the system calls of a request return: waitpid, the reads of the three pipes, and kill (none
-- if it succeeds; interrupted calls are made again).
pub record SignalCalls : Type 0 where
  pub wait : Wait
  pub stdout_reads : List PipeRead
  pub stderr_reads : List PipeRead
  pub startup_error_reads : List PipeRead
  pub kill : Option ℕ

unfoldable pub record_exit : WaitStatus → ActiveProcess → ActiveProcess
record_exit status p = record p { child_exited = true; wait_status = status }

-- The loop around waitpid: whether the child has exited.
unfoldable pub check_child : ℕ → ActiveProcess → Wait → Act ProcessMonitor Bool
unfolding update_process record_exit
check_child job_id p (changed status) m = if p.child_exited then (ok true, m) else (
  ok true,
  record m { active_jobs = update_process job_id (record_exit status) m.active_jobs },
)
check_child job_id p unchanged m = (ok p.child_exited, m)
check_child job_id p (wait_failed error_number) m =
    if p.child_exited
    then (ok true, m)
    else if error_number == no_child
    then (raise (logic_error (codes "active child was reaped without being recorded")), m)
    else (raise (system_error error_number (codes "check child before sending signal")), m)

unfoldable pub drain_open : Option ℕ → List PipeRead → Act ProcessMonitor (Unit {0})
unfolding drain_process_fd
drain_open none reads m = (ok tt, m)
drain_open (some fd) reads m = drain_process_fd fd reads m

-- The three descriptors are copied before the first is drained.
unfoldable pub drain_all : ActiveProcess → SignalCalls → Act ProcessMonitor (Unit {0})
unfolding drain_open
drain_all p c m = continue (drain_open p.stdout_fd c.stdout_reads m) λ _ m.
    continue (drain_open p.stderr_fd c.stderr_reads m)
      λ _ m. drain_open p.startup_error_fd c.startup_error_reads m

-- isTerminal(jobs_.at(job_id).state)
unfoldable pub job_is_terminal : ℕ → Act ProcessMonitor Bool
job_is_terminal job_id m = elim (lookup job_id m.jobs) [
  | none ↦ (raise (out_of_range []), m)
  | some job ↦ (ok (is_terminal job.state), m)
]

unfoldable pub send_signal_to_process_group : ℕ → ℕ → List ℕ → Option ℕ → Act ProcessMonitor Bool
send_signal_to_process_group job_id signal operation kill m = elim (lookup job_id m.active_jobs) [
  | none ↦ (raise (logic_error (codes "job has no active process for signal")), m)
  | some p ↦
      if p.process_group_id == 0
      then (raise (logic_error (codes "job has an invalid process group id")), m)
      else elim kill [
        | none ↦ (
          ok true,
          record m { effects = m.effects ++ signalled_group p.process_group_id signal ∷ [] },
        )
        | some error_number ↦
            if error_number == no_process
            then (ok false, m)
            else (raise (system_error error_number operation), m)
      ]
]

-- The cause is set if transitionJob has not thrown.
unfoldable pub set_cause :
    ℕ → TerminationCause → ProcessMonitor → Result (Unit {0}) × Job → Result Bool × ProcessMonitor
set_cause job_id cause m (raise e, job) = (raise e, record m { jobs = insert job_id job m.jobs })
set_cause job_id cause m (ok _, job) = (
  ok true,
  record m { jobs = insert job_id (record job { termination_cause = some cause }) m.jobs },
)

-- The end of requestTerminate: transitionJob to TERMINATING, and the cause.
unfoldable pub mark_terminating : ℕ → TerminationCause → Act ProcessMonitor Bool
unfolding set_cause
mark_terminating job_id cause m = elim (lookup job_id m.jobs) [
  | none ↦ (raise (out_of_range []), m)
  | some job ↦ set_cause job_id cause m (transition_job terminating job)
]

module _ (strerror : ℕ → List ℕ) where
  -- From the test of the child's exit to the end.
  unfoldable pub finish_exited : ℕ → ActiveProcess → SignalCalls → Bool → Act ProcessMonitor Bool
  unfolding drain_all job_is_terminal
  finish_exited job_id p c false m = (ok false, m)
  finish_exited job_id p c true m =
      continue (drain_all p c m)
        λ _ m. continue (try_finalize_job strerror job_id m) λ _ m. job_is_terminal job_id m

  unfoldable pub finish_exited_child_before_signal : ℕ → SignalCalls → Act ProcessMonitor Bool
  unfolding check_child finish_exited
  finish_exited_child_before_signal job_id c m = elim (lookup job_id m.active_jobs) [
    | none ↦ (raise (logic_error (codes "job has no active process before signal")), m)
    | some p ↦
        continue (check_child job_id p c.wait m) λ exited m. finish_exited job_id p c exited m
  ]

  unfoldable pub request_terminate : ℕ → TerminationCause → SignalCalls → Act ProcessMonitor Bool
  unfolding finish_exited_child_before_signal send_signal_to_process_group mark_terminating
  request_terminate job_id cause c m = elim (lookup job_id m.jobs) [
    | none ↦ (raise (out_of_range []), m)
    | some job ↦
        if not (is job.state running)
        then (raise (logic_error (codes "only RUNNING jobs can be terminated")), m)
        else continue (finish_exited_child_before_signal job_id c m) λ finished m. elim finished [
          | true ↦ (ok false, m)
          | false ↦
              continue
                (send_signal_to_process_group job_id sigterm
                  (codes "send SIGTERM to job process group") c.kill m)
                λ sent m. elim sent [
                  | false ↦ (ok false, m)
                  | true ↦ mark_terminating job_id cause m
                ]
        ]
  ]

  unfoldable pub force_kill : ℕ → SignalCalls → Act ProcessMonitor Bool
  unfolding finish_exited_child_before_signal send_signal_to_process_group
  force_kill job_id c m = elim (lookup job_id m.jobs) [
    | none ↦ (raise (out_of_range []), m)
    | some job ↦
        if not (is job.state terminating)
        then (raise (logic_error (codes "only TERMINATING jobs can be force killed")), m)
        else if not (has_value job.termination_cause)
        then (raise (logic_error (codes "terminating job has no termination cause")), m)
        else continue (finish_exited_child_before_signal job_id c m) λ finished m. elim finished [
          | true ↦ (ok false, m)
          | false ↦
              send_signal_to_process_group job_id sigkill
                (codes "send SIGKILL to job process group") c.kill m
        ]
  ]
