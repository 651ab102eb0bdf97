-- ===== src/Monitor/Events.antt =====
-- src/process_monitor.cpp: the events of the signalfd and of the pipes.
use runnerd.Prelude.{
  ℕ, Bool, not, List, [], ◌∷◌, none, some, Result, Act, ok, raise, continue, out_of_range,
  runtime_error, system_error, codes, ◌==◌, if◌then◌else◌,
}
use runnerd.Prelude.Assoc.{lookup, insert}
use runnerd.Monitor.{WaitStatus, ProcessMonitor}
use runnerd.Monitor.Pipes.{PipeRead, drain_process_fd}
use runnerd.Monitor.Settle.{try_finalize_job}
use runnerd.Monitor.Signals.{record_exit, no_child}

-- waitpid(-1, &status, WNOHANG), when there is a child that has exited, and when it fails.
pub data Reap : Type 0 where
  reaped : ℕ → WaitStatus → Reap
  interrupted : Reap
  failed_wait : ℕ → Reap

-- read() of the signalfd: whole records, a partial one, the end, EINTR, or another errno.
pub data SignalRead : Type 0 where
  whole_records : SignalRead
  partial_record : SignalRead
  end_of_signals : SignalRead
  interrupted : SignalRead
  failed_read : ℕ → SignalRead

-- The loop of handleSigchld. The list ends where a read returns EAGAIN.
unfoldable pub drain_signals : List SignalRead → Result (Unit {0})
drain_signals [] = ok tt
drain_signals (whole_records ∷ reads) = drain_signals reads
drain_signals (partial_record ∷ reads) =
    raise (runtime_error (codes "signalfd returned a partial record"))
drain_signals (end_of_signals ∷ reads) =
    raise (runtime_error (codes "unexpected EOF from signalfd"))
drain_signals (SignalRead.interrupted ∷ reads) = drain_signals reads
drain_signals (failed_read error_number ∷ reads) =
    raise (system_error error_number (codes "read signalfd"))

-- What the system calls of an event return.
pub record EventCalls : Type 0 where
  pub signal_reads : List SignalRead
  pub reaps : List Reap
  pub pipe_reads : List PipeRead

module _ (strerror : ℕ → List ℕ) where
  -- A child that waitpid returned.
  unfoldable pub child_reaped : ℕ → WaitStatus → Act ProcessMonitor (Unit {0})
  unfolding record_exit
  child_reaped pid status m = elim (lookup pid m.pid_to_job) [
    | none ↦ (ok tt, m)
    | some job_id ↦ elim (lookup job_id m.active_jobs) [
      | none ↦ (raise (out_of_range []), m)
      | some p ↦
          try_finalize_job strerror job_id
            (record m { active_jobs = insert job_id (record_exit status p) m.active_jobs })
    ]
  ]

  -- The list ends where waitpid returns 0.
  unfoldable pub reap_exited_children : List Reap → Act ProcessMonitor (Unit {0})
  unfolding child_reaped
  reap_exited_children [] m = (ok tt, m)
  reap_exited_children (reaped pid status ∷ reaps) m =
      continue (child_reaped pid status m) λ _ m. reap_exited_children reaps m
  reap_exited_children (Reap.interrupted ∷ reaps) m = reap_exited_children reaps m
  reap_exited_children (failed_wait error_number ∷ reaps) m =
      if error_number == no_child
      then (ok tt, m)
      else (raise (system_error error_number (codes "waitpid")), m)

  unfoldable pub handle_sigchld : List SignalRead → List Reap → Act ProcessMonitor (Unit {0})
  unfolding drain_signals reap_exited_children
  handle_sigchld reads reaps m =
      continue (drain_signals reads, m) λ _ m. reap_exited_children reaps m

  -- An event of a pipe. `readable` tells whether the mask has EPOLLIN, EPOLLHUP or EPOLLERR.
  unfoldable pub handle_pipe_event : ℕ → Bool → List PipeRead → Act ProcessMonitor (Unit {0})
  unfolding drain_process_fd
  handle_pipe_event fd readable reads m =
      if not readable then (ok tt, m) else elim (lookup fd m.tracked_fds) [
        | none ↦ (ok tt, m)
        | some t ↦
            continue (drain_process_fd fd reads m) λ _ m. try_finalize_job strerror t.job_id m
      ]

  unfoldable pub handle_file_descriptor_event :
      ℕ → Bool → EventCalls → Act ProcessMonitor (Unit {0})
  unfolding handle_sigchld handle_pipe_event
  handle_file_descriptor_event fd readable c m =
      if fd == m.sigchld_fd
      then handle_sigchld c.signal_reads c.reaps m
      else handle_pipe_event fd readable c.pipe_reads m
