-- ===== src/Monitor/Invariant/Events.antt =====
-- handleFileDescriptorEvent keeps the monitor consistent, whatever the system calls answer.
use runnerd.Prelude.{ℕ, Bool, true, false, List, [], ◌∷◌, ◌==◌, Option-cases, Bool-cases, inl, inr}
use runnerd.Prelude.Assoc.{lookup, insert}
use runnerd.Monitor.{WaitStatus, ProcessMonitor}
use runnerd.Monitor.Pipes.{PipeRead, drain_process_fd}
use runnerd.Monitor.Signals.{record_exit, no_child}
use runnerd.Monitor.Events.{
  Reap, reaped, failed_wait, SignalRead, drain_signals, EventCalls, child_reaped,
  reap_exited_children, handle_sigchld, handle_pipe_event, handle_file_descriptor_event,
}
use runnerd.Monitor.Invariant.{IsConsistent}
use runnerd.Monitor.Invariant.Processes.{record_exit-SameShape}
use runnerd.Monitor.Invariant.Progress.{Progress, Progress_refl, Progress_trans, continue-Progress}
use runnerd.Monitor.Invariant.Pipes.{insert-Progress, drain_process_fd-Progress}
use runnerd.Monitor.Invariant.Finalize.{try_finalize_job-Progress}

module _ (strerror : ℕ → List ℕ) where
  child_reaped-Progress :
      (pid : ℕ) (status : WaitStatus) (m : ProcessMonitor)
      → IsConsistent m
      → Progress m (child_reaped strerror pid status m).1
  unfolding child_reaped
  child_reaped-Progress pid status m c = elim (Option-cases (lookup pid m.pid_to_job)) [
    | inl e ↦ rw (e, child_reaped) (Progress_refl m c)
    | inr (j, e) ↦ elim (Option-cases (lookup j m.active_jobs)) [
      | inl f ↦ rw (e, child_reaped, f) (Progress_refl m c)
      | inr (p, f) ↦
          let p' = record_exit status p in
          let written = insert-Progress m j p p' f (record_exit-SameShape status p) c in
          rw (e, child_reaped, f)
            (Progress_trans m (record m { active_jobs = insert j p' m.active_jobs }) _ written
              (try_finalize_job-Progress strerror j _ written.consistent))
    ]
  ]

  reap_exited_children-Progress :
      (reaps : List Reap) (m : ProcessMonitor)
      → IsConsistent m
      → Progress m (reap_exited_children strerror reaps m).1
  unfolding reap_exited_children
  reap_exited_children-Progress [] m c = Progress_refl m c
  reap_exited_children-Progress (reaped pid status ∷ reaps) m c =
      continue-Progress m (child_reaped strerror pid status m) _
        (child_reaped-Progress pid status m c)
        λ _ m' _ c'. reap_exited_children-Progress reaps m' c'
  reap_exited_children-Progress (Reap.interrupted ∷ reaps) m c =
      reap_exited_children-Progress reaps m c
  reap_exited_children-Progress (failed_wait error_number ∷ reaps) m c =
      elim (Bool-cases (error_number == no_child)) [
        | inl e ↦ rw e (Progress_refl m c)
        | inr e ↦ rw e (Progress_refl m c)
      ]

  handle_sigchld-Progress :
      (reads : List SignalRead) (reaps : List Reap) (m : ProcessMonitor)
      → IsConsistent m
      → Progress m (handle_sigchld strerror reads reaps m).1
  unfolding handle_sigchld
  handle_sigchld-Progress reads reaps m c =
      continue-Progress m (drain_signals reads, m) _ (Progress_refl m c)
        λ _ m' _ c'. reap_exited_children-Progress reaps m' c'

  handle_pipe_event-Progress :
      (fd : ℕ) (readable : Bool) (reads : List PipeRead) (m : ProcessMonitor)
      → IsConsistent m
      → Progress m (handle_pipe_event strerror fd readable reads m).1
  unfolding handle_pipe_event
  handle_pipe_event-Progress fd false reads m c = Progress_refl m c
  handle_pipe_event-Progress fd true reads m c = elim (Option-cases (lookup fd m.tracked_fds)) [
    | inl e ↦ rw (e, handle_pipe_event) (Progress_refl m c)
    | inr (t, e) ↦
        rw (e, handle_pipe_event)
          (continue-Progress m (drain_process_fd fd reads m) _
            (drain_process_fd-Progress fd reads m c)
            λ _ m' _ c'. try_finalize_job-Progress strerror t.job_id m' c')
  ]

  -- From a consistent monitor, an event of the signalfd or of a pipe, whatever the system calls
  -- return and also if it throws, leaves a consistent one; jobs move along allowed transitions, a
  -- job without a process does not change, and exactly the jobs that lose their process are given
  -- to the callback, if one is set.
  pub handle_file_descriptor_event-Progress :
      (fd : ℕ) (readable : Bool) (calls : EventCalls) (m : ProcessMonitor)
      → IsConsistent m
      → Progress m (handle_file_descriptor_event strerror fd readable calls m).1
  unfolding handle_file_descriptor_event
  handle_file_descriptor_event-Progress fd readable calls m c =
      elim (Bool-cases (fd == m.sigchld_fd)) [
        | inl e ↦
            rw (e, handle_file_descriptor_event)
              (handle_sigchld-Progress calls.signal_reads calls.reaps m c)
        | inr e ↦
            rw (e, handle_file_descriptor_event)
              (handle_pipe_event-Progress fd readable calls.pipe_reads m c)
      ]
