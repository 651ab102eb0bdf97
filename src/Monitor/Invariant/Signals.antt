-- ===== src/Monitor/Invariant/Signals.antt =====
-- requestTerminate and forceKill: what they leave, by what they answer.
use runnerd.Prelude.{
  ℕ, Bool, true, false, List, Option, none, some, ◌==◌, ◌≡◌, Option-cases, Bool-cases, inl, inr,
}
use runnerd.Prelude.Assoc.{lookup}
use runnerd.Monitor.{ActiveProcess, ProcessMonitor}
use runnerd.Monitor.Pipes.{PipeRead, update_process}
use runnerd.Monitor.Settle.{try_finalize_job}
use runnerd.Monitor.Signals.{
  Wait, changed, unchanged, wait_failed, SignalCalls, record_exit, check_child, drain_open,
  drain_all, job_is_terminal, finish_exited, finish_exited_child_before_signal, no_child,
}
use runnerd.Monitor.Invariant.{IsConsistent}
use runnerd.Monitor.Invariant.Processes.{record_exit-SameShape}
use runnerd.Monitor.Invariant.Progress.{Progress, Progress_refl, continue-Progress}
use runnerd.Monitor.Invariant.Pipes.{insert-Progress, drain_process_fd-Progress}
use runnerd.Monitor.Invariant.Finalize.{try_finalize_job-Progress}

check_child-Progress :
    (j : ℕ) (p : ActiveProcess) (wait : Wait) (m : ProcessMonitor)
    → lookup j m.active_jobs ≡ some p
    → IsConsistent m
    → Progress m (check_child j p wait m).1
unfolding check_child update_process
check_child-Progress j p (changed status) m e c = elim (Bool-cases p.child_exited) [
  | inl f ↦ rw f (Progress_refl m c)
  | inr f ↦
      rw (f, e, update_process)
        (insert-Progress m j p (record_exit status p) e (record_exit-SameShape status p) c)
]
check_child-Progress j p unchanged m e c = Progress_refl m c
check_child-Progress j p (wait_failed error_number) m e c = elim (Bool-cases p.child_exited) [
  | inl f ↦ rw f (Progress_refl m c)
  | inr f ↦ elim (Bool-cases (error_number == no_child)) [
    | inl g ↦ rw (f, g) (Progress_refl m c)
    | inr g ↦ rw (f, g) (Progress_refl m c)
  ]
]

drain_open-Progress :
    (fd : Option ℕ) (reads : List PipeRead) (m : ProcessMonitor)
    → IsConsistent m
    → Progress m (drain_open fd reads m).1
unfolding drain_open
drain_open-Progress none reads m c = Progress_refl m c
drain_open-Progress (some fd) reads m c = drain_process_fd-Progress fd reads m c

drain_all-Progress :
    (p : ActiveProcess) (calls : SignalCalls) (m : ProcessMonitor)
    → IsConsistent m
    → Progress m (drain_all p calls m).1
unfolding drain_all
drain_all-Progress p calls m c =
    continue-Progress m (drain_open p.stdout_fd calls.stdout_reads m) _
      (drain_open-Progress p.stdout_fd calls.stdout_reads m c)
      λ _ m1 _ c1.
        continue-Progress m1 (drain_open p.stderr_fd calls.stderr_reads m1) _
          (drain_open-Progress p.stderr_fd calls.stderr_reads m1 c1)
          λ _ m2 _ c2. drain_open-Progress p.startup_error_fd calls.startup_error_reads m2 c2

job_is_terminal-Progress :
    (j : ℕ) (m : ProcessMonitor) → IsConsistent m → Progress m (job_is_terminal j m).1
unfolding job_is_terminal
job_is_terminal-Progress j m c = elim (Option-cases (lookup j m.jobs)) [
  | inl e ↦ rw (e, job_is_terminal) (Progress_refl m c)
  | inr (job, e) ↦ rw (e, job_is_terminal) (Progress_refl m c)
]

module _ (strerror : ℕ → List ℕ) where
  exited_child-Progress :
      (j : ℕ) (p : ActiveProcess) (calls : SignalCalls) (exited : Bool) (m : ProcessMonitor)
      → IsConsistent m
      → Progress m (finish_exited strerror j p calls exited m).1
  unfolding finish_exited
  exited_child-Progress j p calls false m c = Progress_refl m c
  exited_child-Progress j p calls true m c =
      continue-Progress m (drain_all p calls m) _ (drain_all-Progress p calls m c) λ _ m1 _ c1.
        continue-Progress m1 (try_finalize_job strerror j m1) _
          (try_finalize_job-Progress strerror j m1 c1) λ _ m2 _ c2. job_is_terminal-Progress j m2 c2

  pub finish_exited_child_before_signal-Progress :
      (j : ℕ) (calls : SignalCalls) (m : ProcessMonitor)
      → IsConsistent m
      → Progress m (finish_exited_child_before_signal strerror j calls m).1
  unfolding finish_exited_child_before_signal
  finish_exited_child_before_signal-Progress j calls m c =
      elim (Option-cases (lookup j m.active_jobs)) [
        | inl e ↦ rw (e, finish_exited_child_before_signal) (Progress_refl m c)
        | inr (p, e) ↦
            rw (e, finish_exited_child_before_signal)
              (continue-Progress m (check_child j p calls.wait m) _
                (check_child-Progress j p calls.wait m e c)
                λ exited m' _ c'. exited_child-Progress j p calls exited m' c')
      ]
