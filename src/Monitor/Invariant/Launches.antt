-- ===== src/Monitor/Invariant/Launches.antt =====
-- The pipes of a process that launchProcess has started.
use runnerd.Prelude.{
  ℕ, false, List, none, some, ◌==◌, if◌then◌else◌, ◌≡◌, ◌↔◌, refl, arith, Bool-cases, inl, inr, sym,
}
use runnerd.Prelude.Assoc.{lookup, insert, lookup-insert}
use runnerd.Monitor.{
  ProcessFdKind, standard_output, standard_error, startup_error, TrackedFd, ProcessMonitor,
}
use runnerd.Monitor.Start.{LaunchedProcess, new_process}
use runnerd.Monitor.Invariant.{IsConsistent, pipe_fd, pipe_of, pid_of}
use runnerd.Monitor.Invariant.Processes.{pipe_of-insert, pid_of-insert}

-- What the kernel gives launchProcess: descriptors that are not open otherwise, and the pid of a
-- child that has not been waited for, which leads its group.
pub record IsFresh (m : ProcessMonitor) (l : LaunchedProcess) : Type 0 where
  pub pid : lookup l.pid m.pid_to_job ≡ none
  pub leads : l.process_group_id ≡ l.pid
  pub positive : (l.pid == 0) ≡ false
  pub stdout_fd : lookup l.stdout_fd m.tracked_fds ≡ none
  pub stderr_fd : lookup l.stderr_fd m.tracked_fds ≡ none
  pub startup_error_fd : lookup l.startup_error_fd m.tracked_fds ≡ none
  pub stderr_distinct : (l.stdout_fd == l.stderr_fd) ≡ false
  pub startup_distinct :
      ((l.stdout_fd == l.startup_error_fd) ≡ false) × ((l.stderr_fd == l.startup_error_fd) ≡ false)

abbrev pub fd_of : ProcessFdKind → LaunchedProcess → ℕ
fd_of standard_output l = l.stdout_fd
fd_of standard_error l = l.stderr_fd
fd_of startup_error l = l.startup_error_fd

-- The three pipes of a process, as they are tracked.
abbrev pub with_pipes : ℕ → LaunchedProcess → List (ℕ × TrackedFd) → List (ℕ × TrackedFd)
with_pipes j l tracked =
    insert l.startup_error_fd (record { job_id = j; kind = startup_error })
      (insert l.stderr_fd (record { job_id = j; kind = standard_error })
        (insert l.stdout_fd (record { job_id = j; kind = standard_output }) tracked))

pipe_fd-new_process :
    (k : ProcessFdKind) (l : LaunchedProcess) → pipe_fd k (new_process l) ≡ some (fd_of k l)
unfolding new_process
pipe_fd-new_process k l = ground arith

module _ (m : ProcessMonitor) (l : LaunchedProcess) (j : ℕ) where
  lookup-with_pipes :
      (fd : ℕ)
      → lookup fd (with_pipes j l m.tracked_fds) ≡ (
          if l.startup_error_fd == fd
          then some (record { job_id = j; kind = startup_error })
          else if l.stderr_fd == fd
          then some (record { job_id = j; kind = standard_error })
          else if l.stdout_fd == fd
          then some (record { job_id = j; kind = standard_output })
          else lookup fd m.tracked_fds)
  lookup-with_pipes fd = ground (
    arith,
    lookup-insert l.startup_error_fd fd (record { job_id = j; kind = startup_error })
        (insert l.stderr_fd (record { job_id = j; kind = standard_error })
          (insert l.stdout_fd (record { job_id = j; kind = standard_output }) m.tracked_fds)),
    lookup-insert l.stderr_fd fd (record { job_id = j; kind = standard_error })
        (insert l.stdout_fd (record { job_id = j; kind = standard_output }) m.tracked_fds),
    lookup-insert l.stdout_fd fd (record { job_id = j; kind = standard_output }) m.tracked_fds,
  )

  -- A job that is queued has no pipes.
  no_pipes : (k : ProcessFdKind) → lookup j m.active_jobs ≡ none → pipe_of j k m.active_jobs ≡ none
  unfolding pipe_of
  no_pipes k e = rw (pipe_of, e) refl

  own_pipe :
      (fd : ℕ) (k : ProcessFdKind)
      → IsConsistent m
      → IsFresh m l
      → lookup j m.active_jobs ≡ none
      → (lookup fd (with_pipes j l m.tracked_fds) ≡ some (record { job_id = j; kind = k }))
        ↔ (some (fd_of k l) ≡ some fd)
  own_pipe fd standard_output c f e =
      rw (lookup-with_pipes fd)
        (ground (arith, c.tracked fd j standard_output, no_pipes standard_output e))
  own_pipe fd standard_error c f e =
      rw (lookup-with_pipes fd)
        (ground (arith, c.tracked fd j standard_error, no_pipes standard_error e))
  own_pipe fd startup_error c f e =
      rw (lookup-with_pipes fd)
        (ground (arith, c.tracked fd j startup_error, no_pipes startup_error e))

  other_pipe :
      (fd i : ℕ) (k : ProcessFdKind)
      → IsConsistent m
      → IsFresh m l
      → (j == i) ≡ false
      → (lookup fd (with_pipes j l m.tracked_fds) ≡ some (record { job_id = i; kind = k }))
        ↔ (pipe_of i k m.active_jobs ≡ some fd)
  other_pipe fd i k c f h = rw (lookup-with_pipes fd) (ground (arith, c.tracked fd i k))

  pub launched_pid :
      (pid i : ℕ)
      → IsConsistent m
      → IsFresh m l
      → lookup j m.active_jobs ≡ none
      → (lookup pid (insert l.pid j m.pid_to_job) ≡ some i)
        ↔ (pid_of i (insert j (new_process l) m.active_jobs) ≡ some pid)
  unfolding pid_of new_process
  launched_pid pid i c f e =
      rw (pid_of-insert j i (new_process l) m.active_jobs, lookup-insert l.pid pid j m.pid_to_job)
        (ground (arith, c.registered pid i, c.registered pid j, f.pid))

  pub launched_pipe :
      (fd i : ℕ) (k : ProcessFdKind)
      → IsConsistent m
      → IsFresh m l
      → lookup j m.active_jobs ≡ none
      → (lookup fd (with_pipes j l m.tracked_fds) ≡ some (record { job_id = i; kind = k }))
        ↔ (pipe_of i k (insert j (new_process l) m.active_jobs) ≡ some fd)
  launched_pipe fd i k c f e =
      rw (pipe_of-insert j i k (new_process l) m.active_jobs) (elim (Bool-cases (j == i)) [
        | inl same ↦
            let there : j ≡ i = ground arith in
            rw (same, pipe_fd-new_process k l, sym there) (own_pipe fd k c f e)
        | inr other ↦ rw other (other_pipe fd i k c f other)
      ])
