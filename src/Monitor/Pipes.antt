-- ===== src/Monitor/Pipes.antt =====
-- src/process_monitor.cpp: closeTrackedFd and drainProcessFd.
pub mod Chunks
use runnerd.Prelude.{
  ℕ, Bool, true, List, [], ◌∷◌, ◌++◌, Option, none, some, Result, Act, ok, raise, out_of_range,
  system_error, codes,
}
use runnerd.Prelude.Assoc.{lookup, insert, erase}
use runnerd.Monitor.{
  ProcessFdKind, standard_output, standard_error, startup_error, TrackedFd, ActiveProcess,
  ProcessMonitor, closed,
}

-- The switch of closeTrackedFd.
unfoldable pub close_pipe : ProcessFdKind → ActiveProcess → ActiveProcess
close_pipe standard_output p = record p { stdout_fd = none; stdout_eof = true }
close_pipe standard_error p = record p { stderr_fd = none; stderr_eof = true }
close_pipe startup_error p = record p { startup_error_fd = none; startup_error_eof = true }

-- A write through a reference to the process of a job, if it is there.
unfoldable pub update_process :
    ℕ → (ActiveProcess → ActiveProcess) → List (ℕ × ActiveProcess) → List (ℕ × ActiveProcess)
update_process job_id f active = elim (lookup job_id active) [
  | none ↦ active
  | some p ↦ insert job_id (f p) active
]

unfoldable pub close_tracked_fd : ℕ → ProcessMonitor → ProcessMonitor
unfolding close_pipe update_process
close_tracked_fd fd m = elim (lookup fd m.tracked_fds) [
  | none ↦ m
  | some t ↦ record m {
    active_jobs = update_process t.job_id (close_pipe t.kind) m.active_jobs;
    tracked_fds = erase fd m.tracked_fds;
    effects = m.effects ++ closed fd ∷ [];
  }
]

-- One read() of a pipe that is not EAGAIN.
pub data PipeRead : Type 0 where
  received : List ℕ → PipeRead
  end_of_stream : PipeRead
  interrupted : PipeRead
  failed_read : ℕ → PipeRead

-- How the reading loop ends: at EAGAIN, at the end of the stream, or with an exception.
pub data PipeEnd : Type 0 where
  still_open : PipeEnd
  at_end : PipeEnd
  broken : ℕ → PipeEnd

-- The reading loop: the bytes in order, and its end. The list ends where a read returns EAGAIN.
unfoldable pub read_pipe : List PipeRead → List ℕ × PipeEnd
read_pipe [] = ([], still_open)
read_pipe (received bytes ∷ reads) = let (more, end) = read_pipe reads in (bytes ++ more, end)
read_pipe (end_of_stream ∷ reads) = ([], at_end)
read_pipe (interrupted ∷ reads) = read_pipe reads
read_pipe (failed_read error_number ∷ reads) = ([], broken error_number)

-- The switch on the kind of pipe.
unfoldable pub append_bytes : ProcessFdKind → List ℕ → ActiveProcess → ActiveProcess
append_bytes standard_output bytes p = record p { output_bytes = p.output_bytes ++ bytes }
append_bytes standard_error bytes p = record p { error_bytes = p.error_bytes ++ bytes }
append_bytes startup_error bytes p = record p {
  startup_error_bytes = p.startup_error_bytes ++ bytes;
}

unfoldable pub finish_drain : ℕ → PipeEnd → Act ProcessMonitor (Unit {0})
unfolding close_tracked_fd
finish_drain fd still_open m = (ok tt, m)
finish_drain fd at_end m = (ok tt, close_tracked_fd fd m)
finish_drain fd (broken error_number) m =
    (raise (system_error error_number (codes "read child process pipe")), m)

unfoldable pub drain_process_fd : ℕ → List PipeRead → Act ProcessMonitor (Unit {0})
unfolding read_pipe append_bytes finish_drain
drain_process_fd fd reads m = elim (lookup fd m.tracked_fds) [
  | none ↦ (ok tt, m)
  | some t ↦ elim (lookup t.job_id m.active_jobs) [
    | none ↦ (raise (out_of_range []), m)
    | some p ↦
        let (bytes, end) = read_pipe reads in
        finish_drain fd end
          (record m { active_jobs = insert t.job_id (append_bytes t.kind bytes p) m.active_jobs })
  ]
]
