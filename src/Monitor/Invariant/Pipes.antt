-- ===== src/Monitor/Invariant/Pipes.antt =====
-- closeTrackedFd and drainProcessFd keep the monitor consistent, whatever they answer.
use runnerd.Prelude.{ℕ, List, some, ◌≡◌, refl, arith, Option-cases, inl, inr}
use runnerd.Prelude.Assoc.{lookup, insert, lookup-insert}
use runnerd.Monitor.{TrackedFd, ActiveProcess, ProcessMonitor}
use runnerd.Monitor.Pipes.{
  PipeRead, PipeEnd, still_open, at_end, broken, read_pipe, close_pipe, close_tracked_fd,
  append_bytes, finish_drain, drain_process_fd,
}
use runnerd.Monitor.Invariant.{IsConsistent, pipe_fd}
use runnerd.Monitor.Invariant.Processes.{
  SameShape, append_bytes-SameShape, insert-IsConsistent, tracked_process, after_close,
  close_tracked_fd_lem, after_close-IsConsistent,
}
use runnerd.Monitor.Invariant.Progress.{
  Progress, Progress_refl, Progress_trans, kills_closed, unmoved,
}

-- A write to a process that keeps its shape.
pub insert-Progress :
    (m : ProcessMonitor) (j0 : ℕ) (p p' : ActiveProcess)
    → lookup j0 m.active_jobs ≡ some p
    → SameShape p p'
    → IsConsistent m
    → Progress m (record m { active_jobs = insert j0 p' m.active_jobs })
insert-Progress m j0 p p' e s c = record {
  consistent = insert-IsConsistent m j0 p p' e s c;
  callback = refl;
  signals = refl;
  jobs = λ j. unmoved (lookup j m.jobs);
  settled = λ j h. refl;
  fewer = λ j h. ground (arith, lookup-insert j0 j p' m.active_jobs);
  announced = λ j. ground (arith, lookup-insert j0 j p' m.active_jobs);
}

after_close-Progress :
    (m : ProcessMonitor) (fd : ℕ) (t : TrackedFd) (p : ActiveProcess)
    → lookup fd m.tracked_fds ≡ some t
    → lookup t.job_id m.active_jobs ≡ some p
    → pipe_fd t.kind p ≡ some fd
    → IsConsistent m
    → Progress m (after_close m fd t p)
unfolding after_close
after_close-Progress m fd t p e f g c =
    let p' = close_pipe t.kind p in
    record {
      consistent = after_close-IsConsistent m fd t p e f g c;
      callback = refl;
      signals = kills_closed m.effects fd;
      jobs = λ j. unmoved (lookup j m.jobs);
      settled = λ j h. refl;
      fewer = λ j h. ground (arith, lookup-insert t.job_id j p' m.active_jobs);
      announced = λ j. ground (arith, lookup-insert t.job_id j p' m.active_jobs);
    }

close_tracked_fd-Progress :
    (fd : ℕ) (m : ProcessMonitor) → IsConsistent m → Progress m (close_tracked_fd fd m)
unfolding close_tracked_fd
close_tracked_fd-Progress fd m c = elim (Option-cases (lookup fd m.tracked_fds)) [
  | inl e ↦ rw (e, close_tracked_fd) (Progress_refl m c)
  | inr (t, e) ↦
      let (p, f, g) = tracked_process m fd t c e in
      rw (close_tracked_fd_lem m fd t p e f) (after_close-Progress m fd t p e f g c)
]

finish_drain-Progress :
    (fd : ℕ) (end : PipeEnd) (m : ProcessMonitor)
    → IsConsistent m
    → Progress m (finish_drain fd end m).1
unfolding finish_drain
finish_drain-Progress fd still_open m c = Progress_refl m c
finish_drain-Progress fd at_end m c = close_tracked_fd-Progress fd m c
finish_drain-Progress fd (broken error_number) m c = Progress_refl m c

pub drain_process_fd-Progress :
    (fd : ℕ) (reads : List PipeRead) (m : ProcessMonitor)
    → IsConsistent m
    → Progress m (drain_process_fd fd reads m).1
unfolding drain_process_fd
drain_process_fd-Progress fd reads m c = elim (Option-cases (lookup fd m.tracked_fds)) [
  | inl e ↦ rw (e, drain_process_fd) (Progress_refl m c)
  | inr (t, e) ↦
      let (p, f, g) = tracked_process m fd t c e in
      let p' = append_bytes t.kind (read_pipe reads).0 p in
      let written =
        insert-Progress m t.job_id p p' f (append_bytes-SameShape t.kind (read_pipe reads).0 p) c in
      rw (e, drain_process_fd, f)
        (Progress_trans m (record m { active_jobs = insert t.job_id p' m.active_jobs }) _ written
          (finish_drain-Progress fd (read_pipe reads).1 _ written.consistent))
]
