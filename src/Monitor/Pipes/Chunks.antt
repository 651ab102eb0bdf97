-- ===== src/Monitor/Pipes/Chunks.antt =====
-- drainProcessFd called for several events of a pipe, against one call for all that is read.
use runnerd.Prelude.{
  ℕ, List, [], ◌∷◌, ◌++◌, none, some, continue, ◌≡◌, refl, sym, ap, arith, Option-cases, inl, inr,
}
use runnerd.Prelude.Assoc.{lookup, insert, lookup-insert, lookup-erase, insert-insert}
use runnerd.Monitor.{
  ProcessFdKind, standard_output, standard_error, startup_error, TrackedFd, ActiveProcess,
  ProcessMonitor,
}
use runnerd.Monitor.Pipes.{
  PipeRead, received, end_of_stream, interrupted, failed_read, PipeEnd, still_open, at_end, broken,
  read_pipe, append_bytes, close_tracked_fd, finish_drain, drain_process_fd,
}

-- The bytes and the end of two runs of reads, the second of which follows only an EAGAIN.
abbrev then_read : List ℕ × PipeEnd → List ℕ × PipeEnd → List ℕ × PipeEnd
then_read (bytes, still_open) (more, end) = (bytes ++ more, end)
then_read (bytes, at_end) _ = (bytes, at_end)
then_read (bytes, broken error_number) _ = (bytes, broken error_number)

append_assoc : (xs ys zs : List ℕ) → (xs ++ ys) ++ zs ≡ xs ++ (ys ++ zs)
append_assoc [] ys zs = refl
append_assoc (x ∷ xs) ys zs = ap (◌∷◌ x) (append_assoc xs ys zs)

then_read-append :
    (bytes : List ℕ) (first second : List ℕ × PipeEnd)
    → (bytes ++ (then_read first second).0, (then_read first second).1)
      ≡ then_read (bytes ++ first.0, first.1) second
then_read-append bytes (first, still_open) (more, end) =
    ap (λ (b : List ℕ). (b, end)) (sym (append_assoc bytes first more))
then_read-append bytes (first, at_end) second = refl
then_read-append bytes (first, broken error_number) second = refl

read_pipe-append :
    (xs ys : List PipeRead) → read_pipe (xs ++ ys) ≡ then_read (read_pipe xs) (read_pipe ys)
unfolding read_pipe
read_pipe-append [] ys = refl
read_pipe-append (received bytes ∷ xs) ys =
    rw (read_pipe-append xs ys) (then_read-append bytes (read_pipe xs) (read_pipe ys))
read_pipe-append (end_of_stream ∷ xs) ys = refl
read_pipe-append (interrupted ∷ xs) ys = read_pipe-append xs ys
read_pipe-append (failed_read error_number ∷ xs) ys = refl

append_bytes-append :
    (k : ProcessFdKind) (xs ys : List ℕ) (p : ActiveProcess)
    → append_bytes k ys (append_bytes k xs p) ≡ append_bytes k (xs ++ ys) p
unfolding append_bytes
append_bytes-append standard_output xs ys p =
    ap (λ (b : List ℕ). record p { output_bytes = b }) (append_assoc p.output_bytes xs ys)
append_bytes-append standard_error xs ys p =
    ap (λ (b : List ℕ). record p { error_bytes = b }) (append_assoc p.error_bytes xs ys)
append_bytes-append startup_error xs ys p =
    ap (λ (b : List ℕ). record p { startup_error_bytes = b })
      (append_assoc p.startup_error_bytes xs ys)

module _ (fd : ℕ) (m : ProcessMonitor) (t : TrackedFd) (p : ActiveProcess) where
  -- The monitor after bytes of the pipe.
  with_bytes : List ℕ → ProcessMonitor
  with_bytes bytes = record m {
    active_jobs = insert t.job_id (append_bytes t.kind bytes p) m.active_jobs;
  }

  drain_lem :
      (reads : List PipeRead)
      → lookup fd m.tracked_fds ≡ some t
      → lookup t.job_id m.active_jobs ≡ some p
      → drain_process_fd fd reads m
        ≡ finish_drain fd (read_pipe reads).1 (with_bytes (read_pipe reads).0)
  unfolding drain_process_fd with_bytes
  drain_lem reads e f = rw (drain_process_fd, e, f) refl

  after_bytes :
      (bytes : List ℕ) (ys : List PipeRead)
      → lookup fd m.tracked_fds ≡ some t
      → drain_process_fd fd ys (with_bytes bytes)
        ≡ finish_drain fd (read_pipe ys).1 (with_bytes (bytes ++ (read_pipe ys).0))
  unfolding drain_process_fd with_bytes
  after_bytes bytes ys e =
      let p' = append_bytes t.kind bytes p in
      let found : lookup t.job_id (insert t.job_id p' m.active_jobs) ≡ some p' =
        ground (arith, lookup-insert t.job_id t.job_id p' m.active_jobs) in
      rw
        (
          drain_process_fd,
          e,
          found,
          append_bytes-append t.kind bytes (read_pipe ys).0 p,
          insert-insert t.job_id p' (append_bytes t.kind (bytes ++ (read_pipe ys).0) p)
              m.active_jobs,
        )
        refl

  closed_untracked : (m' : ProcessMonitor) → lookup fd (close_tracked_fd fd m').tracked_fds ≡ none
  unfolding close_tracked_fd
  closed_untracked m' = elim (Option-cases (lookup fd m'.tracked_fds)) [
    | inl e ↦ rw (close_tracked_fd, e) e
    | inr (u, e) ↦ rw (close_tracked_fd, e) (ground (arith, lookup-erase fd fd m'.tracked_fds))
  ]

  combine :
      (first : List ℕ × PipeEnd) (ys : List PipeRead)
      → lookup fd m.tracked_fds ≡ some t
      → finish_drain fd
          (then_read first (read_pipe ys)).1
          (with_bytes (then_read first (read_pipe ys)).0)
        ≡ continue (finish_drain fd first.1 (with_bytes first.0)) λ _ m. drain_process_fd fd ys m
  unfolding finish_drain drain_process_fd
  combine (bytes, still_open) ys e = sym (after_bytes bytes ys e)
  combine (bytes, at_end) ys e = rw (closed_untracked (with_bytes bytes), drain_process_fd) refl
  combine (bytes, broken error_number) ys e = refl

  -- However the reads of a tracked pipe of a process are divided between two calls of
  -- drainProcessFd, the monitor and the exception, if there is one, are those of one call that makes
  -- them all; after the end of the stream or an exception, the second call makes none.
  pub drain_process_fd-append :
      (xs ys : List PipeRead)
      → lookup fd m.tracked_fds ≡ some t
      → lookup t.job_id m.active_jobs ≡ some p
      → drain_process_fd fd (xs ++ ys) m
        ≡ continue (drain_process_fd fd xs m) λ _ m. drain_process_fd fd ys m
  drain_process_fd-append xs ys e f =
      rw (drain_lem (xs ++ ys) e f, drain_lem xs e f, read_pipe-append xs ys)
        (combine (read_pipe xs) ys e)
