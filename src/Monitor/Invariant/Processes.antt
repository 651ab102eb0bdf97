-- ===== src/Monitor/Invariant/Processes.antt =====
-- A process may be written to and a pipe closed without the monitor losing its consistency.
use runnerd.Prelude.{
  ℕ, Bool, true, false, ◌&&◌, List, Option, none, some, ◌==◌, ◌≡◌, refl, ◌↔◌, arith, if◌then◌else◌,
  [], ◌∷◌, ◌++◌, Option-cases, Bool-cases, inl, inr,
}
use runnerd.Prelude.Assoc.{lookup, insert, erase, lookup-insert, lookup-erase}
use runnerd.Job.{Job}
use runnerd.Monitor.{
  ProcessFdKind, standard_output, standard_error, startup_error, TrackedFd, ActiveProcess,
  ProcessMonitor, WaitStatus, closed,
}
use runnerd.Monitor.Signals.{record_exit}
use runnerd.Monitor.Pipes.{close_pipe, update_process, close_tracked_fd, append_bytes}
use runnerd.Monitor.Invariant.{IsConsistent, agree, is_shaped, pipe_fd, pipe_of, pid_of}

-- The same process as far as its identity and its pipes go.
pub record SameShape (p p' : ActiveProcess) : Type 0 where
  pub pid : p'.pid ≡ p.pid
  pub pipes : (k : ProcessFdKind) → pipe_fd k p' ≡ pipe_fd k p
  pub shape : is_shaped p' ≡ is_shaped p

pub append_bytes-SameShape :
    (k : ProcessFdKind) (bytes : List ℕ) (p : ActiveProcess) → SameShape p (append_bytes k bytes p)
unfolding append_bytes
append_bytes-SameShape standard_output bytes p = record {
  pid = refl;
  pipes = λ k. ground arith;
  shape = refl;
}
append_bytes-SameShape standard_error bytes p = record {
  pid = refl;
  pipes = λ k. ground arith;
  shape = refl;
}
append_bytes-SameShape startup_error bytes p = record {
  pid = refl;
  pipes = λ k. ground arith;
  shape = refl;
}

pub pipe_of-insert :
    (j0 j : ℕ) (k : ProcessFdKind) (p : ActiveProcess) (active : List (ℕ × ActiveProcess))
    → pipe_of j k (insert j0 p active) ≡ (if j0 == j then pipe_fd k p else pipe_of j k active)
unfolding pipe_of
pipe_of-insert j0 j k p active = ground (arith, lookup-insert j0 j p active)

pub pid_of-insert :
    (j0 j : ℕ) (p : ActiveProcess) (active : List (ℕ × ActiveProcess))
    → pid_of j (insert j0 p active) ≡ (if j0 == j then some p.pid else pid_of j active)
unfolding pid_of
pid_of-insert j0 j p active = ground (arith, lookup-insert j0 j p active)

pub insert-IsConsistent :
    (m : ProcessMonitor) (j0 : ℕ) (p p' : ActiveProcess)
    → lookup j0 m.active_jobs ≡ some p
    → SameShape p p'
    → IsConsistent m
    → IsConsistent (record m { active_jobs = insert j0 p' m.active_jobs })
unfolding pipe_of pid_of
insert-IsConsistent m j0 p p' e s c = record {
  agrees = λ j. ground (arith, lookup-insert j0 j p' m.active_jobs, c.agrees j, s.shape);
  tracked =
      λ fd j k. ground (arith, pipe_of-insert j0 j k p' m.active_jobs, c.tracked fd j k, s.pipes k);
  registered =
      λ pid j. ground (arith, pid_of-insert j0 j p' m.active_jobs, c.registered pid j, s.pid);
}

pub record_exit-SameShape :
    (status : WaitStatus) (p : ActiveProcess) → SameShape p (record_exit status p)
unfolding record_exit
record_exit-SameShape status p = record { pid = refl; pipes = λ k. ground arith; shape = refl }

-- A pipe that is tracked belongs to a process.
pub tracked_process :
    (m : ProcessMonitor) (fd : ℕ) (t : TrackedFd)
    → IsConsistent m
    → lookup fd m.tracked_fds ≡ some t
    → (p : ActiveProcess) × (lookup t.job_id m.active_jobs ≡ some p) × (pipe_fd t.kind p ≡ some fd)
unfolding pipe_of
tracked_process m fd t c e = elim (Option-cases (lookup t.job_id m.active_jobs)) [
  | inl absent ↦ absurd (ground (arith, (c.tracked fd t.job_id t.kind).0 e))
  | inr (p, found) ↦ (p, found, ground (arith, (c.tracked fd t.job_id t.kind).0 e))
]

is_kind : ProcessFdKind → ProcessFdKind → Bool
is_kind standard_output standard_output = true
is_kind standard_error standard_error = true
is_kind startup_error startup_error = true
is_kind _ _ = false

pipe_fd-close_pipe :
    (k0 k : ProcessFdKind) (p : ActiveProcess)
    → pipe_fd k (close_pipe k0 p) ≡ (if is_kind k0 k then none else pipe_fd k p)
unfolding close_pipe is_kind
pipe_fd-close_pipe k0 k p = ground arith

is_shaped-close_pipe :
    (k : ProcessFdKind) (p : ActiveProcess) → is_shaped p ≡ true → is_shaped (close_pipe k p) ≡ true
unfolding close_pipe
is_shaped-close_pipe k p h = ground arith

pid-close_pipe : (k : ProcessFdKind) (p : ActiveProcess) → (close_pipe k p).pid ≡ p.pid
unfolding close_pipe
pid-close_pipe k p = ground arith

names : TrackedFd → ℕ → ProcessFdKind → Bool
names t j k = t.job_id == j && is_kind t.kind k

is_kind_eq : (k0 k : ProcessFdKind) → is_kind k0 k ≡ true → k0 ≡ k
unfolding is_kind
is_kind_eq k0 k h = ground arith

names_refl : (t : TrackedFd) → names t t.job_id t.kind ≡ true
unfolding names is_kind
names_refl t = ground arith

names_eq :
    (t : TrackedFd) (j : ℕ) (k : ProcessFdKind)
    → names t j k ≡ true
    → t ≡ record { job_id = j; kind = k }
unfolding names
names_eq t j k h =
    let same : t.job_id ≡ j = ground arith in
    let kinds : t.kind ≡ k = ground (arith, is_kind_eq t.kind k) in
    λ i. record { job_id = same i; kind = kinds i }

names_inj :
    (t : TrackedFd) (j : ℕ) (k : ProcessFdKind) (o : Option TrackedFd)
    → o ≡ some t
    → o ≡ some (record { job_id = j; kind = k })
    → names t j k ≡ true
names_inj t j k none e f = absurd cc
names_inj t j k (some u) e f =
    let same : t ≡ record { job_id = j; kind = k } = cc in
    rw same (names_refl (record { job_id = j; kind = k }))

module _ (m : ProcessMonitor) (fd : ℕ) (t : TrackedFd) (p : ActiveProcess) where
  agree-close_pipe :
      (j : ℕ) (k : ProcessFdKind) (o : Option Job)
      → agree j o (some p) ≡ true
      → agree j o (some (close_pipe k p)) ≡ true
  agree-close_pipe j k none h = absurd cc
  agree-close_pipe j k (some job) h = ground (arith, is_shaped-close_pipe k p)

  -- The state after a tracked pipe is closed.
  unfoldable pub after_close : ProcessMonitor
  after_close = record m {
    active_jobs = insert t.job_id (close_pipe t.kind p) m.active_jobs;
    tracked_fds = erase fd m.tracked_fds;
    effects = m.effects ++ closed fd ∷ [];
  }

  pub close_tracked_fd_lem :
      lookup fd m.tracked_fds ≡ some t
      → lookup t.job_id m.active_jobs ≡ some p
      → close_tracked_fd fd m ≡ after_close
  unfolding close_tracked_fd update_process after_close
  close_tracked_fd_lem e f = rw (e, close_tracked_fd, f, update_process) refl

  pipe_of-after_close :
      (j : ℕ) (k : ProcessFdKind)
      → lookup t.job_id m.active_jobs ≡ some p
      → pipe_of j k after_close.active_jobs
        ≡ (if names t j k then none else pipe_of j k m.active_jobs)
  unfolding after_close pipe_of names
  pipe_of-after_close j k f = ground (
    arith,
    lookup-insert t.job_id j (close_pipe t.kind p) m.active_jobs,
    pipe_fd-close_pipe t.kind k p,
  )

  tracked_after :
      (other j : ℕ) (k : ProcessFdKind)
      → lookup fd m.tracked_fds ≡ some t
      → lookup t.job_id m.active_jobs ≡ some p
      → pipe_of t.job_id t.kind m.active_jobs ≡ some fd
      → IsConsistent m
      → (lookup other (erase fd m.tracked_fds) ≡ some (record { job_id = j; kind = k }))
        ↔ (pipe_of j k after_close.active_jobs ≡ some other)
  tracked_after other j k e f g c =
      rw (pipe_of-after_close j k f, lookup-erase fd other m.tracked_fds)
        (ground
          (arith, c.tracked other j k, names_eq t j k, names_inj t j k (lookup fd m.tracked_fds) e))

  pub after_close-IsConsistent :
      lookup fd m.tracked_fds ≡ some t
      → lookup t.job_id m.active_jobs ≡ some p
      → pipe_fd t.kind p ≡ some fd
      → IsConsistent m
      → IsConsistent after_close
  unfolding after_close pipe_of pid_of
  after_close-IsConsistent e f g c =
      let p' = close_pipe t.kind p in
      record {
        agrees = λ j.
            rw (lookup-insert t.job_id j p' m.active_jobs) (elim (Bool-cases (t.job_id == j)) [
              | inl same ↦
                  let here : lookup j m.active_jobs ≡ some p = ground arith in
                  rw same (agree-close_pipe j t.kind (lookup j m.jobs) (rw here at (c.agrees j)))
              | inr other ↦ rw other (c.agrees j)
            ]);
        tracked = λ other j k. tracked_after other j k e f (rw (pipe_of, f) g) c;
        registered = λ pid j. ground (
          arith,
          pid_of-insert t.job_id j p' m.active_jobs,
          c.registered pid j,
          pid-close_pipe t.kind p,
        );
      }
