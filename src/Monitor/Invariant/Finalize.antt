-- ===== src/Monitor/Invariant/Finalize.antt =====
-- tryFinalizeJob keeps the monitor consistent, whatever it answers.
use runnerd.Prelude.{
  ℕ, true, false, not, ◌&&◌, ◌||◌, List, [], ◌∷◌, ◌++◌, Option, none, some, Result, ◌==◌,
  if◌then◌else◌, ◌≡◌, ◌↔◌, refl, ◌∙◌, arith, Bool-cases, Option-cases, inl, inr,
}
use runnerd.Prelude.Assoc.{
  lookup, insert, erase, lookup-insert, lookup-erase, contains, contains-append,
}
use runnerd.Job.{Job, JobState, is_terminal, can_transition}
use runnerd.Monitor.{ActiveProcess, ProcessFdKind, ProcessMonitor}
use runnerd.Monitor.Settle.{is_complete, finish_settle, try_finalize_job}
use runnerd.Monitor.Settle.Outcome.{Settled, ended, kept, settle-Settled}
use runnerd.Monitor.Invariant.{
  IsConsistent, agree, has_process, is_live, is_shaped, pipe_fd, pipe_of, pid_of,
}
use runnerd.Monitor.Invariant.Processes.{SameShape, insert-IsConsistent}
use runnerd.Monitor.Invariant.Progress.{
  JobMoves, stays, ends, unmoved, Progress, Progress_refl, is_active,
}

-- All pipes of a complete process are gone.
complete_pipes :
    (p : ActiveProcess) (k : ProcessFdKind)
    → is_shaped p ≡ true
    → is_complete p ≡ true
    → pipe_fd k p ≡ none
complete_pipes p k h c = ground arith

terminal_no_process : (s : JobState) → is_terminal s ≡ true → has_process s ≡ false
unfolding is_terminal
terminal_no_process s h = ground arith

module _ (m : ProcessMonitor) (j0 : ℕ) (p : ActiveProcess) (job job' : Job) where
  -- The monitor after a job has ended.
  after_end : ProcessMonitor
  after_end = record m {
    jobs = insert j0 job' m.jobs;
    pid_to_job = erase p.pid m.pid_to_job;
    active_jobs = erase j0 m.active_jobs;
    notifications =
        if m.terminal_job_callback then m.notifications ++ job'.id ∷ [] else m.notifications;
  }

  pipe_of-after_end :
      (j : ℕ) (k : ProcessFdKind)
      → lookup j0 m.active_jobs ≡ some p
      → is_shaped p ≡ true
      → is_complete p ≡ true
      → pipe_of j k after_end.active_jobs ≡ pipe_of j k m.active_jobs
  unfolding after_end pipe_of
  pipe_of-after_end j k e h c =
      ground (arith, lookup-erase j0 j m.active_jobs, complete_pipes p k h c)

  registered_after_end :
      (pid j : ℕ)
      → lookup j0 m.active_jobs ≡ some p
      → IsConsistent m
      → (lookup pid after_end.pid_to_job ≡ some j) ↔ (pid_of j after_end.active_jobs ≡ some pid)
  unfolding after_end pid_of
  registered_after_end pid j e c = ground (
    arith,
    lookup-erase j0 j m.active_jobs,
    lookup-erase p.pid pid m.pid_to_job,
    c.registered pid j,
    c.registered pid j0,
    c.registered p.pid j,
    c.registered p.pid j0,
  )

  after_end-IsConsistent :
      lookup j0 m.active_jobs ≡ some p
      → is_shaped p ≡ true
      → is_complete p ≡ true
      → (job'.id == j0) ≡ true
      → has_process job'.state ≡ false
      → IsConsistent m
      → IsConsistent after_end
  unfolding after_end
  after_end-IsConsistent e h d i s c = record {
    agrees = λ j.
        ground (arith, lookup-erase j0 j m.active_jobs, lookup-insert j0 j job' m.jobs, c.agrees j);
    tracked = λ fd j k. rw (pipe_of-after_end j k e h d) (c.tracked fd j k);
    registered = λ pid j. registered_after_end pid j e c;
  }

  announced_after_end :
      (j : ℕ)
      → lookup j0 m.active_jobs ≡ some p
      → (job'.id == j0) ≡ true
      → contains j after_end.notifications ≡ (
          contains j m.notifications
          || m.terminal_job_callback && is_active j m && not (is_active j after_end))
  unfolding after_end contains
  announced_after_end j e i =
      ground
        (arith, lookup-erase j0 j m.active_jobs, contains-append j m.notifications (job'.id ∷ []))

  moved_after_end :
      (j : ℕ)
      → lookup j0 m.jobs ≡ some job
      → job'.id ≡ job.id
      → job'.spec ≡ job.spec
      → is_terminal job'.state ≡ true
      → can_transition job.state job'.state ≡ true
      → JobMoves (lookup j m.jobs) (lookup j after_end.jobs)
  unfolding after_end
  moved_after_end j f i s t allowed =
      rw (lookup-insert j0 j job' m.jobs) (elim (Bool-cases (j0 == j)) [
        | inl same ↦
            let here : lookup j m.jobs ≡ some job = ground arith in
            rw (same, here) (ends i s t allowed)
        | inr other ↦ rw other (unmoved (lookup j m.jobs))
      ])

  after_end-Progress :
      lookup j0 m.active_jobs ≡ some p
      → lookup j0 m.jobs ≡ some job
      → is_complete p ≡ true
      → job'.id ≡ job.id
      → job'.spec ≡ job.spec
      → is_terminal job'.state ≡ true
      → can_transition job.state job'.state ≡ true
      → IsConsistent m
      → Progress m after_end
  unfolding after_end
  after_end-Progress e f d i s t allowed c =
      let shaped : is_shaped p ≡ true = ground (arith, c.agrees j0) in
      let named : (job'.id == j0) ≡ true = ground (arith, c.agrees j0) in
      record {
        consistent = after_end-IsConsistent e shaped d named (terminal_no_process job'.state t) c;
        callback = refl;
        signals = refl;
        jobs = λ j. moved_after_end j f i s t allowed;
        settled = λ j h. ground (arith, lookup-insert j0 j job' m.jobs);
        fewer = λ j h. ground (arith, lookup-erase j0 j m.active_jobs);
        announced = λ j. announced_after_end j e named;
      }

  -- The monitor after an exception: the job keeps its state.
  after_exception : ActiveProcess → ProcessMonitor
  after_exception p' = record m {
    jobs = insert j0 job' m.jobs;
    active_jobs = insert j0 p' m.active_jobs;
  }

  job_kept :
      (o : Option ActiveProcess) (j : ℕ)
      → agree j (some job) o ≡ true
      → job'.id ≡ job.id
      → job'.state ≡ job.state
      → job'.termination_cause ≡ job.termination_cause
      → agree j (some job') o ≡ true
  job_kept none j h i t c = ground arith
  job_kept (some q) j h i t c = ground arith

  with_job-IsConsistent :
      lookup j0 m.jobs ≡ some job
      → job'.id ≡ job.id
      → job'.state ≡ job.state
      → job'.termination_cause ≡ job.termination_cause
      → IsConsistent m
      → IsConsistent (record m { jobs = insert j0 job' m.jobs })
  with_job-IsConsistent f i t u c = record {
    agrees = λ j. rw (lookup-insert j0 j job' m.jobs) (elim (Bool-cases (j0 == j)) [
      | inl same ↦
          let here : lookup j m.jobs ≡ some job = ground arith in
          rw same (job_kept (lookup j m.active_jobs) j (rw here at (c.agrees j)) i t u)
      | inr other ↦ rw other (c.agrees j)
    ]);
    tracked = c.tracked;
    registered = c.registered;
  }

  moved_after_exception :
      (p' : ActiveProcess) (j : ℕ)
      → lookup j0 m.jobs ≡ some job
      → job'.id ≡ job.id
      → job'.spec ≡ job.spec
      → job'.state ≡ job.state
      → JobMoves (lookup j m.jobs) (lookup j (insert j0 job' m.jobs))
  moved_after_exception p' j f i s t =
      rw (lookup-insert j0 j job' m.jobs) (elim (Bool-cases (j0 == j)) [
        | inl same ↦
            let here : lookup j m.jobs ≡ some job = ground arith in rw (same, here) (stays i s t)
        | inr other ↦ rw other (unmoved (lookup j m.jobs))
      ])

  after_exception-Progress :
      (p' : ActiveProcess)
      → lookup j0 m.active_jobs ≡ some p
      → lookup j0 m.jobs ≡ some job
      → SameShape p p'
      → job'.id ≡ job.id
      → job'.spec ≡ job.spec
      → job'.state ≡ job.state
      → job'.termination_cause ≡ job.termination_cause
      → IsConsistent m
      → Progress m (after_exception p')
  unfolding after_exception
  after_exception-Progress p' e f same i s t u c = record {
    consistent =
        insert-IsConsistent (record m { jobs = insert j0 job' m.jobs }) j0 p p' e same
          (with_job-IsConsistent f i t u c);
    callback = refl;
    signals = refl;
    jobs = λ j. moved_after_exception p' j f i s t;
    settled = λ j h. ground (arith, lookup-insert j0 j job' m.jobs);
    fewer = λ j h. ground (arith, lookup-insert j0 j p' m.active_jobs);
    announced = λ j. ground (arith, lookup-insert j0 j p' m.active_jobs);
  }

module _ (strerror : ℕ → List ℕ) where
  finish_settle-Progress :
      (m : ProcessMonitor) (j0 : ℕ) (p : ActiveProcess) (job swapped : Job)
      (r : Result (Unit {0}) × Job)
      → lookup j0 m.active_jobs ≡ some p
      → lookup j0 m.jobs ≡ some job
      → is_complete p ≡ true
      → swapped.id ≡ job.id
      → swapped.spec ≡ job.spec
      → swapped.state ≡ job.state
      → swapped.termination_cause ≡ job.termination_cause
      → Settled swapped r
      → IsConsistent m
      → Progress m (finish_settle j0 p job r m).1
  unfolding finish_settle after_end after_exception
  finish_settle-Progress m j0 p job swapped _ e f d i s t u (ended {job'} a b g h) c =
      after_end-Progress m j0 p job job' e f d (a ∙ i) (b ∙ s) g (rw t at h) c
  finish_settle-Progress m j0 p job swapped _ e f d i s t u (kept {job'} a b g h) c =
      after_exception-Progress m j0 p job job' _ e f
        (record { pid = refl; pipes = λ k. ground arith; shape = refl }) (a ∙ i) (b ∙ s) (g ∙ t)
        (h ∙ u) c

  pub try_finalize_job-Progress :
      (j0 : ℕ) (m : ProcessMonitor) → IsConsistent m → Progress m (try_finalize_job strerror j0 m).1
  unfolding try_finalize_job
  try_finalize_job-Progress j0 m c = elim (Option-cases (lookup j0 m.active_jobs)) [
    | inl e ↦ rw (e, try_finalize_job) (Progress_refl m c)
    | inr (p, e) ↦ elim (Bool-cases (is_complete p)) [
      | inr d ↦ rw (e, try_finalize_job, d) (Progress_refl m c)
      | inl d ↦ elim (Option-cases (lookup j0 m.jobs)) [
        | inl f ↦ rw (e, try_finalize_job, d, f) (Progress_refl m c)
        | inr (job, f) ↦
            let live : is_live job ≡ true = ground (arith, c.agrees j0) in
            rw (e, try_finalize_job, d, f)
              (finish_settle-Progress m j0 p job _ _ e f d refl refl refl refl
                (settle-Settled strerror p _ live) c)
      ]
    ]
  ]
