-- ===== src/Monitor/Invariant/Undo.antt =====
-- abandonStartedJob: a launch that could not be registered leaves nothing behind.
use runnerd.Prelude.{
  ℕ, true, false, List, [], ◌∷◌, ◌++◌, none, some, ok, ◌==◌, if◌then◌else◌, ◌≡◌, refl, arith, ltb,
  ap,
}
use runnerd.Prelude.Assoc.{lookup, insert, erase, lookup-insert, lookup-erase}
use runnerd.Job.{Job, queued, failed, transition_job, can_transition}
use runnerd.Monitor.{ProcessMonitor, Effect, closed, signalled_group, awaited}
use runnerd.Monitor.Settle.{fail_with}
use runnerd.Monitor.Signals.{sigkill}
use runnerd.Monitor.Start.{
  LaunchedProcess, new_process, kill_and_reap_process, abandon_fd, update_job, abandon_started_job,
}
use runnerd.Monitor.Invariant.{IsConsistent, pipe_of, pid_of}
use runnerd.Monitor.Invariant.Launches.{IsFresh}

-- Every job keeps its state but one, which has failed with a message. It has no process, and no
-- descriptor or pid but those known before is known.
pub record IsFailed (j : ℕ) (job : Job) (message : List ℕ) (m m' : ProcessMonitor) : Type 0 where
  pub failure : Job
  pub jobs : (i : ℕ) → lookup i m'.jobs ≡ (if j == i then some failure else lookup i m.jobs)
  pub named : failure.id ≡ job.id
  pub state : failure.state ≡ failed
  pub text : failure.failure_message ≡ message
  pub active_jobs : (i : ℕ) → lookup i m'.active_jobs ≡ lookup i m.active_jobs
  pub tracked_fds : (fd : ℕ) → lookup fd m'.tracked_fds ≡ lookup fd m.tracked_fds
  pub pid_to_job : (pid : ℕ) → lookup pid m'.pid_to_job ≡ lookup pid m.pid_to_job

-- The end of a process that was started: its pipes are closed, and it is killed and awaited.
abbrev pub cleanup : LaunchedProcess → List Effect
cleanup l =
    closed l.stdout_fd
    ∷ closed l.stderr_fd
    ∷ closed l.startup_error_fd
    ∷ signalled_group l.process_group_id sigkill
    ∷ awaited l.pid
    ∷ []

-- A monitor in which a process has been registered in part.
pub record IsPartial (j : ℕ) (job : Job) (l : LaunchedProcess) (m m' : ProcessMonitor)
    : Type 0 where
  pub jobs : m'.jobs ≡ insert j job m.jobs
  pub active_jobs : m'.active_jobs ≡ insert j (new_process l) m.active_jobs
  pub effects : m'.effects ≡ m.effects
  pub pid_to_job :
      (pid : ℕ) → (l.pid == pid) ≡ false → lookup pid m'.pid_to_job ≡ lookup pid m.pid_to_job
  pub tracked_fds :
      (fd : ℕ)
      → (l.stdout_fd == fd) ≡ false
      → (l.stderr_fd == fd) ≡ false
      → (l.startup_error_fd == fd) ≡ false
      → lookup fd m'.tracked_fds ≡ lookup fd m.tracked_fds

pub fail_with_queued :
    (message : List ℕ) (job : Job)
    → job.state ≡ queued
    → fail_with message job ≡ (ok tt, record job { state = failed; failure_message = message })
unfolding fail_with transition_job can_transition
fail_with_queued message job h = rw (h, fail_with, transition_job) refl

kill_and_reap_fresh :
    (l : LaunchedProcess) (m : ProcessMonitor)
    → IsFresh m l
    → kill_and_reap_process l.pid l.process_group_id
      ≡ signalled_group l.process_group_id sigkill ∷ awaited l.pid ∷ []
unfolding kill_and_reap_process
kill_and_reap_fresh l m f =
    let positive : (ltb 0 l.process_group_id) ≡ true = ground (arith, f.leads, f.positive) in
    rw (kill_and_reap_process, f.positive, positive) refl

-- A failure of a job that is queued and has no process keeps the monitor consistent.
pub IsFailed-IsConsistent :
    (j : ℕ) (job : Job) (message : List ℕ) (m m' : ProcessMonitor)
    → lookup j m.jobs ≡ some job
    → job.state ≡ queued
    → IsFailed j job message m m'
    → IsConsistent m
    → IsConsistent m'
unfolding pipe_of pid_of
IsFailed-IsConsistent j job message m m' e q f c = record {
  agrees = λ i. ground (arith, f.jobs i, f.active_jobs i, c.agrees i);
  tracked = λ fd i k. rw (f.tracked_fds fd, pipe_of, f.active_jobs i) (c.tracked fd i k);
  registered = λ pid i. rw (f.pid_to_job pid, pid_of, f.active_jobs i) (c.registered pid i);
}

module _ (j : ℕ) (job : Job) (l : LaunchedProcess) (message : List ℕ) (m m' : ProcessMonitor) where
  -- What abandonStartedJob leaves.
  abandoned : ProcessMonitor
  abandoned = record m' {
    jobs = insert j (record job { state = failed; failure_message = message }) m'.jobs;
    active_jobs = erase j m'.active_jobs;
    pid_to_job = erase l.pid m'.pid_to_job;
    tracked_fds = erase l.startup_error_fd (erase l.stderr_fd (erase l.stdout_fd m'.tracked_fds));
    effects =
        (((m'.effects ++ closed l.stdout_fd ∷ []) ++ closed l.stderr_fd ∷ [])
          ++ closed l.startup_error_fd ∷ [])
        ++ signalled_group l.process_group_id sigkill ∷ awaited l.pid ∷ [];
  }

  abandon_started_job_lem :
      IsPartial j job l m m'
      → IsFresh m l
      → job.state ≡ queued
      → abandon_started_job j message m' ≡ (ok tt, abandoned)
  unfolding abandon_started_job abandon_fd update_job new_process abandoned
  abandon_started_job_lem p f q =
      let process : lookup j m'.active_jobs ≡ some (new_process l) =
        rw p.active_jobs (ground (arith, lookup-insert j j (new_process l) m.active_jobs)) in
      let found : lookup j m'.jobs ≡ some job =
        rw p.jobs (ground (arith, lookup-insert j j job m.jobs)) in
      rw
        (
          abandon_started_job,
          process,
          update_job,
          found,
          fail_with_queued message job q,
          kill_and_reap_fresh l m f,
        )
        refl

  abandoned-IsFailed :
      IsPartial j job l m m'
      → IsFresh m l
      → lookup j m.active_jobs ≡ none
      → IsFailed j job message m abandoned
  unfolding abandoned
  abandoned-IsFailed p f idle =
      let job' : Job = record job { state = failed; failure_message = message } in
      record {
        failure = job';
        jobs = λ i. rw p.jobs (
            ground
              (arith, lookup-insert j i job' (insert j job m.jobs), lookup-insert j i job m.jobs));
        named = refl;
        state = refl;
        text = refl;
        active_jobs = λ i. rw p.active_jobs (
            ground (
              arith,
              lookup-erase j i (insert j (new_process l) m.active_jobs),
              lookup-insert j i (new_process l) m.active_jobs,
            ));
        tracked_fds = λ fd. untracked fd p f;
        pid_to_job =
            λ pid. ground (arith, lookup-erase l.pid pid m'.pid_to_job, p.pid_to_job pid, f.pid);
      }
    where
      untracked :
          (fd : ℕ)
          → IsPartial j job l m m'
          → IsFresh m l
          → lookup fd abandoned.tracked_fds ≡ lookup fd m.tracked_fds
      untracked fd p f = ground (
        arith,
        lookup-erase l.startup_error_fd fd (erase l.stderr_fd (erase l.stdout_fd m'.tracked_fds)),
        lookup-erase l.stderr_fd fd (erase l.stdout_fd m'.tracked_fds),
        lookup-erase l.stdout_fd fd m'.tracked_fds,
        p.tracked_fds fd,
        f.stdout_fd,
        f.stderr_fd,
        f.startup_error_fd,
      )

  abandoned-effects : IsPartial j job l m m' → abandoned.effects ≡ m.effects ++ cleanup l
  unfolding abandoned
  abandoned-effects p = rw p.effects (joined m.effects)
    where
      joined :
          (es : List Effect)
          → (((es ++ closed l.stdout_fd ∷ []) ++ closed l.stderr_fd ∷ [])
                ++ closed l.startup_error_fd ∷ [])
              ++ signalled_group l.process_group_id sigkill ∷ awaited l.pid ∷ []
            ≡ es ++ cleanup l
      joined [] = refl
      joined (e ∷ es) = ap (◌∷◌ e) (joined es)

-- Partly registered processes are undone: nothing is left of them.
pub record IsUndone (j : ℕ) (job : Job) (l : LaunchedProcess) (m m' : ProcessMonitor) : Type 0 where
  pub message : List ℕ
  pub fails : IsFailed j job message m m'
  pub effects : m'.effects ≡ m.effects ++ cleanup l

pub abandon_started_job-IsUndone :
    (j : ℕ) (job : Job) (l : LaunchedProcess) (message : List ℕ) (m m' : ProcessMonitor)
    → IsPartial j job l m m'
    → IsFresh m l
    → job.state ≡ queued
    → lookup j m.active_jobs ≡ none
    → (after : ProcessMonitor) × (abandon_started_job j message m' ≡ (ok tt, after))
      × IsUndone j job l m after
abandon_started_job-IsUndone j job l message m m' p f q idle = (
  abandoned j job l message m m',
  abandon_started_job_lem j job l message m m' p f q,
  record {
    message = message;
    fails = abandoned-IsFailed j job l message m m' p f idle;
    effects = abandoned-effects j job l message m m' p;
  },
)
