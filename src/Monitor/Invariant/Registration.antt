-- ===== src/Monitor/Invariant/Registration.antt =====
-- How startJob makes a launched process known: all of it, or what abandonStartedJob undoes.
use runnerd.Prelude.{
  ℕ, true, false, List, none, some, Result, Exception, system_error, codes, ok, raise, ◌==◌, ◌≡◌,
  refl, ◌∙◌, arith, Option-cases, inl, inr,
}
use runnerd.Prelude.Assoc.{lookup, insert, erase, lookup-insert, lookup-erase}
use runnerd.Job.{Job, queued, running, transition_job, can_transition}
use runnerd.Monitor.{
  ProcessFdKind, standard_output, standard_error, startup_error, TrackedFd, ProcessMonitor,
}
use runnerd.Monitor.Start.{
  LaunchedProcess, StartCalls, new_process, register_process_fd, update_job, register_process,
}
use runnerd.Monitor.Invariant.{IsConsistent, agree}
use runnerd.Monitor.Invariant.Launches.{IsFresh, with_pipes, launched_pid, launched_pipe}
use runnerd.Monitor.Invariant.Undo.{IsPartial}

-- The job with its pid, and then as it runs.
abbrev pub with_pid : LaunchedProcess → Job → Job
with_pid l job = record job { pid = some l.pid; process_group_id = some l.process_group_id }

-- The job runs, its process is known by its pid and its pipes, and nothing else is changed.
pub record IsStarted (j : ℕ) (job : Job) (l : LaunchedProcess) (m m' : ProcessMonitor)
    : Type 0 where
  pub result : m' ≡ record m {
    jobs =
        insert j
          (record job {
            pid = some l.pid;
            process_group_id = some l.process_group_id;
            state = running;
          })
          (insert j (with_pid l job) m.jobs);
    active_jobs = insert j (new_process l) m.active_jobs;
    pid_to_job = insert l.pid j m.pid_to_job;
    tracked_fds = with_pipes j l m.tracked_fds;
  }
  pub consistent : IsConsistent m'

register_fails :
    (fd j : ℕ) (k : ProcessFdKind) (error_number : ℕ) (m : ProcessMonitor)
    → lookup fd m.tracked_fds ≡ none
    → (e : Exception) × (register_process_fd fd j k (some error_number) m ≡ (
      raise e,
      record m {
        tracked_fds = erase fd (insert fd (record { job_id = j; kind = k }) m.tracked_fds);
      },
    ))
unfolding register_process_fd
register_fails fd j k error_number m h = (
  system_error error_number (codes "add process pipe to epoll"),
  rw (h, register_process_fd) refl,
)

register_succeeds :
    (fd j : ℕ) (k : ProcessFdKind) (m : ProcessMonitor)
    → lookup fd m.tracked_fds ≡ none
    → register_process_fd fd j k none m ≡ (
      ok tt,
      record m { tracked_fds = insert fd (record { job_id = j; kind = k }) m.tracked_fds },
    )
unfolding register_process_fd
register_succeeds fd j k m h = rw (h, register_process_fd) refl

-- How the registration of a launched process ends.
pub data Registration (j : ℕ) (job : Job) (l : LaunchedProcess) (m : ProcessMonitor)
    : Result (Unit {0}) × ProcessMonitor → Type 0 where
  registered : {m' : ProcessMonitor} → IsStarted j job l m m' → Registration j job l m (ok tt, m')
  refused :
      {m' : ProcessMonitor} {e : Exception}
      → IsPartial j (with_pid l job) l m m'
      → Registration j job l m (raise e, m')

set_aside :
    (fd own : ℕ) (t : TrackedFd) (tracked : List (ℕ × TrackedFd))
    → (own == fd) ≡ false
    → lookup fd (insert own t tracked) ≡ lookup fd tracked
set_aside fd own t tracked h = rw (lookup-insert own fd t tracked, h) refl

untouched :
    (fd own : ℕ) (t : TrackedFd) (tracked : List (ℕ × TrackedFd))
    → (own == fd) ≡ false
    → lookup fd (erase own (insert own t tracked)) ≡ lookup fd tracked
untouched fd own t tracked h =
    rw (lookup-erase own fd (insert own t tracked), h) (set_aside fd own t tracked h)

new_process-agrees :
    (j : ℕ) (job : Job) (l : LaunchedProcess) (m : ProcessMonitor)
    → IsFresh m l
    → (job.id == j) ≡ true
    → job.state ≡ running
    → agree j (some job) (some (new_process l)) ≡ true
unfolding new_process
new_process-agrees j job l m f i h = ground (arith, f.leads, f.positive)

module _ (j : ℕ) (job : Job) (l : LaunchedProcess) (m : ProcessMonitor) where
  -- The monitor with the process and its pid, and some of its pipes.
  partly : List (ℕ × TrackedFd) → ProcessMonitor
  partly tracked = record m {
    jobs = insert j (with_pid l job) m.jobs;
    active_jobs = insert j (new_process l) m.active_jobs;
    pid_to_job = insert l.pid j m.pid_to_job;
    tracked_fds = tracked;
  }

  -- The monitor with the process alone.
  unfoldable pub launched : ProcessMonitor
  launched = record m {
    jobs = insert j (with_pid l job) m.jobs;
    active_jobs = insert j (new_process l) m.active_jobs;
  }

  -- Whatever pipes of its own are tracked, the process is partly registered.
  partly-IsPartial :
      (tracked : List (ℕ × TrackedFd))
      → ((fd : ℕ)
          → (l.stdout_fd == fd) ≡ false
          → (l.stderr_fd == fd) ≡ false
          → (l.startup_error_fd == fd) ≡ false
          → lookup fd tracked ≡ lookup fd m.tracked_fds)
      → IsPartial j (with_pid l job) l m (partly tracked)
  unfolding partly
  partly-IsPartial tracked t = record {
    jobs = refl;
    active_jobs = refl;
    effects = refl;
    pid_to_job = λ pid h. ground (arith, lookup-insert l.pid pid j m.pid_to_job);
    tracked_fds = t;
  }

  running-IsStarted :
      IsConsistent m
      → IsFresh m l
      → lookup j m.jobs ≡ some job
      → lookup j m.active_jobs ≡ none
      → IsStarted j job l m (record (partly (with_pipes j l m.tracked_fds)) {
        jobs =
            insert j
              (record job {
                pid = some l.pid;
                process_group_id = some l.process_group_id;
                state = running;
              })
              (insert j (with_pid l job) m.jobs);
      })
  unfolding partly
  running-IsStarted c f e idle =
      let with : Job = with_pid l job in
      let job' : Job = record with { state = running } in
      record {
        result = refl;
        consistent = record {
          agrees = λ i. ground (
            arith,
            lookup-insert j i job' (insert j with m.jobs),
            lookup-insert j i with m.jobs,
            lookup-insert j i (new_process l) m.active_jobs,
            new_process-agrees j job' l m f,
            c.agrees i,
            c.agrees j,
          );
          tracked = λ fd i k. launched_pipe m l j fd i k c f idle;
          registered = λ pid i. launched_pid m l j pid i c f idle;
        };
      }

  pub register_process-Registration :
      IsConsistent m
      → IsFresh m l
      → lookup j m.jobs ≡ some job
      → lookup j m.active_jobs ≡ none
      → job.state ≡ queued
      → (c : StartCalls) → Registration j job l m (register_process j l c launched)
  unfolding register_process update_job transition_job can_transition partly launched
  register_process-Registration k f e idle q c =
      let free = m.tracked_fds in
      let one = insert l.stdout_fd (record { job_id = j; kind = standard_output }) free in
      let two = insert l.stderr_fd (record { job_id = j; kind = standard_error }) one in
      let own_job : lookup j (insert j (with_pid l job) m.jobs) ≡ some (with_pid l job) =
        ground (arith, lookup-insert j j (with_pid l job) m.jobs) in
      let allowed : can_transition (with_pid l job).state running ≡ true = rw q refl in
      let runs : transition_job running (with_pid l job)
          ≡ (ok tt, record (with_pid l job) { state = running }) =
        rw (transition_job, allowed) refl in
      let second : lookup l.stderr_fd one ≡ none = ground (
        arith,
        lookup-insert l.stdout_fd l.stderr_fd (record { job_id = j; kind = standard_output }) free,
        f.stderr_fd,
        f.stderr_distinct,
      ) in
      let third : lookup l.startup_error_fd two ≡ none = ground (
        arith,
        lookup-insert l.stderr_fd l.startup_error_fd (record { job_id = j; kind = standard_error })
            one,
        lookup-insert l.stdout_fd l.startup_error_fd (record { job_id = j; kind = standard_output })
            free,
        f.startup_error_fd,
        f.startup_distinct,
      ) in
      elim (Option-cases c.add_stdout) [
        | inr (n, a) ↦
            let (x, h) = register_fails l.stdout_fd j standard_output n (partly free) f.stdout_fd in
            rw (register_process, f.pid, a, h)
              (refused (partly-IsPartial _ λ fd x y z. untouched fd _ _ free x))
        | inl a ↦
            let h = register_succeeds l.stdout_fd j standard_output (partly free) f.stdout_fd in
            elim (Option-cases c.add_stderr) [
              | inr (n, b) ↦
                  let (x, g) = register_fails l.stderr_fd j standard_error n (partly one) second in
                  rw (register_process, f.pid, a, h, b, g)
                    (refused (
                      partly-IsPartial _
                        λ fd x y z. untouched fd _ _ one y ∙ set_aside fd _ _ free x))
              | inl b ↦
                  let g = register_succeeds l.stderr_fd j standard_error (partly one) second in
                  elim (Option-cases c.add_startup_error) [
                    | inr (n, d) ↦
                        let (x, r) =
                          register_fails l.startup_error_fd j startup_error n (partly two) third in
                        rw (register_process, f.pid, a, h, b, g, d, r)
                          (refused (
                            partly-IsPartial _ λ fd x y z.
                              untouched fd _ _ two z
                              ∙ set_aside fd _ _ one y
                              ∙ set_aside fd _ _ free x))
                    | inl d ↦
                        let r =
                          register_succeeds l.startup_error_fd j startup_error (partly two) third in
                        rw (register_process, f.pid, a, h, b, g, d, r, update_job, own_job, runs)
                          (registered (running-IsStarted k f e idle))
                  ]
            ]
      ]
