-- ===== src/Monitor/Invariant/Starting.antt =====
-- startJob: what it leaves, by how far it comes.
use runnerd.Prelude.{
  ℕ, false, List, ◌++◌, none, some, Result, Exception, ok, raise, codes, ◌≡◌, ◌⊎◌, refl, arith, not,
  Option-cases, inl, inr,
}
use runnerd.Prelude.Assoc.{lookup, insert, lookup-insert}
use runnerd.Job.{Job, queued, failed, is}
use runnerd.Monitor.{ProcessMonitor}
use runnerd.Monitor.Start.{
  LaunchedProcess, StartCalls, update_job, set_pid, abandon_on_failure, fail_queued_job,
  start_launched, start_job, what,
}
use runnerd.Monitor.Invariant.{IsConsistent}
use runnerd.Monitor.Invariant.Launches.{IsFresh}
use runnerd.Monitor.Invariant.Undo.{
  IsFailed, IsFailed-IsConsistent, IsUndone, abandon_started_job-IsUndone, fail_with_queued,
}
use runnerd.Monitor.Invariant.Registration.{
  IsStarted, with_pid, Registration, registered, refused, launched, register_process-Registration,
}

-- How startJob ends for a job that is queued.
pub data Start (strerror : ℕ → List ℕ) (j : ℕ) (job : Job) (launch : Result LaunchedProcess)
    (m : ProcessMonitor) : Result (Unit {0}) × ProcessMonitor → Type 0 where
  started :
      {l : LaunchedProcess} {m' : ProcessMonitor}
      → launch ≡ ok l
      → IsStarted j job l m m'
      → Start strerror j job launch m (ok tt, m')
  undone :
      {l : LaunchedProcess} {m' : ProcessMonitor}
      → launch ≡ ok l
      → IsUndone j (with_pid l job) l m m'
      → IsConsistent m'
      → Start strerror j job launch m (ok tt, m')
  unlaunched :
      {e : Exception} {m' : ProcessMonitor}
      → launch ≡ raise e
      → IsFailed j job (codes "launchProcess failed: " ++ what strerror e) m m'
      → m'.effects ≡ m.effects
      → IsConsistent m'
      → Start strerror j job launch m (ok tt, m')

Result-cases {ℓ} :
    {A : Type ℓ} (r : Result A) → ((a : A) × (r ≡ ok a)) ⊎ ((e : Exception) × (r ≡ raise e))
Result-cases (ok a) = inl (a, refl)
Result-cases (raise e) = inr (e, refl)

queued_idle :
    (j : ℕ) (job : Job) (m : ProcessMonitor)
    → IsConsistent m
    → lookup j m.jobs ≡ some job
    → job.state ≡ queued
    → lookup j m.active_jobs ≡ none
queued_idle j job m c found q = elim (Option-cases (lookup j m.active_jobs)) [
  | inl idle ↦ idle
  | inr (p, busy) ↦ absurd (ground (arith, c.agrees j))
]

module _ (strerror : ℕ → List ℕ) (j : ℕ) (job : Job) (m : ProcessMonitor) where
  fail_queued_job-IsFailed :
      (e : Exception)
      → lookup j m.jobs ≡ some job
      → job.state ≡ queued
      → (m' : ProcessMonitor) × (fail_queued_job strerror j e m ≡ (ok tt, m'))
        × IsFailed j job (codes "launchProcess failed: " ++ what strerror e) m m'
        × (m'.effects ≡ m.effects)
  unfolding fail_queued_job update_job
  fail_queued_job-IsFailed e found q =
      let text = codes "launchProcess failed: " ++ what strerror e in
      let job' : Job = record job { state = failed; failure_message = text } in
      (
        record m { jobs = insert j job' m.jobs },
        rw (fail_queued_job, update_job, found, fail_with_queued text job q) refl,
        record {
          failure = job';
          jobs = λ i. lookup-insert j i job' m.jobs;
          named = refl;
          state = refl;
          text = refl;
          active_jobs = λ i. refl;
          tracked_fds = λ fd. refl;
          pid_to_job = λ pid. refl;
        },
        refl,
      )

  without_pid :
      (l : LaunchedProcess) (before after : ProcessMonitor) (message : List ℕ)
      → IsFailed j (with_pid l job) message before after
      → IsFailed j job message before after
  without_pid l before after message f = record {
    failure = f.failure;
    jobs = f.jobs;
    named = f.named;
    state = f.state;
    text = f.text;
    active_jobs = f.active_jobs;
    tracked_fds = f.tracked_fds;
    pid_to_job = f.pid_to_job;
  }

  after_registration :
      (launch : Result LaunchedProcess) (l : LaunchedProcess)
      (r : Result (Unit {0}) × ProcessMonitor)
      → launch ≡ ok l
      → IsConsistent m
      → IsFresh m l
      → lookup j m.jobs ≡ some job
      → lookup j m.active_jobs ≡ none
      → job.state ≡ queued
      → Registration j job l m r
      → Start strerror j job launch m (abandon_on_failure strerror j r)
  unfolding abandon_on_failure
  after_registration launch l _ is_ok c f found idle q (registered s) = started is_ok s
  after_registration launch l _ is_ok c f found idle q (refused {m'} {e} p) =
      let message = codes "failed to monitor child process: " ++ what strerror e in
      let (after, same, u) =
        abandon_started_job-IsUndone j (with_pid l job) l message m m' p f q idle in
      rw same (
        undone is_ok u (
          IsFailed-IsConsistent j job u.message m after found q
            (without_pid l m after u.message u.fails) c))

  start_launched-Start :
      (calls : StartCalls) (l : LaunchedProcess)
      → IsConsistent m
      → IsFresh m l
      → lookup j m.jobs ≡ some job
      → lookup j m.active_jobs ≡ none
      → job.state ≡ queued
      → Start strerror j job (ok l) m (start_launched strerror j l calls m)
  unfolding start_launched update_job set_pid launched
  start_launched-Start calls l c f found idle q =
      rw (start_launched, idle, update_job, found)
        (after_registration (ok l) l _ refl c f found idle q
          (register_process-Registration j job l m c f found idle q calls))

  -- From a consistent monitor, startJob of a queued job, if launchProcess returns what is fresh, ends
  -- without an exception in one of three ways: the job runs with its process; or its process could
  -- not be registered, the job has failed, the three pipes are closed, the process is killed and
  -- awaited, and nothing of it stays known; or launchProcess has thrown, and the job has failed.
  -- The monitor stays consistent.
  pub start_job-Start :
      (calls : StartCalls)
      → IsConsistent m
      → lookup j m.jobs ≡ some job
      → job.state ≡ queued
      → ((l : LaunchedProcess) → calls.launch ≡ ok l → IsFresh m l)
      → Start strerror j job calls.launch m (start_job strerror j calls m)
  unfolding start_job
  start_job-Start calls c found q fresh =
      let state : not (is job.state queued) ≡ false = rw q refl in
      let idle : lookup j m.active_jobs ≡ none = queued_idle j job m c found q in
      elim (Result-cases calls.launch) [
        | inl (l, e) ↦
            rw (start_job, found, state, e)
              (start_launched-Start calls l c (fresh l e) found idle q)
        | inr (x, e) ↦
            let (m', same, f, effects) = fail_queued_job-IsFailed x found q in
            rw (start_job, found, state, e, same)
              (unlaunched refl f effects (IsFailed-IsConsistent j job _ m m' found q f c))
      ]
