-- ===== src/Monitor/Runs.antt =====
-- What happens to the process monitor, one call after the other.
use runnerd.Prelude.{
  ℕ, Bool, true, not, List, ◌∷◌, none, some, Result, ok, ◌≡◌, refl, arith, Option-cases, Bool-cases,
  inl, inr,
}
use runnerd.Prelude.Assoc.{lookup, insert, lookup-insert}
use runnerd.Job.{queued, cancelled, TerminationCause, Job, is, transition_job, can_transition}
use runnerd.Monitor.{ProcessMonitor}
use runnerd.Monitor.Signals.{SignalCalls, request_terminate, force_kill}
use runnerd.Monitor.Start.{LaunchedProcess, StartCalls, update_job, start_job}
use runnerd.Monitor.Events.{EventCalls, handle_file_descriptor_event}
use runnerd.Monitor.Invariant.{IsConsistent}
use runnerd.Monitor.Invariant.Events.{handle_file_descriptor_event-Progress}
use runnerd.Monitor.Invariant.Requests.{Outcome, signalled, finished, thrown}
use runnerd.Monitor.Invariant.Kill.{Killed, force_kill-Outcome}
use runnerd.Monitor.Invariant.Terminate.{Asked, request_terminate-Outcome}
use runnerd.Monitor.Invariant.Launches.{IsFresh}
use runnerd.Monitor.Invariant.Starting.{Start, started, undone, unlaunched, start_job-Start}

module _ (strerror : ℕ → List ℕ) where
  -- The calls of the monitor, and what the daemon does to the job table and the notifications: it
  -- adds a job that is queued, cancels one, and takes a notification.
  pub data Step (m : ProcessMonitor) : ProcessMonitor → Type 0 where
    submits :
        (job : Job)
        → lookup job.id m.jobs ≡ none
        → job.state ≡ queued
        → Step m (record m { jobs = insert job.id job m.jobs })
    cancels :
        (j : ℕ) (job : Job)
        → lookup j m.jobs ≡ some job
        → job.state ≡ queued
        → Step m (update_job j (transition_job cancelled) m).1
    starts :
        (j : ℕ) (calls : StartCalls)
        → ((l : LaunchedProcess) → calls.launch ≡ ok l → IsFresh m l)
        → Step m (start_job strerror j calls m).1
    asks :
        (j : ℕ) (cause : TerminationCause) (calls : SignalCalls)
        → Step m (request_terminate strerror j cause calls m).1
    kills : (j : ℕ) (calls : SignalCalls) → Step m (force_kill strerror j calls m).1
    handles :
        (fd : ℕ) (readable : Bool) (calls : EventCalls)
        → Step m (handle_file_descriptor_event strerror fd readable calls m).1
    takes :
        (job_id : ℕ) (rest : List ℕ)
        → m.notifications ≡ job_id ∷ rest
        → Step m (record m { notifications = rest })

  pub data Run : ProcessMonitor → ProcessMonitor → Type 0 where
    stay : {m : ProcessMonitor} → Run m m
    then : {m m' m'' : ProcessMonitor} → Step m m' → Run m' m'' → Run m m''

  submitted-IsConsistent :
      (m : ProcessMonitor) (job : Job)
      → lookup job.id m.jobs ≡ none
      → job.state ≡ queued
      → IsConsistent m
      → IsConsistent (record m { jobs = insert job.id job m.jobs })
  submitted-IsConsistent m job new q c = record {
    agrees = λ i. ground (arith, lookup-insert job.id i job m.jobs, c.agrees i);
    tracked = c.tracked;
    registered = c.registered;
  }

  cancelled-IsConsistent :
      (m : ProcessMonitor) (j : ℕ) (job : Job)
      → lookup j m.jobs ≡ some job
      → job.state ≡ queued
      → IsConsistent m
      → IsConsistent (update_job j (transition_job cancelled) m).1
  unfolding update_job transition_job can_transition
  cancelled-IsConsistent m j job e q c =
      let job' : Job = record job { state = cancelled } in
      let allowed : can_transition job.state cancelled ≡ true = rw q refl in
      let done : transition_job cancelled job ≡ (ok tt, job') = rw (transition_job, allowed) refl in
      rw (update_job, e, done)
        (record {
          agrees = λ i. ground (arith, lookup-insert j i job' m.jobs, c.agrees i);
          tracked = c.tracked;
          registered = c.registered;
        })

  Start-IsConsistent :
      (j : ℕ) (job : Job) (launch : Result LaunchedProcess) (m : ProcessMonitor)
      (r : Result (Unit {0}) × ProcessMonitor)
      → Start strerror j job launch m r
      → IsConsistent r.1
  Start-IsConsistent j job launch m _ (started e s) = s.consistent
  Start-IsConsistent j job launch m _ (undone e u c) = c
  Start-IsConsistent j job launch m _ (unlaunched e f x c) = c

  start_job-IsConsistent :
      (j : ℕ) (calls : StartCalls) (m : ProcessMonitor)
      → ((l : LaunchedProcess) → calls.launch ≡ ok l → IsFresh m l)
      → IsConsistent m
      → IsConsistent (start_job strerror j calls m).1
  unfolding start_job
  start_job-IsConsistent j calls m fresh c = elim (Option-cases (lookup j m.jobs)) [
    | inl e ↦ rw (start_job, e) c
    | inr (job, e) ↦ elim (Bool-cases (not (is job.state queued))) [
      | inl q ↦ rw (start_job, e, q) c
      | inr q ↦
          Start-IsConsistent j job calls.launch m (start_job strerror j calls m)
            (start_job-Start strerror j job m calls c e (ground arith) fresh)
    ]
  ]

  Asked-IsConsistent :
      (j : ℕ) (cause : TerminationCause) (m : ProcessMonitor) (r : Result Bool × ProcessMonitor)
      → Outcome m (Asked j cause m) r
      → IsConsistent r.1
  Asked-IsConsistent j cause m _ (signalled s) = s.consistent
  Asked-IsConsistent j cause m _ (finished p) = p.consistent
  Asked-IsConsistent j cause m _ (thrown p) = p.consistent

  Killed-IsConsistent :
      (j : ℕ) (m : ProcessMonitor) (r : Result Bool × ProcessMonitor)
      → Outcome m (Killed j m) r
      → IsConsistent r.1
  Killed-IsConsistent j m _ (signalled k) =
      let c = k.progress.consistent in
      rw k.result (record { agrees = c.agrees; tracked = c.tracked; registered = c.registered })
  Killed-IsConsistent j m _ (finished p) = p.consistent
  Killed-IsConsistent j m _ (thrown p) = p.consistent

  Step-IsConsistent : {m m' : ProcessMonitor} → Step m m' → IsConsistent m → IsConsistent m'
  Step-IsConsistent {m} (submits job new q) c = submitted-IsConsistent m job new q c
  Step-IsConsistent {m} (cancels j job e q) c = cancelled-IsConsistent m j job e q c
  Step-IsConsistent {m} (starts j calls fresh) c = start_job-IsConsistent j calls m fresh c
  Step-IsConsistent {m} (asks j cause calls) c =
      Asked-IsConsistent j cause m _ (request_terminate-Outcome strerror j cause calls m c)
  Step-IsConsistent {m} (kills j calls) c =
      Killed-IsConsistent j m _ (force_kill-Outcome strerror j calls m c)
  Step-IsConsistent {m} (handles fd readable calls) c =
      (handle_file_descriptor_event-Progress strerror fd readable calls m c).consistent
  Step-IsConsistent (takes job_id rest e) c = record {
    agrees = c.agrees;
    tracked = c.tracked;
    registered = c.registered;
  }

  -- Whatever calls are made of the monitor and whatever the system calls in them return, if what
  -- launchProcess returns is fresh, a consistent monitor stays consistent.
  pub Run-IsConsistent : {m m' : ProcessMonitor} → Run m m' → IsConsistent m → IsConsistent m'
  Run-IsConsistent stay c = c
  Run-IsConsistent (then s r) c = Run-IsConsistent r (Step-IsConsistent s c)
