-- ===== src/Monitor/Start/Notifications.antt =====
-- startJob gives nothing to the callback.
use runnerd.Prelude.{
  ℕ, List, Option, none, some, Result, Act, ok, raise, continue, ◌≡◌, refl, ◌∙◌, arith,
  Option-cases, Bool-cases, inl, inr, not, false,
}
use runnerd.Prelude.Assoc.{lookup}
use runnerd.Job.{Job, queued, running, is, transition_job}
use runnerd.Monitor.{
  ProcessFdKind, standard_output, standard_error, startup_error, ProcessMonitor, has_value,
}
use runnerd.Monitor.Start.{
  LaunchedProcess, StartCalls, update_job, register_process_fd, abandon_fd, abandon_started_job,
  register_process, set_pid, abandon_on_failure, fail_queued_job, start_launched, start_job,
}

-- The list of the notifications is still `n`.
record Quiet (n : List ℕ) (r : Result (Unit {0}) × ProcessMonitor) : Type 0 where
  kept : r.1.notifications ≡ n

after :
    {n other : List ℕ} (r : Result (Unit {0}) × ProcessMonitor)
    → other ≡ n
    → Quiet other r
    → Quiet n r
after r h q = record { kept = q.kept ∙ h }

update_job-Quiet :
    (j : ℕ) (f : Act Job (Unit {0})) (m : ProcessMonitor) → Quiet m.notifications (update_job j f m)
unfolding update_job
update_job-Quiet j f m = elim (Option-cases (lookup j m.jobs)) [
  | inl e ↦ rw (update_job, e) (record { kept = refl })
  | inr (job, e) ↦ rw (update_job, e) (record { kept = refl })
]

register_process_fd-Quiet :
    (fd j : ℕ) (k : ProcessFdKind) (add : Option ℕ) (m : ProcessMonitor)
    → Quiet m.notifications (register_process_fd fd j k add m)
unfolding register_process_fd
register_process_fd-Quiet fd j k add m = record { kept = ground arith }

abandon_fd_notifications :
    (fd : Option ℕ) (m : ProcessMonitor) → (abandon_fd fd m).notifications ≡ m.notifications
unfolding abandon_fd
abandon_fd_notifications none m = refl
abandon_fd_notifications (some fd) m = refl

abandon_started_job-Quiet :
    (j : ℕ) (message : List ℕ) (m : ProcessMonitor)
    → Quiet m.notifications (abandon_started_job j message m)
unfolding abandon_started_job
abandon_started_job-Quiet j message m = elim (Option-cases (lookup j m.active_jobs)) [
  | inl e ↦ rw (abandon_started_job, e) (record { kept = refl })
  | inr (p, e) ↦
      rw (abandon_started_job, e)
        (after _
          (abandon_fd_notifications p.startup_error_fd _
            ∙ abandon_fd_notifications p.stderr_fd _
            ∙ abandon_fd_notifications p.stdout_fd m)
          (update_job-Quiet j _ _))
]

-- What is quiet first and then is quiet as a whole.
quiet_then :
    (n : List ℕ) (first : Result (Unit {0}) × ProcessMonitor)
    (next : Unit {0} → Act ProcessMonitor (Unit {0}))
    → Quiet n first
    → ((m : ProcessMonitor) → m.notifications ≡ n → Quiet n (next tt m))
    → Quiet n (continue first next)
quiet_then n (raise e, m) next q rest = record { kept = q.kept }
quiet_then n (ok _, m) next q rest = rest m q.kept

register_process-Quiet :
    (j : ℕ) (l : LaunchedProcess) (c : StartCalls) (m : ProcessMonitor)
    → Quiet m.notifications (register_process j l c m)
unfolding register_process
register_process-Quiet j l c m = elim (Bool-cases (has_value (lookup l.pid m.pid_to_job))) [
  | inl e ↦ rw (register_process, e) (record { kept = refl })
  | inr e ↦
      rw (register_process, e)
        (quiet_then m.notifications _ _
          (register_process_fd-Quiet l.stdout_fd j standard_output c.add_stdout _)
          λ m1 h1.
            quiet_then m.notifications _ _
              (after _ h1 (register_process_fd-Quiet l.stderr_fd j standard_error c.add_stderr m1))
              λ m2 h2.
                quiet_then m.notifications _ _
                  (after _ h2 (
                    register_process_fd-Quiet l.startup_error_fd j startup_error c.add_startup_error
                      m2))
                  λ m3 h3. after _ h3 (update_job-Quiet j (transition_job running) m3))
]

module _ (strerror : ℕ → List ℕ) where
  abandon_on_failure-Quiet :
      (n : List ℕ) (j : ℕ) (r : Result (Unit {0}) × ProcessMonitor)
      → Quiet n r
      → Quiet n (abandon_on_failure strerror j r)
  unfolding abandon_on_failure
  abandon_on_failure-Quiet n j (ok _, m) q = record { kept = q.kept }
  abandon_on_failure-Quiet n j (raise e, m) q = after _ q.kept (abandon_started_job-Quiet j _ m)

  start_launched-Quiet :
      (j : ℕ) (l : LaunchedProcess) (c : StartCalls) (m : ProcessMonitor)
      → Quiet m.notifications (start_launched strerror j l c m)
  unfolding start_launched fail_queued_job
  start_launched-Quiet j l c m = elim (Bool-cases (has_value (lookup j m.active_jobs))) [
    | inl e ↦ rw (start_launched, e, fail_queued_job) (update_job-Quiet j _ _)
    | inr e ↦
        rw (start_launched, e)
          (quiet_then m.notifications _ _ (update_job-Quiet j (set_pid l) _) λ m1 h1.
            abandon_on_failure-Quiet m.notifications j (register_process j l c m1)
              (after _ h1 (register_process-Quiet j l c m1)))
  ]

  queued-Quiet :
      (j : ℕ) (c : StartCalls) (m : ProcessMonitor) (job : Job) (launch : Result LaunchedProcess)
      → c.launch ≡ launch
      → lookup j m.jobs ≡ some job
      → (not (is job.state queued)) ≡ false
      → Quiet m.notifications (start_job strerror j c m)
  unfolding start_job fail_queued_job
  queued-Quiet j c m job (ok l) h e q = rw (start_job, e, q, h) (start_launched-Quiet j l c m)
  queued-Quiet j c m job (raise x) h e q =
      rw (start_job, e, q, h, fail_queued_job) (update_job-Quiet j _ m)

  pub start_job-notifications :
      (j : ℕ) (c : StartCalls) (m : ProcessMonitor)
      → (start_job strerror j c m).1.notifications ≡ m.notifications
  unfolding start_job
  start_job-notifications j c m = elim (Option-cases (lookup j m.jobs)) [
    | inl e ↦ rw (start_job, e) refl
    | inr (job, e) ↦ elim (Bool-cases (not (is job.state queued))) [
      | inl q ↦ rw (start_job, e, q) refl
      | inr q ↦ (queued-Quiet j c m job c.launch refl e q).kept
    ]
  ]
