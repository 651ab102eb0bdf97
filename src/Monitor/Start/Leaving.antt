-- ===== src/Monitor/Start/Leaving.antt =====
-- startJob writes to its own job alone, and that job is not QUEUED after it.
use runnerd.Prelude.{
  ℕ, false, not, List, Option, none, some, Result, Act, Exception, ok, raise, continue, logic_error,
  codes, ◌==◌, ◌≡◌, refl, ap, ◌∙◌, arith, Option-cases, Bool-cases, inl, inr,
}
use runnerd.Prelude.Assoc.{lookup, lookup-insert}
use runnerd.Job.{Job, queued, running, is, transition_job}
use runnerd.Monitor.{
  ProcessFdKind, standard_output, standard_error, startup_error, ActiveProcess, ProcessMonitor,
  has_value,
}
use runnerd.Monitor.Settle.{fail_with}
use runnerd.Monitor.Start.{
  LaunchedProcess, StartCalls, new_process, update_job, register_process_fd, abandon_fd,
  abandon_started_job, register_process, set_pid, abandon_on_failure, fail_queued_job,
  start_launched, start_job,
}
use runnerd.Monitor.Start.Table.{
  Past, gone, past, Touches, untouched, Touches-then, update_job-Touches, update_job-Past,
  transition_job-leaves, fail_with-leaves, may_run,
}

-- A call of the registration: it keeps the processes.
record Registers (j : ℕ) (m : ProcessMonitor) (r : Result (Unit {0}) × ProcessMonitor)
    : Type 0 where
  table : Touches j m r.1
  active : r.1.active_jobs ≡ m.active_jobs

register_process_fd-Registers :
    (fd j : ℕ) (k : ProcessFdKind) (add : Option ℕ) (m m' : ProcessMonitor)
    → m'.jobs ≡ m.jobs
    → m'.active_jobs ≡ m.active_jobs
    → Registers j m (register_process_fd fd j k add m')
unfolding register_process_fd
register_process_fd-Registers fd j k add m m' same_jobs same_active = record {
  table = untouched j m _ (ground (arith, same_jobs));
  active = ground (arith, same_active);
}

-- The registration from some call on: if it returns normally, the job has left QUEUED.
record Completes (j : ℕ) (m : ProcessMonitor) (r : Result (Unit {0}) × ProcessMonitor)
    : Type 0 where
  table : Touches j m r.1
  active : r.1.active_jobs ≡ m.active_jobs
  left : r.0 ≡ ok tt → Past j r.1.jobs

Completes-then :
    {j : ℕ} {m : ProcessMonitor} (first : Result (Unit {0}) × ProcessMonitor)
    (next : Unit {0} → Act ProcessMonitor (Unit {0}))
    → Registers j m first
    → ((m' : ProcessMonitor) → Completes j m' (next tt m'))
    → Completes j m (continue first next)
Completes-then (raise e, m') next q rest = record {
  table = q.table;
  active = q.active;
  left = λ h. absurd cc;
}
Completes-then (ok _, m') next q rest = record {
  table = Touches-then q.table (rest m').table;
  active = (rest m').active ∙ q.active;
  left = (rest m').left;
}

update_job-active :
    (j : ℕ) (f : Act Job (Unit {0})) (m : ProcessMonitor)
    → (update_job j f m).1.active_jobs ≡ m.active_jobs
unfolding update_job
update_job-active j f m = elim (Option-cases (lookup j m.jobs)) [
  | inl e ↦ rw (update_job, e) refl
  | inr (job, e) ↦ rw (update_job, e) refl
]

register_process-Completes :
    (j : ℕ) (l : LaunchedProcess) (c : StartCalls) (m : ProcessMonitor)
    → Completes j m (register_process j l c m)
unfolding register_process
register_process-Completes j l c m = elim (Bool-cases (has_value (lookup l.pid m.pid_to_job))) [
  | inl e ↦
      rw (register_process, e)
        (record { table = untouched j m m refl; active = refl; left = λ h. absurd cc })
  | inr e ↦
      rw (register_process, e)
        (Completes-then _ _
          (register_process_fd-Registers l.stdout_fd j standard_output c.add_stdout m _ refl refl)
          λ m1.
            Completes-then _ _
              (register_process_fd-Registers l.stderr_fd j standard_error c.add_stderr m1 m1 refl
                refl)
              λ m2.
                Completes-then _ _
                  (register_process_fd-Registers l.startup_error_fd j startup_error
                    c.add_startup_error m2 m2 refl refl)
                  λ m3. record {
                    table = update_job-Touches j (transition_job running) m3;
                    active = update_job-active j (transition_job running) m3;
                    left = λ h.
                        update_job-Past j (transition_job running) m3
                          λ job. transition_job-leaves running job refl may_run;
                  })
]

abandon_fd-jobs : (fd : Option ℕ) (m : ProcessMonitor) → (abandon_fd fd m).jobs ≡ m.jobs
unfolding abandon_fd
abandon_fd-jobs none m = refl
abandon_fd-jobs (some fd) m = refl

abandoned_jobs :
    (a b c : Option ℕ) (m : ProcessMonitor)
    → (abandon_fd a (abandon_fd b (abandon_fd c m))).jobs ≡ m.jobs
abandoned_jobs a b c m = abandon_fd-jobs a _ ∙ abandon_fd-jobs b _ ∙ abandon_fd-jobs c m

abandon_started_job-Touches :
    (j : ℕ) (message : List ℕ) (m : ProcessMonitor)
    → Touches j m (abandon_started_job j message m).1
unfolding abandon_started_job
abandon_started_job-Touches j message m = elim (Option-cases (lookup j m.active_jobs)) [
  | inl e ↦ rw (abandon_started_job, e) (untouched j m m refl)
  | inr (p, e) ↦
      rw (abandon_started_job, e)
        (Touches-then
          (untouched j m _ (abandoned_jobs p.startup_error_fd p.stderr_fd p.stdout_fd m))
          (update_job-Touches j (fail_with message) _))
]

abandon_started_job-Past :
    (j : ℕ) (message : List ℕ) (m : ProcessMonitor) (p : ActiveProcess)
    → lookup j m.active_jobs ≡ some p
    → Past j (abandon_started_job j message m).1.jobs
unfolding abandon_started_job
abandon_started_job-Past j message m p e =
    rw (abandon_started_job, e) (update_job-Past j (fail_with message) _ (fail_with-leaves message))

module _ (strerror : ℕ → List ℕ) (j : ℕ) where
  abandon_on_failure-Touches :
      (m : ProcessMonitor) (r : Result (Unit {0}) × ProcessMonitor)
      → Touches j m r.1
      → Touches j m (abandon_on_failure strerror j r).1
  unfolding abandon_on_failure
  abandon_on_failure-Touches m (ok _, m') t = t
  abandon_on_failure-Touches m (raise e, m') t = Touches-then t (abandon_started_job-Touches j _ m')

  abandon_on_failure-Past :
      (p : ActiveProcess) (r : Result (Unit {0}) × ProcessMonitor)
      → lookup j r.1.active_jobs ≡ some p
      → (r.0 ≡ ok tt → Past j r.1.jobs)
      → Past j (abandon_on_failure strerror j r).1.jobs
  unfolding abandon_on_failure
  abandon_on_failure-Past p (ok _, m') known done = done refl
  abandon_on_failure-Past p (raise e, m') known done = abandon_started_job-Past j _ m' p known

  fail_queued_job-Touches :
      (e : Exception) (m : ProcessMonitor) → Touches j m (fail_queued_job strerror j e m).1
  unfolding fail_queued_job
  fail_queued_job-Touches e m = update_job-Touches j _ m

  fail_queued_job-Past :
      (e : Exception) (m : ProcessMonitor) → Past j (fail_queued_job strerror j e m).1.jobs
  unfolding fail_queued_job
  fail_queued_job-Past e m = update_job-Past j _ m (fail_with-leaves _)

  -- What start_launched comes to after set_pid; the job has an active process.
  record Launches (m : ProcessMonitor) (r : Result (Unit {0}) × ProcessMonitor) : Type 0 where
    table : Touches j m r.1
    left : Past j r.1.jobs

  launched_job :
      (l : LaunchedProcess) (c : StartCalls) (m m' : ProcessMonitor) (p : ActiveProcess)
      → Touches j m m'
      → lookup j m'.active_jobs ≡ some p
      → Launches m (abandon_on_failure strerror j (register_process j l c m'))
  launched_job l c m m' p t known =
      let done = register_process-Completes j l c m' in
      record {
        table = abandon_on_failure-Touches m _ (Touches-then t done.table);
        left = abandon_on_failure-Past p _ (ap (lookup j) done.active ∙ known) done.left;
      }

  abbrev taken : Exception
  taken = logic_error (codes "job already has an active process")

  -- The job is in the table, so that set_pid goes through.
  start_launched-Launches :
      (l : LaunchedProcess) (c : StartCalls) (m : ProcessMonitor) (job : Job)
      → lookup j m.jobs ≡ some job
      → Launches m (start_launched strerror j l c m)
  unfolding start_launched update_job set_pid
  start_launched-Launches l c m job found = elim (Bool-cases (has_value (lookup j m.active_jobs))) [
    | inl e ↦
        rw (start_launched, e)
          (record {
            table = Touches-then (untouched j m _ refl) (fail_queued_job-Touches taken _);
            left = fail_queued_job-Past taken _;
          })
    | inr e ↦
        rw (start_launched, e, update_job, found)
          (launched_job l c m _ (new_process l)
            (record { others = λ i d. ground (arith, lookup-insert j i (set_pid l job).1 m.jobs) })
            (ground (arith, lookup-insert j j (new_process l) m.active_jobs)))
  ]

  queued-Launches :
      (c : StartCalls) (m : ProcessMonitor) (job : Job) (launch : Result LaunchedProcess)
      → c.launch ≡ launch
      → lookup j m.jobs ≡ some job
      → (not (is job.state queued)) ≡ false
      → Launches m (start_job strerror j c m)
  unfolding start_job
  queued-Launches c m job (ok l) h e q =
      rw (start_job, e, q, h) (start_launched-Launches l c m job e)
  queued-Launches c m job (raise x) h e q =
      rw (start_job, e, q, h)
        (record { table = fail_queued_job-Touches x m; left = fail_queued_job-Past x m })

  start_job-Launches : (c : StartCalls) (m : ProcessMonitor) → Launches m (start_job strerror j c m)
  unfolding start_job
  start_job-Launches c m = elim (Option-cases (lookup j m.jobs)) [
    | inl e ↦ rw (start_job, e) (record { table = untouched j m m refl; left = gone e })
    | inr (job, e) ↦ elim (Bool-cases (not (is job.state queued))) [
      | inl q ↦
          rw (start_job, e, q)
            (record { table = untouched j m m refl; left = past e (ground (arith, q)) })
      | inr q ↦ queued-Launches c m job c.launch refl e q
    ]
  ]

  -- Whatever the system calls return, startJob changes no other job of the table.
  pub start_job-others :
      (c : StartCalls) (m : ProcessMonitor) (i : ℕ)
      → (j == i) ≡ false
      → lookup i (start_job strerror j c m).1.jobs ≡ lookup i m.jobs
  start_job-others c m = (start_job-Launches c m).table.others

  -- Whatever the system calls return, and also if startJob throws, its job is not QUEUED after it.
  pub start_job-Past :
      (c : StartCalls) (m : ProcessMonitor) → Past j (start_job strerror j c m).1.jobs
  start_job-Past c m = (start_job-Launches c m).left
