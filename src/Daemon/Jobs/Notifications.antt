-- ===== src/Daemon/Jobs/Notifications.antt =====
-- processTerminalJobNotifications takes every notification, and starts what it can.
use runnerd.Prelude.{
  ℕ, zero, suc, ◌≤◌, ◌≢◌, List, [], ◌∷◌, ◌++◌, Exception, Option, none, some, Result, ok, raise,
  Act, continue, continue-cases, length, ◌≡◌, refl, sym, ap, ◌∙◌, ◌⊎◌, arith, Option-cases,
  Bool-cases, inl, inr,
}
use runnerd.Prelude.Assoc.{lookup}
use runnerd.Job.{is_terminal}
use runnerd.Scheduler.{take_next_job_to_start, on_job_reached_terminal_state}
use runnerd.Timeouts.{Calls}
use runnerd.Monitor.Start.{start_job}
use runnerd.Monitor.Start.Notifications.{start_job-notifications}
use runnerd.Daemon.Jobs.{
  Daemon, System, on_monitor, on_scheduler, on_timeouts, drop_deadline, schedule_execution,
  account_started, pump_round, pump_next, pump_loop, pump_scheduler, process_notification,
  pop_notification, next_notification, notification_loop, process_terminal_job_notifications,
}
use runnerd.Daemon.Jobs.Rounds.{Saturated}
use runnerd.Daemon.Jobs.Pumping.{pump_scheduler-Pumped}

account_started-notifications :
    (job_id : ℕ) (c : Calls) (d : Daemon)
    → (account_started job_id c d).1.monitor.notifications ≡ d.monitor.notifications
unfolding account_started on_scheduler schedule_execution on_timeouts
account_started-notifications job_id c d = ground arith

-- What follows a step that keeps the notifications, and keeps them too, keeps them as a whole.
keeps_then {ℓ κ} :
    {A : Type ℓ} {B : Type κ} (d : Daemon) (first : Result A × Daemon) (next : A → Act Daemon B)
    → first.1.monitor.notifications ≡ d.monitor.notifications
    → ((a : A) (d' : Daemon) → (next a d').1.monitor.notifications ≡ d'.monitor.notifications)
    → (continue first next).1.monitor.notifications ≡ d.monitor.notifications
keeps_then d (ok a, d') next h rest = rest a d' ∙ h
keeps_then d (raise e, d') next h rest = h

empty_list : (pending : List ℕ) → length pending ≤ 0 → pending ≡ []
empty_list [] h = refl
empty_list (x ∷ rest) h = absurd (omega arith)

fewer_left :
    {all left : List ℕ} {fuel : ℕ} (job_id : ℕ) (rest : List ℕ)
    → all ≡ job_id ∷ rest
    → left ≡ rest
    → length all ≤ suc fuel
    → length left ≤ fuel
fewer_left job_id rest e l h = omega (arith, ap length e, ap length l)

module _ (strerror : ℕ → List ℕ) (s : System) where
  pump_round-notifications :
      (job_id : ℕ) (d : Daemon)
      → (pump_round strerror s job_id d).1.monitor.notifications ≡ d.monitor.notifications
  unfolding pump_round on_monitor
  pump_round-notifications job_id d =
      keeps_then d (on_monitor (start_job strerror job_id (s.start job_id)) d)
        (λ _ d'. account_started job_id (s.execution job_id) d')
        (start_job-notifications strerror job_id (s.start job_id) d.monitor)
        λ _ d'. account_started-notifications job_id (s.execution job_id) d'

  pump_next-notifications :
      (rounds : Act Daemon (Unit {0})) (next : Option ℕ) (d : Daemon)
      → ((d' : Daemon) → (rounds d').1.monitor.notifications ≡ d'.monitor.notifications)
      → (pump_next strerror s rounds next d).1.monitor.notifications ≡ d.monitor.notifications
  unfolding pump_next
  pump_next-notifications rounds none d h = refl
  pump_next-notifications rounds (some job_id) d h =
      keeps_then d (pump_round strerror s job_id d) (λ _ d'. rounds d')
        (pump_round-notifications job_id d) λ _ d'. h d'

  pump_loop-notifications :
      (fuel : ℕ) (d : Daemon)
      → (pump_loop strerror s fuel d).1.monitor.notifications ≡ d.monitor.notifications
  unfolding pump_loop on_scheduler
  pump_loop-notifications zero d = refl
  pump_loop-notifications (suc fuel) d =
      keeps_then d (on_scheduler take_next_job_to_start d)
        (pump_next strerror s (pump_loop strerror s fuel)) refl
        λ next d'.
          pump_next-notifications (pump_loop strerror s fuel) next d' (pump_loop-notifications fuel)

  process_notification-notifications :
      (job_id : ℕ) (d : Daemon)
      → (process_notification strerror s job_id d).1.monitor.notifications ≡ d.monitor.notifications
  unfolding process_notification on_scheduler drop_deadline pump_scheduler
  process_notification-notifications job_id d = elim (Option-cases (lookup job_id d.monitor.jobs)) [
    | inl e ↦ rw (process_notification, e) refl
    | inr (job, e) ↦ elim (Bool-cases (is_terminal job.state)) [
      | inr t ↦ rw (process_notification, e, t) refl
      | inl t ↦
          rw (process_notification, e, t)
            (keeps_then d
              (on_scheduler (on_job_reached_terminal_state job_id) (drop_deadline job_id d))
              (λ _ d'. pump_scheduler strerror s d') refl
              λ _ d'. pump_loop-notifications (suc (length d'.scheduler.waiting_jobs)) d')
    ]
  ]

  -- After a normal return the queue is empty or all slots are taken.
  Saturates : Result (Unit {0}) × Daemon → Type 0
  Saturates r = r.0 ≡ ok tt → Saturated r.1.scheduler

  process_notification-Saturates :
      (job_id : ℕ) (d : Daemon) → Saturates (process_notification strerror s job_id d)
  unfolding process_notification Saturates
  process_notification-Saturates job_id d = elim (Option-cases (lookup job_id d.monitor.jobs)) [
    | inl e ↦ rw (process_notification, e) (λ done. absurd cc)
    | inr (job, e) ↦ elim (Bool-cases (is_terminal job.state)) [
      | inr t ↦ rw (process_notification, e, t) (λ done. absurd cc)
      | inl t ↦
          rw (process_notification, e, t)
            (continue-cases Saturates
              (on_scheduler (on_job_reached_terminal_state job_id) (drop_deadline job_id d))
              (λ _ d'. pump_scheduler strerror s d') (λ x d' h done. absurd cc)
              λ _ d' h. (pump_scheduler-Pumped strerror s d').full)
    ]
  ]

  full_after :
      (job_id : ℕ) (d d' : Daemon)
      → process_notification strerror s job_id d ≡ (ok tt, d')
      → Saturated d'.scheduler
  unfolding Saturates
  full_after job_id d d' r =
      let full = process_notification-Saturates job_id d in rw r at (full (ap (λ r. r.0) r))

  -- How the loop over the notifications ends: with all of them processed, and the queue empty or
  -- all slots taken, or in the middle of them, in order.
  pub data Handling (d : Daemon) : Result (Unit {0}) × Daemon → Type 0 where
    handled :
        {d' : Daemon}
        → d'.monitor.notifications ≡ []
        → Saturated d'.scheduler
        → Handling d (ok tt, d')
    stopped :
        {d' : Daemon} {e : Exception} (taken : List ℕ)
        → d.monitor.notifications ≡ taken ++ d'.monitor.notifications
        → Handling d (raise e, d')

  -- There is a notification, or the queue is empty or all slots are taken.
  abbrev pub IsReady : Daemon → Type 0
  IsReady d = (d.monitor.notifications ≢ []) ⊎ Saturated d.scheduler

  idle-Handling : (d : Daemon) → IsReady d → d.monitor.notifications ≡ [] → Handling d (ok tt, d)
  idle-Handling d (inl some_there) e = absurd (some_there e)
  idle-Handling d (inr full) e = handled e full

  after_one :
      (job_id : ℕ) (d d' : Daemon) (r : Result (Unit {0}) × Daemon)
      → d.monitor.notifications ≡ job_id ∷ d'.monitor.notifications
      → Handling d' r
      → Handling d r
  after_one job_id d d' _ e (handled none_left full) = handled none_left full
  after_one job_id d d' _ e (stopped taken split) =
      stopped (job_id ∷ taken) (e ∙ ap (◌∷◌ job_id) split)

  next_notification-Handling :
      (pending : List ℕ) (rounds : Act Daemon (Unit {0})) (d : Daemon)
      → d.monitor.notifications ≡ pending
      → IsReady d
      → ((job_id : ℕ) (rest : List ℕ) (d' : Daemon)
          → pending ≡ job_id ∷ rest
          → d'.monitor.notifications ≡ rest
          → IsReady d'
          → Handling d' (rounds d'))
      → Handling d (next_notification strerror s pending rounds d)
  unfolding next_notification pop_notification
  next_notification-Handling [] rounds d e ready later = idle-Handling d ready e
  next_notification-Handling (job_id ∷ rest) rounds d e ready later =
      continue-cases (Handling d) (process_notification strerror s job_id (pop_notification rest d))
        (λ _ d'. rounds d')
        (λ x d' r. stopped (job_id ∷ []) (e ∙ ap (◌∷◌ job_id) (sym (left d' (raise x) r))))
        λ _ d' r.
          after_one job_id d d' (rounds d') (e ∙ ap (◌∷◌ job_id) (sym (left d' (ok tt) r))) (
            later job_id rest d' refl (left d' (ok tt) r)
              (inr (full_after job_id (pop_notification rest d) d' r)))
    where
      left :
          (d' : Daemon) (result : Result (Unit {0}))
          → process_notification strerror s job_id (pop_notification rest d) ≡ (result, d')
          → d'.monitor.notifications ≡ rest
      left d' result r =
          sym (ap (λ r. r.1.monitor.notifications) r)
          ∙ process_notification-notifications job_id (pop_notification rest d)

  notification_loop-Handling :
      (fuel : ℕ) (d : Daemon)
      → length d.monitor.notifications ≤ fuel
      → IsReady d
      → Handling d (notification_loop strerror s fuel d)
  unfolding notification_loop
  notification_loop-Handling zero d h ready =
      idle-Handling d ready (empty_list d.monitor.notifications h)
  notification_loop-Handling (suc fuel) d h ready =
      next_notification-Handling d.monitor.notifications (notification_loop strerror s fuel) d refl
        ready
        λ job_id rest d' e left ready'.
          notification_loop-Handling fuel d' (fewer_left job_id rest e left h) ready'

  -- If there is a notification, or the queue is empty or all slots are taken, then
  -- processTerminalJobNotifications takes the notifications in order, also if it throws, and when
  -- it returns normally none is left, and the queue is empty or all slots are taken.
  pub process_terminal_job_notifications-Handling :
      (d : Daemon) → IsReady d → Handling d (process_terminal_job_notifications strerror s d)
  unfolding process_terminal_job_notifications
  process_terminal_job_notifications-Handling d ready =
      notification_loop-Handling (length d.monitor.notifications) d (omega arith) ready
