-- ===== src/Daemon/Jobs/Pumping.antt =====
-- How pumpScheduler empties the queue.
use runnerd.Prelude.{
  ℕ, zero, suc, ◌<◌, List, [], ◌∷◌, ◌++◌, Option, Result, Exception, ok, raise, continue,
  continue-cases, length, All, ◌≡◌, refl, sym, ap, ◌∙◌, arith,
}
use runnerd.Scheduler.{JobScheduler, take_next_job_to_start}
use runnerd.Scheduler.Invariant.{IsConsistent, take_next_job_to_start-IsConsistent}
use runnerd.Monitor.Start.Table.{Past}
use runnerd.Daemon.Jobs.{
  Daemon, System, on_scheduler, pump_round, pump_loop, pump_next, pump_scheduler,
}
use runnerd.Daemon.Jobs.Rounds.{
  Saturated, Taken, nothing, front, broken, take_next-Taken, pump_round-waiting,
}
use runnerd.Daemon.Jobs.Slots.{Placed, pump_round-Round}
use runnerd.Daemon.Jobs.Taking.{Pumped, Starts, Round→Starts, Starts→Pumped, Starts-then}

shorter :
    {queue rest : List ℕ} {job_id fuel : ℕ}
    → queue ≡ job_id ∷ rest
    → length queue < suc fuel
    → length rest < fuel
shorter {queue} {rest} q h = omega (arith, ap length q)

module _ (strerror : ℕ → List ℕ) (s : System) where
  front-Pumped :
      (fuel job_id : ℕ) (d : Daemon) (s' : JobScheduler)
      → d.scheduler.waiting_jobs ≡ job_id ∷ s'.waiting_jobs
      → s'.active_job_ids ≡ job_id ∷ d.scheduler.active_job_ids
      → (IsConsistent d.scheduler → IsConsistent s')
      → ((d' : Daemon)
          → length d'.scheduler.waiting_jobs < fuel
          → Pumped d' (pump_loop strerror s fuel d'))
      → length s'.waiting_jobs < fuel
      → Pumped d (
          continue
            (pump_round strerror s job_id (record d { scheduler = s' }))
            λ _ d'. pump_loop strerror s fuel d')
  front-Pumped fuel job_id d s' q slot consistent rest h =
      continue-cases (Pumped d) (pump_round strerror s job_id d1) _
        (λ e d2 r. Starts→Pumped job_id d d2 e (rw r at starts))
        λ _ d2 r.
          Starts-then job_id d d2 _ (rw r at starts)
            (rest d2 (rw (sym (ap (λ r. r.1.scheduler.waiting_jobs) r) ∙ waiting) h))
    where
      d1 : Daemon
      d1 = record d { scheduler = s' }

      waiting : (pump_round strerror s job_id d1).1.scheduler.waiting_jobs ≡ s'.waiting_jobs
      waiting = pump_round-waiting strerror s job_id d1

      starts : Starts job_id d (pump_round strerror s job_id d1)
      starts =
          Round→Starts job_id d s' _ q slot consistent waiting
            (pump_round-Round strerror s job_id d1)

  step-Pumped :
      (fuel : ℕ) (d : Daemon) (r : Result (Option ℕ) × JobScheduler)
      → (IsConsistent d.scheduler → IsConsistent r.1)
      → Taken d.scheduler r
      → ((d' : Daemon)
          → length d'.scheduler.waiting_jobs < fuel
          → Pumped d' (pump_loop strerror s fuel d'))
      → length d.scheduler.waiting_jobs < suc fuel
      → Pumped d (
          continue
            (r.0, record d { scheduler = r.1 })
            (pump_next strerror s (pump_loop strerror s fuel)))
  unfolding pump_next
  step-Pumped fuel d _ consistent (nothing saturated) rest h = record {
    taken = [];
    split = refl;
    full = λ done. saturated;
    left = tt;
    past = λ i p. p;
    kept = λ v i absent p. p;
    placed = λ v done. tt;
  }
  step-Pumped fuel d _ consistent broken rest h = record {
    taken = [];
    split = refl;
    full = λ done. absurd cc;
    left = tt;
    past = λ i p. p;
    kept = λ v i absent p. p;
    placed = λ v done. tt;
  }
  step-Pumped fuel d _ consistent (front {job_id} {s'} q slot) rest h =
      front-Pumped fuel job_id d s' q slot consistent rest (shorter q h)

  pump_loop-Pumped :
      (fuel : ℕ) (d : Daemon)
      → length d.scheduler.waiting_jobs < fuel
      → Pumped d (pump_loop strerror s fuel d)
  unfolding pump_loop on_scheduler
  pump_loop-Pumped zero d h = absurd (omega arith)
  pump_loop-Pumped (suc fuel) d h =
      step-Pumped fuel d (take_next_job_to_start d.scheduler)
        (take_next_job_to_start-IsConsistent d.scheduler) (take_next-Taken d.scheduler)
        (pump_loop-Pumped fuel) h

  pub pump_scheduler-Pumped : (d : Daemon) → Pumped d (pump_scheduler strerror s d)
  unfolding pump_scheduler
  pump_scheduler-Pumped d = pump_loop-Pumped (suc (length d.scheduler.waiting_jobs)) d (omega arith)

  -- How pumpScheduler ends: saturated, with each job that was taken in its place; or by an exception,
  -- with each job that was taken no longer QUEUED.
  pub data Pumping (d : Daemon) : Result (Unit {0}) × Daemon → Type 0 where
    saturated :
        {d' : Daemon} (taken : List ℕ)
        → d.scheduler.waiting_jobs ≡ taken ++ d'.scheduler.waiting_jobs
        → All (λ i. Placed i d') taken
        → Saturated d'.scheduler
        → Pumping d (ok tt, d')
    stopped :
        {d' : Daemon} {e : Exception} (taken : List ℕ)
        → d.scheduler.waiting_jobs ≡ taken ++ d'.scheduler.waiting_jobs
        → All (λ i. Past i d'.monitor.jobs) taken
        → Pumping d (raise e, d')

  Pumped→Pumping :
      (d : Daemon) (r : Result (Unit {0}) × Daemon)
      → IsConsistent d.scheduler
      → Pumped d r
      → Pumping d r
  Pumped→Pumping d (ok tt, d') v p = saturated p.taken p.split (p.placed v refl) (p.full refl)
  Pumped→Pumping d (raise e, d') v p = stopped p.taken p.split p.left

  -- From a consistent scheduler, pumpScheduler takes jobs from the front of the queue. When it
  -- returns normally, each job it took runs and holds a slot, or has ended and holds none, and the
  -- queue is empty or all slots are taken. When it throws, no job it took is QUEUED any more.
  pub pump_scheduler-Pumping :
      (d : Daemon) → IsConsistent d.scheduler → Pumping d (pump_scheduler strerror s d)
  pump_scheduler-Pumping d v =
      Pumped→Pumping d (pump_scheduler strerror s d) v (pump_scheduler-Pumped d)
