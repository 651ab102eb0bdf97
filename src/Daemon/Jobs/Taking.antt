-- ===== src/Daemon/Jobs/Taking.antt =====
-- The rounds of pumpScheduler, one after the other.
use runnerd.Prelude.{
  ℕ, true, false, List, [], ◌∷◌, ◌++◌, Result, Exception, ok, raise, All, ◌==◌, ◌≡◌, refl, sym, ap,
  ◌∙◌, arith, Bool-cases, inl, inr,
}
use runnerd.Prelude.Assoc.{contains}
use runnerd.Scheduler.{JobScheduler}
use runnerd.Scheduler.Invariant.{IsConsistent}
use runnerd.Monitor.Start.Table.{Past, Past-same}
use runnerd.Daemon.Jobs.{Daemon}
use runnerd.Daemon.Jobs.Rounds.{Saturated}
use runnerd.Daemon.Jobs.Slots.{Placed, Placed-same, Round}

not_front :
    (i job_id : ℕ) (queue rest : List ℕ)
    → queue ≡ job_id ∷ rest
    → contains i queue ≡ false
    → ((job_id == i) ≡ false) × (contains i rest ≡ false)
unfolding contains
not_front i job_id queue rest q h = ground (arith, h, ap (contains i) q)

front_once :
    (job_id : ℕ) (s : JobScheduler) (rest : List ℕ)
    → s.waiting_jobs ≡ job_id ∷ rest
    → IsConsistent s
    → contains job_id rest ≡ false
front_once job_id s rest q v = (rw q at (v.queue_distinct)).0

in_front : (job_id : ℕ) (all rest : List ℕ) → all ≡ job_id ∷ rest → contains job_id all ≡ true
unfolding contains
in_front job_id all rest q = ground (arith, ap (contains job_id) q)

not_in_front :
    (i job_id : ℕ) (all rest : List ℕ)
    → all ≡ job_id ∷ rest
    → (job_id == i) ≡ false
    → contains i all ≡ contains i rest
unfolding contains
not_in_front i job_id all rest q other = ground (arith, other, ap (contains i) q)

-- Rounds took jobs from the front of the queue, which are not QUEUED any more; after a normal return
-- they run or have ended, and no more can be started.
pub record Pumped (d : Daemon) (r : Result (Unit {0}) × Daemon) : Type 0 where
  pub taken : List ℕ
  pub split : d.scheduler.waiting_jobs ≡ taken ++ r.1.scheduler.waiting_jobs
  pub full : r.0 ≡ ok tt → Saturated r.1.scheduler
  pub left : All (λ i. Past i r.1.monitor.jobs) taken
  pub past : (i : ℕ) → Past i d.monitor.jobs → Past i r.1.monitor.jobs
  pub kept :
      IsConsistent d.scheduler
      → (i : ℕ) → contains i d.scheduler.waiting_jobs ≡ false
      → Placed i d
      → Placed i r.1
  pub placed : IsConsistent d.scheduler → r.0 ≡ ok tt → All (λ i. Placed i r.1) taken

-- The job is taken and its round follows.
pub record Starts (job_id : ℕ) (d : Daemon) (r : Result (Unit {0}) × Daemon) : Type 0 where
  pub split : d.scheduler.waiting_jobs ≡ job_id ∷ r.1.scheduler.waiting_jobs
  pub consistent : IsConsistent d.scheduler → IsConsistent r.1.scheduler
  pub left : Past job_id r.1.monitor.jobs
  pub past : (i : ℕ) → Past i d.monitor.jobs → Past i r.1.monitor.jobs
  pub kept :
      IsConsistent d.scheduler
      → (i : ℕ) → contains i d.scheduler.waiting_jobs ≡ false
      → Placed i d
      → Placed i r.1
  pub placed : IsConsistent d.scheduler → r.0 ≡ ok tt → Placed job_id r.1

pub Round→Starts :
    (job_id : ℕ) (d : Daemon) (s' : JobScheduler) (r : Result (Unit {0}) × Daemon)
    → d.scheduler.waiting_jobs ≡ job_id ∷ s'.waiting_jobs
    → s'.active_job_ids ≡ job_id ∷ d.scheduler.active_job_ids
    → (IsConsistent d.scheduler → IsConsistent s')
    → r.1.scheduler.waiting_jobs ≡ s'.waiting_jobs
    → Round job_id (record d { scheduler = s' }) r
    → Starts job_id d r
Round→Starts job_id d s' r q slot consistent waiting round = record {
  split = q ∙ ap (◌∷◌ job_id) (sym waiting);
  consistent = λ v. round.consistent (consistent v);
  left = round.left;
  past = λ i p. elim (Bool-cases (job_id == i)) [
    | inl same ↦ let e : job_id ≡ i = ground (arith, same) in rw e at (round.left)
    | inr other ↦ Past-same (round.others i other) p
  ];
  kept = λ v i absent p.
      let (other, _) = not_front i job_id _ _ q absent in
      Placed-same (round.others i other)
        (round.slots i other (consistent v) ∙ not_in_front i job_id _ _ slot other) p;
  placed = λ v. round.placed (consistent v) (in_front job_id _ _ slot);
}

-- The round that throws is the last.
pub Starts→Pumped :
    (job_id : ℕ) (d d' : Daemon) (e : Exception)
    → Starts job_id d (raise e, d')
    → Pumped d (raise e, d')
Starts→Pumped job_id d d' e first = record {
  taken = job_id ∷ [];
  split = first.split;
  full = λ done. absurd cc;
  left = (first.left, tt);
  past = first.past;
  kept = first.kept;
  placed = λ v done. absurd cc;
}

pub Starts-then :
    (job_id : ℕ) (d d' : Daemon) (r : Result (Unit {0}) × Daemon)
    → Starts job_id d (ok tt, d')
    → Pumped d' r
    → Pumped d r
Starts-then job_id d d' r first rest = record {
  taken = job_id ∷ rest.taken;
  split = first.split ∙ ap (◌∷◌ job_id) rest.split;
  full = rest.full;
  left = (rest.past job_id first.left, rest.left);
  past = λ i p. rest.past i (first.past i p);
  kept = λ v i absent p.
      rest.kept (first.consistent v) i (not_front i job_id _ _ first.split absent).1
        (first.kept v i absent p);
  placed = λ v done. (
    rest.kept (first.consistent v) job_id
        (front_once job_id d.scheduler d'.scheduler.waiting_jobs first.split v)
        (first.placed v refl),
    rest.placed (first.consistent v) done,
  );
}
