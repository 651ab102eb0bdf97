-- ===== src/Monitor/Start/Table.antt =====
-- What the steps of startJob do to the job table.
use runnerd.Prelude.{
  ℕ, true, false, List, none, some, Result, Act, continue-cases, ◌==◌, ◌≡◌, refl, sym, ap, ◌∙◌,
  arith, Option-cases, Bool-cases, inl, inr,
}
use runnerd.Prelude.Assoc.{lookup, lookup-insert}
use runnerd.Job.{JobState, Job, queued, running, failed, is, can_transition, transition_job}
use runnerd.Monitor.{ProcessMonitor}
use runnerd.Monitor.Settle.{fail_with}
use runnerd.Monitor.Start.{update_job}

-- The job is not in the table, or not QUEUED there.
pub data Past (j : ℕ) (jobs : List (ℕ × Job)) : Type 0 where
  gone : lookup j jobs ≡ none → Past j jobs
  past : {job : Job} → lookup j jobs ≡ some job → is job.state queued ≡ false → Past j jobs

pub Past-same :
    {j : ℕ} {before after : List (ℕ × Job)}
    → lookup j after ≡ lookup j before
    → Past j before
    → Past j after
Past-same e (gone g) = gone (e ∙ g)
Past-same e (past found q) = past (e ∙ found) q

-- The entries of the other jobs are as before.
pub record Touches (j : ℕ) (m m' : ProcessMonitor) : Type 0 where
  pub others : (i : ℕ) → (j == i) ≡ false → lookup i m'.jobs ≡ lookup i m.jobs

pub untouched : (j : ℕ) (m m' : ProcessMonitor) → m'.jobs ≡ m.jobs → Touches j m m'
untouched j m m' e = record { others = λ i d. ap (lookup i) e }

pub Touches-then :
    {j : ℕ} {m m' m'' : ProcessMonitor} → Touches j m m' → Touches j m' m'' → Touches j m m''
Touches-then t t' = record { others = λ i d. t'.others i d ∙ t.others i d }

pub update_job-Touches :
    (j : ℕ) (f : Act Job (Unit {0})) (m : ProcessMonitor) → Touches j m (update_job j f m).1
unfolding update_job
update_job-Touches j f m = elim (Option-cases (lookup j m.jobs)) [
  | inl e ↦ rw (update_job, e) (untouched j m m refl)
  | inr (job, e) ↦
      rw (update_job, e)
        (record { others = λ i d. ground (arith, lookup-insert j i (f job).1 m.jobs) })
]

pub update_job-Past :
    (j : ℕ) (f : Act Job (Unit {0})) (m : ProcessMonitor)
    → ((job : Job) → is (f job).1.state queued ≡ false)
    → Past j (update_job j f m).1.jobs
unfolding update_job
update_job-Past j f m leaves = elim (Option-cases (lookup j m.jobs)) [
  | inl e ↦ rw (update_job, e) (gone e)
  | inr (job, e) ↦
      rw (update_job, e)
        (past {job = (f job).1} (ground (arith, lookup-insert j j (f job).1 m.jobs)) (leaves job))
]

stuck_state :
    (s to : JobState)
    → can_transition queued to ≡ true
    → can_transition s to ≡ false
    → is s queued ≡ false
unfolding can_transition
stuck_state queued to allowed h = absurd cc
stuck_state s to allowed h = ground arith

pub transition_job-leaves :
    (to : JobState) (job : Job)
    → is to queued ≡ false
    → can_transition queued to ≡ true
    → is (transition_job to job).1.state queued ≡ false
unfolding transition_job
transition_job-leaves to job other allowed = elim (Bool-cases (can_transition job.state to)) [
  | inl e ↦ rw (transition_job, e) other
  | inr e ↦ rw (transition_job, e) (stuck_state job.state to allowed e)
]

pub may_run : can_transition queued running ≡ true
unfolding can_transition
may_run = refl

may_fail : can_transition queued failed ≡ true
unfolding can_transition
may_fail = refl

pub fail_with-leaves :
    (message : List ℕ) (job : Job) → is (fail_with message job).1.state queued ≡ false
unfolding fail_with
fail_with-leaves message job =
    let leaves = transition_job-leaves failed job refl may_fail in
    continue-cases (λ (r : Result (Unit {0}) × Job). is r.1.state queued ≡ false)
      (transition_job failed job) _ (λ e job' h. sym (ap (λ r. is r.1.state queued) h) ∙ leaves)
      λ _ job' h. sym (ap (λ r. is r.1.state queued) h) ∙ leaves
