-- ===== src/Job/Lifecycle.antt =====
-- The state machine of docs/state_machine.md, against can_transition and transition_job.
use runnerd.Prelude.{
  ℕ, zero, suc, ◌+◌, ◌≤◌, ◌<◌, ◌≡◌, refl, ◌↔◌, ◌⊎◌, inl, inr, true, false, arith, ok, raise, Result,
  Exception, List, [], ◌∷◌, Bool-cases,
}
use runnerd.Job.{
  JobState, queued, running, terminating, succeeded, failed, cancelled, timed_out, interrupted, Job,
  can_transition, is_terminal, transition_job,
}

-- The eleven transitions that the document lists.
pub data Transition : JobState → JobState → Type 0 where
  queued_running : Transition queued running
  queued_failed : Transition queued failed
  queued_cancelled : Transition queued cancelled
  queued_interrupted : Transition queued interrupted
  running_succeeded : Transition running succeeded
  running_failed : Transition running failed
  running_terminating : Transition running terminating
  running_interrupted : Transition running interrupted
  terminating_cancelled : Transition terminating cancelled
  terminating_timed_out : Transition terminating timed_out
  terminating_interrupted : Transition terminating interrupted

can_transition→Transition : (a b : JobState) → can_transition a b ≡ true → Transition a b
unfolding can_transition
can_transition→Transition queued running h = queued_running
can_transition→Transition queued failed h = queued_failed
can_transition→Transition queued cancelled h = queued_cancelled
can_transition→Transition queued interrupted h = queued_interrupted
can_transition→Transition running succeeded h = running_succeeded
can_transition→Transition running failed h = running_failed
can_transition→Transition running terminating h = running_terminating
can_transition→Transition running interrupted h = running_interrupted
can_transition→Transition terminating cancelled h = terminating_cancelled
can_transition→Transition terminating timed_out h = terminating_timed_out
can_transition→Transition terminating interrupted h = terminating_interrupted
can_transition→Transition _ _ h = absurd (cc)

Transition→can-Transition : {a b : JobState} → Transition a b → can_transition a b ≡ true
unfolding can_transition
Transition→can-Transition queued_running = refl
Transition→can-Transition _ = refl

-- can_transition allows exactly the eleven transitions of the document.
pub can_transition-Transition : (a b : JobState) → (can_transition a b ≡ true) ↔ Transition a b
can_transition-Transition a b = (can_transition→Transition a b, Transition→can-Transition)

-- A state is terminal exactly when no transition leaves it.
pub is_terminal-can_transition :
    (a : JobState) → (is_terminal a ≡ true) ↔ ((b : JobState) → can_transition a b ≡ false)
unfolding is_terminal can_transition
is_terminal-can_transition a = (stuck a, final a)
  where
    stuck : (s : JobState) → is_terminal s ≡ true → (b : JobState) → can_transition s b ≡ false
    stuck queued h b = cc
    stuck running h b = cc
    stuck terminating h b = cc
    stuck _ h b = refl

    final : (s : JobState) → ((b : JobState) → can_transition s b ≡ false) → is_terminal s ≡ true
    final queued h = cc (h running)
    final running h = cc (h failed)
    final terminating h = cc (h cancelled)
    final _ h = refl

-- The states that a job passes through, one transition after the other.
pub data StatePath : JobState → JobState → ℕ → Type 0 where
  stay : {a : JobState} → StatePath a a zero
  step :
      {a b c : JobState} {n : ℕ}
      → can_transition a b ≡ true
      → StatePath b c n
      → StatePath a c (suc n)

-- How many transitions a state can still make at most.
abbrev remaining : JobState → ℕ
remaining queued = 3
remaining running = 2
remaining terminating = 1
remaining _ = 0

remaining-falls : (a b : JobState) → can_transition a b ≡ true → remaining b < remaining a
unfolding can_transition
remaining-falls queued queued h = absurd (cc)
remaining-falls a b h = ground arith

remaining-StatePath : {a b : JobState} {n : ℕ} → StatePath a b n → n + remaining b ≤ remaining a
remaining-StatePath stay = omega arith
remaining-StatePath (step {a = a} {b = b} h p) =
    omega (arith, remaining-StatePath p, remaining-falls a b h)

remaining_few : (a : JobState) → remaining a ≤ 3
remaining_few a = ground arith

-- However a job passes from one state to another, it takes three transitions at most.
pub StatePath-bounded : {a b : JobState} {n : ℕ} → StatePath a b n → n ≤ 3
StatePath-bounded {a} p = omega (arith, remaining-StatePath p, remaining_few a)

-- What calls of transitionJob, one for each state, do to a job's state, if their exceptions are
-- caught: a transition of the document is made, any other call is refused. The number counts those
-- that are made.
pub data Follows : JobState → List JobState → JobState → ℕ → Type 0 where
  done : {a : JobState} → Follows a [] a zero
  moves :
      {a b c : JobState} {states : List JobState} {n : ℕ}
      → Transition a b
      → Follows b states c n
      → Follows a (b ∷ states) c (suc n)
  refuses :
      {a b c : JobState} {states : List JobState} {n : ℕ}
      → ¬ (Transition a b)
      → Follows a states c n
      → Follows a (b ∷ states) c n

Follows→StatePath :
    {a c : JobState} {states : List JobState} {n : ℕ} → Follows a states c n → StatePath a c n
Follows→StatePath done = stay
Follows→StatePath (moves t f) = step (Transition→can-Transition t) (Follows→StatePath f)
Follows→StatePath (refuses t f) = Follows→StatePath f

-- By the test of transition_job.
made_or_refused :
    (to : JobState) (job : Job)
    → (Transition job.state to × (transition_job to job ≡ (ok tt, record job { state = to })))
      ⊎ ((¬ (Transition job.state to))
          × ((e : Exception) × (transition_job to job ≡ (raise e, job))))
unfolding transition_job
made_or_refused to job = elim (Bool-cases (can_transition job.state to)) [
  | inl e ↦ inl (can_transition→Transition job.state to e, rw e)
  | inr e ↦ rw (transition_job, e) (inr (λ t. cc (e, Transition→can-Transition t), (_, refl)))
]

abbrev counted : Result (Unit {0}) → ℕ × Job → ℕ × Job
counted (ok _) (n, job) = (suc n, job)
counted (raise _) (n, job) = (n, job)

-- Calls of transitionJob, one for each state, whose exceptions are caught: how many return normally,
-- and the job that they leave.
abbrev pub attempts : List JobState → Job → ℕ × Job
attempts [] job = (zero, job)
attempts (to ∷ rest) job =
    counted (transition_job to job).0 (attempts rest (transition_job to job).1)

-- What the calls leave of a job.
pub record Attempted (states : List JobState) (job : Job) (r : ℕ × Job) : Type 0 where
  pub follows : Follows job.state states r.1.state r.0
  pub few : r.0 ≤ 3
  pub rest : r.1 ≡ record job { state = r.1.state }

attempted :
    (states : List JobState) (job : Job) (r : ℕ × Job)
    → Follows job.state states r.1.state r.0
    → r.1 ≡ record job { state = r.1.state }
    → Attempted states job r
attempted states job r f rest = record {
  follows = f;
  few = StatePath-bounded (Follows→StatePath f);
  rest = rest;
}

attempt-Attempted :
    (to : JobState) (states : List JobState) (job : Job) (r : Result (Unit {0}) × Job)
    → ((job' : Job) → Attempted states job' (attempts states job'))
    → (Transition job.state to × (r ≡ (ok tt, record job { state = to })))
      ⊎ ((¬ (Transition job.state to)) × ((e : Exception) × (r ≡ (raise e, job))))
    → Attempted (to ∷ states) job (counted r.0 (attempts states r.1))
attempt-Attempted to states job r later (inl (allowed, e)) =
    let job' : Job = record job { state = to } in
    let a = later job' in
    let after = attempts states job' in
    rw e (attempted (to ∷ states) job (suc after.0, after.1) (moves allowed a.follows) a.rest)
attempt-Attempted to states job r later (inr (refused, (e, thrown))) =
    let a = later job in
    rw thrown (attempted (to ∷ states) job (attempts states job) (refuses refused a.follows) a.rest)

-- Whatever states transitionJob is called with, one after the other, with its exceptions caught, the
-- calls that return normally are exactly those for which the document lists a transition from the
-- state that the job is then in, and they make it. They are three at most, and nothing but the state
-- of the job has changed.
pub attempts-Attempted :
    (states : List JobState) (job : Job) → Attempted states job (attempts states job)
attempts-Attempted [] job = attempted [] job (zero, job) done refl
attempts-Attempted (to ∷ rest) job =
    attempt-Attempted to rest job (transition_job to job) (attempts-Attempted rest)
      (made_or_refused to job)
