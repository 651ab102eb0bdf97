-- ===== src/Scheduler/Fifo.antt =====
-- The order in which jobs start, over a history of calls.
use mathlib.Core.List.{Sublist, append_assoc, append-nil}
use mathlib.Core.List.Sublist
use runnerd.Prelude.{
  ℕ, ◌≡◌, refl, sym, ◌⊎◌, ap, ◌∙◌, List, [], ◌∷◌, ◌++◌, some, arith, ok, Result, Bool-cases, inl,
  inr, ◌==◌,
}
use runnerd.Prelude.Assoc.{contains, remove}
use runnerd.Scheduler.{
  JobScheduler, enqueue, take_next_job_to_start, on_job_reached_terminal_state, cancel_queued_job,
  Call, enqueues, takes, finishes, cancels, call, run, Answer, next_job,
}
use runnerd.Scheduler.Invariant.{IsConsistent, call-IsConsistent}

-- The job that a call put into the queue, if it did, and the job that it handed out to be started.
abbrev accepted_by : Call → Result Answer → List ℕ
accepted_by (enqueues j) (ok a) = j ∷ []
accepted_by _ _ = []

abbrev started_by : Result Answer → List ℕ
started_by (ok (next_job (some j))) = j ∷ []
started_by _ = []

-- The jobs accepted by a history, and the jobs started by it, each in the order of the calls.
unfoldable pub accepted : List Call → JobScheduler → List ℕ
accepted [] s = []
accepted (c ∷ cs) s = accepted_by c (call c s).0 ++ accepted cs (call c s).1

unfoldable pub started : List Call → JobScheduler → List ℕ
started [] s = []
started (c ∷ cs) s = started_by (call c s).0 ++ started cs (call c s).1

abbrev pub NoCancel : List Call → Type 0
NoCancel [] = Unit {0}
NoCancel (cancels j ∷ cs) = ⊥
NoCancel (c ∷ cs) = NoCancel cs

remove-sublist : (j : ℕ) (xs : List ℕ) → Sublist (remove j xs) xs
unfolding remove
remove-sublist j [] = Sublist.refl []
remove-sublist j (x ∷ xs) = elim (Bool-cases (x == j)) [
  | inl e ↦ rw (e, remove) (Sublist.cons x (Sublist.refl xs))
  | inr e ↦ rw (e, remove) (Sublist.cons-cons x (remove-sublist j xs))
]

take_front-moves :
    (q : List ℕ) (s : JobScheduler)
    → IsConsistent s
    → s.waiting_jobs ≡ q
    → s.waiting_jobs ≡ started_by (call takes s).0 ++ (call takes s).1.waiting_jobs
unfolding call take_next_job_to_start contains
take_front-moves [] s v e = ground arith
take_front-moves (j ∷ rest) s v e = ground (arith, v.apart j)

-- What a call that is no cancellation does to the queue: accepted at the end, started at the front.
call-queue :
    (c : Call) (s : JobScheduler)
    → IsConsistent s
    → NoCancel (c ∷ [])
    → s.waiting_jobs ++ accepted_by c (call c s).0
      ≡ started_by (call c s).0 ++ (call c s).1.waiting_jobs
unfolding call enqueue on_job_reached_terminal_state
call-queue (enqueues j) s v h = ground (arith, append-nil s.waiting_jobs)
call-queue takes s v h = append-nil s.waiting_jobs ∙ take_front-moves s.waiting_jobs s v refl
call-queue (finishes j) s v h = ground (arith, append-nil s.waiting_jobs)
call-queue (cancels j) s v h = absurd h

NoCancel-cons : (c : Call) (cs : List Call) → NoCancel (c ∷ cs) → NoCancel (c ∷ []) × NoCancel cs
NoCancel-cons (cancels j) cs h = absurd h
NoCancel-cons (enqueues j) cs h = (tt, h)
NoCancel-cons takes cs h = (tt, h)
NoCancel-cons (finishes j) cs h = (tt, h)

-- From a consistent state and with no cancellation, the jobs that wait and those accepted later are, in this order, exactly
-- the jobs that get started followed by those that still wait: first in, first out, none lost.
pub started-append-waiting :
    (cs : List Call) (s : JobScheduler)
    → IsConsistent s
    → NoCancel cs
    → s.waiting_jobs ++ accepted cs s ≡ started cs s ++ (run cs s).1.waiting_jobs
unfolding accepted started run
started-append-waiting [] s v h = append-nil s.waiting_jobs
started-append-waiting (c ∷ cs) s v h =
    let (first, later) = NoCancel-cons c cs h in
    let s' = (call c s).1 in
    let ih = started-append-waiting cs s' (call-IsConsistent c s v) later in
    sym (append_assoc s.waiting_jobs (accepted_by c (call c s).0) (accepted cs s'))
    ∙ ap (λ (l : List ℕ). l ++ accepted cs s') (call-queue c s v first)
    ∙ append_assoc (started_by (call c s).0) s'.waiting_jobs (accepted cs s')
    ∙ ap (λ (l : List ℕ). started_by (call c s).0 ++ l) ih
    ∙ sym (append_assoc (started_by (call c s).0) (started cs s') (run cs s').1.waiting_jobs)

cancel-queue :
    (j : ℕ) (s : JobScheduler)
    → (started_by (call (cancels j) s).0 ≡ [])
      × (((call (cancels j) s).1.waiting_jobs ≡ s.waiting_jobs)
          ⊎ ((call (cancels j) s).1.waiting_jobs ≡ remove j s.waiting_jobs))
unfolding call cancel_queued_job
cancel-queue j s = ground arith

call-queue-sublist :
    (c : Call) (s : JobScheduler)
    → IsConsistent s
    → Sublist
        (started_by (call c s).0 ++ (call c s).1.waiting_jobs)
        (s.waiting_jobs ++ accepted_by c (call c s).0)
call-queue-sublist (cancels j) s v =
    let (none_started, left) = cancel-queue j s in
    rw (none_started, append-nil s.waiting_jobs)
      (elim left [
        | inl e ↦ rw e (Sublist.refl s.waiting_jobs)
        | inr e ↦ rw e (remove-sublist j s.waiting_jobs)
      ])
call-queue-sublist (enqueues j) s v = rw (call-queue (enqueues j) s v tt) (Sublist.refl _)
call-queue-sublist takes s v = rw (← call-queue takes s v tt) (Sublist.refl _)
call-queue-sublist (finishes j) s v = rw (← call-queue (finishes j) s v tt) (Sublist.refl _)

-- From a consistent state, with cancellations too, the jobs started followed by those that still wait are in the order in
-- which they were accepted: no job overtakes another.
pub started-append-waiting-sublist :
    (cs : List Call) (s : JobScheduler)
    → IsConsistent s
    → Sublist (started cs s ++ (run cs s).1.waiting_jobs) (s.waiting_jobs ++ accepted cs s)
unfolding accepted started run
started-append-waiting-sublist [] s v = rw (append-nil s.waiting_jobs) (Sublist.refl _)
started-append-waiting-sublist (c ∷ cs) s v =
    let s' = (call c s).1 in
    let first = started_by (call c s).0 in
    let last = accepted_by c (call c s).0 in
    let ih = started-append-waiting-sublist cs s' (call-IsConsistent c s v) in
    rw (append_assoc first (started cs s') (run cs s').1.waiting_jobs) (
      Sublist.trans (Sublist.append (Sublist.refl first) ih) (
        rw (← append_assoc first s'.waiting_jobs (accepted cs s')) (
          rw (← append_assoc s.waiting_jobs last (accepted cs s'))
            (Sublist.append (call-queue-sublist c s v) (Sublist.refl (accepted cs s'))))))
