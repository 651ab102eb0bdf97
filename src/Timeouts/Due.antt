-- ===== src/Timeouts/Due.antt =====
-- Which entries of the heap decide whether a job is due.
use runnerd.Prelude.{
  ℕ, ◌≤◌, ◌<◌, ◌≡◌, refl, ◌∙◌, Bool, true, false, List, [], ◌∷◌, Option, none, some, arith, ◌==◌,
  leb, if◌then◌else◌, length, All, Option-cases, inl, inr,
}
use runnerd.Prelude.Assoc.{lookup, erase, lookup-erase}
use runnerd.Timeouts.{DeadlineEntry, Sweep, is_current, discard_stale_entries}
use runnerd.Timeouts.Invariant.{find_entry, deadline_in}
use runnerd.Timeouts.Deadlines.{deadline_in-discard}

-- A deadline that has come.
abbrev pub is_due : ℕ → Option ℕ → Bool
is_due now none = false
is_due now (some deadline) = leb deadline now

abbrev pub sweep_deadline : Sweep → ℕ → Option ℕ
sweep_deadline s j = deadline_in s.active s.heap j

-- An entry that is current is the one in force for its job.
pub current-deadline :
    (e : DeadlineEntry) (rest : List DeadlineEntry) (active : List (ℕ × ℕ))
    → is_current active e ≡ true
    → deadline_in active (e ∷ rest) e.job_id ≡ some e.deadline
unfolding is_current deadline_in
current-deadline e rest active h = ground arith

pub other-deadline :
    (e : DeadlineEntry) (rest : List DeadlineEntry) (active : List (ℕ × ℕ)) (j : ℕ)
    → deadline_in (erase e.job_id active) (discard_stale_entries (erase e.job_id active) rest) j
      ≡ (if e.job_id == j then none else deadline_in active (e ∷ rest) j)
other-deadline e rest active j = deadline_in-discard (erase e.job_id active) rest j ∙ after
  where
    after :
        deadline_in (erase e.job_id active) rest j
        ≡ (if e.job_id == j then none else deadline_in active (e ∷ rest) j)
    after = unfold deadline_in in ground (arith, lookup-erase e.job_id j active)

pub stale-deadline :
    (e : DeadlineEntry) (rest : List DeadlineEntry) (active : List (ℕ × ℕ)) (j : ℕ)
    → is_current active e ≡ false
    → deadline_in active rest j ≡ deadline_in active (e ∷ rest) j
unfolding is_current deadline_in
stale-deadline e rest active j h = ground arith

find_entry-not_due :
    (now j g : ℕ) (es : List DeadlineEntry)
    → All (λ x. now < x.deadline) es
    → is_due now (find_entry j g es) ≡ false
unfolding find_entry
find_entry-not_due now j g [] h = refl
find_entry-not_due now j g (e ∷ es) h = ground (arith, find_entry-not_due now j g es h.1)

pub Above-lt :
    (now d : ℕ) (es : List DeadlineEntry)
    → now < d
    → All (λ x. d ≤ x.deadline) es
    → All (λ x. now < x.deadline) es
Above-lt now d [] h s = tt
Above-lt now d (e ∷ es) h s = (omega arith, Above-lt now d es h s.1)

-- If the first deadline of the heap has not come, none has.
pub not_due :
    (now : ℕ) (active : List (ℕ × ℕ)) (es : List DeadlineEntry) (j : ℕ)
    → All (λ x. now < x.deadline) es
    → is_due now (deadline_in active es j) ≡ false
unfolding deadline_in
not_due now active es j h = elim (Option-cases (lookup j active)) [
  | inl e ↦ ground arith
  | inr (g, e) ↦ ground (arith, find_entry-not_due now j g es h)
]

pub length-discard :
    (active : List (ℕ × ℕ)) (es : List DeadlineEntry)
    → length (discard_stale_entries active es) ≤ length es
unfolding discard_stale_entries
length-discard active [] = omega arith
length-discard active (e ∷ es) = ground (arith, length-discard active es)
