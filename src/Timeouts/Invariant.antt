-- ===== src/Timeouts/Invariant.antt =====
-- The heap is in order, its generations are used up, and every active generation is in the heap.
use runnerd.Prelude.{
  ℕ, ◌^◌, ◌≤◌, ◌<◌, ◌≡◌, ◌&&◌, List, [], ◌∷◌, Option, none, some, arith, ◌==◌, if◌then◌else◌, All,
}
use runnerd.Prelude.Assoc.{lookup}
use runnerd.Timeouts.{DeadlineEntry, TimeoutManager, push, discard_stale_entries}

-- No entry is popped before one with an earlier deadline.
abbrev pub IsSorted : List DeadlineEntry → Type 0
IsSorted [] = Unit {0}
IsSorted (e ∷ es) = All (λ x. e.deadline ≤ x.deadline) es × IsSorted es

-- The generations below which all entries are; 0 means that all 2^64 - 1 of them are used up.
abbrev pub generation_limit : ℕ → ℕ
generation_limit n = if n == 0 then 2 ^ 64 else n

-- The deadline of the first entry of this job and generation.
unfoldable pub find_entry : ℕ → ℕ → List DeadlineEntry → Option ℕ
find_entry job_id generation [] = none
find_entry job_id generation (e ∷ es) =
    if e.job_id == job_id && e.generation == generation
    then some e.deadline
    else find_entry job_id generation es

-- The deadline that is in force for a job, if there is one: what a user of the manager knows.
unfoldable pub deadline_in : List (ℕ × ℕ) → List DeadlineEntry → ℕ → Option ℕ
unfolding find_entry
deadline_in active es job_id = elim (lookup job_id active) [
  | none ↦ none
  | some generation ↦ find_entry job_id generation es
]

abbrev pub deadline_of : TimeoutManager → ℕ → Option ℕ
deadline_of m job_id = deadline_in m.active_generations m.deadlines job_id

-- Every active generation has its entry.
abbrev pub Covers : List (ℕ × ℕ) → List DeadlineEntry → Type 0
Covers active es = (j g : ℕ) → lookup j active ≡ some g → (d : ℕ) × (find_entry j g es ≡ some d)

pub record IsValid (m : TimeoutManager) : Type 0 where
  pub sorted : IsSorted m.deadlines
  pub used : All (λ e. e.generation < generation_limit m.next_generation) m.deadlines
  pub covered : Covers m.active_generations m.deadlines
  pub in_range : m.next_generation < 2 ^ 64

abbrev Above : ℕ → List DeadlineEntry → Type 0
Above d = All (λ x. d ≤ x.deadline)

Above-mono : (a b : ℕ) (es : List DeadlineEntry) → a ≤ b → Above b es → Above a es
Above-mono a b [] h s = tt
Above-mono a b (e ∷ es) h s = (omega arith, Above-mono a b es h s.1)

Above-push :
    (d : ℕ) (e : DeadlineEntry) (es : List DeadlineEntry)
    → d ≤ e.deadline
    → Above d es
    → Above d (push e es)
unfolding push
Above-push d e [] h s = (h, tt)
Above-push d e (x ∷ es) h s = ground (arith, Above-push d e es h)

pub push-IsSorted :
    (e : DeadlineEntry) (es : List DeadlineEntry) → IsSorted es → IsSorted (push e es)
unfolding push
push-IsSorted e [] s = (tt, tt)
push-IsSorted e (x ∷ es) s =
    ground (
      arith,
      push-IsSorted e es s.1,
      Above-push x.deadline e es,
      Above-mono e.deadline x.deadline es,
    )

pub discard-IsSorted :
    (active : List (ℕ × ℕ)) (es : List DeadlineEntry)
    → IsSorted es
    → IsSorted (discard_stale_entries active es)
unfolding discard_stale_entries
discard-IsSorted active [] s = tt
discard-IsSorted active (e ∷ es) s = ground (arith, discard-IsSorted active es s.1)

abbrev pub Used : ℕ → List DeadlineEntry → Type 0
Used limit = All (λ e. e.generation < limit)

pub Used-mono : (a b : ℕ) (es : List DeadlineEntry) → a ≤ b → Used a es → Used b es
Used-mono a b [] h s = tt
Used-mono a b (e ∷ es) h s = (omega arith, Used-mono a b es h s.1)

pub Used-push :
    (n : ℕ) (e : DeadlineEntry) (es : List DeadlineEntry)
    → e.generation < n
    → Used n es
    → Used n (push e es)
unfolding push
Used-push n e [] h s = (h, tt)
Used-push n e (x ∷ es) h s = ground (arith, Used-push n e es h)

pub Used-discard :
    (n : ℕ) (active : List (ℕ × ℕ)) (es : List DeadlineEntry)
    → Used n es
    → Used n (discard_stale_entries active es)
unfolding discard_stale_entries
Used-discard n active [] s = tt
Used-discard n active (e ∷ es) s = ground (arith, Used-discard n active es s.1)
