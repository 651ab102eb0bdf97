-- ===== src/Timeouts/Deadlines.antt =====
-- What schedule and cancel do to the deadlines in force.
use runnerd.Prelude.{
  ℕ, zero, suc, ◌+◌, ◌*◌, ◌%◌, ◌^◌, ◌<◌, ◌≡◌, refl, sym, ◌∙◌, ◌≢◌, false, ◌&&◌, List, [], ◌∷◌,
  Option, none, some, arith, ◌==◌, if◌then◌else◌, Bool-cases, Option-cases, inl, inr,
}
use runnerd.Prelude.Int.{pos}
use runnerd.Prelude.Assoc.{lookup, insert, lookup-insert, lookup-erase}
use runnerd.Timeouts.{
  DeadlineEntry, TimeoutManager, Calls, push, is_current, discard_stale_entries,
  arm_to_next_deadline, schedule, cancel, nanoseconds_per_millisecond,
}
use runnerd.Timeouts.Invariant.{
  Used, generation_limit, find_entry, deadline_in, deadline_of, Covers, IsValid, push-IsSorted,
  discard-IsSorted, Used-mono, Used-push, Used-discard,
}

-- An entry under a generation that no other entry has is found wherever the heap puts it.
find_entry-push :
    (e : DeadlineEntry) (j g : ℕ) (es : List DeadlineEntry)
    → Used e.generation es
    → find_entry j g (push e es)
      ≡ (if e.job_id == j && e.generation == g then some e.deadline else find_entry j g es)
unfolding find_entry push
find_entry-push e j g [] u = refl
find_entry-push e j g (x ∷ es) u = ground (arith, find_entry-push e j g es u.1)

find_entry-unused : (j g : ℕ) (es : List DeadlineEntry) → Used g es → find_entry j g es ≡ none
unfolding find_entry
find_entry-unused j g [] u = refl
find_entry-unused j g (e ∷ es) u = ground (arith, find_entry-unused j g es u.1)

-- Stale entries do not count.
pub deadline_in-discard :
    (active : List (ℕ × ℕ)) (es : List DeadlineEntry) (j : ℕ)
    → deadline_in active (discard_stale_entries active es) j ≡ deadline_in active es j
unfolding deadline_in discard_stale_entries find_entry is_current
deadline_in-discard active [] j = refl
deadline_in-discard active (e ∷ es) j = ground (arith, deadline_in-discard active es j)

deadline_in-push :
    (e : DeadlineEntry) (active : List (ℕ × ℕ)) (es : List DeadlineEntry) (j : ℕ)
    → Used e.generation es
    → deadline_in (insert e.job_id e.generation active) (push e es) j
      ≡ (if e.job_id == j then some e.deadline else deadline_in active es j)
unfolding deadline_in
deadline_in-push e active es j u = elim (Option-cases (lookup j active)) [
  | inl none_yet ↦
      ground
        (arith, lookup-insert e.job_id j e.generation active, find_entry-push e j e.generation es u)
  | inr (g, is_active) ↦ ground (
    arith,
    lookup-insert e.job_id j e.generation active,
    find_entry-push e j e.generation es u,
    find_entry-push e j g es u,
  )
]

pub deadline_in_active :
    (active : List (ℕ × ℕ)) (es : List DeadlineEntry) (j g : ℕ)
    → lookup j active ≡ some g
    → deadline_in active es j ≡ find_entry j g es
unfolding deadline_in
deadline_in_active active es j g h = ground arith

Covers-push :
    (e : DeadlineEntry) (active : List (ℕ × ℕ)) (es : List DeadlineEntry)
    → Used e.generation es
    → Covers active es
    → Covers (insert e.job_id e.generation active) (push e es)
Covers-push e active es u c j g h = elim (Bool-cases (e.job_id == j)) [
  | inl same ↦ (
    e.deadline,
    ground (arith, lookup-insert e.job_id j e.generation active, find_entry-push e j g es u),
  )
  | inr other ↦
      let (d, found) = c j g (ground (arith, lookup-insert e.job_id j e.generation active)) in
      (d, ground (arith, find_entry-push e j g es u))
]

pub Covers-discard :
    (active : List (ℕ × ℕ)) (es : List DeadlineEntry)
    → Covers active es
    → Covers active (discard_stale_entries active es)
Covers-discard active es c j g h =
    let (d, found) = c j g h in
    (
      d,
      sym (deadline_in_active active (discard_stale_entries active es) j g h)
          ∙ deadline_in-discard active es j
          ∙ deadline_in_active active es j g h
          ∙ found,
    )

-- Arming the timer, also where it fails, changes no deadline in force.
pub arm-deadline_of :
    (now : ℕ) (settime : Option ℕ) (m : TimeoutManager) (j : ℕ)
    → deadline_of (arm_to_next_deadline now settime m).1 j ≡ deadline_of m j
unfolding arm_to_next_deadline
arm-deadline_of now none m j = deadline_in-discard m.active_generations m.deadlines j
arm-deadline_of now (some e) m j = deadline_in-discard m.active_generations m.deadlines j

limit_grows : (n g : ℕ) → g ≡ n → n ≢ 0 → n < 2 ^ 64 → g < generation_limit ((n + 1) % 2 ^ 64)
limit_grows n g e more h = ground arith

module _ (m : TimeoutManager) (v : IsValid m) where
  discarded-IsValid :
      IsValid (record m { deadlines = discard_stale_entries m.active_generations m.deadlines })
  discarded-IsValid = record {
    sorted = discard-IsSorted m.active_generations m.deadlines v.sorted;
    used = Used-discard _ m.active_generations m.deadlines v.used;
    covered = Covers-discard m.active_generations m.deadlines v.covered;
    in_range = v.in_range;
  }

  pub arm-IsValid : (now : ℕ) (settime : Option ℕ) → IsValid (arm_to_next_deadline now settime m).1
  unfolding arm_to_next_deadline
  arm-IsValid now none = record {
    sorted = discarded-IsValid.sorted;
    used = discarded-IsValid.used;
    covered = discarded-IsValid.covered;
    in_range = v.in_range;
  }
  arm-IsValid now (some e) = discarded-IsValid

  -- The manager before arming, in schedule.
  pushed-IsValid :
      (e : DeadlineEntry)
      → e.generation ≡ m.next_generation
      → m.next_generation ≢ 0
      → IsValid (record m {
        next_generation = (m.next_generation + 1) % 2 ^ 64;
        deadlines = push e m.deadlines;
        active_generations = insert e.job_id e.generation m.active_generations;
      })
  pushed-IsValid e fresh more =
      let old : Used e.generation m.deadlines =
        Used-mono _ e.generation m.deadlines (ground arith) v.used in
      record {
        sorted = push-IsSorted e m.deadlines v.sorted;
        used =
            Used-push _ e m.deadlines
              (limit_grows m.next_generation e.generation fresh more v.in_range)
              (Used-mono e.generation _ m.deadlines
                (ground (arith, limit_grows m.next_generation e.generation fresh more v.in_range))
                old);
        covered = Covers-push e m.active_generations m.deadlines old v.covered;
        in_range = omega arith;
      }

abbrev scheduled_entry : ℕ → ℕ → ℕ → TimeoutManager → DeadlineEntry
scheduled_entry j n now m = record {
  deadline = now + n * nanoseconds_per_millisecond;
  job_id = j;
  generation = m.next_generation;
}

-- In a valid manager, a positive timeout of a job puts its deadline that long after the clock's reading, in place of an
-- older one, and leaves the other jobs' deadlines and the invariant, whether or not the timerfd can
-- be set. There have to be generations left.
pub schedule-deadline_of :
    (j n : ℕ) (c : Calls) (m : TimeoutManager)
    → IsValid m
    → 0 < n
    → m.next_generation ≢ 0
    → IsValid (schedule j (pos n) c m).1
      × ((k : ℕ)
          → deadline_of (schedule j (pos n) c m).1 k
            ≡ (if j == k then some (c.now + n * nanoseconds_per_millisecond) else deadline_of m k))
unfolding schedule
schedule-deadline_of j zero c m v positive more = absurd (omega arith)
schedule-deadline_of j (suc n) c m v positive more =
    let e = scheduled_entry j (suc n) c.now m in
    let old : Used e.generation m.deadlines =
      Used-mono _ e.generation m.deadlines (ground arith) v.used in
    let some_left : (m.next_generation == 0) ≡ false = ground arith in
    let pushed : TimeoutManager = record m {
      next_generation = (m.next_generation + 1) % 2 ^ 64;
      deadlines = push e m.deadlines;
      active_generations = insert j m.next_generation m.active_generations;
    } in
    rw some_left (
      arm-IsValid pushed (pushed-IsValid m v e refl more) c.arming_at c.settime,
      λ k.
          arm-deadline_of c.arming_at c.settime pushed k
          ∙ deadline_in-push e m.active_generations m.deadlines k old,
    )

-- In a valid manager, a cancelled job, which may have had no deadline, has none, the others keep
-- theirs, and so does the manager its invariant.
pub cancel-deadline_of :
    (j : ℕ) (m : TimeoutManager)
    → IsValid m
    → IsValid (cancel j m)
      × ((k : ℕ) → deadline_of (cancel j m) k ≡ (if j == k then none else deadline_of m k))
unfolding cancel deadline_in
cancel-deadline_of j m v = (
  record {
    sorted = v.sorted;
    used = v.used;
    covered = λ k g h. v.covered k g (ground (arith, lookup-erase j k m.active_generations));
    in_range = v.in_range;
  },
  λ k. ground (arith, lookup-erase j k m.active_generations),
)
