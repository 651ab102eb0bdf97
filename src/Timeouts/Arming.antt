-- ===== src/Timeouts/Arming.antt =====
-- The timerfd waits for the earliest deadline in force.
use runnerd.Prelude.{
  ℕ, ◌+◌, ◌-◌, ◌*◌, ◌≤◌, ◌<◌, ◌≡◌, refl, ◌⊎◌, inl, inr, true, List, [], ◌∷◌, none, some, arith, leb,
  if◌then◌else◌, All, Option-cases,
}
use runnerd.Prelude.Assoc.{lookup}
use runnerd.Timeouts.{
  DeadlineEntry, TimeoutManager, Interval, is_current, discard_stale_entries, remaining_interval,
  arm_to_next_deadline, nanoseconds_per_second, timer_for,
}
use runnerd.Timeouts.Invariant.{
  IsSorted, find_entry, deadline_in, deadline_of, IsValid, discard-IsSorted,
}

-- The nanoseconds of an interval.
abbrev pub total : Interval → ℕ
total i = i.tv_sec * nanoseconds_per_second + i.tv_nsec

-- The timer is off and no deadline is in force, or it is set for the earliest deadline in force:
-- for the time until then, or for a nanosecond if that has passed.
abbrev pub IsArmed : ℕ → TimeoutManager → Type 0
IsArmed now m =
    ((m.timer ≡ none) × ((j : ℕ) → deadline_of m j ≡ none))
    ⊎ ((i : Interval) × (j : ℕ) × (d : ℕ) × (m.timer ≡ some i)
        × (deadline_of m j ≡ some d)
        × ((k e : ℕ) → deadline_of m k ≡ some e → d ≤ e)
        × (total i ≡ (if leb d now then 1 else d - now))
        × (i.tv_nsec < nanoseconds_per_second)
        × (0 < total i))

-- Behind discard_stale_entries the first entry, if there is one, is current.
abbrev StartsCurrent : List (ℕ × ℕ) → List DeadlineEntry → Type 0
StartsCurrent active [] = Unit {0}
StartsCurrent active (e ∷ es) = is_current active e ≡ true

discard-StartsCurrent :
    (active : List (ℕ × ℕ)) (es : List DeadlineEntry)
    → StartsCurrent active (discard_stale_entries active es)
unfolding discard_stale_entries
discard-StartsCurrent active [] = tt
discard-StartsCurrent active (e ∷ es) = ground (arith, discard-StartsCurrent active es)

find_entry-ge :
    (j g a d : ℕ) (es : List DeadlineEntry)
    → All (λ x. a ≤ x.deadline) es
    → find_entry j g es ≡ some d
    → a ≤ d
unfolding find_entry
find_entry-ge j g a d [] h e = absurd (cc)
find_entry-ge j g a d (x ∷ es) h e = ground (arith, find_entry-ge j g a d es h.1)

first_is_earliest :
    (active : List (ℕ × ℕ)) (e : DeadlineEntry) (es : List DeadlineEntry) (k d : ℕ)
    → IsSorted (e ∷ es)
    → deadline_in active (e ∷ es) k ≡ some d
    → e.deadline ≤ d
unfolding deadline_in
first_is_earliest active e es k d s h = elim (Option-cases (lookup k active)) [
  | inl absent ↦ absurd (ground arith)
  | inr (g, present) ↦ find_entry-ge k g e.deadline d (e ∷ es) (omega arith, s.0) (ground arith)
]

first_in_force :
    (active : List (ℕ × ℕ)) (e : DeadlineEntry) (es : List DeadlineEntry)
    → is_current active e ≡ true
    → deadline_in active (e ∷ es) e.job_id ≡ some e.deadline
unfolding deadline_in find_entry is_current
first_in_force active e es h = ground arith

nothing_in_force : (active : List (ℕ × ℕ)) (j : ℕ) → deadline_in active [] j ≡ none
unfolding deadline_in find_entry
nothing_in_force active j = ground arith

total-remaining_interval :
    (d now : ℕ)
    → (total (remaining_interval d now) ≡ (if leb d now then 1 else d - now))
      × ((remaining_interval d now).tv_nsec < nanoseconds_per_second)
      × (0 < total (remaining_interval d now))
unfolding remaining_interval
total-remaining_interval d now = ground arith

timer_for-IsArmed :
    (now : ℕ) (m : TimeoutManager) (es : List DeadlineEntry)
    → IsSorted es
    → StartsCurrent m.active_generations es
    → IsArmed now (record m { deadlines = es; timer = timer_for now es })
timer_for-IsArmed now m [] s c = inl (refl, λ j. nothing_in_force m.active_generations j)
timer_for-IsArmed now m (e ∷ es) s c = inr (
  remaining_interval e.deadline now,
  e.job_id,
  e.deadline,
  refl,
  first_in_force m.active_generations e es c,
  λ k d h. first_is_earliest m.active_generations e es k d s h,
  (total-remaining_interval e.deadline now).0,
  (total-remaining_interval e.deadline now).1,
  (total-remaining_interval e.deadline now).2,
)

-- When arm_to_next_deadline sets the timerfd of a valid manager, it is set for the earliest deadline in force, for
-- at least a nanosecond, or it is off if there is none.
pub arm_to_next_deadline-IsArmed :
    (now : ℕ) (m : TimeoutManager) → IsValid m → IsArmed now (arm_to_next_deadline now none m).1
unfolding arm_to_next_deadline
arm_to_next_deadline-IsArmed now m v =
    timer_for-IsArmed now m (discard_stale_entries m.active_generations m.deadlines)
      (discard-IsSorted m.active_generations m.deadlines v.sorted)
      (discard-StartsCurrent m.active_generations m.deadlines)
