-- ===== src/Tests/Deadlines.antt =====
-- A manager with the deadlines of two jobs.
use runnerd.Prelude.{
  ℕ, ◌+◌, ◌*◌, ◌≡◌, refl, List, [], ◌∷◌, none, some, arith, ok, ◌==◌, if◌then◌else◌,
}
use runnerd.Prelude.Int.{pos}
use runnerd.Prelude.Assoc.{contains, lookup}
use runnerd.Timeouts.{
  TimeoutManager, Calls, Read, whole_count, interrupted, empty_manager, nanoseconds_per_millisecond,
  schedule, cancel, drain_timer, handle_readable, arm_to_next_deadline,
}
use runnerd.Timeouts.Invariant.{IsValid, deadline_of}
use runnerd.Timeouts.Deadlines.{schedule-deadline_of, cancel-deadline_of}
use runnerd.Timeouts.Due.{is_due}
use runnerd.Timeouts.Readable.{handle_readable-deadline_of, handle_readable-IsArmed}
use runnerd.Timeouts.Arming.{IsArmed, arm_to_next_deadline-IsArmed}

empty_manager-IsValid : IsValid empty_manager
unfolding lookup
empty_manager-IsValid = record {
  sorted = tt;
  used = tt;
  covered = λ j g h. absurd (cc h);
  in_range = omega arith;
}

-- The clock shows so many milliseconds, and timerfd_settime succeeds.
abbrev at_ms : ℕ → Calls
at_ms ms = record {
  now = ms * nanoseconds_per_millisecond;
  arming_at = ms * nanoseconds_per_millisecond;
  settime = none;
}

abbrev one_deadline : TimeoutManager
one_deadline = (schedule 7 (pos 500) (at_ms 10) empty_manager).1

abbrev two_deadlines : TimeoutManager
two_deadlines = (schedule 8 (pos 100) (at_ms 20) one_deadline).1

one_deadline-IsValid : IsValid one_deadline
one_deadline-IsValid =
    (schedule-deadline_of 7 500 (at_ms 10) empty_manager empty_manager-IsValid (omega arith)
      (λ e. absurd (omega arith))).0

generations_left : one_deadline.next_generation ≡ 2
unfolding schedule arm_to_next_deadline
generations_left = refl

two_deadlines-IsValid : IsValid two_deadlines
two_deadlines-IsValid =
    (schedule-deadline_of 8 100 (at_ms 20) one_deadline one_deadline-IsValid (omega arith)
      (λ e. absurd (omega (arith, generations_left)))).0

schedule-deadline_of_example :
    IsValid two_deadlines
    × ((k : ℕ)
        → deadline_of two_deadlines k ≡ (
            if 8 == k
            then some (20 * nanoseconds_per_millisecond + 100 * nanoseconds_per_millisecond)
            else deadline_of one_deadline k))
schedule-deadline_of_example =
    schedule-deadline_of 8 100 (at_ms 20) one_deadline one_deadline-IsValid (omega arith)
      (λ e. absurd (omega (arith, generations_left)))

cancel-deadline_of_example :
    IsValid (cancel 7 two_deadlines)
    × ((k : ℕ)
        → deadline_of (cancel 7 two_deadlines) k
          ≡ (if 7 == k then none else deadline_of two_deadlines k))
cancel-deadline_of_example = cancel-deadline_of 7 two_deadlines two_deadlines-IsValid

abbrev reads : List Read
reads = interrupted ∷ whole_count ∷ []

reads_end : drain_timer reads ≡ ok tt
unfolding drain_timer
reads_end = refl

-- At 130 ms the deadline of job 8 has passed, and that of job 7 has not.
handle_readable-deadline_of_example :
    (jobs : List ℕ) × ((handle_readable reads (at_ms 130) two_deadlines).0 ≡ ok jobs)
    × IsValid (handle_readable reads (at_ms 130) two_deadlines).1
    × ((j : ℕ) → contains j jobs ≡ is_due (at_ms 130).now (deadline_of two_deadlines j))
    × ((j : ℕ)
        → deadline_of (handle_readable reads (at_ms 130) two_deadlines).1 j ≡ (
            if is_due (at_ms 130).now (deadline_of two_deadlines j)
            then none
            else deadline_of two_deadlines j))
handle_readable-deadline_of_example =
    handle_readable-deadline_of reads (at_ms 130) two_deadlines two_deadlines-IsValid reads_end refl

handle_readable-IsArmed_example :
    IsArmed (at_ms 130).arming_at (handle_readable reads (at_ms 130) two_deadlines).1
handle_readable-IsArmed_example =
    handle_readable-IsArmed reads (at_ms 130) two_deadlines two_deadlines-IsValid reads_end refl

arm_to_next_deadline-IsArmed_example :
    IsArmed 1_000_000 (arm_to_next_deadline 1_000_000 none two_deadlines).1
arm_to_next_deadline-IsArmed_example =
    arm_to_next_deadline-IsArmed 1_000_000 two_deadlines two_deadlines-IsValid
