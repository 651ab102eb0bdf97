-- ===== src/Timeouts/Readable.antt =====
-- handle_readable as a whole: which jobs it returns, and which deadlines stay in force.
use runnerd.Prelude.{
  ℕ, ◌≡◌, refl, ap, ◌∙◌, List, [], Option, none, arith, ok, if◌then◌else◌, length,
}
use runnerd.Prelude.Assoc.{contains}
use runnerd.Timeouts.{
  TimeoutManager, Calls, Sweep, Read, discard_stale_entries, arm_to_next_deadline, expire_loop,
  drain_timer, handle_readable,
}
use runnerd.Timeouts.Invariant.{
  generation_limit, deadline_of, IsValid, discard-IsSorted, Used-discard,
}
use runnerd.Timeouts.Deadlines.{deadline_in-discard, arm-deadline_of, arm-IsValid, Covers-discard}
use runnerd.Timeouts.Arming.{IsArmed, arm_to_next_deadline-IsArmed}
use runnerd.Timeouts.Due.{is_due}
use runnerd.Timeouts.Expiry.{Sweeps, expire_loop-Sweeps}

-- The loop's variables before and after it.
abbrev before : TimeoutManager → Sweep
before m = record {
  heap = discard_stale_entries m.active_generations m.deadlines;
  active = m.active_generations;
  expired_jobs = [];
}

after : ℕ → TimeoutManager → Sweep
after now m = expire_loop (length (before m).heap) now (before m)

abbrev swept : ℕ → TimeoutManager → TimeoutManager
swept now m = record m { deadlines = (after now m).heap; active_generations = (after now m).active }

after-Sweeps :
    (now : ℕ) (m : TimeoutManager)
    → IsValid m
    → Sweeps (generation_limit m.next_generation) now (before m) (after now m)
unfolding after
after-Sweeps now m v =
    expire_loop-Sweeps (length (before m).heap) _ now (before m) (before m).heap refl
      (record {
        sorted = discard-IsSorted m.active_generations m.deadlines v.sorted;
        used = Used-discard _ m.active_generations m.deadlines v.used;
        covered = Covers-discard m.active_generations m.deadlines v.covered;
      })
      (omega arith)

swept-IsValid : (now : ℕ) (m : TimeoutManager) → IsValid m → IsValid (swept now m)
swept-IsValid now m v =
    let h = (after-Sweeps now m v).heap in
    record { sorted = h.sorted; used = h.used; covered = h.covered; in_range = v.in_range }

handle_readable_ok :
    (reads : List Read) (c : Calls) (m : TimeoutManager)
    → drain_timer reads ≡ ok tt
    → c.settime ≡ none
    → handle_readable reads c m
      ≡ (ok (after c.now m).expired_jobs, (arm_to_next_deadline c.arming_at none (swept c.now m)).1)
unfolding handle_readable after arm_to_next_deadline
handle_readable_ok reads c m e armed = rw (e, armed)

-- If the timerfd of a valid manager can be read and set, handle_readable returns exactly the jobs whose deadline in
-- force is not after the clock's reading. Those jobs have no deadline afterwards, all others keep
-- theirs, and so does the invariant.
pub handle_readable-deadline_of :
    (reads : List Read) (c : Calls) (m : TimeoutManager)
    → IsValid m
    → drain_timer reads ≡ ok tt
    → c.settime ≡ none
    → (jobs : List ℕ) × ((handle_readable reads c m).0 ≡ ok jobs)
      × IsValid (handle_readable reads c m).1
      × ((j : ℕ) → contains j jobs ≡ is_due c.now (deadline_of m j))
      × ((j : ℕ)
          → deadline_of (handle_readable reads c m).1 j
            ≡ (if is_due c.now (deadline_of m j) then none else deadline_of m j))
unfolding contains
handle_readable-deadline_of reads c m v readable armed =
    let s = after-Sweeps c.now m v in
    let same = λ (j : ℕ). deadline_in-discard m.active_generations m.deadlines j in
    rw (handle_readable_ok reads c m readable armed) (
      (after c.now m).expired_jobs,
      refl,
      arm-IsValid (swept c.now m) (swept-IsValid c.now m v) c.arming_at none,
      λ j. s.listed j ∙ ap (is_due c.now) (same j),
      λ j.
          arm-deadline_of c.arming_at none (swept c.now m) j
          ∙ s.left j
          ∙ ap (λ (d : Option ℕ). if is_due c.now d then none else d) (same j),
    )

-- If the timerfd of a valid manager can be read and set, handle_readable leaves it set for the earliest deadline that
-- is still in force, or off if there is none.
pub handle_readable-IsArmed :
    (reads : List Read) (c : Calls) (m : TimeoutManager)
    → IsValid m
    → drain_timer reads ≡ ok tt
    → c.settime ≡ none
    → IsArmed c.arming_at (handle_readable reads c m).1
handle_readable-IsArmed reads c m v readable armed =
    rw (handle_readable_ok reads c m readable armed)
      (arm_to_next_deadline-IsArmed c.arming_at (swept c.now m) (swept-IsValid c.now m v))
