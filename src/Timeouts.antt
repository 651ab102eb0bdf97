-- ===== src/Timeouts.antt =====
-- include/runnerd/timeout_manager.h and src/timeout_manager.cpp: one deadline for each job, a heap
-- with lazy deletion by generations, and a timerfd. The clock's readings and the outcomes of the
-- system calls are arguments. The priority queue is a list in the order in which it is popped.
pub mod Invariant
pub mod Deadlines
pub mod Due
pub mod Expiry
pub mod Readable
pub mod Arming
use runnerd.Prelude.{
  ℕ, zero, suc, ◌+◌, ◌-◌, ◌*◌, ◌/◌, ◌%◌, ◌^◌, Bool, true, false, not, ◌&&◌, ◌||◌, List, [], ◌∷◌,
  ◌++◌, Option, none, some, Result, Act, ok, raise, continue, invalid_argument, overflow_error,
  runtime_error, system_error, codes, ◌==◌, ltb, leb, if◌then◌else◌, length,
}
use runnerd.Prelude.Int.{ℤ, is_nonpositive, magnitude}
use runnerd.Prelude.Assoc.{lookup, insert, erase}

-- Times are nanoseconds of the monotonic clock.
pub record DeadlineEntry : Type 0 where
  pub deadline : ℕ
  pub job_id : ℕ
  pub generation : ℕ

-- The interval that the timerfd waits for.
pub record Interval : Type 0 where
  pub tv_sec : ℕ
  pub tv_nsec : ℕ

pub record TimeoutManager : Type 0 where
  pub next_generation : ℕ
  pub deadlines : List DeadlineEntry
  pub active_generations : List (ℕ × ℕ)
  pub timer : Option Interval

-- A new manager, with the timerfd not armed.
abbrev pub empty_manager : TimeoutManager
empty_manager = record {
  next_generation = 1;
  deadlines = [];
  active_generations = [];
  timer = none;
}

abbrev pub nanoseconds_per_second : ℕ
nanoseconds_per_second = 1_000_000_000

abbrev pub nanoseconds_per_millisecond : ℕ
nanoseconds_per_millisecond = 1_000_000

-- EarlierDeadline(left, right): right is popped first.
abbrev pub later : DeadlineEntry → DeadlineEntry → Bool
later left right =
    if not (left.deadline == right.deadline)
    then ltb right.deadline left.deadline
    else ltb right.job_id left.job_id

-- deadlines_.push(entry)
unfoldable pub push : DeadlineEntry → List DeadlineEntry → List DeadlineEntry
push entry [] = entry ∷ []
push entry (e ∷ es) = if later e entry then entry ∷ e ∷ es else e ∷ push entry es

unfoldable pub is_current : List (ℕ × ℕ) → DeadlineEntry → Bool
is_current active entry = elim (lookup entry.job_id active) [
  | none ↦ false
  | some generation ↦ generation == entry.generation
]

-- discardStaleEntries: pops while the top is not current.
unfoldable pub discard_stale_entries : List (ℕ × ℕ) → List DeadlineEntry → List DeadlineEntry
unfolding is_current
discard_stale_entries active [] = []
discard_stale_entries active (entry ∷ es) =
    if is_current active entry then entry ∷ es else discard_stale_entries active es

-- The time from `now` to the deadline; one nanosecond if it has passed, since zero disarms.
unfoldable pub remaining_interval : ℕ → ℕ → Interval
remaining_interval deadline now =
    let remaining = if leb deadline now then 1 else deadline - now in
    record {
      tv_sec = remaining / nanoseconds_per_second;
      tv_nsec = remaining % nanoseconds_per_second;
    }

abbrev pub timer_for : ℕ → List DeadlineEntry → Option Interval
timer_for now [] = none
timer_for now (entry ∷ es) = some (remaining_interval entry.deadline now)

-- `settime` is the errno of timerfd_settime, none if it succeeds; a call that is interrupted is
-- made again, so it is the outcome of the last one.
unfoldable pub arm_to_next_deadline : ℕ → Option ℕ → Act TimeoutManager (Unit {0})
unfolding discard_stale_entries remaining_interval
arm_to_next_deadline now settime m =
    let m' : TimeoutManager = record m {
      deadlines = discard_stale_entries m.active_generations m.deadlines;
    } in
    elim settime [
      | none ↦ (ok tt, record m' { timer = timer_for now m'.deadlines })
      | some error_number ↦ (raise (system_error error_number (codes "timerfd_settime")), m')
    ]

-- The two readings of the clock, and timerfd_settime.
pub record Calls : Type 0 where
  pub now : ℕ
  pub arming_at : ℕ
  pub settime : Option ℕ

unfoldable pub schedule : ℕ → ℤ → Calls → Act TimeoutManager (Unit {0})
unfolding push arm_to_next_deadline
schedule job_id timeout c m =
    if is_nonpositive timeout
    then (raise (invalid_argument (codes "execution timeout must be positive")), m)
    else if m.next_generation == 0
    then (raise (overflow_error (codes "timeout generation space exhausted")), m)
    else let generation = m.next_generation in
      let entry : DeadlineEntry = record {
        deadline = c.now + magnitude timeout * nanoseconds_per_millisecond;
        job_id = job_id;
        generation = generation;
      } in
      arm_to_next_deadline c.arming_at c.settime (record m {
        next_generation = (generation + 1) % 2 ^ 64;
        deadlines = push entry m.deadlines;
        active_generations = insert job_id generation m.active_generations;
      })

unfoldable pub cancel : ℕ → TimeoutManager → TimeoutManager
cancel job_id m = record m { active_generations = erase job_id m.active_generations }

-- One read of the timerfd, up to the one that finds it empty.
pub data Read : Type 0 where
  whole_count : Read
  interrupted : Read
  failed : ℕ → Read
  partial_count : Read

-- The reading loop; the list ends where a read returns EAGAIN.
unfoldable pub drain_timer : List Read → Result (Unit {0})
drain_timer [] = ok tt
drain_timer (whole_count ∷ reads) = drain_timer reads
drain_timer (interrupted ∷ reads) = drain_timer reads
drain_timer (failed error_number ∷ reads) = raise (system_error error_number (codes "read timerfd"))
drain_timer (partial_count ∷ reads) =
    raise (runtime_error (codes "timerfd returned an unexpected read size"))

-- The variables of the loop in handleReadable.
pub record Sweep : Type 0 where
  pub heap : List DeadlineEntry
  pub active : List (ℕ × ℕ)
  pub expired_jobs : List ℕ

-- One round of that loop; none ends it.
unfoldable pub expire_step : ℕ → List DeadlineEntry → Sweep → Option Sweep
unfolding is_current discard_stale_entries
expire_step now [] s = none
expire_step now (entry ∷ rest) s =
    if ltb now entry.deadline
    then none
    else if not (is_current s.active entry)
    then some (record s { heap = rest })
    else let active' = erase entry.job_id s.active in
      some (record {
        heap = discard_stale_entries active' rest;
        active = active';
        expired_jobs = s.expired_jobs ++ entry.job_id ∷ [];
      })

-- Each round pops an entry, so the size of the heap is fuel enough.
unfoldable pub expire_loop : ℕ → ℕ → Sweep → Sweep
expire_loop zero now s = s
expire_loop (suc fuel) now s = elim (expire_step now s.heap s) [
  | none ↦ s
  | some s' ↦ expire_loop fuel now s'
]

unfoldable pub handle_readable : List Read → Calls → Act TimeoutManager (List ℕ)
unfolding drain_timer expire_step expire_loop arm_to_next_deadline
handle_readable reads c m =
    continue (drain_timer reads, m)
      λ _ m.
        let heap = discard_stale_entries m.active_generations m.deadlines in
        let s =
          expire_loop (length heap) c.now
            (record { heap = heap; active = m.active_generations; expired_jobs = [] }) in
        continue
          (arm_to_next_deadline c.arming_at c.settime
            (record m { deadlines = s.heap; active_generations = s.active }))
          λ _ m'. (ok s.expired_jobs, m')
