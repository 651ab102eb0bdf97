-- ===== src/Timeouts/Expiry.antt =====
-- handle_readable returns exactly the jobs whose deadline has come, and takes their deadlines away.
use runnerd.Prelude.{
  ℕ, zero, suc, ◌≤◌, ◌<◌, ◌≡◌, refl, true, false, ◌||◌, List, [], ◌∷◌, ◌++◌, none, some, arith, ltb,
  if◌then◌else◌, length, All, Bool-cases, inl, inr,
}
use runnerd.Prelude.Assoc.{contains, contains-append, erase, lookup-erase}
use runnerd.Timeouts.{
  DeadlineEntry, Sweep, is_current, discard_stale_entries, expire_step, expire_loop,
}
use runnerd.Timeouts.Invariant.{IsSorted, Used, find_entry, Covers, discard-IsSorted, Used-discard}
use runnerd.Timeouts.Deadlines.{Covers-discard}
use runnerd.Timeouts.Due.{
  is_due, sweep_deadline, current-deadline, other-deadline, stale-deadline, Above-lt, not_due,
  length-discard,
}

-- What the heap keeps in the loop: its order, its generations, and an entry for what is active.
pub record IsHeap (n : ℕ) (s : Sweep) : Type 0 where
  pub sorted : IsSorted s.heap
  pub used : Used n s.heap
  pub covered : Covers s.active s.heap

-- From `s` to `s'` exactly the jobs that are due are listed, and lose their deadlines.
pub record Sweeps (n now : ℕ) (s s' : Sweep) : Type 0 where
  pub listed :
      (j : ℕ)
      → contains j s'.expired_jobs ≡ (contains j s.expired_jobs || is_due now (sweep_deadline s j))
  pub left :
      (j : ℕ)
      → sweep_deadline s' j ≡ (if is_due now (sweep_deadline s j) then none else sweep_deadline s j)
  pub heap : IsHeap n s'

idle-Sweeps :
    (n now : ℕ) (s : Sweep) → IsHeap n s → All (λ x. now < x.deadline) s.heap → Sweeps n now s s
idle-Sweeps n now s o h = record {
  listed = λ j. ground (arith, not_due now s.active s.heap j h);
  left = λ j. rw (not_due now s.active s.heap j h);
  heap = o;
}

-- The round that pops a current entry, before the rest of the loop.
pop_current : (now : ℕ) (e : DeadlineEntry) (rest : List DeadlineEntry) (s : Sweep) → Sweep
pop_current now e rest s = record {
  heap = discard_stale_entries (erase e.job_id s.active) rest;
  active = erase e.job_id s.active;
  expired_jobs = s.expired_jobs ++ e.job_id ∷ [];
}

popped-Sweeps :
    (n now : ℕ) (e : DeadlineEntry) (rest : List DeadlineEntry) (s s' : Sweep)
    → s.heap ≡ e ∷ rest
    → e.deadline ≤ now
    → is_current s.active e ≡ true
    → Sweeps n now (pop_current now e rest s) s'
    → Sweeps n now s s'
unfolding pop_current contains
popped-Sweeps n now e rest s s' h due is_now r = record {
  listed = λ j. ground (
    arith,
    r.listed j,
    contains-append j s.expired_jobs (e.job_id ∷ []),
    other-deadline e rest s.active j,
    current-deadline e rest s.active is_now,
  );
  left = λ j.
      ground (
        arith,
        r.left j,
        other-deadline e rest s.active j,
        current-deadline e rest s.active is_now,
      );
  heap = r.heap;
}

expire_loop_stop :
    (fuel now : ℕ) (s : Sweep) → expire_step now s.heap s ≡ none → expire_loop (suc fuel) now s ≡ s
unfolding expire_loop
expire_loop_stop fuel now s e = rw (e, expire_loop)

expire_loop_next :
    (fuel now : ℕ) (s s' : Sweep)
    → expire_step now s.heap s ≡ some s'
    → expire_loop (suc fuel) now s ≡ expire_loop fuel now s'
unfolding expire_loop
expire_loop_next fuel now s s' e = rw (e, expire_loop)

popped-IsHeap :
    (n now : ℕ) (e : DeadlineEntry) (rest : List DeadlineEntry) (s : Sweep)
    → s.heap ≡ e ∷ rest
    → IsHeap n s
    → IsHeap n (pop_current now e rest s)
unfolding pop_current find_entry
popped-IsHeap n now e rest s h o =
    let active' = erase e.job_id s.active in
    record {
      sorted = discard-IsSorted active' rest ((rw h at (o.sorted)).1);
      used = Used-discard n active' rest ((rw h at (o.used)).1);
      covered = Covers-discard active' rest λ j g a.
          let whole : Covers s.active (e ∷ rest) = rw h at (o.covered) in
          let (d, found) = whole j g (ground (arith, lookup-erase e.job_id j s.active)) in
          (d, ground (arith, lookup-erase e.job_id j s.active));
    }

stale-IsHeap :
    (n : ℕ) (e : DeadlineEntry) (rest : List DeadlineEntry) (s : Sweep)
    → s.heap ≡ e ∷ rest
    → is_current s.active e ≡ false
    → IsHeap n s
    → IsHeap n (record s { heap = rest })
unfolding is_current find_entry
stale-IsHeap n e rest s h stale o = record {
  sorted = (rw h at (o.sorted)).1;
  used = (rw h at (o.used)).1;
  covered = λ j g a.
      let whole : Covers s.active (e ∷ rest) = rw h at (o.covered) in
      let (d, found) = whole j g a in (d, ground arith);
}

pub expire_loop-Sweeps :
    (fuel n now : ℕ) (s : Sweep) (es : List DeadlineEntry)
    → s.heap ≡ es
    → IsHeap n s
    → length es ≤ fuel
    → Sweeps n now s (expire_loop fuel now s)
expire_loop-Sweeps zero n now s [] h o f = unfold expire_loop in idle-Sweeps n now s o (rw h tt)
expire_loop-Sweeps zero n now s (e ∷ rest) h o f = absurd (omega arith)
expire_loop-Sweeps (suc fuel) n now s [] h o f =
    rw (expire_loop_stop fuel now s (rw h (unfold expire_step in refl)))
      (idle-Sweeps n now s o (rw h tt))
expire_loop-Sweeps (suc fuel) n now s (e ∷ rest) h o f = elim (Bool-cases (ltb now e.deadline)) [
  | inl future ↦
      let ahead : now < e.deadline = ground arith in
      rw (expire_loop_stop fuel now s (rw h (unfold expire_step in rw future))) (
        idle-Sweeps n now s o
          (rw h (ahead, Above-lt now e.deadline rest ahead ((rw h at (o.sorted)).0))))
  | inr come ↦ elim (Bool-cases (is_current s.active e)) [
    | inl is_now ↦
        let s' = pop_current now e rest s in
        let step : expire_step now s.heap s ≡ some s' =
          rw h (unfold expire_step pop_current in rw (come, is_now)) in
        rw (expire_loop_next fuel now s s' step) (
          popped-Sweeps n now e rest s _ h (ground arith) is_now (
            expire_loop-Sweeps fuel n now s' (discard_stale_entries (erase e.job_id s.active) rest)
              (unfold pop_current in refl) (popped-IsHeap n now e rest s h o)
              (omega (arith, length-discard (erase e.job_id s.active) rest))))
    | inr stale ↦
        let s' : Sweep = record s { heap = rest } in
        let step : expire_step now s.heap s ≡ some s' =
          rw h (unfold expire_step in rw (come, stale)) in
        let r =
          expire_loop-Sweeps fuel n now s' rest refl (stale-IsHeap n e rest s h stale o)
            (omega arith) in
        rw (expire_loop_next fuel now s s' step) (record {
          listed = λ j. ground (arith, r.listed j, stale-deadline e rest s.active j stale);
          left = λ j. ground (arith, r.left j, stale-deadline e rest s.active j stale);
          heap = r.heap;
        })
  ]
]
