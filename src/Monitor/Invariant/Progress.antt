-- ===== src/Monitor/Invariant/Progress.antt =====
-- How an operation of src/process_monitor.cpp may change the monitor and the job table.
use runnerd.Prelude.{
  ℕ, Bool, false, not, ◌&&◌, ◌||◌, true, List, [], ◌∷◌, ◌++◌, ap, Option, none, some, Result, Act,
  ok, raise, continue, ◌≡◌, refl, ◌∙◌, arith,
}
use runnerd.Prelude.Assoc.{lookup, contains}
use runnerd.Job.{Job, is_terminal, can_transition}
use runnerd.Job.Lifecycle.{is_terminal-can_transition}
use runnerd.Monitor.{
  ProcessMonitor, Effect, closed, signalled_group, signalled_process, awaited, has_value,
}
use runnerd.Monitor.Invariant.{IsConsistent}

-- A job keeps its id and what it is to run; its state is kept too, or an allowed transition leads
-- to one that is terminal.
pub data JobMoves : Option Job → Option Job → Type 0 where
  absent : JobMoves none none
  stays :
      {a b : Job} → b.id ≡ a.id → b.spec ≡ a.spec → b.state ≡ a.state → JobMoves (some a) (some b)
  ends :
      {a b : Job}
      → b.id ≡ a.id
      → b.spec ≡ a.spec
      → is_terminal b.state ≡ true
      → can_transition a.state b.state ≡ true
      → JobMoves (some a) (some b)

pub unmoved : (job : Option Job) → JobMoves job job
unmoved none = absent
unmoved (some job) = stays refl refl refl

JobMoves-trans : {a b c : Option Job} → JobMoves a b → JobMoves b c → JobMoves a c
JobMoves-trans absent absent = absent
JobMoves-trans (stays i s p) (stays j t q) = stays (j ∙ i) (t ∙ s) (q ∙ p)
JobMoves-trans (stays i s p) (ends j t h q) = ends (j ∙ i) (t ∙ s) h (rw p at q)
JobMoves-trans (ends i s h p) (stays j t q) = ends (j ∙ i) (t ∙ s) (rw q h) (rw q p)
JobMoves-trans (ends i s h p) (ends {b} j t k q) =
    absurd (cc (q, (is_terminal-can_transition _).0 h b.state))

-- The signals among the effects.
unfoldable pub kills : List Effect → List Effect
kills [] = []
kills (closed fd ∷ es) = kills es
kills (signalled_group group signal ∷ es) = signalled_group group signal ∷ kills es
kills (signalled_process pid signal ∷ es) = signalled_process pid signal ∷ kills es
kills (awaited pid ∷ es) = kills es

pub kills-append : (es fs : List Effect) → kills (es ++ fs) ≡ kills es ++ kills fs
unfolding kills
kills-append [] fs = refl
kills-append (closed fd ∷ es) fs = kills-append es fs
kills-append (signalled_group group signal ∷ es) fs =
    ap (◌∷◌ (signalled_group group signal)) (kills-append es fs)
kills-append (signalled_process pid signal ∷ es) fs =
    ap (◌∷◌ (signalled_process pid signal)) (kills-append es fs)
kills-append (awaited pid ∷ es) fs = kills-append es fs

-- A close is no signal.
pub kills_closed : (es : List Effect) (fd : ℕ) → kills (es ++ closed fd ∷ []) ≡ kills es
unfolding kills
kills_closed [] fd = refl
kills_closed (closed other ∷ es) fd = kills_closed es fd
kills_closed (signalled_group group signal ∷ es) fd =
    ap (◌∷◌ (signalled_group group signal)) (kills_closed es fd)
kills_closed (signalled_process pid signal ∷ es) fd =
    ap (◌∷◌ (signalled_process pid signal)) (kills_closed es fd)
kills_closed (awaited pid ∷ es) fd = kills_closed es fd

-- Whether a job has a process.
abbrev pub is_active : ℕ → ProcessMonitor → Bool
is_active j m = has_value (lookup j m.active_jobs)

-- The jobs keep their states or end, one without a process does not change; no process is added,
-- exactly the jobs that lose theirs are announced, and no signal is sent.
pub record Progress (m m' : ProcessMonitor) : Type 0 where
  pub consistent : IsConsistent m'
  pub callback : m'.terminal_job_callback ≡ m.terminal_job_callback
  pub signals : kills m'.effects ≡ kills m.effects
  pub jobs : (j : ℕ) → JobMoves (lookup j m.jobs) (lookup j m'.jobs)
  pub settled : (j : ℕ) → is_active j m ≡ false → lookup j m'.jobs ≡ lookup j m.jobs
  pub fewer : (j : ℕ) → is_active j m ≡ false → is_active j m' ≡ false
  pub announced :
      (j : ℕ)
      → contains j m'.notifications ≡ (
          contains j m.notifications
          || m.terminal_job_callback && is_active j m && not (is_active j m'))

pub Progress_refl : (m : ProcessMonitor) → IsConsistent m → Progress m m
Progress_refl m c = record {
  consistent = c;
  callback = refl;
  signals = refl;
  jobs = λ j. unmoved (lookup j m.jobs);
  settled = λ j h. refl;
  fewer = λ j h. h;
  announced = λ j. ground arith;
}

pub Progress_trans : (m m' m'' : ProcessMonitor) → Progress m m' → Progress m' m'' → Progress m m''
Progress_trans m m' m'' p q = record {
  consistent = q.consistent;
  callback = q.callback ∙ p.callback;
  signals = q.signals ∙ p.signals;
  jobs = λ j. JobMoves-trans (p.jobs j) (q.jobs j);
  settled = λ j h. q.settled j (p.fewer j h) ∙ p.settled j h;
  fewer = λ j h. q.fewer j (p.fewer j h);
  announced = λ j. ground (arith, q.announced j, p.announced j, p.fewer j, q.fewer j, p.callback);
}

-- What follows an operation that succeeds adds its own progress.
pub continue-Progress {ℓ κ} :
    {A : Type ℓ} {B : Type κ} (m : ProcessMonitor) (r : Result A × ProcessMonitor)
    (f : A → Act ProcessMonitor B)
    → Progress m r.1
    → ((a : A) (m' : ProcessMonitor) → r ≡ (ok a, m') → IsConsistent m' → Progress m' (f a m').1)
    → Progress m (continue r f).1
continue-Progress m (ok a, m') f p next = Progress_trans m m' _ p (next a m' refl p.consistent)
continue-Progress m (raise e, m') f p next = p
