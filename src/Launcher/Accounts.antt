-- ===== src/Launcher/Accounts.antt =====
-- What becomes of the descriptors and the child of launchProcess (src/process_launcher.cpp).
use runnerd.Prelude.{
  ℕ, List, [], ◌∷◌, Result, ok, raise, ◌≡◌, refl, arith, ◌==◌, if◌then◌else◌, ◌+◌,
}
use runnerd.Job.{JobSpec, validate_job_spec}
use runnerd.Monitor.{Effect, closed, signalled_group, signalled_process, awaited}
use runnerd.Monitor.Start.{LaunchedProcess}
use runnerd.Launcher.{
  Pipe, AllOpen, no_descriptors, Opening, opened, not_opened, Piping, piped, not_piped, Forking,
  forked, not_forked, LaunchCalls, close_fd, close_ends, close_all, open_dev_null, create_pipe,
  open_descriptors, kill_and_reap_child, prepare_parent, finish_launch, fork_child, after_opening,
  ensure_standard_descriptors, launch_process,
}

-- How often a number occurs.
abbrev hit : ℕ → ℕ → ℕ
hit x y = if y == x then 1 else 0

abbrev times : ℕ → List ℕ → ℕ
times x [] = 0
times x (y ∷ ys) = hit x y + times x ys

abbrev closed_fds : List Effect → List ℕ
closed_fds [] = []
closed_fds (closed fd ∷ es) = fd ∷ closed_fds es
closed_fds (signalled_group g s ∷ es) = closed_fds es
closed_fds (signalled_process p s ∷ es) = closed_fds es
closed_fds (awaited p ∷ es) = closed_fds es

-- The kills and waits, in order.
abbrev endings : List Effect → List Effect
endings [] = []
endings (closed fd ∷ es) = endings es
endings (signalled_group g s ∷ es) = signalled_group g s ∷ endings es
endings (signalled_process p s ∷ es) = signalled_process p s ∷ endings es
endings (awaited p ∷ es) = awaited p ∷ endings es

-- open() and pipe2() are called in this order until one fails.
abbrev piped_fds : List Piping → List ℕ
piped_fds [] = []
piped_fds (piped r w ∷ ps) = r ∷ w ∷ piped_fds ps
piped_fds (not_piped e ∷ ps) = []

abbrev opened_fds : Opening → List Piping → List ℕ
opened_fds (opened fd) ps = fd ∷ piped_fds ps
opened_fds (not_opened e) ps = []

abbrev opened_by : LaunchCalls → List ℕ
opened_by c = opened_fds c.dev_null (c.stdout ∷ c.stderr ∷ c.startup_error ∷ [])

abbrev is_piped : List Piping → Forking → List ℕ
is_piped [] (forked pid) = pid ∷ []
is_piped [] (not_forked e) = []
is_piped (piped r w ∷ ps) f = is_piped ps f
is_piped (not_piped e ∷ ps) f = []

-- The child, if there is one.
abbrev child_of : Opening → List Piping → Forking → List ℕ
child_of (opened fd) ps f = is_piped ps f
child_of (not_opened e) ps f = []

abbrev child_by : LaunchCalls → List ℕ
child_by c = child_of c.dev_null (c.stdout ∷ c.stderr ∷ c.startup_error ∷ []) c.fork

abbrev held_fds : Result LaunchedProcess → List ℕ
held_fds (ok p) = p.stdout_fd ∷ p.stderr_fd ∷ p.startup_error_fd ∷ []
held_fds (raise e) = []

-- What is to happen to the child: nothing if it is handed over, else a kill and a wait.
abbrev endings_for : Result LaunchedProcess → List ℕ → List Effect
endings_for (ok p) pids = []
endings_for (raise e) [] = []
endings_for (raise e) (pid ∷ pids) =
    signalled_process pid 9 ∷ awaited pid ∷ endings_for (raise e) pids

-- Each descriptor is closed or handed over as often as it was opened, and the child as said above.
pub record IsAccounted (c : LaunchCalls) (x : Result LaunchedProcess × List Effect) : Type 0 where
  pub descriptors :
      (fd : ℕ) → times fd (closed_fds x.1) + times fd (held_fds x.0) ≡ times fd (opened_by c)
  pub child : endings x.1 ≡ endings_for x.0 (child_by c)

finish_launch-IsAccounted :
    (c : LaunchCalls) (fd : ℕ) (p q r : Pipe) (pid : ℕ) (prepared : Result (Unit {0}))
    → let o : AllOpen = record { dev_null = fd; stdout = p; stderr = q; startup_error = r } in
      let es = closed fd ∷ closed p.write_fd ∷ closed q.write_fd ∷ closed r.write_fd ∷ [] in
      let x = finish_launch pid o prepared es in
      ((n : ℕ)
        → times n (closed_fds x.1) + times n (held_fds x.0)
          ≡ times n
              (fd ∷ p.read_fd ∷ p.write_fd ∷ q.read_fd ∷ q.write_fd ∷ r.read_fd ∷ r.write_fd ∷ []))
      × (endings x.1 ≡ endings_for x.0 (pid ∷ []))
unfolding finish_launch kill_and_reap_child
finish_launch-IsAccounted c fd p q r pid (ok _) = ((λ n. omega arith), refl)
finish_launch-IsAccounted c fd p q r pid (raise e) = ((λ n. omega arith), refl)

-- By the calls that open the descriptors.
after_opening-account :
    (c : LaunchCalls) (a : Opening) (p q r : Piping) (f : Forking)
    → let c = record c { dev_null = a; stdout = p; stderr = q; startup_error = r; fork = f } in
      IsAccounted c (after_opening c (open_descriptors c no_descriptors) [])
unfolding after_opening open_descriptors open_dev_null create_pipe close_all close_fd close_ends
    fork_child
after_opening-account c (not_opened e) p q r f = record { descriptors = λ n. refl; child = refl }
after_opening-account c (opened fd) (not_piped e) q r f = record {
  descriptors = λ n. omega arith;
  child = refl;
}
after_opening-account c (opened fd) (piped a b) (not_piped e) r f = record {
  descriptors = λ n. omega arith;
  child = refl;
}
after_opening-account c (opened fd) (piped a b) (piped a' b') (not_piped e) f = record {
  descriptors = λ n. omega arith;
  child = refl;
}
after_opening-account c (opened fd) (piped a b) (piped a' b') (piped a'' b'') (not_forked e) =
    record { descriptors = λ n. omega arith; child = refl }
after_opening-account c (opened fd) (piped a b) (piped a' b') (piped a'' b'') (forked pid) =
    let (counts, ends) =
      finish_launch-IsAccounted c fd (record { read_fd = a; write_fd = b })
        (record { read_fd = a'; write_fd = b' }) (record { read_fd = a''; write_fd = b'' }) pid
        (prepare_parent c) in
    record { descriptors = counts; child = ends }

-- If the specification is valid and the descriptors 0 to 2 are open, then however the system calls
-- of launchProcess turn out, each descriptor is closed or handed over as often as it was opened; and
-- a child that was forked is killed and awaited, once each, if launchProcess throws, and left alone
-- if it returns.
pub launch_process-IsAccounted :
    (spec : JobSpec) (c : LaunchCalls)
    → validate_job_spec spec ≡ ok tt
    → ensure_standard_descriptors c [] ≡ (ok tt, [])
    → IsAccounted c (launch_process spec c [])
unfolding launch_process
launch_process-IsAccounted spec c is_valid are_open =
    rw (is_valid, are_open)
      (after_opening-account c c.dev_null c.stdout c.stderr c.startup_error c.fork)
