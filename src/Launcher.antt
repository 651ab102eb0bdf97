-- ===== src/Launcher.antt =====
-- src/process_launcher.cpp and src/fd_utils.cpp: launchProcess in the parent, from the opening of the descriptors to the
-- result. What the system calls return is an argument; the closes, kills and waits are listed in
-- order. The child is in Launcher/Child.
-- The descriptors that a launch opens, closes and hands over.
pub mod Accounts
-- What a child that does not start reports.
pub mod Child
use runnerd.Prelude.{
  ℕ, List, [], ◌∷◌, ◌++◌, Option, none, some, Exception, Result, Act, ok, raise, continue, bind,
  system_error, codes, ◌==◌, ◌||◌, if◌then◌else◌,
}
use runnerd.Job.{JobSpec, validate_job_spec}
use runnerd.Monitor.{Effect, closed, signalled_process, awaited}
use runnerd.Monitor.Signals.{sigkill, no_process}
use runnerd.Monitor.Start.{LaunchedProcess}

pub record Pipe : Type 0 where
  pub read_fd : ℕ
  pub write_fd : ℕ

-- The local variables of launchProcess. A descriptor or pipe that is -1 is none.
pub record Descriptors : Type 0 where
  pub dev_null_fd : Option ℕ
  pub stdout_pipe : Option Pipe
  pub stderr_pipe : Option Pipe
  pub startup_error_pipe : Option Pipe

abbrev no_descriptors : Descriptors
no_descriptors = record {
  dev_null_fd = none;
  stdout_pipe = none;
  stderr_pipe = none;
  startup_error_pipe = none;
}

-- The same once all are open.
pub record AllOpen : Type 0 where
  pub dev_null : ℕ
  pub stdout : Pipe
  pub stderr : Pipe
  pub startup_error : Pipe

-- open(), pipe2() and fork(), or their errno.
pub data Opening : Type 0 where
  opened : ℕ → Opening
  not_opened : ℕ → Opening

pub data Piping : Type 0 where
  piped : ℕ → ℕ → Piping
  not_piped : ℕ → Piping

pub data Forking : Type 0 where
  forked : ℕ → Forking
  not_forked : ℕ → Forking

-- The errnos of fcntl(F_GETFL) and fcntl(F_SETFL), none if they succeed.
pub record Unblocking : Type 0 where
  pub get_flags : Option ℕ
  pub set_flags : Option ℕ

-- For a descriptor from 0 to 2: the errno of fcntl(F_GETFD), open(), and the errno of dup2().
pub record Standard : Type 0 where
  pub get_fd : Option ℕ
  pub replacement : Opening
  pub duplicate : Option ℕ

pub record LaunchCalls : Type 0 where
  pub standard_input : Standard
  pub standard_output : Standard
  pub standard_error : Standard
  pub dev_null : Opening
  pub stdout : Piping
  pub stderr : Piping
  pub startup_error : Piping
  pub fork : Forking
  pub setpgid : Option ℕ
  pub unblock_stdout : Unblocking
  pub unblock_stderr : Unblocking
  pub unblock_startup_error : Unblocking

unfoldable close_fd : Option ℕ → List Effect
close_fd none = []
close_fd (some fd) = closed fd ∷ []

unfoldable close_ends : Option Pipe → List Effect
close_ends none = []
close_ends (some p) = closed p.read_fd ∷ closed p.write_fd ∷ []

unfoldable duplicate_standard : ℕ → ℕ → Option ℕ → Act (List Effect) (Unit {0})
duplicate_standard standard_fd replacement_fd none es = (ok tt, es ++ closed replacement_fd ∷ [])
duplicate_standard standard_fd replacement_fd (some error_number) es = (
  raise (system_error error_number (codes "dup2(/dev/null) for standard descriptor")),
  es ++ closed replacement_fd ∷ [],
)

unfoldable replace_standard : ℕ → Opening → Option ℕ → Act (List Effect) (Unit {0})
unfolding duplicate_standard
replace_standard standard_fd (not_opened error_number) duplicate es =
    (raise (system_error error_number (codes "open(/dev/null) for standard descriptor")), es)
replace_standard standard_fd (opened replacement_fd) duplicate es =
    if replacement_fd == standard_fd
    then (ok tt, es)
    else duplicate_standard standard_fd replacement_fd duplicate es

-- EBADF is 9.
unfoldable ensure_standard_descriptor : ℕ → Standard → Act (List Effect) (Unit {0})
unfolding replace_standard
ensure_standard_descriptor standard_fd s es = elim s.get_fd [
  | none ↦ (ok tt, es)
  | some error_number ↦
      if error_number == 9
      then replace_standard standard_fd s.replacement s.duplicate es
      else (raise (system_error error_number (codes "fcntl(F_GETFD) for standard descriptor")), es)
]

unfoldable pub ensure_standard_descriptors : LaunchCalls → Act (List Effect) (Unit {0})
unfolding ensure_standard_descriptor
ensure_standard_descriptors c es =
    continue (ensure_standard_descriptor 0 c.standard_input es) λ _ es.
      continue (ensure_standard_descriptor 1 c.standard_output es)
        λ _ es. ensure_standard_descriptor 2 c.standard_error es

-- The four calls that the handlers of a failure share.
unfoldable close_all : Descriptors → List Effect
unfolding close_fd close_ends
close_all d =
    close_fd d.dev_null_fd
    ++ close_ends d.stdout_pipe
    ++ close_ends d.stderr_pipe
    ++ close_ends d.startup_error_pipe

unfoldable open_dev_null : Opening → Result ℕ
open_dev_null (opened fd) = ok fd
open_dev_null (not_opened error_number) =
    raise (system_error error_number (codes "open(/dev/null)"))

unfoldable create_pipe : Piping → Result Pipe
create_pipe (piped read_fd write_fd) = ok (record { read_fd = read_fd; write_fd = write_fd })
create_pipe (not_piped error_number) = raise (system_error error_number (codes "pipe2"))

-- The first try block.
unfoldable open_descriptors : LaunchCalls → Act Descriptors AllOpen
unfolding open_dev_null create_pipe
open_descriptors c d =
    continue (open_dev_null c.dev_null, d)
      λ fd d.
        continue (create_pipe c.stdout, record d { dev_null_fd = some fd })
          λ p d.
            continue (create_pipe c.stderr, record d { stdout_pipe = some p })
              λ q d.
                continue (create_pipe c.startup_error, record d { stderr_pipe = some q })
                  λ r d. (
                    ok (record { dev_null = fd; stdout = p; stderr = q; startup_error = r }),
                    record d { startup_error_pipe = some r },
                  )

unfoldable set_parent_process_group : Option ℕ → Result (Unit {0})
set_parent_process_group none = ok tt
set_parent_process_group (some error_number) =
    if error_number == 13 || error_number == no_process
    then ok tt
    else raise (system_error error_number (codes "setpgid in parent"))

unfoldable set_non_blocking : Unblocking → Result (Unit {0})
set_non_blocking u = elim u.get_flags [
  | some error_number ↦ raise (system_error error_number (codes "fcntl(F_GETFL)"))
  | none ↦ elim u.set_flags [
    | some error_number ↦ raise (system_error error_number (codes "fcntl(F_SETFL)"))
    | none ↦ ok tt
  ]
]

-- kill and waitpid of killAndReapChild
unfoldable kill_and_reap_child : ℕ → List Effect
kill_and_reap_child child_pid = signalled_process child_pid sigkill ∷ awaited child_pid ∷ []

-- The calls of the second try block that can throw.
unfoldable prepare_parent : LaunchCalls → Result (Unit {0})
unfolding set_parent_process_group set_non_blocking
prepare_parent c = bind (set_parent_process_group c.setpgid) λ _.
    bind (set_non_blocking c.unblock_stdout)
      λ _. bind (set_non_blocking c.unblock_stderr) λ _. set_non_blocking c.unblock_startup_error

-- The second try block and its handler.
unfoldable finish_launch : ℕ → AllOpen → Result (Unit {0}) → Act (List Effect) LaunchedProcess
unfolding kill_and_reap_child
finish_launch child_pid o (ok _) es = (
  ok (record {
    pid = child_pid;
    process_group_id = child_pid;
    stdout_fd = o.stdout.read_fd;
    stderr_fd = o.stderr.read_fd;
    startup_error_fd = o.startup_error.read_fd;
  }),
  es,
)
finish_launch child_pid o (raise e) es = (
  raise e,
  es
      ++ closed o.stdout.read_fd
        ∷ closed o.stderr.read_fd
        ∷ closed o.startup_error.read_fd
        ∷ kill_and_reap_child child_pid,
)

-- From fork to the end, in the parent.
unfoldable fork_child :
    LaunchCalls → AllOpen → Descriptors → Forking → Act (List Effect) LaunchedProcess
unfolding close_all prepare_parent finish_launch
fork_child c o d (not_forked error_number) es =
    (raise (system_error error_number (codes "fork")), es ++ close_all d)
fork_child c o d (forked child_pid) es = finish_launch child_pid o (prepare_parent c) (
    es
    ++ closed o.dev_null
      ∷ closed o.stdout.write_fd
      ∷ closed o.stderr.write_fd
      ∷ closed o.startup_error.write_fd
      ∷ [])

-- The handler of the first try block, and what follows.
unfoldable after_opening :
    LaunchCalls → Result AllOpen × Descriptors → Act (List Effect) LaunchedProcess
unfolding close_all fork_child
after_opening c (raise e, d) es = (raise e, es ++ close_all d)
after_opening c (ok o, d) es = fork_child c o d c.fork es

unfoldable pub launch_process : JobSpec → LaunchCalls → Act (List Effect) LaunchedProcess
unfolding ensure_standard_descriptors open_descriptors after_opening
launch_process spec c es =
    continue (validate_job_spec spec, es)
      λ _ es.
        continue (ensure_standard_descriptors c es)
          λ _ es. after_opening c (open_descriptors c no_descriptors) es
