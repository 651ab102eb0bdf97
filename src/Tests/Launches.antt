-- ===== src/Tests/Launches.antt =====
-- A launch in which a pipe cannot be made non-blocking after the fork, and the report of a child.
use runnerd.Prelude.{
  [], ◌∷◌, ◌++◌, length, arith, none, some, ok, raise, ◌≡◌, refl, codes, system_error,
}
use runnerd.Job.{validate_job_spec}
use runnerd.Job.Validity.{validate_job_spec-IsValidSpec}
use runnerd.Monitor.Settle.{startup_failure, startup_error_size}
use runnerd.Tests.Processes.{no_text}
use runnerd.Monitor.{closed, signalled_process, awaited}
use runnerd.Launcher.{
  Standard, Unblocking, LaunchCalls, opened, piped, forked, ensure_standard_descriptors,
  launch_process,
}
use runnerd.Launcher.Child.{
  set_process_group, wrote, interrupted_write, report_child_startup_error, startup_failure-report,
}
use runnerd.Launcher.Accounts.{IsAccounted, launch_process-IsAccounted}
use runnerd.Tests.Jobs.{sleep_spec, sleep_spec-IsValid}

abbrev is_open : Standard
is_open = record { get_fd = none; replacement = opened 0; duplicate = none }

abbrev unblocked : Unblocking
unblocked = record { get_flags = none; set_flags = none }

abbrev late_failure : LaunchCalls
late_failure = record {
  standard_input = is_open;
  standard_output = is_open;
  standard_error = is_open;
  dev_null = opened 3;
  stdout = piped 4 5;
  stderr = piped 6 7;
  startup_error = piped 8 9;
  fork = forked 40;
  setpgid = some 13;
  unblock_stdout = unblocked;
  unblock_stderr = record { get_flags = none; set_flags = some 5 };
  unblock_startup_error = unblocked;
}

sleep_spec-accepted : validate_job_spec sleep_spec ≡ ok tt
sleep_spec-accepted = (validate_job_spec-IsValidSpec sleep_spec).1 sleep_spec-IsValid

late_failure-ensured : ensure_standard_descriptors late_failure [] ≡ (ok tt, [])
unfolding ensure_standard_descriptors
late_failure-ensured = refl

late_failure-effects : launch_process sleep_spec late_failure [] ≡ (
  raise (system_error 5 (codes "fcntl(F_SETFL)")),
  closed 3
      ∷ closed 5
      ∷ closed 7
      ∷ closed 9
      ∷ closed 4
      ∷ closed 6
      ∷ closed 8
      ∷ signalled_process 40 9
      ∷ awaited 40
      ∷ [],
)
unfolding launch_process
late_failure-effects = rw sleep_spec-accepted refl

launch_process-IsAccounted_example :
    IsAccounted late_failure (launch_process sleep_spec late_failure [])
launch_process-IsAccounted_example =
    launch_process-IsAccounted sleep_spec late_failure sleep_spec-accepted late_failure-ensured

startup_failure-report_example :
    let bytes =
      report_child_startup_error
        (wrote 3 ∷ interrupted_write ∷ wrote 5 ∷ [])
        (set_process_group, 1) in
    (length bytes ≡ startup_error_size)
    × (startup_failure no_text bytes
        ≡ codes "child startup failed at " ++ codes "setpgid" ++ codes ": " ++ no_text 1)
startup_failure-report_example =
    startup_failure-report no_text (wrote 3 ∷ interrupted_write ∷ wrote 5 ∷ []) set_process_group 1
      (omega arith) (omega arith)
