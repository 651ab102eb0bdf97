-- ===== src/Tests/Pumps.antt =====
-- A daemon with one slot, a job that waits and one that has ended.
use runnerd.Prelude.{[], ◌∷◌, none, inl, refl, arith}
use runnerd.Prelude.Assoc.{lookup, contains}
use runnerd.Protocol.Submit.Packet.{packet}
use runnerd.Daemon.Requests.{handle_request}
use runnerd.Daemon.Requests.Submission.{IsNewId, Submission, handle_request-Submission}
use runnerd.Tests.Requests.{encoded}
use runnerd.Job.{failed, new_job}
use runnerd.Scheduler.{JobScheduler}
use runnerd.Scheduler.Invariant.{IsConsistent}
use runnerd.Timeouts.{Calls, empty_manager}
use runnerd.Daemon.Jobs.{Daemon, System, pump_scheduler, process_terminal_job_notifications}
use runnerd.Daemon.Jobs.Pumping.{Pumping, pump_scheduler-Pumping}
use runnerd.Daemon.Jobs.Notifications.{Handling, process_terminal_job_notifications-Handling}
use runnerd.Tests.Jobs.{sleep_spec}
use runnerd.Tests.Processes.{no_text, waiting_job, idle_monitor, full_epoll, sends}

abbrev at_noon : Calls
at_noon = record { now = 43_200; arming_at = 43_201; settime = none }

abbrev system : System
system = record {
  start = λ job_id. full_epoll;
  terminate = λ job_id. sends;
  kill = λ job_id. sends;
  execution = λ job_id. at_noon;
  grace = λ job_id. at_noon;
}

abbrev one_slot : JobScheduler
one_slot = record {
  max_running = 1;
  waiting_jobs = 7 ∷ [];
  waiting_job_ids = 7 ∷ [];
  active_job_ids = [];
}

abbrev waiting_daemon : Daemon
waiting_daemon = record {
  monitor = idle_monitor;
  scheduler = one_slot;
  timeouts = empty_manager;
  next_job_id = 8;
}

one_slot-IsConsistent : IsConsistent one_slot
unfolding contains
one_slot-IsConsistent = record {
  has_slots = omega arith;
  queue_distinct = (refl, tt);
  ids_distinct = (refl, tt);
  active_distinct = tt;
  mirrored = λ j. refl;
  apart = λ j h. refl;
  bounded = omega arith;
}

pump_scheduler-Pumping_example :
    Pumping no_text system waiting_daemon (pump_scheduler no_text system waiting_daemon)
pump_scheduler-Pumping_example =
    pump_scheduler-Pumping no_text system waiting_daemon one_slot-IsConsistent

-- The job 6 has failed and still holds the slot.
abbrev notified_daemon : Daemon
notified_daemon = record waiting_daemon {
  monitor = record idle_monitor {
    jobs = (6, record (new_job 6 sleep_spec) { state = failed }) ∷ (7, waiting_job) ∷ [];
    notifications = 6 ∷ [];
  };
  scheduler = record one_slot { active_job_ids = 6 ∷ [] };
}

process_terminal_job_notifications-Handling_example :
    Handling no_text system notified_daemon
      (process_terminal_job_notifications no_text system notified_daemon)
process_terminal_job_notifications-Handling_example =
    process_terminal_job_notifications-Handling no_text system notified_daemon (inl λ e. absurd cc)

waiting_daemon-IsNewId : IsNewId waiting_daemon
unfolding lookup contains
waiting_daemon-IsNewId = record {
  positive = refl;
  in_range = omega arith;
  no_job = refl;
  not_waiting = refl;
  not_active = refl;
}

handle_request-Submission_example :
    Submission no_text system sleep_spec waiting_daemon
      (handle_request no_text system (packet sleep_spec) waiting_daemon)
handle_request-Submission_example =
    handle_request-Submission no_text system sleep_spec (packet sleep_spec) waiting_daemon encoded
      waiting_daemon-IsNewId
