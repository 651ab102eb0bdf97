-- ===== src/Daemon/Requests.antt =====
-- src/runnerd_main.cpp: cancelJob, handleRequest and handleClientRead. What is written to the log
-- is left out.
pub mod Submission
use runnerd.Prelude.{
  ℕ, ◌+◌, ◌%◌, ◌^◌, Bool, true, false, not, List, ◌++◌, none, some, invalid_argument, system_error,
  overflow_error, logic_error, Result, Act, ok, raise, continue, codes, ◌==◌, if◌then◌else◌,
}
use runnerd.Prelude.Assoc.{lookup, insert, erase}
use runnerd.Job.{
  JobState, queued, running, terminating, cancelled, succeeded, failed, timed_out, interrupted,
  by_cancel, JobSpec, Job, new_job, transition_job, validate_job_spec,
}
use runnerd.Numbers.{to_string}
use runnerd.Protocol.{same}
use runnerd.Protocol.JobIds.{
  is_status_request, decode_status_request, is_cancel_request, decode_cancel_request,
}
use runnerd.Protocol.Submit.{is_submit_request, decode_submit_request}
use runnerd.Scheduler.{enqueue, cancel_queued_job}
use runnerd.Monitor.{has_value}
use runnerd.Monitor.Signals.{request_terminate}
use runnerd.Monitor.Start.{update_job}
use runnerd.Daemon.Responses.{make_status_response, make_list_response}
use runnerd.Daemon.Jobs.{
  Daemon, System, on_monitor, on_scheduler, schedule_force_kill_deadline, pump_scheduler,
}

-- A handler for std::invalid_argument, which makes it the response.
unfoldable pub answer_invalid : Result (List ℕ) × Daemon → Result (List ℕ) × Daemon
answer_invalid (raise (invalid_argument text), d) = (ok (codes "ERR " ++ text), d)
answer_invalid (result, d) = (result, d)

unfoldable pub status_request : List ℕ → Daemon → Result (List ℕ) × Daemon
status_request request d =
    continue (decode_status_request request, d)
      λ job_id d. elim (lookup job_id d.monitor.jobs) [
        | none ↦ (ok (codes "ERR job not found"), d)
        | some job ↦ (ok (make_status_response job), d)
      ]

-- The branch of cancelJob for a job that waits.
unfoldable pub cancel_queued : ℕ → Act Daemon (List ℕ)
unfolding on_scheduler on_monitor
cancel_queued job_id d = continue (on_scheduler (cancel_queued_job job_id) d) λ removed d.
    elim removed [
      | false ↦ (raise (logic_error (codes "queued job is missing from scheduler")), d)
      | true ↦
          continue (on_monitor (update_job job_id (transition_job cancelled)) d)
            λ _ d. (ok (codes "OK cancelled"), d)
    ]

-- A job under a new id. emplace inserts nothing if the id is there.
unfoldable pub add_job : Job → Act Daemon (Unit {0})
add_job job d =
    if has_value (lookup job.id d.monitor.jobs)
    then (raise (logic_error (codes "duplicate job id")), d)
    else (
      ok tt,
      record d { monitor = record (d.monitor) { jobs = insert job.id job d.monitor.jobs } },
    )

-- The try block around enqueue, which takes the job back.
unfoldable pub undo_add : ℕ → Result (Unit {0}) × Daemon → Result (Unit {0}) × Daemon
undo_add job_id (ok _, d) = (ok tt, d)
undo_add job_id (raise e, d) =
    (raise e, record d { monitor = record (d.monitor) { jobs = erase job_id d.monitor.jobs } })

-- ++next_job_id
unfoldable pub use_job_id : Daemon → Daemon
use_job_id d = record d { next_job_id = (d.next_job_id + 1) % 2 ^ 64 }

module _ (strerror : ℕ → List ℕ) (s : System) where
  -- The branch of cancelJob for a job that runs. The text of a std::system_error's code is strerror's.
  unfoldable pub cancel_requested : ℕ → Result Bool × Daemon → Result (List ℕ) × Daemon
  unfolding schedule_force_kill_deadline
  cancel_requested job_id (raise (system_error error_number operation), d) =
      (ok (codes "ERR failed to send SIGTERM: " ++ strerror error_number), d)
  cancel_requested job_id (raise e, d) = (raise e, d)
  cancel_requested job_id (ok false, d) =
      (ok (codes "ERR job process already exited; retry status"), d)
  cancel_requested job_id (ok true, d) =
      continue (schedule_force_kill_deadline strerror s job_id d)
        λ _ d. (ok (codes "OK terminating"), d)

  -- cancelJob on a job's state.
  unfoldable pub cancel_in : JobState → ℕ → Act Daemon (List ℕ)
  unfolding cancel_queued cancel_requested on_monitor
  cancel_in queued job_id d = cancel_queued job_id d
  cancel_in running job_id d =
      cancel_requested job_id
        (on_monitor (request_terminate strerror job_id by_cancel (s.terminate job_id)) d)
  cancel_in terminating job_id d = (ok (codes "ERR job is already terminating"), d)
  cancel_in succeeded job_id d = (ok (codes "ERR job is already terminal"), d)
  cancel_in failed job_id d = (ok (codes "ERR job is already terminal"), d)
  cancel_in cancelled job_id d = (ok (codes "ERR job is already terminal"), d)
  cancel_in timed_out job_id d = (ok (codes "ERR job is already terminal"), d)
  cancel_in interrupted job_id d = (ok (codes "ERR job is already terminal"), d)

  unfoldable pub cancel_job : ℕ → Act Daemon (List ℕ)
  unfolding cancel_in
  cancel_job job_id d = elim (lookup job_id d.monitor.jobs) [
    | none ↦ (ok (codes "ERR job not found"), d)
    | some job ↦ cancel_in job.state job_id d
  ]

  -- From the test of next_job_id to the end of the try block.
  unfoldable pub accept_job : JobSpec → Act Daemon (List ℕ)
  unfolding add_job undo_add on_scheduler use_job_id pump_scheduler
  accept_job spec d =
      if d.next_job_id == 0
      then (raise (overflow_error (codes "job id space exhausted")), d)
      else let job_id = d.next_job_id in
        let response = codes "OK " ++ to_string job_id in
        continue (add_job (new_job job_id spec) d) λ _ d.
          continue (undo_add job_id (on_scheduler (enqueue job_id) d))
            λ _ d. continue (pump_scheduler strerror s (use_job_id d)) λ _ d. (ok response, d)

  unfoldable pub submit_request : List ℕ → Act Daemon (List ℕ)
  unfolding accept_job
  submit_request request d =
      continue (decode_submit_request request, d)
        λ spec d. continue (validate_job_spec spec, d) λ _ d. accept_job spec d

  unfoldable pub handle_request : List ℕ → Act Daemon (List ℕ)
  unfolding answer_invalid status_request cancel_job submit_request
  handle_request request d =
      if same request (codes "PING")
      then (ok (codes "PONG"), d)
      else if same request (codes "LIST")
      then (make_list_response d.monitor.jobs, d)
      else if is_status_request request
      then answer_invalid (status_request request d)
      else if is_cancel_request request
      then answer_invalid
          (continue (decode_cancel_request request, d) λ job_id d. cancel_job job_id d)
      else if not (is_submit_request request)
      then (ok (codes "ERR unknown request"), d)
      else answer_invalid (submit_request request d)
