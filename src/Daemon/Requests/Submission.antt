-- ===== src/Daemon/Requests/Submission.antt =====
-- A SUBMIT request of the client, through the daemon, to the id that the client reads.
use runnerd.Prelude.{
  ℕ, ◌+◌, ◌%◌, ◌^◌, ◌<◌, true, false, List, [], ◌∷◌, ◌++◌, none, some, Result, Exception, ok, raise,
  continue, codes, ◌==◌, ◌≡◌, refl, arith,
}
use runnerd.Prelude.Assoc.{lookup, insert, contains}
use runnerd.Job.{JobSpec, new_job}
use runnerd.Numbers.{to_string}
use runnerd.Protocol.{same, starts_with, submit_command, status_command, cancel_command}
use runnerd.Protocol.JobIds.{is_status_request, is_cancel_request}
use runnerd.Protocol.Submit.{is_submit_request, encode_submit_request}
use runnerd.Protocol.Submit.Packet.{packet}
use runnerd.Protocol.Submit.Encode.{encode_submit_request-packet}
use runnerd.Protocol.Submit.RoundTrip.{decode-encode_submit_request}
use runnerd.Client.Responses.{parse_submit_success_response}
use runnerd.Client.Responses.Agreement.{parse_submit_success_response-to_string}
use runnerd.Scheduler.{enqueue}
use runnerd.Daemon.Jobs.{Daemon, System, on_scheduler, pump_scheduler}
use runnerd.Daemon.Requests.{
  answer_invalid, add_job, undo_add, use_job_id, accept_job, submit_request, handle_request,
}

-- The daemon with a new job, which waits behind the others, before anything is started.
abbrev pub accepted : JobSpec → Daemon → Daemon
accepted spec d = record d {
  monitor = record (d.monitor) {
    jobs = insert d.next_job_id (new_job d.next_job_id spec) d.monitor.jobs;
  };
  scheduler = record (d.scheduler) {
    waiting_jobs = d.scheduler.waiting_jobs ++ d.next_job_id ∷ [];
    waiting_job_ids = d.next_job_id ∷ d.scheduler.waiting_job_ids;
  };
  next_job_id = (d.next_job_id + 1) % 2 ^ 64;
}

-- The next id is in range and new.
pub record IsNewId (d : Daemon) : Type 0 where
  pub positive : (d.next_job_id == 0) ≡ false
  pub in_range : d.next_job_id < 2 ^ 64
  pub no_job : lookup d.next_job_id d.monitor.jobs ≡ none
  pub not_waiting : contains d.next_job_id d.scheduler.waiting_job_ids ≡ false
  pub not_active : contains d.next_job_id d.scheduler.active_job_ids ≡ false

is_submit_request-command : (rest : List ℕ) → is_submit_request (submit_command ++ rest) ≡ true
unfolding is_submit_request starts_with same submit_command codes
is_submit_request-command rest = ground arith

is_status_request-command : (rest : List ℕ) → is_status_request (submit_command ++ rest) ≡ false
unfolding is_status_request starts_with same submit_command status_command codes
is_status_request-command rest = ground arith

is_cancel_request-command : (rest : List ℕ) → is_cancel_request (submit_command ++ rest) ≡ false
unfolding is_cancel_request starts_with same submit_command cancel_command codes
is_cancel_request-command rest = ground arith

same-command :
    (rest : List ℕ)
    → (same (submit_command ++ rest) (codes "PING") ≡ false)
      × (same (submit_command ++ rest) (codes "LIST") ≡ false)
unfolding same submit_command codes
same-command rest = (refl, refl)

starts_submit :
    (spec : JobSpec) (request : List ℕ)
    → encode_submit_request spec ≡ ok request
    → (rest : List ℕ) × (request ≡ submit_command ++ rest)
unfolding packet
starts_submit spec request e =
    let (v, f, is_packet) = (encode_submit_request-packet spec request).0 e in (_, is_packet)

enqueue_new :
    (d : Daemon)
    → IsNewId d
    → enqueue d.next_job_id d.scheduler ≡ (
      ok tt,
      record (d.scheduler) {
        waiting_jobs = d.scheduler.waiting_jobs ++ d.next_job_id ∷ [];
        waiting_job_ids = d.next_job_id ∷ d.scheduler.waiting_job_ids;
      },
    )
unfolding enqueue
enqueue_new d n = rw (enqueue, n.positive, n.not_waiting, n.not_active) refl

module _ (strerror : ℕ → List ℕ) (s : System) where
  -- How a SUBMIT request ends: with the response from which the client reads the job's id, after the
  -- daemon has started what it can, or with the exception that this has thrown.
  pub data Submission (spec : JobSpec) (d : Daemon) : Result (List ℕ) × Daemon → Type 0 where
    answered :
        {d' : Daemon} (response : List ℕ)
        → pump_scheduler strerror s (accepted spec d) ≡ (ok tt, d')
        → parse_submit_success_response response ≡ some d.next_job_id
        → Submission spec d (ok response, d')
    thrown :
        {d' : Daemon} {e : Exception}
        → pump_scheduler strerror s (accepted spec d) ≡ (raise e, d')
        → Submission spec d (answer_invalid (raise e, d'))

  accept_job_lem :
      (spec : JobSpec) (d : Daemon)
      → IsNewId d
      → accept_job strerror s spec d
        ≡ continue
            (pump_scheduler strerror s (accepted spec d))
            λ _ d'. (ok (codes "OK " ++ to_string d.next_job_id), d')
  unfolding accept_job add_job undo_add on_scheduler use_job_id new_job
  accept_job_lem spec d n = rw (accept_job, n.positive, add_job, n.no_job, enqueue_new d n) refl

  after_pump :
      (spec : JobSpec) (d : Daemon) (r : Result (Unit {0}) × Daemon)
      → IsNewId d
      → pump_scheduler strerror s (accepted spec d) ≡ r
      → Submission spec d
          (answer_invalid (continue r λ _ d'. (ok (codes "OK " ++ to_string d.next_job_id), d')))
  unfolding answer_invalid
  after_pump spec d (ok tt, d') n e = answered (codes "OK " ++ to_string d.next_job_id) e (
      parse_submit_success_response-to_string d.next_job_id (ground (arith, n.positive)) n.in_range)
  after_pump spec d (raise x, d') n e = thrown e

  -- If the client can encode a specification, and the next id is in range and new, the daemon stores
  -- the job under that id, puts it behind the jobs that wait, counts the id up and starts what it
  -- can; unless that throws, the client reads that id from the response.
  pub handle_request-Submission :
      (spec : JobSpec) (request : List ℕ) (d : Daemon)
      → encode_submit_request spec ≡ ok request
      → IsNewId d
      → Submission spec d (handle_request strerror s request d)
  unfolding handle_request submit_request
  handle_request-Submission spec request d e n =
      let (rest, starts) = starts_submit spec request e in
      let (decoded, checked) = decode-encode_submit_request spec request e in
      let ping : same request (codes "PING") ≡ false = rw starts (same-command rest).0 in
      let list : same request (codes "LIST") ≡ false = rw starts (same-command rest).1 in
      let status : is_status_request request ≡ false = rw starts (is_status_request-command rest) in
      let cancels : is_cancel_request request ≡ false =
        rw starts (is_cancel_request-command rest) in
      let submits : is_submit_request request ≡ true = rw starts (is_submit_request-command rest) in
      rw
        (
          handle_request,
          ping,
          list,
          status,
          cancels,
          submits,
          submit_request,
          decoded,
          checked,
          accept_job_lem spec d n,
        )
        (after_pump spec d _ n refl)
