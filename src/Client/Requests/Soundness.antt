-- ===== src/Client/Requests/Soundness.antt =====
-- The request that the client makes of a command line that it accepts, against the daemon's decoders.
use runnerd.Prelude.{
  ℕ, ◌^◌, ◌≤◌, ◌<◌, ◌≡◌, ◌≢◌, refl, inl, inr, List, ◌⊎◌, ok, length, leb, codes, arith, Bool-cases,
}
use runnerd.Job.Validity.{IsValidSpec}
use runnerd.Protocol.{max_frame_size}
use runnerd.Protocol.JobIds.{decode_status_request, decode_cancel_request}
use runnerd.Protocol.JobIds.RoundTrip.{status_request-carried, cancel_request-carried}
use runnerd.Protocol.Submit.{decode_submit_request}
use runnerd.Protocol.Submit.Packet.{Fits, packet, wire_timeout}
use runnerd.Protocol.Submit.Encode.{encode_submit_request-packet}
use runnerd.Protocol.Submit.RoundTrip.{decode-encode_submit_request}
use runnerd.Numbers.{parsed}
use runnerd.Client.{Command, ping, submit, status, list, cancel, CommandLine, parse_command_line}
use runnerd.Client.Requests.{request_of, make_request_payload}
use runnerd.Client.Requests.Operands.{IsRequested, parse_command_line-IsRequested}

-- A request is made that the daemon's decoder reads as the operand; a submit whose layout is longer
-- than a frame makes none.
abbrev pub IsSent : Command → CommandLine → Type 0
IsSent ping line = make_request_payload line ≡ ok (codes "PING")
IsSent list line = make_request_payload line ≡ ok (codes "LIST")
IsSent submit line =
    ((make_request_payload line ≡ ok (packet line.job_spec))
      × (decode_submit_request (packet line.job_spec) ≡ ok line.job_spec))
    ⊎ ((max_frame_size < length (packet line.job_spec))
        × ((payload : List ℕ) → make_request_payload line ≢ ok payload))
IsSent status line =
    (payload : List ℕ) × (make_request_payload line ≡ ok payload)
    × (decode_status_request payload ≡ ok line.job_id)
IsSent cancel line =
    (payload : List ℕ) × (make_request_payload line ≡ ok payload)
    × (decode_cancel_request payload ≡ ok line.job_id)

abbrev pub IsSendable : CommandLine → Type 0
IsSendable line = IsSent line.command line

submission_sent :
    (line : CommandLine)
    → IsValidSpec line.job_spec
    → wire_timeout line.job_spec.execution_timeout < 2 ^ 32
    → length (packet line.job_spec) ≤ max_frame_size
    → (request_of submit line ≡ ok (packet line.job_spec))
      × (decode_submit_request (packet line.job_spec) ≡ ok line.job_spec)
unfolding request_of
submission_sent line v b size =
    let f : Fits line.job_spec = record { timeout_fits = b; size_fits = size } in
    let made = (encode_submit_request-packet line.job_spec (packet line.job_spec)).1 (v, f, refl) in
    (made, (decode-encode_submit_request line.job_spec (packet line.job_spec) made).0)

submission_refused :
    (line : CommandLine)
    → max_frame_size < length (packet line.job_spec)
    → (payload : List ℕ) → request_of submit line ≢ ok payload
unfolding request_of
submission_refused line large payload made =
    let (_, f, _) = (encode_submit_request-packet line.job_spec payload).0 made in
    absurd (omega (arith, f.size_fits, large))

sent :
    (command : Command) (line : CommandLine)
    → line.command ≡ command
    → IsRequested command line
    → IsSent command line
unfolding make_request_payload request_of
sent ping line e r = rw e refl
sent list line e r = rw e refl
sent submit line e (v, b) = elim (Bool-cases (leb (length (packet line.job_spec)) max_frame_size)) [
  | inl fits ↦ rw e (inl (submission_sent line v b (ground (arith, fits))))
  | inr large ↦ inr (ground (arith, large), rw e (submission_refused line (ground (arith, large))))
]
sent status line e (positive, b) = rw e (status_request-carried line.job_id positive b)
sent cancel line e (positive, b) = rw e (cancel_request-carried line.job_id positive b)

-- Whatever command line the client accepts, it makes a request of it: PING, LIST, or one that the
-- daemon's decoder reads as the specification or the job id of the command line. Only a submit whose
-- layout is longer than a frame makes none.
pub parse_command_line-IsSendable :
    (arguments : List (List ℕ)) (out : CommandLine)
    → parse_command_line arguments ≡ parsed out
    → IsSendable out
parse_command_line-IsSendable arguments out h =
    sent out.command out refl (parse_command_line-IsRequested arguments out h)
