-- ===== src/Protocol/JobIds.antt =====
-- The STATUS and CANCEL requests of src/protocol.cpp: six letters and a job id of eight bytes. The
-- two pairs of functions differ in the command and in the text of their exceptions.
pub mod RoundTrip
use runnerd.Prelude.{
  ℕ, ◌+◌, Bool, true, false, not, List, [], ◌∷◌, ◌++◌, Result, ok, raise, invalid_argument, codes,
  ◌==◌, if◌then◌else◌, length, drop,
}
use runnerd.Protocol.{status_command, cancel_command, starts_with, append_job_id, job_id_value}

-- The loops of the two decoders, on the payload behind the command, and the check for zero.
unfoldable pub decode_id : List ℕ → Result ℕ
decode_id rest =
    let job_id = job_id_value 0 rest in
    if job_id == 0
    then raise (invalid_argument (codes "job id must be greater than zero"))
    else ok job_id

unfoldable pub encode_request : List ℕ → ℕ → Result (List ℕ)
encode_request command job_id =
    if job_id == 0
    then raise (invalid_argument (codes "job id must be greater than zero"))
    else ok (append_job_id command job_id)

unfoldable pub decode_request : List ℕ → List ℕ → List ℕ → List ℕ → Result ℕ
unfolding decode_id
decode_request command not_this bad_size payload =
    if not (starts_with command payload)
    then raise (invalid_argument not_this)
    else if not (length payload == length command + 8)
    then raise (invalid_argument bad_size)
    else decode_id (drop (length command) payload)

unfoldable pub is_status_request : List ℕ → Bool
is_status_request payload = starts_with status_command payload

unfoldable pub encode_status_request : ℕ → Result (List ℕ)
unfolding encode_request
encode_status_request job_id = encode_request status_command job_id

unfoldable pub decode_status_request : List ℕ → Result ℕ
unfolding decode_request
decode_status_request payload =
    decode_request status_command (codes "payload is not a STATUS request")
      (codes "STATUS request has invalid size") payload

unfoldable pub is_cancel_request : List ℕ → Bool
is_cancel_request payload = starts_with cancel_command payload

unfoldable pub encode_cancel_request : ℕ → Result (List ℕ)
unfolding encode_request
encode_cancel_request job_id = encode_request cancel_command job_id

unfoldable pub decode_cancel_request : List ℕ → Result ℕ
unfolding decode_request
decode_cancel_request payload =
    decode_request cancel_command (codes "payload is not a CANCEL request")
      (codes "CANCEL request has invalid size") payload
