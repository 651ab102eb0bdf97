-- ===== src/Protocol/Submit.antt =====
-- The SUBMIT request of src/protocol.cpp: a timeout, a count, and the arguments with their lengths.
pub mod Packet
pub mod Encode
pub mod Cursor
pub mod Read
pub mod RoundTrip
use runnerd.Prelude.{
  ℕ, zero, suc, ◌+◌, ◌-◌, ◌*◌, ◌/◌, ◌%◌, ◌^◌, Bool, true, false, not, List, [], ◌∷◌, ◌++◌, Option,
  none, some, Result, ok, raise, bind, invalid_argument, length_error, codes, ◌==◌, ltb,
  if◌then◌else◌, length, take, drop,
}
use runnerd.Prelude.Int.{ℤ, pos, negsuc}
use runnerd.Job.{JobSpec, validate_job_spec}
use runnerd.Protocol.{
  max_frame_size, uint32_max, submit_command, starts_with, append_uint32, read_uint32,
}

unfoldable pub is_submit_request : List ℕ → Bool
is_submit_request payload = starts_with submit_command payload

-- t > max on the signed count
abbrev exceeds_uint32 : ℤ → Bool
exceeds_uint32 (pos n) = ltb uint32_max n
exceeds_uint32 (negsuc n) = false

-- static_cast<std::uint32_t>
abbrev to_uint32 : ℤ → ℕ
to_uint32 (pos n) = n % 2 ^ 32
to_uint32 (negsuc n) = (2 ^ 32 - suc n % 2 ^ 32) % 2 ^ 32

unfoldable pub encode_timeout : Option ℤ → Result ℕ
encode_timeout none = ok 0
encode_timeout (some timeout) =
    if exceeds_uint32 timeout
    then raise (length_error (codes "execution timeout exceeds protocol limit"))
    else ok (to_uint32 timeout)

-- The loop that computes the size before anything is written.
unfoldable pub add_sizes : List (List ℕ) → ℕ → Result ℕ
add_sizes [] payload_size = ok payload_size
add_sizes (argument ∷ rest) payload_size =
    if ltb uint32_max (length argument)
    then raise (length_error (codes "submit argument exceeds protocol limit"))
    else if ltb (max_frame_size - 4) payload_size
    then raise (length_error (codes "submit request exceeds maximum frame size"))
    else if ltb (max_frame_size - (payload_size + 4)) (length argument)
    then raise (length_error (codes "submit request exceeds maximum frame size"))
    else add_sizes rest (payload_size + 4 + length argument)

unfoldable pub append_arguments : List ℕ → List (List ℕ) → List ℕ
append_arguments payload [] = payload
append_arguments payload (argument ∷ rest) =
    append_arguments (append_uint32 payload (length argument % 2 ^ 32) ++ argument) rest

unfoldable pub check_argument_count : List (List ℕ) → Result (Unit {0})
check_argument_count argv =
    if ltb uint32_max (length argv)
    then raise (length_error (codes "submit request has too many arguments"))
    else ok tt

unfoldable pub encode_submit_request : JobSpec → Result (List ℕ)
encode_submit_request spec = bind (validate_job_spec spec) λ _.
    bind (check_argument_count spec.argv) λ _.
      bind (encode_timeout spec.execution_timeout) λ timeout_ms.
        bind (add_sizes spec.argv (length submit_command + 4 * 2)) λ _. ok (
          append_arguments
            (append_uint32 (append_uint32 submit_command timeout_ms) (length spec.argv % 2 ^ 32))
            spec.argv)

-- One round of the decoding loop: an argument, and the offset behind it.
unfoldable pub read_argument : List ℕ → ℕ → Result (List ℕ × ℕ)
read_argument payload offset = bind (read_uint32 payload offset) λ (argument_size, offset').
    if ltb (length payload - offset') argument_size
    then raise (invalid_argument (codes "submit argument is truncated"))
    else ok (take argument_size (drop offset' payload), offset' + argument_size)

-- `left` counts the rounds that the loop still has to do.
unfoldable pub read_arguments : ℕ → List ℕ → ℕ → List (List ℕ) → Result (List (List ℕ) × ℕ)
read_arguments zero payload offset argv = ok (argv, offset)
read_arguments (suc left) payload offset argv =
    bind (read_argument payload offset)
      λ (argument, offset'). read_arguments left payload offset' (argv ++ argument ∷ [])

-- 0 stands for no timeout.
unfoldable pub decode_timeout : ℕ → Option ℤ
decode_timeout timeout_ms = if timeout_ms == 0 then none else some (pos timeout_ms)

-- From the check of the count to that for trailing bytes.
unfoldable pub decode_arguments : List ℕ → ℕ → ℕ → Result (List (List ℕ))
decode_arguments payload offset argument_count =
    if ltb ((length payload - offset) / 4) argument_count
    then raise (invalid_argument (codes "submit argument count exceeds remaining payload"))
    else bind (read_arguments argument_count payload offset []) λ (argv, final).
      if not (final == length payload)
      then raise (invalid_argument (codes "submit request has trailing bytes"))
      else ok argv

-- What follows the command.
unfoldable pub decode_body : List ℕ → Result JobSpec
decode_body payload = bind (read_uint32 payload (length submit_command)) λ (timeout_ms, offset).
    bind (read_uint32 payload offset) λ (argument_count, offset').
      bind (decode_arguments payload offset' argument_count)
        λ argv. ok (record { argv = argv; execution_timeout = decode_timeout timeout_ms })

unfoldable pub decode_submit_request : List ℕ → Result JobSpec
decode_submit_request payload =
    if ltb max_frame_size (length payload)
    then raise (length_error (codes "submit request exceeds maximum frame size"))
    else if not (is_submit_request payload)
    then raise (invalid_argument (codes "payload is not a SUBMIT request"))
    else decode_body payload
