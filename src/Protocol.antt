-- ===== src/Protocol.antt =====
-- include/runnerd/protocol.h and the first part of src/protocol.cpp: the sizes, the big-endian
-- words, and the test for a request's command. A char is a byte: a number below 256.
pub mod Words
pub mod JobIds
pub mod Submit
pub mod Frames
use runnerd.Prelude.{
  ℕ, zero, suc, ◌+◌, ◌-◌, ◌*◌, ◌/◌, ◌%◌, ◌^◌, ◌<◌, Bool, true, false, ◌&&◌, ◌||◌, List, [], ◌∷◌,
  ◌++◌, Result, ok, raise, invalid_argument, codes, ◌==◌, ltb, leb, if◌then◌else◌, length, take,
  drop,
}

abbrev pub IsByte : ℕ → Type 0
IsByte b = b < 256

-- kFrameHeaderSize and kMaxFrameSize
abbrev pub frame_header_size : ℕ
frame_header_size = 4

abbrev pub max_frame_size : ℕ
max_frame_size = 64 * 1024

-- std::numeric_limits<std::uint32_t>::max()
abbrev pub uint32_max : ℕ
uint32_max = 2 ^ 32 - 1

unfoldable pub submit_command : List ℕ
submit_command = codes "SUBMIT"

unfoldable pub status_command : List ℕ
status_command = codes "STATUS"

unfoldable pub cancel_command : List ℕ
cancel_command = codes "CANCEL"

-- a == b on std::string
unfoldable pub same : List ℕ → List ℕ → Bool
same [] [] = true
same (a ∷ as') (b ∷ bs) = a == b && same as' bs
same _ _ = false

-- payload.size() >= size && payload.compare(0, size, command) == 0
unfoldable pub starts_with : List ℕ → List ℕ → Bool
unfolding same
starts_with command payload =
    leb (length command) (length payload) && same (take (length command) payload) command

-- htonl, and the four bytes in memory: the highest first.
unfoldable pub uint32_bytes : ℕ → List ℕ
uint32_bytes value =
    (value / 2 ^ 24 % 256) ∷ (value / 2 ^ 16 % 256) ∷ (value / 2 ^ 8 % 256) ∷ (value % 256) ∷ []

unfoldable pub append_uint32 : List ℕ → ℕ → List ℕ
unfolding uint32_bytes
append_uint32 output value = output ++ uint32_bytes value

-- memcpy of four bytes, and ntohl.
unfoldable pub uint32_value : List ℕ → ℕ
uint32_value (a ∷ b ∷ c ∷ d ∷ _) = ((a * 256 + b) * 256 + c) * 256 + d
uint32_value _ = 0

-- The value at the offset, and the offset behind it.
unfoldable pub read_uint32 : List ℕ → ℕ → Result (ℕ × ℕ)
unfolding uint32_value
read_uint32 input offset =
    if ltb (length input) offset || ltb (length input - offset) 4
    then raise (invalid_argument (codes "submit request is truncated"))
    else ok (uint32_value (take 4 (drop offset input)), offset + 4)

-- The loop of appendJobId with `left` bytes to go: index is 8 - left, so the shift is (left - 1) * 8.
unfoldable pub append_job_id_loop : ℕ → List ℕ → ℕ → List ℕ
append_job_id_loop zero output job_id = output
append_job_id_loop (suc left) output job_id =
    append_job_id_loop left (output ++ job_id / 256 ^ left % 256 ∷ []) job_id

unfoldable pub append_job_id : List ℕ → ℕ → List ℕ
unfolding append_job_id_loop
append_job_id output job_id = append_job_id_loop 8 output job_id

-- The decoding loop. The shifted number ends in eight zero bits, so `|` with a byte is a sum.
unfoldable pub job_id_value : ℕ → List ℕ → ℕ
job_id_value job_id [] = job_id
job_id_value job_id (byte ∷ rest) = job_id_value (job_id * 256 % 2 ^ 64 + byte) rest
