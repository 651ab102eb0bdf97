-- ===== src/Client/Responses.antt =====
-- src/runnerctl_main.cpp: what the client makes of the daemon's response.
pub mod Agreement
use runnerd.Prelude.{
  ℕ, ◌-◌, ◌^◌, Bool, true, false, not, ◌||◌, List, [], ◌∷◌, ◌++◌, Option, none, some, codes, ◌==◌,
  leb, if◌then◌else◌, length, drop,
}
use runnerd.Protocol.{same, starts_with}
use runnerd.Numbers.{Digits, not_a_digit, too_large, value_is, read_digits, to_string}
use runnerd.Client.{Command, ping, submit, status, list, cancel, CommandLine}

unfoldable pub is_error_response : List ℕ → Bool
is_error_response response = same response (codes "ERR") || starts_with (codes "ERR ") response

unfoldable pub parse_submit_success_response : List ℕ → Option ℕ
parse_submit_success_response response =
    if not (starts_with (codes "OK ") response) || length response == 3
    then none
    else elim (read_digits (2 ^ 64 - 1) 0 (drop 3 response)) [
      | not_a_digit ↦ none
      | too_large ↦ none
      | value_is value ↦ if value == 0 then none else some value
    ]

-- What is written to standard output and to standard error, and the result.
pub record Handled : Type 0 where
  pub output : List ℕ
  pub complaint : List ℕ
  pub succeeded : Bool

abbrev pub prints : List ℕ → Handled
prints line = record { output = line ++ codes "\n"; complaint = []; succeeded = true }

abbrev pub complains : List ℕ → Handled
complains line = record { output = []; complaint = line ++ codes "\n"; succeeded = false }

abbrev pub unexpected : List ℕ → Handled
unexpected response = complains (codes "unexpected response: " ++ response)

unfoldable pub handle_success : Command → ℕ → List ℕ → Handled
unfolding parse_submit_success_response to_string
handle_success ping job_id response =
    if not (same response (codes "PONG")) then unexpected response else prints (codes "PONG")
handle_success submit job_id response = elim (parse_submit_success_response response) [
  | none ↦ unexpected response
  | some id ↦ prints (to_string id)
]
handle_success status job_id response =
    if leb (length response) 3 || not (starts_with (codes "OK ") response)
    then unexpected response
    else prints (drop 3 response)
handle_success list job_id response =
    if same response (codes "OK")
    then prints (codes "No jobs")
    else if not (starts_with (codes "OK\n") response)
    then unexpected response
    else prints (drop 3 response)
handle_success cancel job_id response =
    if same response (codes "OK cancelled")
    then prints (codes "Cancelled job " ++ to_string job_id)
    else if same response (codes "OK terminating")
    then prints (codes "Cancellation requested for job " ++ to_string job_id)
    else unexpected response

unfoldable pub handle_response : CommandLine → List ℕ → Handled
unfolding is_error_response handle_success
handle_response line response =
    if is_error_response response
    then if same response (codes "ERR")
      then complains (codes "server error")
      else complains (codes "server error: " ++ drop 4 response)
    else handle_success line.command line.job_id response
