-- ===== src/Client.antt =====
-- src/runnerctl_main.cpp, the client: its command line. `arguments` are argv[1] up to argv[argc - 1],
-- and what is left of them stands for the index.
pub mod Requests
pub mod Responses
pub mod Connection
use runnerd.Prelude.{
  ℕ, ◌-◌, ◌^◌, Bool, true, false, not, ◌||◌, List, [], ◌∷◌, ◌++◌, none, some, Result, ok, raise,
  invalid_argument, codes, if◌then◌else◌, length, is_empty,
}
use runnerd.Prelude.Int.{pos}
use runnerd.Job.{JobSpec, validate_job_spec}
use runnerd.Protocol.{same}
use runnerd.Numbers.{Parse, parsed, error, thrown, Errors, parse_positive}

pub data Command : Type 0 where
  ping submit status list cancel : Command

pub record CommandLine : Type 0 where
  pub socket_path : List ℕ
  pub command : Command
  pub job_spec : JobSpec
  pub job_id : ℕ

-- CommandLine{}
abbrev pub default_command_line : CommandLine
default_command_line = record {
  socket_path = codes "/tmp/runnerd.sock";
  command = ping;
  job_spec = record { argv = []; execution_timeout = none };
  job_id = 0;
}

abbrev timeout_errors : Errors
timeout_errors = record {
  if_empty = codes "--timeout requires a positive integer";
  if_no_digit = codes "--timeout must be a positive integer";
  if_too_large = codes "--timeout is too large";
  if_zero = codes "--timeout must be greater than zero";
}

-- The milliseconds.
unfoldable pub parse_positive_timeout : List ℕ → Parse ℕ
parse_positive_timeout text = parse_positive timeout_errors (2 ^ 32 - 1) text

abbrev job_id_errors : Errors
job_id_errors = record {
  if_empty = codes "job id must not be empty";
  if_no_digit = codes "job id must be a positive integer";
  if_too_large = codes "job id is too large";
  if_zero = codes "job id must be greater than zero";
}

unfoldable pub parse_job_id : List ℕ → Parse ℕ
parse_job_id text = parse_positive job_id_errors (2 ^ 64 - 1) text

-- ping and list
unfoldable pub parse_alone : Command → List ℕ → List (List ℕ) → CommandLine → Parse CommandLine
parse_alone command too_many [] line = parsed (record line { command = command })
parse_alone command too_many (_ ∷ _) line = error too_many

-- status and cancel: the job id, and nothing behind it.
unfoldable pub parse_with_id :
    Command → List ℕ → List ℕ → List (List ℕ) → CommandLine → Parse CommandLine
unfolding parse_job_id
parse_with_id command missing too_many [] line = error missing
parse_with_id command missing too_many (text ∷ rest) line = elim (parse_job_id text) [
  | error e ↦ error e
  | thrown e ↦ thrown e
  | parsed job_id ↦
      if is_empty rest
      then parsed (record line { command = command; job_id = job_id })
      else error too_many
]

-- submit, from the separator on. The catch block sets the error to what().
unfoldable pub parse_program : List (List ℕ) → CommandLine → Parse CommandLine
parse_program [] line = error (codes "submit requires -- before the executable path")
parse_program (separator ∷ arguments) line =
    if not (same separator (codes "--"))
    then error (codes "submit requires -- before the executable path")
    else if is_empty arguments
    then error (codes "submit requires an executable path after --")
    else let spec : JobSpec = record {
      argv = arguments;
      execution_timeout = line.job_spec.execution_timeout;
    } in
      elim (validate_job_spec spec) [
        | ok _ ↦ parsed (record line { job_spec = spec })
        | raise e ↦ elim e [ invalid_argument what ↦ error what | other ↦ thrown other ]
      ]

-- submit, behind the --timeout.
unfoldable pub parse_timeout_value : List (List ℕ) → CommandLine → Parse CommandLine
unfolding parse_positive_timeout parse_program
parse_timeout_value [] line = error (codes "--timeout requires a value")
parse_timeout_value (text ∷ rest) line = elim (parse_positive_timeout text) [
  | error e ↦ error e
  | thrown e ↦ thrown e
  | parsed timeout ↦ parse_program rest (record line {
    job_spec = record { argv = line.job_spec.argv; execution_timeout = some (pos timeout) };
  })
]

unfoldable pub parse_submit : List (List ℕ) → CommandLine → Parse CommandLine
unfolding parse_program parse_timeout_value
parse_submit [] line = parse_program [] line
parse_submit (first ∷ rest) line =
    if same first (codes "--timeout")
    then parse_timeout_value rest line
    else parse_program (first ∷ rest) line

unfoldable pub parse_command : List (List ℕ) → CommandLine → Parse CommandLine
unfolding parse_alone parse_with_id parse_submit
parse_command [] line = error (codes "missing command")
parse_command (command ∷ rest) line =
    if same command (codes "ping")
    then parse_alone ping (codes "ping does not accept additional arguments") rest line
    else if same command (codes "list")
    then parse_alone list (codes "list does not accept additional arguments") rest line
    else if same command (codes "status")
    then parse_with_id status (codes "status requires a job id")
        (codes "status accepts exactly one job id") rest line
    else if same command (codes "cancel")
    then parse_with_id cancel (codes "cancel requires a job id")
        (codes "cancel accepts exactly one job id") rest line
    else if not (same command (codes "submit"))
    then error (codes "unknown command: " ++ command)
    else parse_submit rest (record line { command = submit })

-- Behind --socket.
unfoldable pub parse_socket_path : List (List ℕ) → CommandLine → Parse CommandLine
unfolding parse_command
parse_socket_path [] line = error (codes "--socket requires a non-empty path")
parse_socket_path (path ∷ rest) line =
    if is_empty path
    then error (codes "--socket requires a non-empty path")
    else parse_command rest (record line { socket_path = path })

unfoldable pub parse_command_line : List (List ℕ) → Parse CommandLine
unfolding parse_socket_path parse_command
parse_command_line [] = parse_command [] default_command_line
parse_command_line (first ∷ rest) =
    if same first (codes "--socket")
    then parse_socket_path rest default_command_line
    else parse_command (first ∷ rest) default_command_line
