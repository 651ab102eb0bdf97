-- ===== src/Daemon/Options.antt =====
-- src/runnerd_main.cpp: the command line of the daemon. `arguments` are argv[1] up to
-- argv[argc - 1], and what is left of them stands for the index.
pub mod Order
use runnerd.Prelude.{
  ℕ, ◌-◌, ◌^◌, Bool, true, false, List, [], ◌∷◌, ◌++◌, codes, if◌then◌else◌, is_empty,
}
use runnerd.Protocol.{same}
use runnerd.Numbers.{Parse, parsed, error, thrown, Errors, parse_positive}

pub record DaemonOptions : Type 0 where
  pub socket_path : List ℕ
  pub max_running : ℕ

-- DaemonOptions{}
abbrev pub default_options : DaemonOptions
default_options = record { socket_path = codes "/tmp/runnerd.sock"; max_running = 1 }

abbrev max_running_errors : Errors
max_running_errors = record {
  if_empty = codes "--max-running requires a positive integer";
  if_no_digit = codes "--max-running must be a positive integer";
  if_too_large = codes "--max-running is too large";
  if_zero = codes "--max-running must be greater than zero";
}

-- size_t has 64 bits.
unfoldable pub parse_positive_max_running : List ℕ → Parse ℕ
parse_positive_max_running text = parse_positive max_running_errors (2 ^ 64 - 1) text

-- The variables of the loop.
pub record Seen : Type 0 where
  pub options : DaemonOptions
  pub socket_seen : Bool
  pub max_running_seen : Bool

-- The value of --socket, and of --max-running.
unfoldable pub take_socket : List ℕ → Seen → Parse Seen
take_socket path s =
    if is_empty path
    then error (codes "--socket requires a non-empty path")
    else parsed (record s {
      options = record { socket_path = path; max_running = s.options.max_running };
      socket_seen = true;
    })

unfoldable pub take_max_running : List ℕ → Seen → Parse Seen
unfolding parse_positive_max_running
take_max_running text s = elim (parse_positive_max_running text) [
  | error e ↦ error e
  | thrown e ↦ thrown e
  | parsed value ↦ parsed (record s {
    options = record { socket_path = s.options.socket_path; max_running = value };
    max_running_seen = true;
  })
]

-- An argument behind which nothing stands.
unfoldable pub parse_last : List ℕ → Seen → Parse Seen
parse_last argument s =
    if same argument (codes "--socket")
    then if s.socket_seen
      then error (codes "--socket may only be specified once")
      else error (codes "--socket requires a non-empty path")
    else if same argument (codes "--max-running")
    then if s.max_running_seen
      then error (codes "--max-running may only be specified once")
      else error (codes "--max-running requires a value")
    else error (codes "unknown argument: " ++ argument)

-- An argument with the one behind it.
unfoldable pub parse_option : List ℕ → List ℕ → Seen → Parse Seen
unfolding take_socket take_max_running
parse_option argument value s =
    if same argument (codes "--socket")
    then if s.socket_seen
      then error (codes "--socket may only be specified once")
      else take_socket value s
    else if same argument (codes "--max-running")
    then if s.max_running_seen
      then error (codes "--max-running may only be specified once")
      else take_max_running value s
    else error (codes "unknown argument: " ++ argument)

unfoldable pub parse_options : List (List ℕ) → Seen → Parse Seen
unfolding parse_last parse_option
parse_options [] s = parsed s
parse_options (argument ∷ []) s = parse_last argument s
parse_options (argument ∷ value ∷ rest) s = elim (parse_option argument value s) [
  | error e ↦ error e
  | thrown e ↦ thrown e
  | parsed s' ↦ parse_options rest s'
]

unfoldable pub parse_daemon_command_line : List (List ℕ) → Parse DaemonOptions
unfolding parse_options
parse_daemon_command_line arguments =
    elim (parse_options arguments
      (record { options = default_options; socket_seen = false; max_running_seen = false })) [
        | error e ↦ error e
        | thrown e ↦ thrown e
        | parsed s ↦ parsed s.options
      ]
