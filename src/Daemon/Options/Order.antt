-- ===== src/Daemon/Options/Order.antt =====
-- The daemon's options: their order does not matter, and what is accepted can be used.
use mathlib.Core.Path.{subst}
use runnerd.Prelude.{ℕ, ◌-◌, ◌^◌, ◌<◌, ◌≡◌, ◌≢◌, ap, Bool, true, false, List, [], ◌∷◌, codes, arith}
use runnerd.Protocol.{same}
use runnerd.Numbers.{Parse, parsed, error, thrown, to_string}
use runnerd.Numbers.Parsing.{parsed-inj, either, continued}
use runnerd.Numbers.Decimal.{parse_positive-decimal, decimal-to_string, to_string-IsDigit}
use runnerd.Daemon.Options.{
  DaemonOptions, default_options, Seen, parse_positive_max_running, take_socket, take_max_running,
  parse_last, parse_option, parse_options, parse_daemon_command_line,
}

parse_positive_max_running-to_string :
    (n : ℕ) → 0 < n → n < 2 ^ 64 → parse_positive_max_running (to_string n) ≡ parsed n
unfolding parse_positive_max_running
parse_positive_max_running-to_string n p b =
    (parse_positive-decimal _ (2 ^ 64 - 1) n (to_string n) (omega arith)).1
      (to_string-IsDigit n, decimal-to_string n b, p, omega arith)

take_max_running-to_string :
    (n : ℕ) (s : Seen)
    → 0 < n
    → n < 2 ^ 64
    → take_max_running (to_string n) s
      ≡ parsed (record s {
        options = record { socket_path = s.options.socket_path; max_running = n };
        max_running_seen = true;
      })
unfolding take_max_running
take_max_running-to_string n s p b =
    rw (take_max_running, parse_positive_max_running-to_string n p b)

abbrev both : ℕ → List ℕ → ℕ → DaemonOptions
both c cs n = record { socket_path = c ∷ cs; max_running = n }

abbrev start : List ℕ → Bool → Seen
start path socket_seen = record {
  options = record { socket_path = path; max_running = 1 };
  socket_seen = socket_seen;
  max_running_seen = false;
}

-- The end of the parser, behind an option.
abbrev finish : List (List ℕ) → Parse Seen → Parse DaemonOptions
finish rest r =
    elim (elim r as (λ _. Parse Seen) [
      | error e ↦ error e
      | thrown e ↦ thrown e
      | parsed s ↦ parse_options rest s
    ])
      as (λ _. Parse DaemonOptions) [
        | error e ↦ error e
        | thrown e ↦ thrown e
        | parsed s ↦ parsed s.options
      ]

-- The two options can be given in either order, with the same result: the path, which is not
-- empty, and the number of slots, which is from 1 to 2^64 - 1.
pub parse_daemon_command_line-either_order :
    (c : ℕ) (path : List ℕ) (n : ℕ)
    → 0 < n
    → n < 2 ^ 64
    → (parse_daemon_command_line
          (codes "--socket" ∷ (c ∷ path) ∷ codes "--max-running" ∷ to_string n ∷ [])
        ≡ parsed (both c path n))
      × (parse_daemon_command_line
            (codes "--max-running" ∷ to_string n ∷ codes "--socket" ∷ (c ∷ path) ∷ [])
          ≡ parsed (both c path n))
unfolding parse_daemon_command_line parse_options parse_option take_socket same codes
parse_daemon_command_line-either_order c path n p b = (
  ap (finish []) (take_max_running-to_string n (start (c ∷ path) true) p b),
  ap (finish (codes "--socket" ∷ (c ∷ path) ∷ []))
      (take_max_running-to_string n (start default_options.socket_path false) p b),
)

-- At least one slot, at most 2^64 - 1, and a path for the socket.
abbrev pub IsUsable : DaemonOptions → Type 0
IsUsable o = (0 < o.max_running) × (o.max_running < 2 ^ 64) × (o.socket_path ≢ [])

usable : (s s' : Seen) → IsUsable s.options → parsed s ≡ parsed s' → IsUsable s'.options
usable s s' u h = subst (λ (o : Seen). IsUsable o.options) (parsed-inj h) u

take_socket-IsUsable :
    (path : List ℕ) (s s' : Seen)
    → IsUsable s.options
    → take_socket path s ≡ parsed s'
    → IsUsable s'.options
unfolding take_socket
take_socket-IsUsable [] s s' u h = absurd (cc)
take_socket-IsUsable (c ∷ path) s s' u h = usable _ s' (u.0, u.1, λ e. absurd (cc e)) h

take_max_running-IsUsable :
    (text : List ℕ) (s s' : Seen)
    → IsUsable s.options
    → take_max_running text s ≡ parsed s'
    → IsUsable s'.options
unfolding take_max_running parse_positive_max_running
take_max_running-IsUsable text s s' u h =
    let (n, is_n, e) = continued (parse_positive_max_running text) _ h in
    let (_, _, p, b) = (parse_positive-decimal _ (2 ^ 64 - 1) n text (omega arith)).0 is_n in
    usable _ s' (p, omega arith, u.2) e

parse_option-IsUsable :
    (argument value : List ℕ) (s s' : Seen)
    → IsUsable s.options
    → parse_option argument value s ≡ parsed s'
    → IsUsable s'.options
unfolding parse_option
parse_option-IsUsable argument value s s' u =
    either (same argument (codes "--socket"))
      (either s.socket_seen (λ h. absurd (cc h)) (take_socket-IsUsable value s s' u))
      (either (same argument (codes "--max-running"))
        (either s.max_running_seen (λ h. absurd (cc h)) (take_max_running-IsUsable value s s' u))
        (λ h. absurd (cc h)))

parse_last-fails : (argument : List ℕ) (s s' : Seen) → parse_last argument s ≢ parsed s'
unfolding parse_last
parse_last-fails argument s s' =
    either (same argument (codes "--socket"))
      (either s.socket_seen (λ h. absurd (cc h)) (λ h. absurd (cc h)))
      (either (same argument (codes "--max-running"))
        (either s.max_running_seen (λ h. absurd (cc h)) (λ h. absurd (cc h))) (λ h. absurd (cc h)))

parse_options-IsUsable :
    (arguments : List (List ℕ)) (s s' : Seen)
    → IsUsable s.options
    → parse_options arguments s ≡ parsed s'
    → IsUsable s'.options
unfolding parse_options
parse_options-IsUsable [] s s' u h = usable s s' u h
parse_options-IsUsable (argument ∷ []) s s' u h = absurd (parse_last-fails argument s s' h)
parse_options-IsUsable (argument ∷ value ∷ rest) s s' u h =
    let (next, one, e) = continued (parse_option argument value s) _ h in
    parse_options-IsUsable rest next s' (parse_option-IsUsable argument value s next u one) e

default_path : default_options.socket_path ≢ []
unfolding codes
default_path e = absurd (cc e)

-- Whatever arguments the daemon accepts, it has at least one slot, at most 2^64 - 1, and a path for
-- its socket that is not empty.
pub parse_daemon_command_line-IsUsable :
    (arguments : List (List ℕ)) (o : DaemonOptions)
    → parse_daemon_command_line arguments ≡ parsed o
    → IsUsable o
unfolding parse_daemon_command_line
parse_daemon_command_line-IsUsable arguments o h =
    let first = start default_options.socket_path false in
    let (s, whole, e) = continued (parse_options arguments first) _ h in
    subst IsUsable (parsed-inj e)
      (parse_options-IsUsable arguments first s (omega arith, omega arith, default_path) whole)
