-- ===== src/Client/Requests/Operands.antt =====
-- The operand of a command line that the client accepts.
use mathlib.Core.Path.{subst}
use runnerd.Prelude.{
  ℕ, ◌^◌, ◌-◌, ◌<◌, ◌≡◌, refl, sym, inl, inr, not, List, [], ◌∷◌, some, none, arith, if◌then◌else◌,
  codes, ok, Result, raise, is_empty, Bool-cases, invalid_argument,
}
use runnerd.Prelude.Int.{pos}
use runnerd.Job.{JobSpec, validate_job_spec}
use runnerd.Job.Validity.{IsValidSpec, validate_job_spec-IsValidSpec}
use runnerd.Protocol.{same}
use runnerd.Protocol.Submit.Packet.{wire_timeout}
use runnerd.Numbers.{Parse, parsed, error, thrown}
use runnerd.Numbers.Parsing.{either}
use runnerd.Numbers.Decimal.{parse_positive-decimal}
use runnerd.Client.{
  Command, ping, submit, status, list, cancel, CommandLine, default_command_line,
  parse_command_line, parse_job_id, parse_positive_timeout, parse_program, parse_timeout_value,
  parse_submit, parse_command, parse_with_id, parse_alone, parse_socket_path,
}

abbrev pub IsRequested : Command → CommandLine → Type 0
IsRequested ping line = Unit {0}
IsRequested list line = Unit {0}
IsRequested submit line =
    IsValidSpec line.job_spec × (wire_timeout line.job_spec.execution_timeout < 2 ^ 32)
IsRequested status line = (0 < line.job_id) × (line.job_id < 2 ^ 64)
IsRequested cancel line = (0 < line.job_id) × (line.job_id < 2 ^ 64)

abbrev IsAsked : CommandLine → Type 0
IsAsked line = IsRequested line.command line

parse_timeout-range : (text : List ℕ) (t : ℕ) → parse_positive_timeout text ≡ parsed t → t < 2 ^ 32
unfolding parse_positive_timeout
parse_timeout-range text t h =
    let (_, _, p, b) = (parse_positive-decimal _ (2 ^ 32 - 1) t text (omega arith)).0 h in
    omega arith

parse_job_id-range :
    (text : List ℕ) (id : ℕ) → parse_job_id text ≡ parsed id → (0 < id) × (id < 2 ^ 64)
unfolding parse_job_id
parse_job_id-range text id h =
    let (_, _, p, b) = (parse_positive-decimal _ (2 ^ 64 - 1) id text (omega arith)).0 h in
    (p, omega arith)

only_valid :
    (spec : JobSpec) (line out : CommandLine) (r : Result (Unit {0}))
    → (elim r as (λ _. Parse CommandLine) [
      | ok _ ↦ parsed (record line { job_spec = spec })
      | raise e ↦ elim e [ invalid_argument what ↦ error what | other ↦ thrown other ]
    ])
      ≡ parsed out
    → (r ≡ ok tt) × (record line { job_spec = spec } ≡ out)
only_valid spec line out (ok u) h = (refl, cc)
only_valid spec line out (raise e) h = ground arith

program :
    (arguments : List (List ℕ)) (line out : CommandLine)
    → line.command ≡ submit
    → wire_timeout line.job_spec.execution_timeout < 2 ^ 32
    → parse_program arguments line ≡ parsed out
    → IsAsked out
unfolding parse_program
program [] line out is_submit b h = absurd (cc)
program (separator ∷ []) line out is_submit b h = absurd (ground arith)
program (separator ∷ a ∷ arguments) line out is_submit b h =
    elim (Bool-cases (same separator (codes "--"))) [
      | inl dashes ↦
          let spec : JobSpec = record {
            argv = a ∷ arguments;
            execution_timeout = line.job_spec.execution_timeout;
          } in
          let (valid, whole) =
            only_valid spec line out (validate_job_spec spec) (ground (arith, h, dashes)) in
          subst IsAsked whole (
            subst (λ c. IsRequested c (record line { job_spec = spec })) (sym is_submit)
              ((validate_job_spec-IsValidSpec spec).0 valid, b))
      | inr other ↦ absurd (ground arith)
    ]

only_id :
    (command : Command) (n : List ℕ) (rest : List (List ℕ)) (line out : CommandLine) (r : Parse ℕ)
    → (elim r as (λ _. Parse CommandLine) [
      | error e ↦ error e
      | thrown e ↦ thrown e
      | parsed job_id ↦
          if is_empty rest
          then parsed (record line { command = command; job_id = job_id })
          else error n
    ])
      ≡ parsed out
    → (id : ℕ) × (r ≡ parsed id) × (record line { command = command; job_id = id } ≡ out)
only_id command n rest line out (error e) h = absurd (cc)
only_id command n rest line out (thrown e) h = absurd (cc)
only_id command n [] line out (parsed id) h = (id, refl, cc)
only_id command n (x ∷ rest) line out (parsed id) h = absurd (cc)

with_id :
    (command : Command) (m n : List ℕ) (rest : List (List ℕ)) (line out : CommandLine)
    → ((l : CommandLine) → (0 < l.job_id) × (l.job_id < 2 ^ 64) → IsRequested command l)
    → parse_with_id command m n rest line ≡ parsed out
    → IsAsked out
unfolding parse_with_id
with_id command m n [] line out f h = absurd (cc)
with_id command m n (text ∷ rest) line out f h =
    let (id, is_id, whole) = only_id command n rest line out (parse_job_id text) h in
    subst IsAsked whole
      (f (record line { command = command; job_id = id }) (parse_job_id-range text id is_id))

alone :
    (command : Command) (n : List ℕ) (rest : List (List ℕ)) (line out : CommandLine)
    → ((l : CommandLine) → IsRequested command l)
    → parse_alone command n rest line ≡ parsed out
    → IsAsked out
unfolding parse_alone
alone command n [] line out f h = subst IsAsked (cc) (f (record line { command = command }))
alone command n (x ∷ rest) line out f h = absurd (cc)

timeout_value :
    (arguments : List (List ℕ)) (line out : CommandLine)
    → line.command ≡ submit
    → parse_timeout_value arguments line ≡ parsed out
    → IsAsked out
unfolding parse_timeout_value
timeout_value [] line out is_submit h = absurd (cc)
timeout_value (text ∷ rest) line out is_submit h =
    in_time rest line out (parse_positive_timeout text) is_submit (parse_timeout-range text) h
  where
    in_time :
        (rest : List (List ℕ)) (line out : CommandLine) (r : Parse ℕ)
        → line.command ≡ submit
        → ((t : ℕ) → r ≡ parsed t → t < 2 ^ 32)
        → (elim r as (λ _. Parse CommandLine) [
          | error e ↦ error e
          | thrown e ↦ thrown e
          | parsed timeout ↦ parse_program rest (record line {
            job_spec = record { argv = line.job_spec.argv; execution_timeout = some (pos timeout) };
          })
        ])
          ≡ parsed out
        → IsAsked out
    in_time rest line out (error e) is_submit b h = absurd (cc)
    in_time rest line out (thrown e) is_submit b h = absurd (cc)
    in_time rest line out (parsed t) is_submit b h = program rest _ out is_submit (b t refl) h

submission :
    (arguments : List (List ℕ)) (line out : CommandLine)
    → line.command ≡ submit
    → wire_timeout line.job_spec.execution_timeout < 2 ^ 32
    → parse_submit arguments line ≡ parsed out
    → IsAsked out
unfolding parse_submit
submission [] line out is_submit b h = program [] line out is_submit b h
submission (first ∷ rest) line out is_submit b h =
    elim (Bool-cases (same first (codes "--timeout"))) [
      | inl e ↦ timeout_value rest line out is_submit (ground (arith, h, e))
      | inr e ↦ program (first ∷ rest) line out is_submit b (ground (arith, h, e))
    ]

command_IsAsked :
    (arguments : List (List ℕ)) (line out : CommandLine)
    → wire_timeout line.job_spec.execution_timeout < 2 ^ 32
    → parse_command arguments line ≡ parsed out
    → IsAsked out
unfolding parse_command
command_IsAsked [] line out b = λ h. absurd (cc h)
command_IsAsked (c ∷ rest) line out b =
    either (same c (codes "ping")) (alone ping _ rest line out (λ _. tt)) (
      either (same c (codes "list")) (alone list _ rest line out (λ _. tt)) (
        either (same c (codes "status")) (with_id status _ _ rest line out (λ _ r. r)) (
          either (same c (codes "cancel")) (with_id cancel _ _ rest line out (λ _ r. r)) (
            either (not (same c (codes "submit"))) (λ h. absurd (cc h))
              (submission rest (record line { command = submit }) out refl b)))))

none_set : wire_timeout none < 2 ^ 32
none_set = omega arith

-- Whatever arguments the client accepts, the operand fits the command: the specification of a
-- submit is valid and its timeout is below 2^32, and the job id of a status or a cancel is from 1
-- to 2^64 - 1.
pub parse_command_line-IsRequested :
    (arguments : List (List ℕ)) (out : CommandLine)
    → parse_command_line arguments ≡ parsed out
    → IsRequested out.command out
unfolding parse_command_line parse_socket_path
parse_command_line-IsRequested [] out = command_IsAsked [] default_command_line out none_set
parse_command_line-IsRequested (first ∷ []) out =
    either (same first (codes "--socket")) (λ h. absurd (cc h))
      (command_IsAsked (first ∷ []) default_command_line out none_set)
parse_command_line-IsRequested (first ∷ path ∷ rest) out =
    either (same first (codes "--socket"))
      (either (is_empty path) (λ h. absurd (cc h))
        (command_IsAsked rest (record default_command_line { socket_path = path }) out none_set))
      (command_IsAsked (first ∷ path ∷ rest) default_command_line out none_set)
