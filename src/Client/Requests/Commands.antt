-- ===== src/Client/Requests/Commands.antt =====
-- From the command line to the request.
use runnerd.Prelude.{ℕ, ◌^◌, ◌-◌, ◌<◌, ◌≡◌, ◌∙◌, List, [], ◌∷◌, some, arith, codes}
use runnerd.Prelude.Int.{pos}
use runnerd.Job.{JobSpec}
use runnerd.Job.Validity.{IsValidSpec, validate_job_spec-IsValidSpec}
use runnerd.Protocol.{same}
use runnerd.Protocol.Words.{same_refl}
use runnerd.Numbers.{parsed, to_string}
use runnerd.Numbers.Decimal.{parse_positive-decimal, decimal-to_string, to_string-IsDigit}
use runnerd.Client.{
  Command, submit, status, cancel, CommandLine, default_command_line, parse_command_line,
  parse_job_id, parse_positive_timeout, parse_program, parse_timeout_value, parse_submit,
  parse_command, parse_with_id,
}

parse_job_id-to_string : (id : ℕ) → 0 < id → id < 2 ^ 64 → parse_job_id (to_string id) ≡ parsed id
unfolding parse_job_id
parse_job_id-to_string id p b =
    (parse_positive-decimal _ (2 ^ 64 - 1) id (to_string id) (omega arith)).1
      (to_string-IsDigit id, decimal-to_string id b, p, omega arith)

parse_positive_timeout-to_string :
    (t : ℕ) → 0 < t → t < 2 ^ 32 → parse_positive_timeout (to_string t) ≡ parsed t
unfolding parse_positive_timeout
parse_positive_timeout-to_string t p b =
    (parse_positive-decimal _ (2 ^ 32 - 1) t (to_string t) (omega arith)).1
      (to_string-IsDigit t, decimal-to_string t (omega arith), p, omega arith)

abbrev spec_for : List (List ℕ) → ℕ → JobSpec
spec_for argv t = record { argv = argv; execution_timeout = some (pos t) }

parse_program-accepts :
    (argv : List (List ℕ)) (line : CommandLine)
    → IsValidSpec (record { argv = argv; execution_timeout = line.job_spec.execution_timeout })
    → parse_program (codes "--" ∷ argv) line
      ≡ parsed (record line {
        job_spec = record { argv = argv; execution_timeout = line.job_spec.execution_timeout };
      })
unfolding parse_program
parse_program-accepts [] line v = let (_, _, e) = v.absolute in absurd (cc e)
parse_program-accepts (a ∷ argv) line v =
    let accepted =
      (validate_job_spec-IsValidSpec
          (record { argv = a ∷ argv; execution_timeout = line.job_spec.execution_timeout })).1
        v in
    rw (same_refl (codes "--"), accepted)

parse_timeout_value-accepts :
    (t : ℕ) (rest : List (List ℕ)) (line : CommandLine)
    → 0 < t
    → t < 2 ^ 32
    → parse_timeout_value (to_string t ∷ rest) line
      ≡ parse_program rest (record line {
        job_spec = record { argv = line.job_spec.argv; execution_timeout = some (pos t) };
      })
unfolding parse_timeout_value
parse_timeout_value-accepts t rest line p b =
    rw (parse_timeout_value, parse_positive_timeout-to_string t p b)

-- `submit --timeout t -- argv` is accepted for any arguments that are valid with a timeout of t
-- milliseconds, where t is below 2^32, and gives their specification.
pub parse_command_line-submit :
    (argv : List (List ℕ)) (t : ℕ)
    → IsValidSpec (spec_for argv t)
    → t < 2 ^ 32
    → parse_command_line (codes "submit" ∷ codes "--timeout" ∷ to_string t ∷ codes "--" ∷ argv)
      ≡ parsed (record default_command_line { command = submit; job_spec = spec_for argv t })
unfolding parse_command_line parse_command parse_submit same codes
parse_command_line-submit argv t v b =
    let line : CommandLine = record default_command_line {
      command = submit;
      job_spec = record { argv = []; execution_timeout = some (pos t) };
    } in
    parse_timeout_value-accepts t (codes "--" ∷ argv)
      (record default_command_line { command = submit }) v.positive b
    ∙ parse_program-accepts argv line v

parse_with_id-accepts :
    (command : Command) (m n : List ℕ) (id : ℕ) (line : CommandLine)
    → 0 < id
    → id < 2 ^ 64
    → parse_with_id command m n (to_string id ∷ []) line
      ≡ parsed (record line { command = command; job_id = id })
unfolding parse_with_id
parse_with_id-accepts command m n id line p b = rw (parse_with_id, parse_job_id-to_string id p b)

-- `status id` is accepted for any id from 1 to 2^64 - 1, and gives that id.
pub parse_command_line-status :
    (id : ℕ)
    → 0 < id
    → id < 2 ^ 64
    → parse_command_line (codes "status" ∷ to_string id ∷ [])
      ≡ parsed (record default_command_line { command = status; job_id = id })
unfolding parse_command_line parse_command same codes
parse_command_line-status id p b =
    parse_with_id-accepts status (codes "status requires a job id")
      (codes "status accepts exactly one job id") id default_command_line p b

-- `cancel id` is accepted for any id from 1 to 2^64 - 1, and gives that id.
pub parse_command_line-cancel :
    (id : ℕ)
    → 0 < id
    → id < 2 ^ 64
    → parse_command_line (codes "cancel" ∷ to_string id ∷ [])
      ≡ parsed (record default_command_line { command = cancel; job_id = id })
unfolding parse_command_line parse_command same codes
parse_command_line-cancel id p b =
    parse_with_id-accepts cancel (codes "cancel requires a job id")
      (codes "cancel accepts exactly one job id") id default_command_line p b
