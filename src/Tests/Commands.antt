-- ===== src/Tests/Commands.antt =====
-- Command lines and responses of the client.
use runnerd.Prelude.{ℕ, ◌^◌, ◌<◌, ◌≤◌, ◌≡◌, ◌↔◌, List, [], ◌∷◌, ◌++◌, some, arith, codes, All}
use runnerd.Numbers.{parsed, Errors, parse_positive, to_string}
use runnerd.Numbers.Decimal.{IsDigit, decimal, parse_positive-decimal}
use runnerd.Client.{default_command_line, submit, status, parse_command_line}
use runnerd.Client.Requests.Commands.{parse_command_line-submit, parse_command_line-status}
use runnerd.Client.Requests.Soundness.{IsSendable, parse_command_line-IsSendable}
use runnerd.Client.Responses.{parse_submit_success_response}
use runnerd.Client.Responses.Agreement.{parse_submit_success_response-decimal}
use runnerd.Tests.Jobs.{sleep_spec, sleep_spec-IsValid}

abbrev errors : Errors
errors = record { if_empty = []; if_no_digit = []; if_too_large = []; if_zero = [] }

parse_positive-decimal_example : (parse_positive errors 255 (50 ∷ 53 ∷ 53 ∷ []) ≡ parsed 255) ↔ (
    All IsDigit (50 ∷ 53 ∷ 53 ∷ [])
    × (decimal 0 (50 ∷ 53 ∷ 53 ∷ []) ≡ 255)
    × (0 < 255)
    × (255 ≤ 255))
parse_positive-decimal_example =
    parse_positive-decimal errors 255 255 (50 ∷ 53 ∷ 53 ∷ []) (omega arith)

parse_command_line-submit_example :
    parse_command_line
      (codes "submit" ∷ codes "--timeout" ∷ to_string 500 ∷ codes "--" ∷ sleep_spec.argv)
    ≡ parsed (record default_command_line { command = submit; job_spec = sleep_spec })
parse_command_line-submit_example =
    parse_command_line-submit sleep_spec.argv 500 sleep_spec-IsValid (omega arith)

parse_command_line-IsSendable_example :
    IsSendable (record default_command_line { command = status; job_id = 12 })
parse_command_line-IsSendable_example =
    parse_command_line-IsSendable (codes "status" ∷ to_string 12 ∷ [])
      (record default_command_line { command = status; job_id = 12 })
      (parse_command_line-status 12 (omega arith) (omega arith))

parse_submit_success_response-decimal_example :
    (parse_submit_success_response (codes "OK 12") ≡ some 12) ↔ (
      (digits : List ℕ) × (codes "OK 12" ≡ codes "OK " ++ digits)
      × All IsDigit digits
      × (decimal 0 digits ≡ 12)
      × (0 < 12)
      × (12 < 2 ^ 64))
parse_submit_success_response-decimal_example =
    parse_submit_success_response-decimal (codes "OK 12") 12
