-- ===== src/Client/Responses/Agreement.antt =====
-- The client reads the responses that the daemon writes.
use runnerd.Prelude.{
  ℕ, ◌^◌, ◌-◌, ◌<◌, ◌≡◌, refl, ap, ◌∙◌, ◌↔◌, true, false, List, [], ◌∷◌, ◌++◌, Option, none, some,
  arith, ◌==◌, if◌then◌else◌, length, drop, codes, All, Bool-cases, inl, inr,
}
use runnerd.Protocol.{starts_with}
use runnerd.Protocol.Words.{starts_with_append, starts_with→append}
use runnerd.Numbers.{Digits, not_a_digit, too_large, value_is, read_digits, to_string}
use runnerd.Numbers.Decimal.{
  IsDigit, decimal, decimal→read_digits, read_digits→decimal, decimal-to_string, to_string-IsDigit,
}
use runnerd.Client.Responses.{parse_submit_success_response}

only_value :
    (id : ℕ) (r : Digits)
    → (elim r as (λ _. Option ℕ) [
      | not_a_digit ↦ none
      | too_large ↦ none
      | value_is value ↦ if value == 0 then none else some value
    ])
      ≡ some id
    → (r ≡ value_is id) × (0 < id)
only_value id not_a_digit h = cc
only_value id too_large h = cc
only_value id (value_is value) h = ground arith

more_than_three : (c : ℕ) (cs : List ℕ) → (length (codes "OK " ++ c ∷ cs) == 3) ≡ false
unfolding codes
more_than_three c cs = ground arith

parsed_id :
    (digits : List ℕ)
    → 0 < decimal 0 digits
    → decimal 0 digits < 2 ^ 64
    → All IsDigit digits
    → parse_submit_success_response (codes "OK " ++ digits) ≡ some (decimal 0 digits)
unfolding parse_submit_success_response codes
parsed_id [] p b d = absurd (unfold decimal in omega arith)
parsed_id (c ∷ cs) p b d =
    let positive : (decimal 0 (c ∷ cs) == 0) ≡ false = ground arith in
    rw (
      starts_with_append (codes "OK ") (c ∷ cs),
      more_than_three c cs,
      decimal→read_digits (2 ^ 64 - 1) 0 (c ∷ cs) (omega arith) d (omega arith),
      positive,
    )

tests_pass :
    (response : List ℕ) (id : ℕ)
    → parse_submit_success_response response ≡ some id
    → (starts_with (codes "OK ") response ≡ true)
      × ((elim (read_digits (2 ^ 64 - 1) 0 (drop 3 response)) as (λ _. Option ℕ) [
        | not_a_digit ↦ none
        | too_large ↦ none
        | value_is value ↦ if value == 0 then none else some value
      ])
          ≡ some id)
unfolding parse_submit_success_response
tests_pass response id h = elim (Bool-cases (starts_with (codes "OK ") response)) [
  | inl prefix ↦ elim (Bool-cases (length response == 3)) [
    | inl short ↦ absurd (ground arith)
    | inr long ↦ (prefix, cc)
  ]
  | inr no_prefix ↦ absurd (ground arith)
]

-- The client takes a response for a successful SUBMIT exactly if it is OK, a blank and digits that
-- denote a number from 1 to 2^64 - 1, and takes that number for the job's id.
pub parse_submit_success_response-decimal :
    (response : List ℕ) (id : ℕ)
    → (parse_submit_success_response response ≡ some id) ↔ (
        (digits : List ℕ) × (response ≡ codes "OK " ++ digits)
        × All IsDigit digits
        × (decimal 0 digits ≡ id)
        × (0 < id)
        × (id < 2 ^ 64))
unfolding codes
parse_submit_success_response-decimal response id = (
  λ h.
      let (prefix, rest) = tests_pass response id h in
      let (value, positive) = only_value id (read_digits (2 ^ 64 - 1) 0 (drop 3 response)) rest in
      let (digits, e, b) =
        read_digits→decimal (2 ^ 64 - 1) 0 id (drop 3 response) (omega arith) (omega arith) value in
      (
        drop 3 response,
        starts_with→append (codes "OK ") response prefix,
        digits,
        e,
        positive,
        omega arith,
      ),
  λ (digits, e, d, v, p, b). rw e (parsed_id digits (omega arith) (omega arith) d) ∙ ap some v,
)

-- The response "OK <id>", with an id from 1 to 2^64 - 1 in decimal, gives back the id.
pub parse_submit_success_response-to_string :
    (id : ℕ)
    → 0 < id
    → id < 2 ^ 64
    → parse_submit_success_response (codes "OK " ++ to_string id) ≡ some id
parse_submit_success_response-to_string id p b =
    (parse_submit_success_response-decimal _ id).1
      (to_string id, refl, to_string-IsDigit id, decimal-to_string id b, p, b)
