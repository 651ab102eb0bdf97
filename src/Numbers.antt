-- ===== src/Numbers.antt =====
-- Decimal numbers, as src/runnerctl_main.cpp and src/runnerd_main.cpp read them, and as
-- std::to_string and operator<< write them. The four parsers have the same loop and differ in the
-- largest value of their type and in the texts of their errors.
pub mod Decimal
pub mod Parsing
use runnerd.Prelude.{
  ℕ, zero, suc, ◌+◌, ◌-◌, ◌*◌, ◌/◌, ◌%◌, ◌^◌, ◌||◌, List, [], ◌∷◌, ◌==◌, ltb, if◌then◌else◌, codes,
  is_empty, Exception,
}

-- What a function that returns bool and sets its argument `error` does, or its exception.
pub data Parse {ℓ} (A : Type ℓ) : Type ℓ where
  parsed : A → Parse A
  error : List ℕ → Parse A
  thrown : Exception → Parse A

pub data Digits : Type 0 where
  not_a_digit too_large : Digits
  value_is : ℕ → Digits

-- The loop over the characters, in the unsigned type whose largest value is `maximum`.
unfoldable pub read_digits : ℕ → ℕ → List ℕ → Digits
read_digits maximum value [] = value_is value
read_digits maximum value (character ∷ text) =
    let digit = character - 48 in
    let rest = read_digits maximum ((value * 10 + digit) % (maximum + 1)) text in
    if ltb character 48 || ltb 57 character
    then not_a_digit
    else if ltb ((maximum - digit) / 10) value
    then too_large
    else rest

-- The errors of a parser.
pub record Errors : Type 0 where
  pub if_empty : List ℕ
  pub if_no_digit : List ℕ
  pub if_too_large : List ℕ
  pub if_zero : List ℕ

-- A parser of positive numbers.
unfoldable pub parse_positive : Errors → ℕ → List ℕ → Parse ℕ
unfolding read_digits
parse_positive errors maximum text =
    if is_empty text then error errors.if_empty else elim (read_digits maximum 0 text) [
      | not_a_digit ↦ error errors.if_no_digit
      | too_large ↦ error errors.if_too_large
      | value_is value ↦ if value == 0 then error errors.if_zero else parsed value
    ]

-- The digits of a number in front of `text`.
unfoldable pub write_digits : ℕ → ℕ → List ℕ → List ℕ
write_digits zero n text = text
write_digits (suc fuel) n text =
    if ltb n 10 then (48 + n) ∷ text else write_digits fuel (n / 10) ((48 + n % 10) ∷ text)

-- Twenty digits are enough for 64 bits.
unfoldable pub to_string : ℕ → List ℕ
unfolding write_digits
to_string n = write_digits 20 n []
