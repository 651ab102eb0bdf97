-- ===== src/Numbers/Decimal.antt =====
-- The parsers read the decimal notation, without overflow, and the printer writes it.
use native.Mathlib.Nat.{mod-eq_of_lt}
use runnerd.Prelude.{
  ℕ, zero, suc, ◌+◌, ◌-◌, ◌*◌, ◌/◌, ◌%◌, ◌^◌, ◌≤◌, ◌<◌, ◌≡◌, refl, sym, ◌∙◌, ◌↔◌, ◌||◌, List, [],
  ◌∷◌, ◌==◌, ltb, if◌then◌else◌, All, arith, false,
}
use runnerd.Numbers.{
  Parse, parsed, error, Digits, not_a_digit, too_large, value_is, read_digits, Errors,
  parse_positive, write_digits, to_string,
}

abbrev pub IsDigit : ℕ → Type 0
IsDigit c = (48 ≤ c) × (c ≤ 57)

-- The number that digits behind the number v denote.
unfoldable pub decimal : ℕ → List ℕ → ℕ
decimal v [] = v
decimal v (c ∷ cs) = decimal (v * 10 + (c - 48)) cs

decimal-ge : (v : ℕ) (cs : List ℕ) → v ≤ decimal v cs
unfolding decimal
decimal-ge v [] = omega arith
decimal-ge v (c ∷ cs) = ground (arith, decimal-ge (v * 10 + (c - 48)) cs)

no_wrap : (maximum n : ℕ) → n ≤ maximum → n % (maximum + 1) ≡ n
no_wrap maximum n h = mod-eq_of_lt {n = n} {m = maximum + 1} (omega arith)

-- The test before the multiplication is exact.
test_exact :
    (maximum v digit : ℕ)
    → digit ≤ maximum
    → (ltb ((maximum - digit) / 10) v ≡ false) ↔ (v * 10 + digit ≤ maximum)
test_exact maximum v digit h = (λ e. ground arith, λ b. ground arith)

-- One round, on a digit that fits.
read_digits_step :
    (maximum v c : ℕ) (cs : List ℕ)
    → IsDigit c
    → v * 10 + (c - 48) ≤ maximum
    → read_digits maximum v (c ∷ cs) ≡ read_digits maximum (v * 10 + (c - 48)) cs
unfolding read_digits
read_digits_step maximum v c cs d b =
    let low : ltb c 48 ≡ false = ground arith in
    let high : ltb 57 c ≡ false = ground arith in
    rw (
      low,
      high,
      (test_exact maximum v (c - 48) (omega arith)).1 b,
      no_wrap maximum (v * 10 + (c - 48)) b,
    )

tests_pass :
    (maximum v n c : ℕ) (rest : Digits)
    → 9 ≤ maximum
    → (if ltb c 48 || ltb 57 c
        then not_a_digit
        else if ltb ((maximum - (c - 48)) / 10) v
        then too_large
        else rest)
      ≡ value_is n
    → IsDigit c × (v * 10 + (c - 48) ≤ maximum)
tests_pass maximum v n c rest m h = ground arith

-- A round that does not end the parser has read a digit that fits.
read_digits_fits :
    (maximum v n c : ℕ) (cs : List ℕ)
    → 9 ≤ maximum
    → read_digits maximum v (c ∷ cs) ≡ value_is n
    → IsDigit c × (v * 10 + (c - 48) ≤ maximum)
unfolding read_digits
read_digits_fits maximum v n c cs m h =
    tests_pass maximum v n c (read_digits maximum ((v * 10 + (c - 48)) % (maximum + 1)) cs) m h

pub read_digits→decimal :
    (maximum v n : ℕ) (cs : List ℕ)
    → 9 ≤ maximum
    → v ≤ maximum
    → read_digits maximum v cs ≡ value_is n
    → All IsDigit cs × (decimal v cs ≡ n) × (n ≤ maximum)
unfolding read_digits decimal
read_digits→decimal maximum v n [] m b h = (tt, ground arith, ground arith)
read_digits→decimal maximum v n (c ∷ cs) m b h =
    let (digit, fits) = read_digits_fits maximum v n c cs m h in
    let (digits, value, bound) =
      read_digits→decimal maximum (v * 10 + (c - 48)) n cs m fits
        (sym (read_digits_step maximum v c cs digit fits) ∙ h) in
    ((digit, digits), value, bound)

pub decimal→read_digits :
    (maximum v : ℕ) (cs : List ℕ)
    → 9 ≤ maximum
    → All IsDigit cs
    → decimal v cs ≤ maximum
    → read_digits maximum v cs ≡ value_is (decimal v cs)
unfolding decimal
decimal→read_digits maximum v [] m d b = unfold read_digits in refl
decimal→read_digits maximum v (c ∷ cs) m d b =
    let next = v * 10 + (c - 48) in
    read_digits_step maximum v c cs d.0 (omega (arith, decimal-ge next cs))
    ∙ decimal→read_digits maximum next cs m d.1 b

decimal-write_digits :
    (fuel n : ℕ) (cs : List ℕ) → n < 10 ^ fuel → decimal 0 (write_digits fuel n cs) ≡ decimal n cs
unfolding write_digits decimal
decimal-write_digits zero n cs h = ground arith
decimal-write_digits (suc fuel) n cs h =
    ground (arith, decimal-write_digits fuel (n / 10) ((48 + n % 10) ∷ cs))

write_digits-IsDigit :
    (fuel n : ℕ) (cs : List ℕ) → All IsDigit cs → All IsDigit (write_digits fuel n cs)
unfolding write_digits
write_digits-IsDigit zero n cs h = h
write_digits-IsDigit (suc fuel) n cs h =
    ground (arith, write_digits-IsDigit fuel (n / 10) ((48 + n % 10) ∷ cs))

only_value :
    (errors : Errors) (n : ℕ) (r : Digits)
    → (elim r as (λ _. Parse ℕ) [
      | not_a_digit ↦ error errors.if_no_digit
      | too_large ↦ error errors.if_too_large
      | value_is value ↦ if value == 0 then error errors.if_zero else parsed value
    ])
      ≡ parsed n
    → (r ≡ value_is n) × (0 < n)
only_value errors n not_a_digit h = cc
only_value errors n too_large h = cc
only_value errors n (value_is value) h = ground arith

-- A parser of positive numbers accepts exactly the texts of digits that denote a number from 1 to
-- the largest value of its type, which is 9 or more, and returns that number.
pub parse_positive-decimal :
    (errors : Errors) (maximum n : ℕ) (text : List ℕ)
    → 9 ≤ maximum
    → (parse_positive errors maximum text ≡ parsed n)
      ↔ (All IsDigit text × (decimal 0 text ≡ n) × (0 < n) × (n ≤ maximum))
unfolding parse_positive
parse_positive-decimal errors maximum n [] m =
    (λ h. cc, λ h. absurd (unfold decimal in omega arith))
parse_positive-decimal errors maximum n (c ∷ cs) m = (
  λ h.
      let (value, positive) = only_value errors n (read_digits maximum 0 (c ∷ cs)) h in
      let (digits, e, b) = read_digits→decimal maximum 0 n (c ∷ cs) m (omega arith) value in
      (digits, e, positive, b),
  λ (d, e, p, b).
      let positive : (n == 0) ≡ false = ground arith in
      rw (decimal→read_digits maximum 0 (c ∷ cs) m d (omega arith), e, positive),
)

pub decimal-to_string : (n : ℕ) → n < 2 ^ 64 → decimal 0 (to_string n) ≡ n
unfolding to_string
decimal-to_string n h = decimal-write_digits 20 n [] (omega arith) ∙ unfold decimal in refl

pub to_string-IsDigit : (n : ℕ) → All IsDigit (to_string n)
unfolding to_string
to_string-IsDigit n = write_digits-IsDigit 20 n [] tt
