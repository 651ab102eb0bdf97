-- ===== src/Job/Validity.antt =====
-- validate_job_spec accepts exactly the specifications with an absolute path, whole arguments and a
-- positive timeout. Whether the program exists and can be run is not its question.
use runnerd.Prelude.{
  ℕ, ◌≡◌, refl, ◌↔◌, List, [], ◌∷◌, Option, none, some, arith, ok, false, All, ◌<◌, zero, suc,
}
use runnerd.Prelude.Int.{ℤ, pos, negsuc}
use runnerd.Prelude.Assoc.{contains}
use runnerd.Job.{JobSpec, validate_job_spec, check_arguments, check_timeout}

-- A string that a C interface takes whole: no byte of it is NUL.
abbrev pub IsCString : List ℕ → Type 0
IsCString = All (λ byte. 0 < byte)

abbrev pub IsAbsolute : List (List ℕ) → Type 0
IsAbsolute argv = (path : List ℕ) × (arguments : List (List ℕ)) × (argv ≡ (b'/' ∷ path) ∷ arguments)

abbrev pub IsPositive : Option ℤ → Type 0
IsPositive none = Unit {0}
IsPositive (some (pos n)) = 0 < n
IsPositive (some (negsuc n)) = ⊥

pub record IsValidSpec (spec : JobSpec) : Type 0 where
  pub absolute : IsAbsolute spec.argv
  pub whole : All IsCString spec.argv
  pub positive : IsPositive spec.execution_timeout

contains-zero : (s : List ℕ) → contains 0 s ≡ false → IsCString s
unfolding contains
contains-zero [] h = tt
contains-zero (b ∷ s) h = ground (arith, contains-zero s)

IsCString-contains : (s : List ℕ) → IsCString s → contains 0 s ≡ false
unfolding contains
IsCString-contains [] h = refl
IsCString-contains (b ∷ s) h = ground (arith, IsCString-contains s)

check_arguments-whole : (xs : List (List ℕ)) → check_arguments xs ≡ ok tt → All IsCString xs
unfolding check_arguments
check_arguments-whole [] h = tt
check_arguments-whole (x ∷ xs) h = ground (arith, contains-zero x, check_arguments-whole xs)

whole-check_arguments : (xs : List (List ℕ)) → All IsCString xs → check_arguments xs ≡ ok tt
unfolding check_arguments
whole-check_arguments [] h = refl
whole-check_arguments (x ∷ xs) h = ground (arith, IsCString-contains x, whole-check_arguments xs)

check_timeout-IsPositive : (t : Option ℤ) → (check_timeout t ≡ ok tt) ↔ IsPositive t
unfolding check_timeout
check_timeout-IsPositive none = (λ _. tt, λ _. refl)
check_timeout-IsPositive (some (pos zero)) = (λ h. cc, λ h. absurd (omega arith))
check_timeout-IsPositive (some (pos (suc n))) = (λ h. omega arith, λ h. refl)
check_timeout-IsPositive (some (negsuc n)) = (λ h. cc, λ h. absurd h)

accepted :
    (argv : List (List ℕ)) (t : Option ℤ)
    → validate_job_spec (record { argv = argv; execution_timeout = t }) ≡ ok tt
    → IsValidSpec (record { argv = argv; execution_timeout = t })
unfolding validate_job_spec
accepted [] t h = cc
accepted ([] ∷ arguments) t h = cc
accepted ((first ∷ path) ∷ arguments) t h = record {
  absolute = (path, arguments, ground arith);
  whole = check_arguments-whole ((first ∷ path) ∷ arguments) (ground arith);
  positive = (check_timeout-IsPositive t).0 (ground arith);
}

valid :
    (argv : List (List ℕ)) (t : Option ℤ)
    → IsValidSpec (record { argv = argv; execution_timeout = t })
    → validate_job_spec (record { argv = argv; execution_timeout = t }) ≡ ok tt
unfolding validate_job_spec
valid argv t v =
    let (path, arguments, e) = v.absolute in
    rw e
      (rw (whole-check_arguments _ (rw e at (v.whole)), (check_timeout-IsPositive t).1 v.positive))

-- A specification is accepted exactly when its program is an absolute path, no argument holds a
-- NUL byte, and its timeout, if there is one, is positive.
pub validate_job_spec-IsValidSpec :
    (spec : JobSpec) → (validate_job_spec spec ≡ ok tt) ↔ IsValidSpec spec
validate_job_spec-IsValidSpec spec =
    (accepted spec.argv spec.execution_timeout, valid spec.argv spec.execution_timeout)
