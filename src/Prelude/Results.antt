-- ===== src/Prelude/Results.antt =====
-- C++ exceptions as values. A throwing method of an object is an `Act`: it returns its result or
-- the exception, and in both cases the object as it leaves it.
use Prim.Native.Nat.{ℕ}
use mathlib.Core.Path.{◌≡◌, refl}
use mathlib.Core.List.{List}

-- The exception's class, with what() where it has one.
pub data Exception : Type 0 where
  invalid_argument logic_error length_error runtime_error overflow_error out_of_range :
      List ℕ → Exception
  -- std::system_error: errno and the operation's name
  system_error : ℕ → List ℕ → Exception

pub data Result {ℓ} (A : Type ℓ) : Type ℓ where
  ok : A → Result A
  raise : Exception → Result A

abbrev pub bind {ℓ κ} : {A : Type ℓ} {B : Type κ} → Result A → (A → Result B) → Result B
bind (ok a) f = f a
bind (raise e) f = raise e

abbrev pub Act {ℓ κ} : Type ℓ → Type κ → Type (ℓ ⊔ κ)
Act S A = S → Result A × S

abbrev pub continue {ℓ κ μ} :
    {S : Type ℓ} {A : Type κ} {B : Type μ} → Result A × S → (A → Act S B) → Result B × S
continue (ok a, s) f = f a s
continue (raise e, s) f = (raise e, s)

pub bind-eq-ok {ℓ κ} :
    {A : Type ℓ} {B : Type κ} (first : Result A) (next : A → Result B) {last : B}
    → bind first next ≡ ok last
    → (between : A) × (first ≡ ok between) × (next between ≡ ok last)
bind-eq-ok (ok between) next both = (between, refl, both)
bind-eq-ok (raise exception) next both = cc

pub continue-eq-ok {ℓ κ μ} :
    {S : Type ℓ} {A : Type κ} {B : Type μ} (first : Result A × S) (next : A → Act S B) {last : B}
    {after : S}
    → continue first next ≡ (ok last, after)
    → (value : A) × (between : S) × (first ≡ (ok value, between))
      × (next value between ≡ (ok last, after))
continue-eq-ok (ok value, between) next both = (value, between, refl, both)
continue-eq-ok (raise exception, between) next both = cc

-- What holds of both ways out of the first step holds of the whole.
pub continue-cases {ℓ κ μ ν} :
    {S : Type ℓ} {A : Type κ} {B : Type μ} (P : Result B × S → Type ν) (first : Result A × S)
    (next : A → Act S B)
    → ((e : Exception) (s : S) → first ≡ (raise e, s) → P (raise e, s))
    → ((a : A) (s : S) → first ≡ (ok a, s) → P (next a s))
    → P (continue first next)
continue-cases P (ok a, s) next thrown done = done a s refl
continue-cases P (raise e, s) next thrown done = thrown e s refl
