-- ===== src/Numbers/Parsing.antt =====
-- Going back through a parser that succeeded.
use runnerd.Prelude.{◌≡◌, refl, Bool, true, false, if◌then◌else◌}
use runnerd.Numbers.{Parse, parsed, error, thrown}

pub parsed-inj {ℓ} : {A : Type ℓ} {a b : A} → parsed a ≡ parsed b → a ≡ b
parsed-inj e = cc

-- The two branches of a test.
pub either {ℓ κ} :
    {A : Type ℓ} {R : Type κ} (b : Bool) {x y : Parse A} {out : A}
    → (x ≡ parsed out → R)
    → (y ≡ parsed out → R)
    → (if b then x else y) ≡ parsed out
    → R
either true f g h = f h
either false f g h = g h

-- A parser that goes on with what another one has read.
pub continued {ℓ κ} :
    {A : Type ℓ} {B : Type κ} (r : Parse A) (f : A → Parse B) {out : B}
    → (elim r as (λ _. Parse B) [ error e ↦ error e | thrown e ↦ thrown e | parsed a ↦ f a ])
      ≡ parsed out
    → (a : A) × (r ≡ parsed a) × (f a ≡ parsed out)
continued (error e) f h = absurd (cc)
continued (thrown e) f h = absurd (cc)
continued (parsed a) f h = (a, refl, h)
