-- ===== src/Prelude/Assoc.antt =====
-- std::unordered_set and std::unordered_map with integer keys, as lists without repeated keys.
use Prim.Native.Nat.{ℕ, ◌+◌}
use mathlib.Core.Path.{◌≡◌, refl}
use mathlib.Core.Bool.{Bool, true, false, ◌||◌}
use mathlib.Core.Option.{Option, none, some}
use mathlib.Core.List.{List, [], ◌∷◌, ◌++◌}
use native.Mathlib.Omega.{arith}
use runnerd.Prelude.Tests.{◌==◌, if◌then◌else◌}
use runnerd.Prelude.Lists.{length}

-- set.find(k) != set.end(), or std::find on a sequence
unfoldable pub contains : ℕ → List ℕ → Bool
contains k [] = false
contains k (x ∷ xs) = x == k || contains k xs

-- set.erase(k), or the erasure of the first k of a sequence
unfoldable pub remove : ℕ → List ℕ → List ℕ
remove k [] = []
remove k (x ∷ xs) = if x == k then xs else x ∷ remove k xs

-- No element twice.
abbrev pub Distinct : List ℕ → Type 0
Distinct [] = Unit {0}
Distinct (x ∷ xs) = (contains x xs ≡ false) × Distinct xs

pub contains-append :
    (k : ℕ) (xs ys : List ℕ) → contains k (xs ++ ys) ≡ (contains k xs || contains k ys)
unfolding contains
contains-append k [] ys = refl
contains-append k (x ∷ xs) ys = ground (arith, contains-append k xs ys)

pub contains-remove :
    (k j : ℕ) (xs : List ℕ)
    → Distinct xs
    → contains j (remove k xs) ≡ (if k == j then false else contains j xs)
unfolding contains remove
contains-remove k j [] d = ground arith
contains-remove k j (x ∷ xs) d = ground (arith, contains-remove k j xs d.1)

pub remove-Distinct : (k : ℕ) (xs : List ℕ) → Distinct xs → Distinct (remove k xs)
unfolding remove
remove-Distinct k [] d = tt
remove-Distinct k (x ∷ xs) d = ground (arith, remove-Distinct k xs d.1, contains-remove k x xs d.1)

pub length-remove :
    (k : ℕ) (xs : List ℕ) → contains k xs ≡ true → length (remove k xs) + 1 ≡ length xs
unfolding contains remove
length-remove k [] h = cc
length-remove k (x ∷ xs) h = ground (arith, length-remove k xs)

pub remove_absent : (k : ℕ) (xs : List ℕ) → contains k xs ≡ false → remove k xs ≡ xs
unfolding contains remove
remove_absent k [] h = refl
remove_absent k (x ∷ xs) h = ground (arith, remove_absent k xs)

pub append-Distinct :
    (k : ℕ) (xs : List ℕ) → Distinct xs → contains k xs ≡ false → Distinct (xs ++ k ∷ [])
unfolding contains
append-Distinct k [] d h = (refl, tt)
append-Distinct k (x ∷ xs) d h =
    ground (arith, append-Distinct k xs d.1, contains-append x xs (k ∷ []))

module _ {ℓ} {V : Type ℓ} where
  -- map.erase(key)
  unfoldable pub erase : ℕ → List (ℕ × V) → List (ℕ × V)
  erase key [] = []
  erase key ((other, old) ∷ rest) =
      if other == key then erase key rest else (other, old) ∷ erase key rest

  -- The value that map.find(key) leads to, if it leads to one.
  unfoldable pub lookup : ℕ → List (ℕ × V) → Option V
  lookup key [] = none
  lookup key ((other, old) ∷ rest) = if other == key then some old else lookup key rest

  -- map.insert_or_assign(key, value), and a write through a reference to an element that is there
  unfoldable pub insert : ℕ → V → List (ℕ × V) → List (ℕ × V)
  insert key value [] = (key, value) ∷ []
  insert key value ((other, old) ∷ rest) =
      if other == key then (key, value) ∷ rest else (other, old) ∷ insert key value rest

  pub lookup-erase :
      (key wanted : ℕ) (entries : List (ℕ × V))
      → lookup wanted (erase key entries) ≡ (if key == wanted then none else lookup wanted entries)
  unfolding lookup erase
  lookup-erase key wanted [] = ground arith
  lookup-erase key wanted ((other, old) ∷ rest) = ground (arith, lookup-erase key wanted rest)

  pub lookup-insert :
      (key wanted : ℕ) (value : V) (entries : List (ℕ × V))
      → lookup wanted (insert key value entries)
        ≡ (if key == wanted then some value else lookup wanted entries)
  unfolding lookup insert
  lookup-insert key wanted value [] = refl
  lookup-insert key wanted value ((other, old) ∷ rest) =
      ground (arith, lookup-insert key wanted value rest)

  pub insert-insert :
      (key : ℕ) (first second : V) (entries : List (ℕ × V))
      → insert key second (insert key first entries) ≡ insert key second entries
  unfolding insert
  insert-insert key first second [] = ground arith
  insert-insert key first second ((other, old) ∷ rest) =
      ground (arith, insert-insert key first second rest)
