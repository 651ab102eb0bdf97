-- ===== src/Protocol/Submit/Cursor.antt =====
-- A position in a payload, by what follows it: how the readers of src/protocol.cpp move.
use mathlib.Core.List.{append-nil}
use native.Mathlib.Nat.{suc-add}
use runnerd.Prelude.{
  ℕ, zero, suc, ◌+◌, ◌^◌, ◌≤◌, ◌<◌, ◌≡◌, refl, sym, ap, ◌∙◌, List, [], ◌∷◌, ◌++◌, arith, ok, length,
  take, drop, All, length-append, length-drop, drop_append, take_append, take-append-drop, All-drop,
}
use runnerd.Protocol.{IsByte, uint32_bytes, uint32_value, read_uint32}
use runnerd.Protocol.Words.{uint32_value-bytes, uint32_bytes-value}
use runnerd.Protocol.Submit.{read_argument}
use runnerd.Protocol.Submit.Packet.{length-uint32_bytes}

abbrev pub At : List ℕ → ℕ → List ℕ → Type 0
At input offset rest = (drop offset input ≡ rest) × (offset ≤ length input)

drop-nil : (n : ℕ) → drop {A = ℕ} n [] ≡ []
drop-nil zero = refl
drop-nil (suc n) = refl

pub drop-add : (m n : ℕ) (xs : List ℕ) → drop (m + n) xs ≡ drop n (drop m xs)
drop-add zero n xs = ground arith
drop-add (suc m) n [] = drop-nil (suc m + n) ∙ sym (drop-nil n)
drop-add (suc m) n (x ∷ xs) = rw (suc-add m n) (drop-add m n xs)

pub At-length :
    (input : List ℕ) (o : ℕ) (rest : List ℕ) → At input o rest → length input ≡ o + length rest
At-length input o rest (e, h) = omega (arith, length-drop o input, ap length e)

pub At-skip :
    (input : List ℕ) (o : ℕ) (xs rest : List ℕ)
    → At input o (xs ++ rest)
    → At input (o + length xs) rest
At-skip input o xs rest (e, h) = (
  drop-add o (length xs) input ∙ ap (drop (length xs)) e ∙ drop_append xs rest,
  omega (arith, At-length input o (xs ++ rest) (e, h), length-append xs rest),
)

pub read_uint32-At :
    (input : List ℕ) (o v : ℕ) (rest : List ℕ)
    → v < 2 ^ 32
    → At input o (uint32_bytes v ++ rest)
    → read_uint32 input o ≡ ok (v, o + 4)
unfolding read_uint32 uint32_bytes
read_uint32-At input o v rest h a =
    let size = At-length input o (uint32_bytes v ++ rest) a in
    let word : take 4 (drop o input) ≡ uint32_bytes v =
      rw a.0 (take_append (uint32_bytes v) rest) in
    ground (
      arith,
      length-append (uint32_bytes v) rest,
      length-uint32_bytes v,
      uint32_value-bytes v [],
      append-nil (uint32_bytes v),
    )

pub read_argument-At :
    (input : List ℕ) (o : ℕ) (argument rest : List ℕ)
    → length argument < 2 ^ 32
    → At input o (uint32_bytes (length argument) ++ (argument ++ rest))
    → read_argument input o ≡ ok (argument, o + 4 + length argument)
unfolding read_argument uint32_bytes
read_argument-At input o argument rest h a =
    let behind = At-skip input o (uint32_bytes (length argument)) (argument ++ rest) a in
    let size = At-length input (o + 4) (argument ++ rest) behind in
    let bytes : take (length argument) (drop (o + 4) input) ≡ argument =
      rw behind.0 (take_append argument rest) in
    ground (
      arith,
      read_uint32-At input o (length argument) (argument ++ rest) h a,
      length-append argument rest,
    )

-- Four bytes are the word that they stand for.
word-bytes :
    (xs : List ℕ)
    → All IsByte xs
    → 4 ≤ length xs
    → (uint32_value (take 4 xs) < 2 ^ 32) × (take 4 xs ≡ uint32_bytes (uint32_value (take 4 xs)))
unfolding uint32_value
word-bytes (a ∷ b ∷ c ∷ d ∷ xs) h n =
    let (ha, (hb, (hc, (hd, _)))) = h in (omega arith, sym (uint32_bytes-value a b c d ha hb hc hd))
word-bytes _ h n = absurd (omega arith)

read_uint32-parts :
    (input : List ℕ) (o v o' : ℕ)
    → read_uint32 input o ≡ ok (v, o')
    → (o + 4 ≤ length input) × (v ≡ uint32_value (take 4 (drop o input))) × (o' ≡ o + 4)
unfolding read_uint32
read_uint32-parts input o v o' e = ground arith

pub read_uint32→At :
    (input : List ℕ) (o v o' : ℕ)
    → All IsByte input
    → read_uint32 input o ≡ ok (v, o')
    → (v < 2 ^ 32)
      × (o' ≡ o + 4)
      × At input o (uint32_bytes v ++ drop o' input)
      × (o' ≤ length input)
read_uint32→At input o v o' hb e =
    let (inside, is_value, moved) = read_uint32-parts input o v o' e in
    let left : 4 ≤ length (drop o input) = omega (arith, length-drop o input) in
    let (small, word) = word-bytes (drop o input) (All-drop IsByte o input hb) left in
    (
      rw is_value small,
      moved,
      (
        sym (take-append-drop 4 (drop o input))
            ∙ rw (moved, is_value, ← word)
                (ap (λ (s : List ℕ). take 4 (drop o input) ++ s) (sym (drop-add o 4 input))),
        omega arith,
      ),
      omega arith,
    )
