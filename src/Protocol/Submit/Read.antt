-- ===== src/Protocol/Submit/Read.antt =====
-- The argument loop of decode_submit_request, both ways.
use mathlib.Core.List.{append-nil, append_assoc}
use runnerd.Prelude.{
  ℕ, zero, suc, ◌+◌, ◌-◌, ◌^◌, ◌≤◌, ◌<◌, ◌≡◌, refl, sym, ap, ◌∙◌, List, [], ◌∷◌, ◌++◌, arith, ok,
  bind-eq-ok, length, take, drop, All, length-append, length-drop, length-take, take-append-drop,
}
use runnerd.Protocol.{IsByte, uint32_bytes, read_uint32}
use runnerd.Protocol.Submit.{read_argument, read_arguments}
use runnerd.Protocol.Submit.Packet.{packed, length-uint32_bytes}
use runnerd.Protocol.Submit.Cursor.{drop-add, At, At-skip, read_argument-At, read_uint32→At}

length-word :
    (a : List ℕ) (rest : List ℕ)
    → length (uint32_bytes (length a) ++ (a ++ rest)) ≡ 4 + length a + length rest
length-word a rest = omega (
  arith,
  length-append (uint32_bytes (length a)) (a ++ rest),
  length-append a rest,
  length-uint32_bytes (length a),
)

At-argument :
    (input : List ℕ) (o : ℕ) (a rest : List ℕ)
    → At input o (uint32_bytes (length a) ++ (a ++ rest))
    → At input (o + 4 + length a) rest
unfolding uint32_bytes
At-argument input o a rest h =
    At-skip input (o + 4) a rest (At-skip input o (uint32_bytes (length a)) (a ++ rest) h)

-- The loop reads back the arguments that were packed.
pub read_arguments-packed :
    (argv : List (List ℕ)) (input : List ℕ) (o : ℕ) (rest : List ℕ) (done : List (List ℕ))
    → length (packed argv) < 2 ^ 32
    → At input o (packed argv ++ rest)
    → read_arguments (length argv) input o done ≡ ok (done ++ argv, o + length (packed argv))
unfolding read_arguments packed
read_arguments-packed [] input o rest done h at' = ground (arith, append-nil done)
read_arguments-packed (a ∷ argv) input o rest done h at' =
    let here : At input o (uint32_bytes (length a) ++ (a ++ (packed argv ++ rest))) =
      (at'.0 ∙ rw (append_assoc, append_assoc), at'.1) in
    let size = length-word a (packed argv) in
    ground (
      arith,
      read_argument-At input o a (packed argv ++ rest) (omega arith) here,
      read_arguments-packed argv input (o + 4 + length a) rest (done ++ a ∷ []) (omega arith)
          (At-argument input o a (packed argv ++ rest) here),
      append_assoc done (a ∷ []) argv,
    )

read_argument-parts :
    (input : List ℕ) (o : ℕ) (a : List ℕ) (o' : ℕ)
    → read_argument input o ≡ ok (a, o')
    → (n : ℕ) × (m : ℕ) × (read_uint32 input o ≡ ok (n, m))
      × (n ≤ length input - m)
      × (a ≡ take n (drop m input))
      × (o' ≡ m + n)
unfolding read_argument
read_argument-parts input o a o' e =
    let ((n, m), is_word, e') = bind-eq-ok (read_uint32 input o) _ e in
    (n, m, is_word, ground arith, ground arith, ground arith)

read_argument→At :
    (input : List ℕ) (o : ℕ) (a : List ℕ) (o' : ℕ)
    → All IsByte input
    → read_argument input o ≡ ok (a, o')
    → At input o (uint32_bytes (length a) ++ (a ++ drop o' input)) × (o' ≤ length input)
read_argument→At input o a o' hb e =
    let (n, m, is_word, fits, is_bytes, moved) = read_argument-parts input o a o' e in
    let (small, behind, (here, start), inside) = read_uint32→At input o n m hb is_word in
    let size : length a ≡ n =
      ap length is_bytes ∙ omega (arith, length-take n (drop m input), length-drop m input) in
    let bytes : drop m input ≡ a ++ drop o' input =
      sym (take-append-drop n (drop m input))
      ∙ rw (is_bytes, moved)
          (ap (λ (s : List ℕ). take n (drop m input) ++ s) (sym (drop-add m n input))) in
    ((here ∙ rw (size, bytes), start), omega arith)

-- What the loop returns was packed in the bytes that it went over.
pub read_arguments→packed :
    (left : ℕ) (input : List ℕ) (o : ℕ) (done argv : List (List ℕ)) (o' : ℕ)
    → All IsByte input
    → o ≤ length input
    → read_arguments left input o done ≡ ok (argv, o')
    → (new : List (List ℕ)) × (argv ≡ done ++ new)
      × (length new ≡ left)
      × (drop o input ≡ packed new ++ drop o' input)
      × (o' ≤ length input)
unfolding read_arguments packed
read_arguments→packed zero input o done argv o' hb h e =
    ([], ground (arith, append-nil done), refl, ground arith, ground arith)
read_arguments→packed (suc left) input o done argv o' hb h e =
    let ((a, m), is_argument, e') = bind-eq-ok (read_argument input o) _ e in
    let ((here, _), inside) = read_argument→At input o a m hb is_argument in
    let (new, is_all, count, bytes, end) =
      read_arguments→packed left input m (done ++ a ∷ []) argv o' hb inside e' in
    (
      a ∷ new,
      is_all ∙ append_assoc done (a ∷ []) new,
      ap suc count,
      here ∙ rw (bytes, append_assoc, append_assoc),
      end,
    )
