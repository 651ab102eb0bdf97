-- ===== src/Protocol/Submit/Encode.antt =====
-- encode_submit_request succeeds on exactly the valid specifications that fit, and writes the packet.
use mathlib.Core.List.{append-nil, append_assoc}
use runnerd.Prelude.{
  ℕ, ◌+◌, ◌%◌, ◌^◌, ◌≤◌, ◌<◌, ◌≡◌, refl, sym, ap, ◌∙◌, ◌↔◌, List, [], ◌∷◌, ◌++◌, Option, none, some,
  arith, ok, bind-eq-ok, length, length-append, codes,
}
use runnerd.Prelude.Int.{ℤ, pos, negsuc}
use runnerd.Job.{JobSpec, validate_job_spec}
use runnerd.Job.Validity.{IsValidSpec, IsPositive, validate_job_spec-IsValidSpec}
use runnerd.Protocol.{max_frame_size, submit_command, uint32_bytes, append_uint32}
use runnerd.Protocol.Submit.{
  encode_timeout, add_sizes, append_arguments, check_argument_count, encode_submit_request,
}
use runnerd.Protocol.Submit.Packet.{
  wire_timeout, packed, packet, Fits, length-packed-le, length-packet, length-uint32_bytes,
}

length-packed_cons :
    (a : List ℕ) (rest : List (List ℕ))
    → length (packed (a ∷ rest)) ≡ 4 + length a + length (packed rest)
unfolding packed
length-packed_cons a rest = omega (
  arith,
  length-append (uint32_bytes (length a)) (a ++ packed rest),
  length-append a (packed rest),
  length-uint32_bytes (length a),
)

length-packed_nil : length (packed []) ≡ 0
unfolding packed
length-packed_nil = refl

append_arguments-packed :
    (argv : List (List ℕ)) (p : List ℕ)
    → length (packed argv) < 2 ^ 32
    → append_arguments p argv ≡ p ++ packed argv
unfolding append_arguments packed append_uint32
append_arguments-packed [] p h = sym (append-nil p)
append_arguments-packed (a ∷ rest) p h =
    let size = length-packed_cons a rest in
    let word : length a % 2 ^ 32 ≡ length a = omega arith in
    append_arguments-packed rest _ (omega arith) ∙ rw (word, append_assoc, append_assoc)

add_sizes_fits :
    (argv : List (List ℕ)) (n : ℕ)
    → n + length (packed argv) ≤ max_frame_size
    → add_sizes argv n ≡ ok (n + length (packed argv))
unfolding add_sizes
add_sizes_fits [] n h = ground (arith, length-packed_nil)
add_sizes_fits (a ∷ rest) n h =
    ground (arith, length-packed_cons a rest, add_sizes_fits rest (n + 4 + length a))

add_sizes→fits :
    (argv : List (List ℕ)) (n m : ℕ)
    → n ≤ max_frame_size
    → add_sizes argv n ≡ ok m
    → n + length (packed argv) ≤ max_frame_size
unfolding add_sizes
add_sizes→fits [] n m h e = ground (arith, length-packed_nil)
add_sizes→fits (a ∷ rest) n m h e =
    ground (arith, length-packed_cons a rest, add_sizes→fits rest (n + 4 + length a) m)

encode_timeout-wire :
    (t : Option ℤ) → IsPositive t → wire_timeout t < 2 ^ 32 → encode_timeout t ≡ ok (wire_timeout t)
unfolding encode_timeout
encode_timeout-wire none p h = refl
encode_timeout-wire (some (pos n)) p h = ground arith
encode_timeout-wire (some (negsuc n)) p h = absurd p

encode_timeout→wire :
    (t : Option ℤ) (n : ℕ)
    → IsPositive t
    → encode_timeout t ≡ ok n
    → (n ≡ wire_timeout t) × (wire_timeout t < 2 ^ 32)
unfolding encode_timeout
encode_timeout→wire none n p e = ground arith
encode_timeout→wire (some (pos k)) n p e = ground arith
encode_timeout→wire (some (negsuc k)) n p e = absurd p

length-submit_command : length submit_command ≡ 6
unfolding submit_command codes
length-submit_command = refl

written :
    (spec : JobSpec)
    → Fits spec
    → append_arguments
        (append_uint32
          (append_uint32 submit_command (wire_timeout spec.execution_timeout))
          (length spec.argv % 2 ^ 32))
        spec.argv
      ≡ packet spec
unfolding packet append_uint32
written spec f =
    let fits : length (packed spec.argv) < 2 ^ 32 =
      omega (arith, length-packet spec, f.size_fits) in
    let word : length spec.argv % 2 ^ 32 ≡ length spec.argv =
      omega (arith, length-packed-le spec.argv) in
    append_arguments-packed spec.argv _ fits ∙ rw (word, append_assoc, append_assoc)

encodes :
    (spec : JobSpec) → IsValidSpec spec → Fits spec → encode_submit_request spec ≡ ok (packet spec)
unfolding encode_submit_request check_argument_count
encodes spec v f = ground (
  arith,
  (validate_job_spec-IsValidSpec spec).1 v,
  encode_timeout-wire spec.execution_timeout v.positive f.timeout_fits,
  add_sizes_fits spec.argv (length submit_command + 8),
  length-packet spec,
  length-packed-le spec.argv,
  f.size_fits,
  written spec f,
)

encoded :
    (spec : JobSpec) (p : List ℕ)
    → encode_submit_request spec ≡ ok p
    → IsValidSpec spec × Fits spec × (p ≡ packet spec)
unfolding encode_submit_request
encoded spec p e =
    let (checked, is_checked, e₁) = bind-eq-ok (validate_job_spec spec) _ e in
    let (counted, is_counted, e₂) = bind-eq-ok (check_argument_count spec.argv) _ e₁ in
    let (ms, is_timeout, e₃) = bind-eq-ok (encode_timeout spec.execution_timeout) _ e₂ in
    let (size, is_sized, e₄) = bind-eq-ok (add_sizes spec.argv _) _ e₃ in
    let v = (validate_job_spec-IsValidSpec spec).0 is_checked in
    let (is_wire, wire_fits) =
      encode_timeout→wire spec.execution_timeout ms v.positive is_timeout in
    let f : Fits spec = record {
      timeout_fits = wire_fits;
      size_fits = omega (
        arith,
        length-packet spec,
        length-submit_command,
        add_sizes→fits spec.argv (length submit_command + 8) size
            (omega (arith, length-submit_command)) is_sized,
      );
    } in
    (v, f, cc (encodes spec v f))

-- The client's encoder accepts exactly the valid specifications whose timeout takes 32 bits and
-- whose packet takes a frame at most, and what it writes is their packet.
pub encode_submit_request-packet :
    (spec : JobSpec) (p : List ℕ)
    → (encode_submit_request spec ≡ ok p) ↔ (IsValidSpec spec × Fits spec × (p ≡ packet spec))
encode_submit_request-packet spec p =
    (encoded spec p, λ (v, f, e). encodes spec v f ∙ ap ok (sym e))
