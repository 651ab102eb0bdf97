-- ===== src/Protocol/Submit/RoundTrip.antt =====
-- decode_submit_request accepts exactly the packets, and inverts the encoder.
use mathlib.Core.List.{append-nil}
use mathlib.Core.Path.{subst}
use runnerd.Prelude.{
  ℕ, ◌+◌, ◌^◌, ◌≤◌, ◌<◌, ◌≡◌, refl, ap, ◌∙◌, ◌↔◌, true, List, [], ◌∷◌, ◌++◌, Option, some, none,
  arith, ok, raise, bind, bind-eq-ok, length, drop, All, drop_append, not, ◌==◌, if◌then◌else◌,
  codes, invalid_argument, Result,
}
use runnerd.Prelude.Int.{ℤ, pos, negsuc}
use runnerd.Job.{JobSpec, validate_job_spec}
use runnerd.Job.Validity.{IsPositive, validate_job_spec-IsValidSpec}
use runnerd.Protocol.{IsByte, uint32_bytes, read_uint32, submit_command, max_frame_size}
use runnerd.Protocol.Words.{starts_with_append, starts_with→append}
use runnerd.Protocol.Submit.{
  is_submit_request, read_arguments, decode_timeout, encode_submit_request, decode_submit_request,
  decode_body, decode_arguments,
}
use runnerd.Protocol.Submit.Packet.{
  wire_timeout, packed, packet, Fits, length-packed-le, length-packet,
}
use runnerd.Protocol.Submit.Cursor.{At, At-skip, read_uint32-At, read_uint32→At}
use runnerd.Protocol.Submit.Read.{read_arguments-packed, read_arguments→packed}
use runnerd.Protocol.Submit.Encode.{encode_submit_request-packet}

decode_timeout-wire : (t : Option ℤ) → IsPositive t → decode_timeout (wire_timeout t) ≡ t
unfolding decode_timeout
decode_timeout-wire none p = refl
decode_timeout-wire (some (pos n)) p = ground arith
decode_timeout-wire (some (negsuc n)) p = absurd p

wire-decode_timeout :
    (n : ℕ) → (wire_timeout (decode_timeout n) ≡ n) × IsPositive (decode_timeout n)
unfolding decode_timeout
wire-decode_timeout n = ground arith

drop-length : (xs : List ℕ) → drop (length xs) xs ≡ []
drop-length [] = refl
drop-length (x ∷ xs) = drop-length xs

module _ (spec : JobSpec) (f : Fits spec) where
  timeout_word : At (packet spec) (length submit_command) (
      uint32_bytes (wire_timeout spec.execution_timeout)
      ++ (uint32_bytes (length spec.argv) ++ packed spec.argv))
  unfolding packet
  timeout_word = (drop_append submit_command _, omega (arith, length-packet spec))

  count_word :
      At
        (packet spec)
        (length submit_command + 4)
        (uint32_bytes (length spec.argv) ++ packed spec.argv)
  unfolding uint32_bytes
  count_word = At-skip _ _ (uint32_bytes (wire_timeout spec.execution_timeout)) _ timeout_word

  arguments_there : At (packet spec) (length submit_command + 4 + 4) (packed spec.argv ++ [])
  unfolding uint32_bytes
  arguments_there =
      rw (append-nil (packed spec.argv))
        (At-skip _ _ (uint32_bytes (length spec.argv)) (packed spec.argv) count_word)

  is_submit_request-packet : is_submit_request (packet spec) ≡ true
  unfolding is_submit_request packet
  is_submit_request-packet = starts_with_append submit_command _

  -- Every packet in a frame decodes to its specification.
  decode-packet : IsPositive spec.execution_timeout → decode_submit_request (packet spec) ≡ ok spec
  unfolding decode_submit_request decode_body decode_arguments
  decode-packet p =
      let size = length-packet spec in
      let count = length-packed-le spec.argv in
      ground (
        arith,
        f.size_fits,
        f.timeout_fits,
        is_submit_request-packet,
        read_uint32-At (packet spec) (length submit_command) (wire_timeout spec.execution_timeout) _
            f.timeout_fits timeout_word,
        read_uint32-At (packet spec) (length submit_command + 4) (length spec.argv) _
            (omega (arith, f.size_fits)) count_word,
        read_arguments-packed spec.argv (packet spec) (length submit_command + 4 + 4) [] []
            (omega (arith, f.size_fits)) arguments_there,
        decode_timeout-wire spec.execution_timeout p,
      )

decode-parts :
    (p : List ℕ) (spec : JobSpec)
    → decode_submit_request p ≡ ok spec
    → (length p ≤ max_frame_size) × (is_submit_request p ≡ true) × (decode_body p ≡ ok spec)
unfolding decode_submit_request
decode-parts p spec e = ground arith

finish : List ℕ → List (List ℕ) × ℕ → Result (List (List ℕ))
finish p (argv, final) =
    if not (final == length p)
    then raise (invalid_argument (codes "submit request has trailing bytes"))
    else ok argv

decode_arguments-finish :
    (p : List ℕ) (o n : ℕ) (argv : List (List ℕ))
    → decode_arguments p o n ≡ ok argv
    → bind (read_arguments n p o []) (finish p) ≡ ok argv
unfolding decode_arguments finish
decode_arguments-finish p o n argv e = ground arith

finish-parts :
    (p : List ℕ) (r : List (List ℕ) × ℕ) (argv : List (List ℕ))
    → finish p r ≡ ok argv
    → (r.1 ≡ length p) × (argv ≡ r.0)
unfolding finish
finish-parts p r argv e = ground arith

decode_arguments→packed :
    (p : List ℕ) (o n : ℕ) (argv : List (List ℕ))
    → All IsByte p
    → o ≤ length p
    → decode_arguments p o n ≡ ok argv
    → (length argv ≡ n) × (drop o p ≡ packed argv)
decode_arguments→packed p o n argv hb h e =
    let ((read, final), is_read, e') =
      bind-eq-ok (read_arguments n p o []) (finish p) (decode_arguments-finish p o n argv e) in
    let (ended, same_argv) = finish-parts p (read, final) argv e' in
    let (new, is_all, count, bytes, inside) =
      read_arguments→packed n p o [] read final hb h is_read in
    let whole : argv ≡ new = same_argv ∙ is_all in
    let nothing : drop final p ≡ [] = rw ended (drop-length p) in
    (ap length whole ∙ count, bytes ∙ rw (whole, nothing, append-nil))

-- A payload made of a command, two words and packed arguments is the packet of their specification.
rebuilt :
    (p : List ℕ) (ms n o₁ o₂ : ℕ) (argv : List (List ℕ))
    → length p ≤ max_frame_size
    → is_submit_request p ≡ true
    → ms < 2 ^ 32
    → drop (length submit_command) p ≡ uint32_bytes ms ++ drop o₁ p
    → drop o₁ p ≡ uint32_bytes n ++ drop o₂ p
    → (length argv ≡ n) × (drop o₂ p ≡ packed argv)
    → let spec : JobSpec = record { argv = argv; execution_timeout = decode_timeout ms } in
      (p ≡ packet spec) × Fits spec × IsPositive spec.execution_timeout
unfolding packet is_submit_request
rebuilt p ms n o₁ o₂ argv small is_submit ms_small at_ms at_n (count, bytes) =
    let (wire, positive) = wire-decode_timeout ms in
    let whole : p ≡ packet (record { argv = argv; execution_timeout = decode_timeout ms }) =
      starts_with→append submit_command p is_submit
      ∙ ap (λ (s : List ℕ). submit_command ++ s) (at_ms ∙ rw (at_n, bytes, count, wire)) in
    (whole, record { timeout_fits = rw wire ms_small; size_fits = rw (← whole) small }, positive)

-- Whatever decodes is the packet of what it decodes to.
decoded :
    (p : List ℕ) (spec : JobSpec)
    → All IsByte p
    → decode_submit_request p ≡ ok spec
    → (p ≡ packet spec) × Fits spec × IsPositive spec.execution_timeout
unfolding decode_body
decoded p spec hb e =
    let (small, is_submit, e₁) = decode-parts p spec e in
    let ((ms, o₁), is_ms, e₂) = bind-eq-ok (read_uint32 p (length submit_command)) _ e₁ in
    let ((n, o₂), is_n, e₃) = bind-eq-ok (read_uint32 p o₁) _ e₂ in
    let (argv, is_argv, e₄) = bind-eq-ok (decode_arguments p o₂ n) _ e₃ in
    let (ms_small, _, (at_ms, _), _) = read_uint32→At p (length submit_command) ms o₁ hb is_ms in
    let (_, _, (at_n, _), inside) = read_uint32→At p o₁ n o₂ hb is_n in
    let bytes = decode_arguments→packed p o₂ n argv hb inside is_argv in
    let same_spec : record { argv = argv; execution_timeout = decode_timeout ms } ≡ spec = cc e₄ in
    subst (λ s. (p ≡ packet s) × Fits s × IsPositive s.execution_timeout) same_spec
      (rebuilt p ms n o₁ o₂ argv small is_submit ms_small at_ms at_n bytes)

-- The daemon's decoder accepts exactly the strings of bytes that are the packet of a specification
-- that fits in a frame and has a positive timeout or none, and returns that specification.
pub decode_submit_request-packet :
    (p : List ℕ) (spec : JobSpec)
    → All IsByte p
    → (decode_submit_request p ≡ ok spec)
      ↔ ((p ≡ packet spec) × Fits spec × IsPositive spec.execution_timeout)
decode_submit_request-packet p spec hb =
    (decoded p spec hb, λ (e, f, positive). rw e (decode-packet spec f positive))

-- What the client sends for a specification, the daemon reads as that specification, and it passes
-- the daemon's own validation.
pub decode-encode_submit_request :
    (spec : JobSpec) (p : List ℕ)
    → encode_submit_request spec ≡ ok p
    → (decode_submit_request p ≡ ok spec) × (validate_job_spec spec ≡ ok tt)
decode-encode_submit_request spec p e =
    let (v, f, is_packet) = (encode_submit_request-packet spec p).0 e in
    (rw is_packet (decode-packet spec f v.positive), (validate_job_spec-IsValidSpec spec).1 v)

-- The other way round: a request that the daemon decodes and validates is, byte for byte, what the
-- client would send for the specification.
pub encode-decode_submit_request :
    (p : List ℕ) (spec : JobSpec)
    → All IsByte p
    → decode_submit_request p ≡ ok spec
    → validate_job_spec spec ≡ ok tt
    → encode_submit_request spec ≡ ok p
encode-decode_submit_request p spec hb e checked =
    let (is_packet, f, _) = decoded p spec hb e in
    (encode_submit_request-packet spec p).1
      ((validate_job_spec-IsValidSpec spec).0 checked, f, is_packet)
