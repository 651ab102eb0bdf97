-- ===== src/Protocol/JobIds/RoundTrip.antt =====
-- STATUS and CANCEL requests: decoding inverts encoding, in both directions.
use mathlib.Core.List.{append_assoc}
use runnerd.Prelude.{
  ℕ, ◌+◌, ◌/◌, ◌%◌, ◌^◌, ◌<◌, ◌≡◌, sym, ap, ◌∙◌, true, List, [], ◌∷◌, ◌++◌, arith, ok, length, drop,
  All, length-append, drop_append, length-drop, All-drop, ◌↔◌, ◌⊎◌, inl, inr,
}
use runnerd.Protocol.{
  IsByte, starts_with, append_job_id_loop, append_job_id, job_id_value, status_command,
  cancel_command,
}
use runnerd.Protocol.Words.{starts_with_append, starts_with→append}
use runnerd.Protocol.JobIds.{
  encode_request, decode_id, decode_request, encode_status_request, decode_status_request,
  encode_cancel_request, decode_cancel_request,
}

-- The eight bytes of a job id, the highest first.
abbrev pub job_id_bytes : ℕ → List ℕ
job_id_bytes v =
    (v / 256 ^ 7 % 256)
    ∷ (v / 256 ^ 6 % 256)
    ∷ (v / 256 ^ 5 % 256)
    ∷ (v / 256 ^ 4 % 256)
    ∷ (v / 256 ^ 3 % 256)
    ∷ (v / 256 ^ 2 % 256)
    ∷ (v / 256 % 256)
    ∷ (v % 256)
    ∷ []

div_one : (v : ℕ) → v / 1 ≡ v
div_one v = omega arith

append_job_id-bytes : (out : List ℕ) (v : ℕ) → append_job_id out v ≡ out ++ job_id_bytes v
unfolding append_job_id append_job_id_loop
append_job_id-bytes out v = simp append_assoc (rw (div_one v))

job_id_value-bytes : (v : ℕ) → v < 2 ^ 64 → job_id_value 0 (job_id_bytes v) ≡ v
unfolding job_id_value
job_id_value-bytes v h = omega arith

job_id_bytes-value :
    (a b c d e f g h : ℕ)
    → IsByte a
    → IsByte b
    → IsByte c
    → IsByte d
    → IsByte e
    → IsByte f
    → IsByte g
    → IsByte h
    → job_id_bytes (job_id_value 0 (a ∷ b ∷ c ∷ d ∷ e ∷ f ∷ g ∷ h ∷ []))
      ≡ a ∷ b ∷ c ∷ d ∷ e ∷ f ∷ g ∷ h ∷ []
unfolding job_id_value
job_id_bytes-value a b c d e f g h ha hb hc hd he hf hg hh = ground arith

job_id_value-lt :
    (a b c d e f g h : ℕ)
    → IsByte a
    → IsByte b
    → IsByte c
    → IsByte d
    → IsByte e
    → IsByte f
    → IsByte g
    → IsByte h
    → job_id_value 0 (a ∷ b ∷ c ∷ d ∷ e ∷ f ∷ g ∷ h ∷ []) < 2 ^ 64
unfolding job_id_value
job_id_value-lt a b c d e f g h ha hb hc hd he hf hg hh = omega arith

-- What an id of eight bytes encodes to, read back from any string of eight bytes.
decode_id_sound :
    (s : List ℕ) (id : ℕ)
    → length s ≡ 8
    → All IsByte s
    → decode_id s ≡ ok id
    → (0 < id) × (id < 2 ^ 64) × (s ≡ job_id_bytes id)
unfolding decode_id
decode_id_sound (a ∷ b ∷ c ∷ d ∷ e ∷ f ∷ g ∷ h ∷ []) id n hs p =
    let (ha, (hb, (hc, (hd, (he, (hf, (hg, (hh, u)))))))) = hs in
    ground (
      arith,
      job_id_value-lt a b c d e f g h ha hb hc hd he hf hg hh,
      job_id_bytes-value a b c d e f g h ha hb hc hd he hf hg hh,
    )
decode_id_sound _ id n hs p = absurd (omega arith)

decode_id-bytes : (id : ℕ) → 0 < id → id < 2 ^ 64 → decode_id (job_id_bytes id) ≡ ok id
unfolding decode_id
decode_id-bytes id h0 h = ground (arith, job_id_value-bytes id h)

module _ (command not_this bad_size : List ℕ) where
  decode-encode :
      (id : ℕ)
      → 0 < id
      → id < 2 ^ 64
      → decode_request command not_this bad_size (command ++ job_id_bytes id) ≡ ok id
  unfolding decode_request
  decode-encode id h0 h = ground (
    arith,
    starts_with_append command (job_id_bytes id),
    length-append command (job_id_bytes id),
    drop_append command (job_id_bytes id),
    decode_id-bytes id h0 h,
  )

  decode-parts :
      (p : List ℕ) (id : ℕ)
      → decode_request command not_this bad_size p ≡ ok id
      → (starts_with command p ≡ true)
        × (length p ≡ length command + 8)
        × (decode_id (drop (length command) p) ≡ ok id)
  unfolding decode_request
  decode-parts p id e = ground arith

  decode_sound :
      (p : List ℕ) (id : ℕ)
      → All IsByte p
      → decode_request command not_this bad_size p ≡ ok id
      → (0 < id) × (id < 2 ^ 64) × (p ≡ command ++ job_id_bytes id)
  decode_sound p id hp e =
      let (starts, size, decoded) = decode-parts p id e in
      let whole = starts_with→append command p starts in
      let (h0, h, bytes) =
        decode_id_sound (drop (length command) p) id (omega (arith, length-drop (length command) p))
          (All-drop IsByte (length command) p hp) decoded in
      (h0, h, whole ∙ ap (λ (s : List ℕ). command ++ s) bytes)

encode_request-bytes :
    (command : List ℕ) (id : ℕ)
    → 0 < id
    → encode_request command id ≡ ok (command ++ job_id_bytes id)
unfolding encode_request
encode_request-bytes command id h = ground (arith, append_job_id-bytes command id)

encode_request→bytes :
    (command p : List ℕ) (id : ℕ)
    → encode_request command id ≡ ok p
    → (0 < id) × (p ≡ command ++ job_id_bytes id)
unfolding encode_request
encode_request→bytes command p id e = ground (arith, append_job_id-bytes command id)

codec :
    (command m n p : List ℕ) (id : ℕ)
    → All IsByte p
    → id < 2 ^ 64
    → (decode_request command m n p ≡ ok id) ↔ (encode_request command id ≡ ok p)
codec command m n p id hp h = (
  λ e.
      let (h0, _, whole) = decode_sound command m n p id hp e in
      encode_request-bytes command id h0 ∙ ap ok (sym whole),
  λ e.
      let (h0, whole) = encode_request→bytes command p id e in
      rw whole (decode-encode command m n id h0 h),
)

-- What an encoder makes of an id, its decoder reads as that id.
carried :
    (command m n : List ℕ) (id : ℕ)
    → 0 < id
    → id < 2 ^ 64
    → (payload : List ℕ) × (encode_request command id ≡ ok payload)
      × (decode_request command m n payload ≡ ok id)
carried command m n id h0 h = (
  command ++ job_id_bytes id,
  encode_request-bytes command id h0,
  decode-encode command m n id h0 h,
)

pub status_request-carried :
    (id : ℕ)
    → 0 < id
    → id < 2 ^ 64
    → (payload : List ℕ) × (encode_status_request id ≡ ok payload)
      × (decode_status_request payload ≡ ok id)
unfolding encode_status_request decode_status_request
status_request-carried id h0 h = carried status_command _ _ id h0 h

pub cancel_request-carried :
    (id : ℕ)
    → 0 < id
    → id < 2 ^ 64
    → (payload : List ℕ) × (encode_cancel_request id ≡ ok payload)
      × (decode_cancel_request payload ≡ ok id)
unfolding encode_cancel_request decode_cancel_request
cancel_request-carried id h0 h = carried cancel_command _ _ id h0 h

-- For any string of bytes and any 64-bit id: the STATUS decoder returns the id exactly when the
-- string is what the STATUS encoder makes of that id.
decode_status_request-encode :
    (p : List ℕ) (id : ℕ)
    → All IsByte p
    → id < 2 ^ 64
    → (decode_status_request p ≡ ok id) ↔ (encode_status_request id ≡ ok p)
unfolding decode_status_request encode_status_request
decode_status_request-encode p id hp h = codec status_command _ _ p id hp h

-- For any string of bytes and any 64-bit id: the CANCEL decoder returns the id exactly when the
-- string is what the CANCEL encoder makes of that id.
decode_cancel_request-encode :
    (p : List ℕ) (id : ℕ)
    → All IsByte p
    → id < 2 ^ 64
    → (decode_cancel_request p ≡ ok id) ↔ (encode_cancel_request id ≡ ok p)
unfolding decode_cancel_request encode_cancel_request
decode_cancel_request-encode p id hp h = codec cancel_command _ _ p id hp h

-- A string that either decoder accepts is an id of 64 bits that is not zero.
pub decode_request_range :
    (p : List ℕ) (id : ℕ)
    → All IsByte p
    → (decode_status_request p ≡ ok id) ⊎ (decode_cancel_request p ≡ ok id)
    → (0 < id) × (id < 2 ^ 64)
unfolding decode_status_request decode_cancel_request
decode_request_range p id hp (inl e) =
    let (h0, h, _) = decode_sound status_command _ _ p id hp e in (h0, h)
decode_request_range p id hp (inr e) =
    let (h0, h, _) = decode_sound cancel_command _ _ p id hp e in (h0, h)
