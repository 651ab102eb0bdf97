-- ===== src/Protocol/Frames/Whole.antt =====
-- Whole frames and parts of frames in the buffer.
use mathlib.Core.List.{append-nil}
use runnerd.Prelude.{
  ℕ, ◌+◌, ◌%◌, ◌^◌, ◌≤◌, ◌<◌, ◌≡◌, refl, sym, ap, ◌∙◌, true, false, List, [], ◌∷◌, ◌++◌, arith, ok,
  ltb, length, take, drop, length-append, take_append_left, take_append, drop_append, Bool-cases,
  inl, inr,
}
use runnerd.Protocol.{uint32_bytes, uint32_value, max_frame_size}
use runnerd.Protocol.Words.{uint32_value-bytes}
use runnerd.Protocol.Frames.{
  FrameDecoder, encode_frame, payload_size, has_frame, take_frame, pop_frame,
}

-- The frame of a payload, and the frames of several.
unfoldable pub frame : List ℕ → List ℕ
frame p = uint32_bytes (length p) ++ p

unfoldable pub frames : List (List ℕ) → List ℕ
frames [] = []
frames (p ∷ ps) = frame p ++ frames ps

abbrev pub IsPayload : List ℕ → Type 0
IsPayload p = length p ≤ max_frame_size

pub encode_frame-frame : (p : List ℕ) → IsPayload p → encode_frame p ≡ ok (frame p)
unfolding encode_frame frame
encode_frame-frame p h = ground (arith, small)
  where
    small : length p % 2 ^ 32 ≡ length p
    small = omega arith

pub length-frame : (p : List ℕ) → length (frame p) ≡ 4 + length p
unfolding frame uint32_bytes
length-frame p = omega arith

pub take-frame : (p rest : List ℕ) → take 4 (frame p ++ rest) ≡ uint32_bytes (length p)
unfolding frame uint32_bytes
take-frame p rest = refl

pub drop-frame : (p rest : List ℕ) → drop 4 (frame p ++ rest) ≡ p ++ rest
unfolding frame uint32_bytes
drop-frame p rest = refl

-- A buffer that begins with a whole frame: the next frame is ready, and popping it leaves the rest.
module _ (p rest : List ℕ) (h : IsPayload p) where
  abbrev pub loaded : FrameDecoder
  loaded = record { buffer = frame p ++ rest }

  length-loaded : length loaded.buffer ≡ 4 + length p + length rest
  length-loaded = omega (arith, length-append (frame p) rest, length-frame p)

  payload_size-frame : payload_size loaded ≡ ok (length p)
  unfolding payload_size
  payload_size-frame =
      let value : uint32_value (take 4 loaded.buffer) ≡ length p =
        ap uint32_value (take-frame p rest ∙ sym (append-nil (uint32_bytes (length p))))
        ∙ uint32_value-bytes (length p) [] (omega arith) in
      ground (arith, length-loaded, value)

  pub has_frame-frame : has_frame loaded ≡ ok true
  unfolding has_frame
  has_frame-frame = ground (arith, length-loaded, payload_size-frame)

  pub pop_frame-frame : pop_frame loaded ≡ (ok p, record { buffer = rest })
  unfolding pop_frame take_frame
  pop_frame-frame =
      let body : take (length p) (drop 4 loaded.buffer) ≡ p =
        ap (take (length p)) (drop-frame p rest) ∙ take_append p rest in
      let left : drop (4 + length p) loaded.buffer ≡ rest =
        ap (λ (n : ℕ). drop n loaded.buffer) (sym (length-frame p)) ∙ drop_append (frame p) rest in
      rw (has_frame-frame, payload_size-frame, body, left)

-- A buffer that holds less than the next frame: no frame is ready, and no exception is thrown.
pub has_frame_partial :
    (b t p rest : List ℕ)
    → IsPayload p
    → b ++ t ≡ frame p ++ rest
    → length b < 4 + length p
    → has_frame (record { buffer = b }) ≡ ok false
unfolding has_frame payload_size
has_frame_partial b t p rest h e short = elim (Bool-cases (ltb (length b) 4)) [
  | inl few ↦ ground arith
  | inr header ↦
      let word : take 4 b ≡ uint32_bytes (length p) =
        sym (take_append_left 4 b t (ground arith)) ∙ ap (take 4) e ∙ take-frame p rest in
      let value : uint32_value (take 4 b) ≡ length p =
        ap uint32_value (word ∙ sym (append-nil (uint32_bytes (length p))))
        ∙ uint32_value-bytes (length p) [] (omega arith) in
      ground (arith, value)
]
