-- ===== src/Protocol/Frames/Pieces.antt =====
-- A piece of a stream of frames, on its way into the decoder and at the front of its buffer.
use mathlib.Core.List.{append-nil, append_assoc}
use runnerd.Prelude.{
  ℕ, ◌+◌, ◌-◌, ◌≤◌, ◌<◌, ◌≡◌, refl, sym, ap, ◌∙◌, false, List, [], ◌∷◌, ◌++◌, some, arith, ok, ltb,
  length, take, drop, length-drop, take_append_left, drop_append_left, take_append, drop_append,
  take-append-drop, Bool-cases, inl, inr, All,
}
use runnerd.Protocol.{uint32_bytes, uint32_value}
use runnerd.Protocol.Words.{uint32_value-bytes}
use runnerd.Protocol.Frames.{max_size, feed}
use runnerd.Protocol.Frames.Steps.{oversized, absorb, feed-absorb}
use runnerd.Protocol.Frames.Whole.{frame, frames, IsPayload, length-frame, take-frame}

pub append-eq-nil : (b t : List ℕ) → b ++ t ≡ [] → b ≡ []
append-eq-nil [] t e = refl
append-eq-nil (x ∷ b) t e = cc

pub frames_nil : frames [] ≡ []
unfolding frames
frames_nil = refl

pub frames_cons : (p : List ℕ) (ps : List (List ℕ)) → frames (p ∷ ps) ≡ frame p ++ frames ps
unfolding frames
frames_cons p ps = refl

-- A front part of a stream of frames declares no frame that is too large.
oversized-frames :
    (x y : List ℕ) (ps : List (List ℕ))
    → All IsPayload ps
    → x ++ y ≡ frames ps
    → oversized x ≡ false
unfolding oversized
oversized-frames x y [] h e = rw (append-eq-nil x y (e ∙ frames_nil))
oversized-frames x y (p ∷ ps) h e = elim (Bool-cases (ltb (length x) 4)) [
  | inl few ↦ ground arith
  | inr header ↦
      let word : take 4 x ≡ uint32_bytes (length p) =
        sym (take_append_left 4 x y (ground arith))
        ∙ ap (take 4) (e ∙ frames_cons p ps)
        ∙ take-frame p (frames ps) in
      let value : uint32_value (take 4 x) ≡ length p =
        ap uint32_value (word ∙ sym (append-nil (uint32_bytes (length p))))
        ∙ uint32_value-bytes (length p) [] (omega arith) in
      ground (arith, value, h.0)
]

pub feed-frames :
    (b c t : List ℕ) (ps : List (List ℕ))
    → All IsPayload ps
    → b ++ (c ++ t) ≡ frames ps
    → length b + length c ≤ max_size
    → feed (some c) (length c) (record { buffer = b }) ≡ (ok tt, record { buffer = b ++ c })
unfolding absorb
feed-frames b c t ps h e room =
    let n = 4 - length b in
    let header = b ++ take n c in
    let stream : header ++ (drop n c ++ t) ≡ frames ps =
      append_assoc b (take n c) (drop n c ++ t)
      ∙ ap (λ (s : List ℕ). b ++ s)
          (sym (append_assoc (take n c) (drop n c) t)
            ∙ ap (λ (s : List ℕ). s ++ t) (take-append-drop n c))
      ∙ e in
    feed-absorb c (record { buffer = b }) room
    ∙ ground (arith, oversized-frames header (drop n c ++ t) ps h stream)

-- A whole frame at the front of the buffer, and what is left when it is taken off.
pub split_frame :
    (b t p rest : List ℕ)
    → 4 + length p ≤ length b
    → b ++ t ≡ frame p ++ rest
    → (c : List ℕ) × (b ≡ frame p ++ c) × (c ++ t ≡ rest) × (length c < length b)
split_frame b t p rest long e =
    let n = length (frame p) in
    let inside : n ≤ length b = omega (arith, length-frame p) in
    let front : take n b ≡ frame p =
      sym (take_append_left n b t inside) ∙ ap (take n) e ∙ take_append (frame p) rest in
    (
      drop n b,
      sym (take-append-drop n b) ∙ ap (λ (s : List ℕ). s ++ drop n b) front,
      sym (drop_append_left n b t inside) ∙ ap (drop n) e ∙ drop_append (frame p) rest,
      omega (arith, length-drop n b, length-frame p),
    )
