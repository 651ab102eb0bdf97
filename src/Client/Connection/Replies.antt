-- ===== src/Client/Connection/Replies.antt =====
-- read_frame returns the first payload of the stream, however it arrives.
use mathlib.Core.List.{append_assoc}
use runnerd.Prelude.{
  ℕ, ◌+◌, ◌≤◌, ◌≡◌, sym, ap, ◌∙◌, true, false, List, [], ◌∷◌, ◌++◌, some, arith, ok, length, All,
  length-append, Bool-cases, ltb, inl, inr, ltb→lt,
}
use runnerd.Protocol.Frames.{empty_decoder, max_size, feed, has_frame}
use runnerd.Protocol.Frames.Whole.{
  frame, frames, IsPayload, has_frame-frame, pop_frame-frame, has_frame_partial,
}
use runnerd.Protocol.Frames.Pieces.{feed-frames, split_frame, frames_cons}
use runnerd.Client.Connection.{
  Reading, received, end_of_stream, interrupted_read, failed_read, Reply, read_frame,
}

-- The bytes that the reads bring.
abbrev pub arrived : List Reading → List ℕ
arrived [] = []
arrived (received bytes ∷ readings) = bytes ++ arrived readings
arrived (_ ∷ readings) = arrived readings

-- A read that brings bytes or is interrupted.
abbrev pub IsLive : Reading → Type 0
IsLive (received bytes) = Unit {0}
IsLive end_of_stream = ⊥
IsLive interrupted_read = Unit {0}
IsLive (failed_read e) = ⊥

read_frame_now :
    (readings : List Reading) (p c : List ℕ)
    → IsPayload p
    → read_frame readings (record { buffer = frame p ++ c })
      ≡ (ok (Reply.frame p), record { buffer = c })
unfolding read_frame
read_frame_now [] p c h = rw (has_frame-frame p c h, pop_frame-frame p c h)
read_frame_now (r ∷ readings) p c h = rw (has_frame-frame p c h, pop_frame-frame p c h)

read_frame_more :
    (bytes b : List ℕ) (readings : List Reading)
    → has_frame (record { buffer = b }) ≡ ok false
    → feed (some bytes) (length bytes) (record { buffer = b })
      ≡ (ok tt, record { buffer = b ++ bytes })
    → read_frame (received bytes ∷ readings) (record { buffer = b })
      ≡ read_frame readings (record { buffer = b ++ bytes })
unfolding read_frame
read_frame_more bytes b readings e f = rw (e, f)

read_frame_again :
    (b : List ℕ) (readings : List Reading)
    → has_frame (record { buffer = b }) ≡ ok false
    → read_frame (interrupted_read ∷ readings) (record { buffer = b })
      ≡ read_frame readings (record { buffer = b })
unfolding read_frame
read_frame_again b readings e = rw e

module _ (p : List ℕ) (ps : List (List ℕ)) (h : All IsPayload (p ∷ ps)) where
  already :
      (readings : List Reading) (b t : List ℕ)
      → b ++ (arrived readings ++ t) ≡ frames (p ∷ ps)
      → ltb (length b) (4 + length p) ≡ false
      → (read_frame readings (record { buffer = b })).0 ≡ ok (Reply.frame p)
  already readings b t e long =
      let (c, whole, _, _) =
        split_frame b (arrived readings ++ t) p (frames ps) (ground arith) (e ∙ frames_cons p ps) in
      rw (whole, read_frame_now readings p c h.0)

  not_yet :
      (b t : List ℕ)
      → b ++ t ≡ frames (p ∷ ps)
      → ltb (length b) (4 + length p) ≡ true
      → has_frame (record { buffer = b }) ≡ ok false
  not_yet b t e short =
      has_frame_partial b t p (frames ps) h.0 (e ∙ frames_cons p ps) (ltb→lt _ _ short)

  read_frame-buffered :
      (readings : List Reading) (b t : List ℕ)
      → All IsLive readings
      → b ++ (arrived readings ++ t) ≡ frames (p ∷ ps)
      → 4 + length p ≤ length b + length (arrived readings)
      → length b + length (arrived readings) ≤ max_size
      → (read_frame readings (record { buffer = b })).0 ≡ ok (Reply.frame p)
  read_frame-buffered [] b t live e enough room = already [] b t e (ground arith)
  read_frame-buffered (received bytes ∷ readings) b t live e enough room =
      elim (Bool-cases (ltb (length b) (4 + length p))) [
        | inr long ↦ already (received bytes ∷ readings) b t e long
        | inl short ↦
            let sizes = length-append bytes (arrived readings) in
            let stream : b ++ (bytes ++ (arrived readings ++ t)) ≡ frames (p ∷ ps) =
              ap (λ (s : List ℕ). b ++ s) (sym (append_assoc bytes (arrived readings) t)) ∙ e in
            let fed =
              feed-frames b bytes (arrived readings ++ t) (p ∷ ps) h stream
                (omega (arith, sizes)) in
            rw (read_frame_more bytes b readings (not_yet b _ e short) fed) (
              read_frame-buffered readings (b ++ bytes) t live.1
                (append_assoc b bytes (arrived readings ++ t) ∙ stream)
                (omega (arith, sizes, length-append b bytes))
                (omega (arith, sizes, length-append b bytes)))
      ]
  read_frame-buffered (interrupted_read ∷ readings) b t live e enough room =
      elim (Bool-cases (ltb (length b) (4 + length p))) [
        | inr long ↦ already (interrupted_read ∷ readings) b t e long
        | inl short ↦
            rw (read_frame_again b readings (not_yet b _ e short))
              (read_frame-buffered readings b t live.1 e enough room)
      ]
  read_frame-buffered (end_of_stream ∷ readings) b t live e enough room = absurd live.0
  read_frame-buffered (failed_read x ∷ readings) b t live e enough room = absurd live.0

-- When the bytes of the daemon's first frame have arrived, in any pieces and with any interrupted
-- reads between them, read_frame returns the payload of that frame, whatever frames follow.
pub read_frame-arrived :
    (p : List ℕ) (ps : List (List ℕ)) (readings : List Reading) (t : List ℕ)
    → All IsPayload (p ∷ ps)
    → All IsLive readings
    → arrived readings ++ t ≡ frames (p ∷ ps)
    → 4 + length p ≤ length (arrived readings)
    → length (arrived readings) ≤ max_size
    → (read_frame readings empty_decoder).0 ≡ ok (Reply.frame p)
read_frame-arrived p ps readings t h live e enough room =
    read_frame-buffered p ps h readings [] t live e (omega arith) (omega arith)
