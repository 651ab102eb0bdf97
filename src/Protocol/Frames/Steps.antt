-- ===== src/Protocol/Frames/Steps.antt =====
-- What feed, has_frame and pop_frame do, without their order of steps.
use mathlib.Core.List.{append-nil, append_assoc}
use runnerd.Prelude.{
  ℕ, ◌+◌, ◌-◌, ◌≤◌, ◌<◌, ◌≡◌, ap, ◌∙◌, Bool, false, ◌&&◌, List, [], ◌∷◌, ◌++◌, some, arith, Act, ok,
  raise, runtime_error, codes, ltb, if◌then◌else◌, length, take, drop, length-append, length-take,
  length-drop, take_of_length-le, take-append-drop,
}
use runnerd.Protocol.{uint32_value, max_frame_size}
use runnerd.Protocol.Frames.{FrameDecoder, max_size, payload_size, feed_rest, feed_header, feed}

-- A header that is complete and declares too long a payload.
unfoldable pub oversized : List ℕ → Bool
oversized buffer =
    if ltb (length buffer) 4 then false else ltb max_frame_size (uint32_value (take 4 buffer))

-- feed in one step: all the bytes, unless they complete a header that is too large.
unfoldable pub absorb : List ℕ → Act FrameDecoder (Unit {0})
absorb bytes d =
    let header = d.buffer ++ take (4 - length d.buffer) bytes in
    if ltb (length d.buffer) 4 && oversized header
    then (
      raise (runtime_error (codes "declared frame payload exceeds 64 KiB")),
      record d { buffer = header },
    )
    else (ok tt, record d { buffer = d.buffer ++ bytes })

feed_rest-absorb :
    (bytes : List ℕ) (d : FrameDecoder)
    → length d.buffer + length bytes ≤ max_size
    → feed_rest bytes d ≡ (ok tt, record d { buffer = d.buffer ++ bytes })
unfolding feed_rest
feed_rest-absorb [] d h = ground (arith, append-nil d.buffer)
feed_rest-absorb (b ∷ bytes) d h = ground arith

feed_header-absorb :
    (bytes : List ℕ) (d : FrameDecoder)
    → length d.buffer < 4
    → length d.buffer + length bytes ≤ max_size
    → feed_header bytes d ≡ absorb bytes d
unfolding feed_header payload_size absorb oversized
feed_header-absorb bytes d short h =
    let missing = 4 - length d.buffer in
    let header = d.buffer ++ take missing bytes in
    let whole : header ++ drop missing bytes ≡ d.buffer ++ bytes =
      append_assoc d.buffer (take missing bytes) (drop missing bytes)
      ∙ ap (λ (s : List ℕ). d.buffer ++ s) (take-append-drop missing bytes) in
    ground (
      arith,
      whole,
      length-append d.buffer (take missing bytes),
      length-take missing bytes,
      length-drop missing bytes,
      take_of_length-le missing bytes,
      feed_rest-absorb (drop missing bytes) (record { buffer = header }),
    )

-- As long as the buffer has room, feed absorbs the bytes that it is given.
pub feed-absorb :
    (bytes : List ℕ) (d : FrameDecoder)
    → length d.buffer + length bytes ≤ max_size
    → feed (some bytes) (length bytes) d ≡ absorb bytes d
unfolding feed absorb oversized
feed-absorb [] d h =
    ground
      (arith, append-nil d.buffer, take_of_length-le {A = ℕ} (4 - length d.buffer) [] (omega arith))
feed-absorb (b ∷ bytes) d h = ground (
  arith,
  take_of_length-le (length bytes) bytes (omega arith),
  feed_header-absorb (b ∷ bytes) d,
  feed_rest-absorb (b ∷ bytes) d h,
)
