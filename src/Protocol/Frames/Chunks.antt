-- ===== src/Protocol/Frames/Chunks.antt =====
-- How a stream is cut into reads does not matter to the decoder.
use mathlib.Core.List.{append_assoc}
use runnerd.Prelude.{
  ℕ, ◌+◌, ◌-◌, ◌≤◌, ◌<◌, ◌≡◌, sym, ap, ◌∙◌, false, ◌&&◌, List, ◌++◌, some, arith, ok, raise,
  continue, ltb, length, take, length-append, take_append_left, take_append_right,
  take_of_length-le, Bool-cases, inl, inr, runtime_error, codes, ◌⊎◌, Exception, ltb→lt,
}
use runnerd.Protocol.Frames.{FrameDecoder, max_size, feed}
use runnerd.Protocol.Frames.Steps.{oversized, absorb, feed-absorb}

ltb_ge : (a b : ℕ) → ltb a b ≡ false → b ≤ a
ltb_ge a b h = ground arith

absorb_short :
    (bytes : List ℕ) (d : FrameDecoder)
    → length d.buffer + length bytes < 4
    → absorb bytes d ≡ (ok tt, record d { buffer = d.buffer ++ bytes })
unfolding absorb oversized
absorb_short bytes d h =
    ground (arith, take_of_length-le (4 - length d.buffer) bytes, length-append d.buffer bytes)

absorb_long :
    (bytes : List ℕ) (d : FrameDecoder)
    → 4 ≤ length d.buffer
    → absorb bytes d ≡ (ok tt, record d { buffer = d.buffer ++ bytes })
unfolding absorb
absorb_long bytes d h = ground arith

-- More bytes behind those that complete the header change nothing in the check.
absorb-append_complete :
    (a b : List ℕ) (d : FrameDecoder)
    → length d.buffer < 4
    → 4 ≤ length d.buffer + length a
    → absorb (a ++ b) d ≡ continue (absorb a d) (λ _. absorb b)
unfolding absorb
absorb-append_complete a b d short enough =
    let header = d.buffer ++ take (4 - length d.buffer) a in
    let first : take (4 - length d.buffer) (a ++ b) ≡ take (4 - length d.buffer) a =
      take_append_left (4 - length d.buffer) a b (omega arith) in
    ground (arith, first, length-append d.buffer a, append_assoc d.buffer a b)

-- Bytes that do not complete the header are kept for the next ones.
absorb-append_incomplete :
    (a b : List ℕ) (d : FrameDecoder)
    → length d.buffer + length a < 4
    → absorb (a ++ b) d ≡ continue (absorb a d) (λ _. absorb b)
absorb-append_incomplete a b d short =
    let missing : 4 - length (d.buffer ++ a) ≡ 4 - length d.buffer - length a =
      omega (arith, length-append d.buffer a) in
    let rest : take (4 - length d.buffer) (a ++ b) ≡ a ++ take (4 - length d.buffer - length a) b =
      take_append_right (4 - length d.buffer) a b (omega arith) in
    rw (absorb_short a d short) (
      unfold absorb in
      ground (
        arith,
        rest,
        missing,
        length-append d.buffer a,
        append_assoc d.buffer a (take (4 - length d.buffer - length a) b),
        append_assoc d.buffer a b,
      ))

absorb-append :
    (a b : List ℕ) (d : FrameDecoder) → absorb (a ++ b) d ≡ continue (absorb a d) (λ _. absorb b)
absorb-append a b d = elim (Bool-cases (ltb (length d.buffer) 4)) [
  | inr long ↦
      absorb_long (a ++ b) d (ground arith)
      ∙ rw (absorb_long a d (ground arith)) (
          ap (λ (s : List ℕ). (ok tt, record d { buffer = s })) (sym (append_assoc d.buffer a b))
          ∙ sym (
              absorb_long b (record d { buffer = d.buffer ++ a })
                (omega (arith, length-append d.buffer a, ltb_ge (length d.buffer) 4 long))))
  | inl short ↦ elim (Bool-cases (ltb (length d.buffer + length a) 4)) [
    | inl e ↦ absorb-append_incomplete a b d (ltb→lt _ _ e)
    | inr e ↦ absorb-append_complete a b d (ltb→lt _ _ short) (ltb_ge _ _ e)
  ]
]

absorb-cases :
    (a : List ℕ) (d : FrameDecoder)
    → (absorb a d ≡ (ok tt, record d { buffer = d.buffer ++ a }))
      ⊎ ((e : Exception) × (d' : FrameDecoder) × (absorb a d ≡ (raise e, d')))
unfolding absorb
absorb-cases a d =
    elim (Bool-cases
      (ltb (length d.buffer) 4 && oversized (d.buffer ++ take (4 - length d.buffer) a))) [
        | inl e ↦ inr (
          runtime_error (codes "declared frame payload exceeds 64 KiB"),
          record d { buffer = d.buffer ++ take (4 - length d.buffer) a },
          rw e,
        )
        | inr e ↦ inl (rw e)
      ]

-- Feeding two chunks, one after the other, is feeding them as one: the same buffer, and the same
-- exception at the same point of the stream, if the buffer and both chunks are no longer than
-- max_size().
pub feed-append :
    (a b : List ℕ) (d : FrameDecoder)
    → length d.buffer + length a + length b ≤ max_size
    → feed (some (a ++ b)) (length (a ++ b)) d
      ≡ continue (feed (some a) (length a) d) (λ _. feed (some b) (length b))
feed-append a b d h =
    let rest =
      feed-absorb b (record d { buffer = d.buffer ++ a })
        (omega (arith, length-append d.buffer a)) in
    feed-absorb (a ++ b) d (omega (arith, length-append a b))
    ∙ absorb-append a b d
    ∙ rw (feed-absorb a d (omega arith))
        (elim (absorb-cases a d) [ inl e ↦ rw e (sym rest) | inr (x, d', e) ↦ rw e ])
