-- ===== src/Protocol/Frames/Stream.antt =====
-- A stream of frames, cut into reads at any points, gives the payloads back in order.
use mathlib.Core.List.{append-nil, append_assoc}
use mathlib.Core.Path.{subst}
use runnerd.Prelude.{
  ℕ, zero, suc, ◌+◌, ◌≤◌, ◌<◌, ◌≡◌, refl, sym, ap, ◌∙◌, false, List, [], ◌∷◌, ◌++◌, some, arith,
  Result, ok, ltb, length, length-append, Bool-cases, inl, inr, All, ltb→lt,
}
use runnerd.Protocol.Frames.{
  FrameDecoder, empty_decoder, max_size, feed, has_frame, drain_loop, drain, receive,
}
use runnerd.Protocol.Frames.Whole.{
  frame, frames, IsPayload, length-frame, has_frame-frame, pop_frame-frame, has_frame_partial,
}
use runnerd.Protocol.Frames.Pieces.{
  append-eq-nil, frames_nil, frames_cons, feed-frames, split_frame,
}

-- The reads put together.
abbrev pub joined : List (List ℕ) → List ℕ
joined [] = []
joined (c ∷ cs) = c ++ joined cs

-- The buffer holds less than the next frame to come.
abbrev Partial : List ℕ → List (List ℕ) → Type 0
Partial b [] = b ≡ []
Partial b (p ∷ ps) = length b < 4 + length p

record Drained (b t : List ℕ) (ps out : List (List ℕ)) (r : Result (List (List ℕ)) × FrameDecoder)
    : Type 0 where
  taken : List (List ℕ)
  later : List (List ℕ)
  left : List ℕ
  returns : r ≡ (ok (out ++ taken), record { buffer = left })
  all : ps ≡ taken ++ later
  stream : left ++ t ≡ frames later
  no_more : Partial left later
  less : length left ≤ length b

has_frame_nil : (b : List ℕ) → b ≡ [] → has_frame (record { buffer = b }) ≡ ok false
unfolding has_frame
has_frame_nil b e = rw e

drain_loop_stop :
    (fuel : ℕ) (out : List (List ℕ)) (d : FrameDecoder)
    → has_frame d ≡ ok false
    → drain_loop (suc fuel) out d ≡ (ok (out ++ []), d)
unfolding drain_loop
drain_loop_stop fuel out d e = rw (e, append-nil out)

drain_loop_next :
    (fuel : ℕ) (out : List (List ℕ)) (p c : List ℕ)
    → IsPayload p
    → drain_loop (suc fuel) out (record { buffer = frame p ++ c })
      ≡ drain_loop fuel (out ++ p ∷ []) (record { buffer = c })
unfolding drain_loop
drain_loop_next fuel out p c h = rw (has_frame-frame p c h, pop_frame-frame p c h)

drain_loop-frames :
    (fuel : ℕ) (ps : List (List ℕ)) (b t : List ℕ) (out : List (List ℕ))
    → All IsPayload ps
    → b ++ t ≡ frames ps
    → length b < fuel
    → Drained b t ps out (drain_loop fuel out (record { buffer = b }))
drain_loop-frames zero ps b t out h e f = absurd (omega arith)
drain_loop-frames (suc fuel) [] b t out h e f =
    let nothing = append-eq-nil b t (e ∙ frames_nil) in
    record {
      taken = [];
      later = [];
      left = b;
      returns = drain_loop_stop fuel out _ (has_frame_nil b nothing);
      all = refl;
      stream = e;
      no_more = nothing;
      less = omega arith;
    }
drain_loop-frames (suc fuel) (p ∷ ps) b t out h e f =
    elim (Bool-cases (ltb (length b) (4 + length p))) [
      | inl short ↦ record {
        taken = [];
        later = p ∷ ps;
        left = b;
        returns =
            drain_loop_stop fuel out _
              (has_frame_partial b t p (frames ps) h.0 (e ∙ frames_cons p ps) (ltb→lt _ _ short));
        all = refl;
        stream = e;
        no_more = ltb→lt _ _ short;
        less = omega arith;
      }
      | inr long ↦
          let (c, is_frame, rest, less) =
            split_frame b t p (frames ps) (ground arith) (e ∙ frames_cons p ps) in
          let r = drain_loop-frames fuel ps c t (out ++ p ∷ []) h.1 rest (omega arith) in
          record {
            taken = p ∷ r.taken;
            later = r.later;
            left = r.left;
            returns =
                ap (λ (s : List ℕ). drain_loop (suc fuel) out (record { buffer = s })) is_frame
                ∙ drain_loop_next fuel out p c h.0
                ∙ r.returns
                ∙ ap (λ (q : List (List ℕ)). (ok q, record { buffer = r.left }))
                    (append_assoc out (p ∷ []) r.taken);
            all = ap (◌∷◌ p) r.all;
            stream = r.stream;
            no_more = r.no_more;
            less = omega (arith, r.less);
          }
    ]

-- At the end of the stream nothing is left over.
at_end : (b : List ℕ) (ps : List (List ℕ)) → Partial b ps → b ≡ frames ps → (ps ≡ []) × (b ≡ [])
at_end b [] partial e = (refl, partial)
at_end b (p ∷ ps) partial e = absurd (
    omega (
      arith,
      ap length (e ∙ frames_cons p ps),
      length-append (frame p) (frames ps),
      length-frame p,
    ))

All-later : (xs ys ps : List (List ℕ)) → ps ≡ xs ++ ys → All IsPayload ps → All IsPayload ys
All-later [] ys ps e h = subst (All IsPayload) e h
All-later (x ∷ xs) ys ps e h =
    let h' : IsPayload x × All IsPayload (xs ++ ys) = subst (All IsPayload) e h in
    All-later xs ys (xs ++ ys) refl h'.1

receive_step :
    (c : List ℕ) (cs out : List (List ℕ)) (d d' d'' : FrameDecoder) (payloads : List (List ℕ))
    → feed (some c) (length c) d ≡ (ok tt, d')
    → drain_loop (length d'.buffer + 1) [] d' ≡ (ok payloads, d'')
    → receive (c ∷ cs) out d ≡ receive cs (out ++ payloads) d''
unfolding receive drain
receive_step c cs out d d' d'' payloads fed drained = rw (fed, drained)

receive_nil : (out : List (List ℕ)) → receive [] out empty_decoder ≡ (ok out, empty_decoder)
unfolding receive
receive_nil out = refl

receive-frames :
    (cs ps out : List (List ℕ)) (b : List ℕ)
    → All IsPayload ps
    → b ++ joined cs ≡ frames ps
    → Partial b ps
    → length b + length (joined cs) ≤ max_size
    → receive cs out (record { buffer = b }) ≡ (ok (out ++ ps), empty_decoder)
receive-frames [] ps out b h e partial room =
    let (no_payload, no_byte) = at_end b ps partial (sym (append-nil b) ∙ e) in
    rw (no_payload, no_byte, append-nil out) (receive_nil out)
receive-frames (c ∷ cs) ps out b h e partial room =
    let size = length-append c (joined cs) in
    let fed = feed-frames b c (joined cs) ps h e (omega arith) in
    let r =
      drain_loop-frames (length (b ++ c) + 1) ps (b ++ c) (joined cs) [] h
        (append_assoc b c (joined cs) ∙ e) (omega arith) in
    receive_step c cs out _ _ _ r.taken fed r.returns
    ∙ receive-frames cs r.later (out ++ r.taken) r.left (All-later r.taken r.later ps r.all h)
        r.stream r.no_more (omega (arith, r.less, length-append b c))
    ∙ ap (λ (q : List (List ℕ)). (ok q, empty_decoder))
        (append_assoc out r.taken r.later ∙ ap (λ (q : List (List ℕ)). out ++ q) (sym r.all))

-- Whatever payloads a peer sends in frames, and however the stream of their frames is cut into
-- reads, the loop that feeds each read to the decoder and drains it returns exactly the payloads,
-- in order, throws nothing, and leaves the decoder empty. The stream is below 2^63 bytes.
pub receive-joined :
    (cs ps : List (List ℕ))
    → All IsPayload ps
    → joined cs ≡ frames ps
    → length (joined cs) ≤ max_size
    → receive cs [] empty_decoder ≡ (ok ps, empty_decoder)
receive-joined cs [] h e room = receive-frames cs [] [] [] h e refl (omega arith)
receive-joined cs (p ∷ ps) h e room =
    receive-frames cs (p ∷ ps) [] [] h e (omega arith) (omega arith)
