-- ===== src/Protocol/Frames.antt =====
-- The frames of src/protocol.cpp: a length of four bytes and a payload, and the FrameDecoder that
-- takes them out of a stream as it arrives. Below it stands a reader that takes all complete frames
-- out of the decoder after each read.
pub mod Steps
pub mod Chunks
pub mod Whole
pub mod Pieces
pub mod Stream
use runnerd.Prelude.{
  ℕ, zero, suc, ◌+◌, ◌-◌, ◌*◌, ◌%◌, ◌^◌, Bool, true, false, not, List, [], ◌∷◌, ◌++◌, Option, none,
  some, Result, Act, ok, raise, bind, continue, invalid_argument, length_error, logic_error,
  runtime_error, codes, ◌==◌, ltb, leb, if◌then◌else◌, length, take, drop,
}
use runnerd.Protocol.{frame_header_size, max_frame_size, uint32_bytes, uint32_value}

unfoldable pub encode_frame : List ℕ → Result (List ℕ)
unfolding uint32_bytes
encode_frame payload =
    if ltb max_frame_size (length payload)
    then raise (length_error (codes "frame payload exceeds 64 KiB"))
    else ok (uint32_bytes (length payload % 2 ^ 32) ++ payload)

pub record FrameDecoder : Type 0 where
  pub buffer : List ℕ

-- A fresh decoder.
abbrev pub empty_decoder : FrameDecoder
empty_decoder = record { buffer = [] }

-- std::vector<char>::max_size(), the largest ptrdiff_t
abbrev pub max_size : ℕ
max_size = 2 ^ 63 - 1

unfoldable pub payload_size : FrameDecoder → Result ℕ
unfolding uint32_value
payload_size d =
    if ltb (length d.buffer) frame_header_size
    then raise (logic_error (codes "frame header is incomplete"))
    else let size = uint32_value (take frame_header_size d.buffer) in
      if ltb max_frame_size size
      then raise (runtime_error (codes "declared frame payload exceeds 64 KiB"))
      else ok size

-- The end of feed: everything from the offset on goes into the buffer.
unfoldable pub feed_rest : List ℕ → Act FrameDecoder (Unit {0})
feed_rest rest d =
    if length rest == 0
    then (ok tt, d)
    else if ltb (max_size - length d.buffer) (length rest)
    then (raise (length_error (codes "frame decoder buffer is too large")), d)
    else (ok tt, record d { buffer = d.buffer ++ rest })

-- The first half of feed: the header is completed, and checked, before anything else is copied.
unfoldable pub feed_header : List ℕ → Act FrameDecoder (Unit {0})
unfolding payload_size
feed_header bytes d =
    let missing = frame_header_size - length d.buffer in
    let d' : FrameDecoder = record d { buffer = d.buffer ++ take missing bytes } in
    if ltb (length d'.buffer) frame_header_size
    then (ok tt, d')
    else continue (payload_size d', d') (λ _. feed_rest (drop missing bytes))

-- `bytes` are those that `data` points to; `none` is a null pointer.
unfoldable pub feed : Option (List ℕ) → ℕ → Act FrameDecoder (Unit {0})
feed data' size d = if size == 0 then (ok tt, d) else elim data' [
  | none ↦ (raise (invalid_argument (codes "frame data is null while size is non-zero")), d)
  | some bytes ↦
      if ltb (length d.buffer) frame_header_size
      then feed_header (take size bytes) d
      else feed_rest (take size bytes) d
]

unfoldable pub has_frame : FrameDecoder → Result Bool
unfolding payload_size
has_frame d =
    if ltb (length d.buffer) frame_header_size
    then ok false
    else bind (payload_size d) λ size. ok (leb size (length d.buffer - frame_header_size))

-- popFrame behind its test.
unfoldable pub take_frame : Act FrameDecoder (List ℕ)
unfolding payload_size
take_frame d =
    continue (payload_size d, d)
      λ size d'. (
        ok (take size (drop frame_header_size d'.buffer)),
        record d' { buffer = drop (frame_header_size + size) d'.buffer },
      )

unfoldable pub pop_frame : Act FrameDecoder (List ℕ)
unfolding has_frame take_frame
pop_frame d =
    continue (has_frame d, d)
      λ ready d'.
        if not ready then (raise (runtime_error (codes "no complete frame")), d') else take_frame d'

-- `while (decoder.hasFrame()) popFrame()`, with the payloads in order. Each round takes four bytes
-- at least from the buffer, so its length is fuel enough.
unfoldable pub drain_loop : ℕ → List (List ℕ) → Act FrameDecoder (List (List ℕ))
unfolding has_frame pop_frame
drain_loop zero out d = (ok out, d)
drain_loop (suc fuel) out d =
    continue (has_frame d, d)
      λ ready d'. elim ready [
        | false ↦ (ok out, d')
        | true ↦ continue (pop_frame d') λ payload d''. drain_loop fuel (out ++ payload ∷ []) d''
      ]

unfoldable pub drain : Act FrameDecoder (List (List ℕ))
unfolding drain_loop
drain d = drain_loop (length d.buffer + 1) [] d

-- A connection's reads, each followed by the draining loop: the requests, in order.
unfoldable pub receive : List (List ℕ) → List (List ℕ) → Act FrameDecoder (List (List ℕ))
unfolding feed drain
receive [] out d = (ok out, d)
receive (chunk ∷ chunks) out d =
    continue (feed (some chunk) (length chunk) d)
      λ _ d'. continue (drain d') λ payloads d''. receive chunks (out ++ payloads) d''
