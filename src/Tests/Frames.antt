-- ===== src/Tests/Frames.antt =====
-- Frames cut into pieces.
use runnerd.Prelude.{ℕ, ◌≡◌, refl, ◌↔◌, true, List, [], ◌∷◌, ◌++◌, some, arith, ok, continue}
use runnerd.Protocol.{uint32_bytes}
use runnerd.Protocol.Frames.{empty_decoder, feed, receive}
use runnerd.Protocol.Frames.Whole.{frame, frames}
use runnerd.Protocol.Frames.Stream.{receive-joined}
use runnerd.Protocol.Frames.Chunks.{feed-append}
use runnerd.Client.Connection.{
  Write, written, Reading, received, interrupted_read, Reply, read_frame, write_all,
}
use runnerd.Client.Connection.Writing.{write_all-append}
use runnerd.Client.Connection.Replies.{read_frame-arrived}

-- `PING` and an empty payload, cut inside a header and inside a payload.
abbrev chunks : List (List ℕ)
chunks = (0 ∷ 0 ∷ []) ∷ (0 ∷ 4 ∷ b'P' ∷ []) ∷ (b'I' ∷ b'N' ∷ b'G' ∷ 0 ∷ 0 ∷ 0 ∷ []) ∷ (0 ∷ []) ∷ []

abbrev ping_payload : List ℕ
ping_payload = b'P' ∷ b'I' ∷ b'N' ∷ b'G' ∷ []

abbrev payloads : List (List ℕ)
payloads = ping_payload ∷ [] ∷ []

chunks_framed : (0 ∷ 0 ∷ 0 ∷ 4 ∷ b'P' ∷ b'I' ∷ b'N' ∷ b'G' ∷ 0 ∷ 0 ∷ 0 ∷ 0 ∷ []) ≡ frames payloads
unfolding frames frame uint32_bytes
chunks_framed = refl

receive-joined_example : receive chunks [] empty_decoder ≡ (ok payloads, empty_decoder)
receive-joined_example = receive-joined chunks payloads (omega arith) chunks_framed (omega arith)

feed-append_example :
    feed (some (0 ∷ 0 ∷ 9 ∷ 9 ∷ 9 ∷ [])) 5 empty_decoder
    ≡ continue (feed (some (0 ∷ 0 ∷ 9 ∷ [])) 3 empty_decoder) (λ _. feed (some (9 ∷ 9 ∷ [])) 2)
feed-append_example = feed-append (0 ∷ 0 ∷ 9 ∷ []) (9 ∷ 9 ∷ []) empty_decoder (omega arith)

abbrev readings : List Reading
readings =
    received (0 ∷ 0 ∷ [])
    ∷ interrupted_read
    ∷ received (0 ∷ 4 ∷ b'P' ∷ b'I' ∷ b'N' ∷ b'G' ∷ 0 ∷ [])
    ∷ []

read_frame-arrived_example : (read_frame readings empty_decoder).0 ≡ ok (Reply.frame ping_payload)
read_frame-arrived_example =
    read_frame-arrived ping_payload ([] ∷ []) readings (0 ∷ 0 ∷ 0 ∷ []) (omega arith) (omega arith)
      chunks_framed (omega arith) (omega arith)

abbrev writes : List Write
writes = written 1 ∷ Write.interrupted ∷ written 2 ∷ written 1 ∷ []

write_all-append_example :
    (rest : List ℕ) × (ping_payload ≡ (write_all writes ping_payload).0 ++ rest)
    × (((write_all writes ping_payload).1 ≡ some true) ↔ (rest ≡ []))
write_all-append_example = write_all-append writes ping_payload
