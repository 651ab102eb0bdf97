-- ===== src/Client/Connection.antt =====
-- src/runnerctl_main.cpp: writing the request and reading the response. The outcomes of the system
-- calls are arguments: the list ends where the next call would.
pub mod Writing
pub mod Replies
use runnerd.Prelude.{
  ℕ, zero, suc, ◌+◌, ◌-◌, Bool, true, false, List, [], ◌∷◌, ◌++◌, Option, none, some, Result, Act,
  ok, raise, continue, system_error, codes, ltb, if◌then◌else◌, length, take, drop,
}
use runnerd.Protocol.Frames.{FrameDecoder, feed, has_frame, pop_frame}

-- One write(): so many bytes, EINTR, or anything else that is not a positive count.
pub data Write : Type 0 where
  written : ℕ → Write
  interrupted : Write
  failed : Write

-- The bytes that reached the socket, and the result; none while a write is outstanding. The kernel
-- takes no more than it is given.
unfoldable pub write_all : List Write → List ℕ → List ℕ × Option Bool
write_all outcomes [] = ([], some true)
write_all [] (b ∷ bs) = ([], none)
write_all (written zero ∷ outcomes) (b ∷ bs) = ([], some false)
write_all (written (suc n) ∷ outcomes) (b ∷ bs) =
    let (sent, result) = write_all outcomes (drop n bs) in (b ∷ take n bs ++ sent, result)
write_all (interrupted ∷ outcomes) (b ∷ bs) = write_all outcomes (b ∷ bs)
write_all (failed ∷ outcomes) (b ∷ bs) = ([], some false)

-- One read(): bytes, the end of the stream, EINTR, or another errno.
pub data Reading : Type 0 where
  received : List ℕ → Reading
  end_of_stream : Reading
  interrupted_read : Reading
  failed_read : ℕ → Reading

-- What readFrame returns: true with the payload, or false. It is `waiting` while a read is
-- outstanding.
pub data Reply : Type 0 where
  frame : List ℕ → Reply
  disconnected : Reply
  waiting : Reply

unfoldable pub read_frame : List Reading → Act FrameDecoder Reply
read_frame [] d =
    continue (has_frame d, d)
      λ ready d'. elim ready [
        | true ↦ continue (pop_frame d') λ payload d''. (ok (frame payload), d'')
        | false ↦ (ok waiting, d')
      ]
read_frame (reading ∷ readings) d =
    continue (has_frame d, d)
      λ ready d'. elim ready [
        | true ↦ continue (pop_frame d') λ payload d''. (ok (frame payload), d'')
        | false ↦ elim reading [
          | received bytes ↦
              continue (feed (some bytes) (length bytes) d') λ _ d''. read_frame readings d''
          | end_of_stream ↦ (ok disconnected, d')
          | interrupted_read ↦ read_frame readings d'
          | failed_read error_number ↦
              (raise (system_error error_number (codes "read response frame")), d')
        ]
      ]
