-- ===== src/Daemon/Connections.antt =====
-- src/runnerd_main.cpp: a client's connection, and how its responses are written.
pub mod Pending
use runnerd.Prelude.{
  ℕ, ◌+◌, Bool, true, false, not, List, [], ◌∷◌, ◌++◌, ◌==◌, ltb, if◌then◌else◌, length, take, drop,
}
use runnerd.Protocol.Frames.{FrameDecoder}

pub record Connection : Type 0 where
  pub decoder : FrameDecoder
  pub write_buffer : List ℕ
  pub write_offset : ℕ
  pub read_closed : Bool

unfoldable pub has_pending_write : Connection → Bool
has_pending_write c = ltb c.write_offset (length c.write_buffer)

-- One write(): a count, EINTR, or an error other than EAGAIN. A count of zero is an error too.
pub data Sending : Type 0 where
  sent : ℕ → Sending
  interrupted : Sending
  failed : Sending

-- What reached the socket, whether the connection is kept, and the connection.
pub record Sent : Type 0 where
  pub bytes : List ℕ
  pub keep : Bool
  pub connection : Connection

-- The list ends where a write returns EAGAIN.
unfoldable pub handle_client_write : List Sending → Connection → Sent
unfolding has_pending_write
handle_client_write [] c =
    if has_pending_write c then record { bytes = []; keep = true; connection = c } else record {
      bytes = [];
      keep = true;
      connection = record c { write_buffer = []; write_offset = 0 };
    }
handle_client_write (outcome ∷ outcomes) c =
    if not (has_pending_write c)
    then record {
      bytes = [];
      keep = true;
      connection = record c { write_buffer = []; write_offset = 0 };
    }
    else elim outcome [
      | interrupted ↦ handle_client_write outcomes c
      | failed ↦ record { bytes = []; keep = false; connection = c }
      | sent n ↦
          let rest =
            handle_client_write outcomes (record c { write_offset = c.write_offset + n }) in
          if n == 0 then record { bytes = []; keep = false; connection = c } else record {
            bytes = take n (drop c.write_offset c.write_buffer) ++ rest.bytes;
            keep = rest.keep;
            connection = rest.connection;
          }
    ]

-- The events that updateClientEvents asks epoll for: EPOLLIN with EPOLLRDHUP, and EPOLLOUT.
pub record Events : Type 0 where
  pub to_read : Bool
  pub to_write : Bool

unfoldable pub client_events : Connection → Events
unfolding has_pending_write
client_events c = record { to_read = not c.read_closed; to_write = has_pending_write c }
