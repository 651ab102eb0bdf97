-- ===== src/Tests/Service.antt =====
-- The daemon's options and responses.
use runnerd.Prelude.{◌⊎◌, true, false, refl, ◌++◌, ℕ, ◌≡◌, List, [], ◌∷◌, arith, ok, codes}
use runnerd.Job.{Job, new_job}
use runnerd.Numbers.{to_string}
use runnerd.Protocol.Frames.{encode_frame}
use runnerd.Protocol.Frames.Whole.{frame}
use runnerd.Daemon.Options.{DaemonOptions}
use runnerd.Daemon.Options.Order.{
  IsUsable, parse_daemon_command_line-either_order, parse_daemon_command_line-IsUsable,
}
use runnerd.Daemon.Responses.{make_list_response}
use runnerd.Daemon.Responses.Bounds.{make_list_response-encode_frame}
use runnerd.Protocol.Frames.{empty_decoder}
use runnerd.Daemon.Connections.{
  Connection, has_pending_write, Sending, sent, interrupted, handle_client_write,
}
use runnerd.Daemon.Connections.Pending.{pending, handle_client_write-pending}
use runnerd.Tests.Jobs.{sleep_spec}

abbrev four_slots : DaemonOptions
four_slots = record { socket_path = b'/' ∷ b's' ∷ []; max_running = 4 }

parse_daemon_command_line-IsUsable_example : IsUsable four_slots
parse_daemon_command_line-IsUsable_example =
    parse_daemon_command_line-IsUsable
      (codes "--socket" ∷ (b'/' ∷ b's' ∷ []) ∷ codes "--max-running" ∷ to_string 4 ∷ []) four_slots
      (parse_daemon_command_line-either_order b'/' (b's' ∷ []) 4 (omega arith) (omega arith)).0

abbrev sleeping : Job
sleeping = new_job 7 sleep_spec

make_list_response-encode_frame_example :
    (r : List ℕ) × (make_list_response ((7, sleeping) ∷ []) ≡ ok r)
    × (encode_frame r ≡ ok (frame r))
make_list_response-encode_frame_example = make_list_response-encode_frame ((7, sleeping) ∷ [])

-- Five bytes, the first of which is sent.
abbrev waiting_connection : Connection
waiting_connection = record {
  decoder = empty_decoder;
  write_buffer = 1 ∷ 2 ∷ 3 ∷ 4 ∷ 5 ∷ [];
  write_offset = 1;
  read_closed = false;
}

abbrev sendings : List Sending
sendings = sent 1 ∷ interrupted ∷ sent 2 ∷ []

one_left : pending (handle_client_write sendings waiting_connection).connection ≡ 5 ∷ []
unfolding handle_client_write has_pending_write
one_left = refl

handle_client_write-pending_example :
    (pending waiting_connection
      ≡ (handle_client_write sendings waiting_connection).bytes
        ++ pending (handle_client_write sendings waiting_connection).connection)
    × ((handle_client_write sendings waiting_connection).keep ≡ true
        → (has_pending_write (handle_client_write sendings waiting_connection).connection ≡ true)
          ⊎ (((handle_client_write sendings waiting_connection).connection.write_buffer ≡ [])
              × ((handle_client_write sendings waiting_connection).connection.write_offset ≡ 0)))
handle_client_write-pending_example = handle_client_write-pending sendings waiting_connection
