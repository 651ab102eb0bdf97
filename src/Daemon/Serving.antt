-- ===== src/Daemon/Serving.antt =====
-- src/runnerd_main.cpp: handleClientRead. The system calls of each request are given by its number.
use runnerd.Prelude.{
  ℕ, zero, suc, ◌+◌, Bool, true, false, List, [], ◌∷◌, ◌++◌, some, Act, ok, continue, length,
}
use runnerd.Protocol.Frames.{FrameDecoder, encode_frame, feed, has_frame, pop_frame}
use runnerd.Daemon.Connections.{Connection}
use runnerd.Daemon.Jobs.{Daemon, System}
use runnerd.Daemon.Requests.{handle_request}

-- A client's connection and the rest of the daemon, with the number of requests so far.
pub record Session : Type 0 where
  pub connection : Connection
  pub daemon : Daemon
  pub served : ℕ

unfoldable pub on_decoder {ℓ} : {A : Type ℓ} → Act FrameDecoder A → Act Session A
on_decoder f t =
    let (result, decoder) = f t.connection.decoder in
    (result, record t { connection = record (t.connection) { decoder = decoder } })

-- A response that is put behind what waits to be written.
unfoldable pub append_response : List ℕ → Session → Session
append_response bytes t = record t {
  connection = record (t.connection) { write_buffer = t.connection.write_buffer ++ bytes };
  served = t.served + 1;
}

-- One read() of the client's socket that is not EAGAIN.
pub data ClientRead : Type 0 where
  received : List ℕ → ClientRead
  end_of_stream : ClientRead
  interrupted : ClientRead
  failed_read : ClientRead

module _ (strerror : ℕ → List ℕ) (systems : ℕ → System) where
  unfoldable pub on_daemon : List ℕ → Act Session (List ℕ)
  unfolding handle_request
  on_daemon request t =
      let (result, d) = handle_request strerror (systems t.served) request t.daemon in
      (result, record t { daemon = d })

  -- A round of the inner loop.
  unfoldable pub serve_request : Act Session (Unit {0})
  unfolding on_decoder on_daemon append_response
  serve_request t = continue (on_decoder pop_frame t) λ request t.
      continue (on_daemon request t) λ response_payload t.
        continue (encode_frame response_payload, t)
          λ response t. (ok tt, append_response response t)

  -- Each round takes four bytes at least from the buffer, so its length is fuel enough.
  unfoldable pub serve_loop : ℕ → Act Session (Unit {0})
  unfolding serve_request
  serve_loop zero t = (ok tt, t)
  serve_loop (suc fuel) t =
      continue (has_frame t.connection.decoder, t)
        λ ready t. elim ready [
          | false ↦ (ok tt, t)
          | true ↦ continue (serve_request t) λ _ t. serve_loop fuel t
        ]

  unfoldable pub serve_received : List ℕ → Act Session (Unit {0})
  unfolding on_decoder serve_loop
  serve_received bytes t =
      continue (on_decoder (feed (some bytes) (length bytes)) t)
        λ _ t. serve_loop (length t.connection.decoder.buffer + 1) t

  -- The result tells whether the connection is kept. The list ends where a read returns EAGAIN.
  unfoldable pub handle_client_read : List ClientRead → Act Session Bool
  unfolding serve_received
  handle_client_read [] t = (ok true, t)
  handle_client_read (received bytes ∷ reads) t =
      continue (serve_received bytes t) λ _ t. handle_client_read reads t
  handle_client_read (end_of_stream ∷ reads) t =
      (ok true, record t { connection = record (t.connection) { read_closed = true } })
  handle_client_read (interrupted ∷ reads) t = handle_client_read reads t
  handle_client_read (failed_read ∷ reads) t = (ok false, t)
