-- ===== src/Client/Requests.antt =====
-- src/runnerctl_main.cpp: the request that a command line asks for.
pub mod Commands
pub mod Operands
pub mod Soundness
use runnerd.Prelude.{ℕ, List, Result, ok, codes}
use runnerd.Protocol.JobIds.{encode_status_request, encode_cancel_request}
use runnerd.Protocol.Submit.{encode_submit_request}
use runnerd.Client.{Command, ping, submit, status, list, cancel, CommandLine}

unfoldable pub request_of : Command → CommandLine → Result (List ℕ)
request_of ping line = ok (codes "PING")
request_of submit line = encode_submit_request line.job_spec
request_of status line = encode_status_request line.job_id
request_of list line = ok (codes "LIST")
request_of cancel line = encode_cancel_request line.job_id

unfoldable pub make_request_payload : CommandLine → Result (List ℕ)
unfolding request_of
make_request_payload line = request_of line.command line
