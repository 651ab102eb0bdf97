-- ===== src/Tests/Requests.antt =====
-- The SUBMIT request.
use runnerd.Prelude.{◌≡◌, refl, ◌↔◌, arith, ok, codes, All}
use runnerd.Job.{validate_job_spec}
use runnerd.Job.Validity.{IsPositive, IsValidSpec}
use runnerd.Protocol.{IsByte, submit_command, uint32_bytes}
use runnerd.Protocol.Submit.{encode_submit_request, decode_submit_request}
use runnerd.Protocol.Submit.Packet.{Fits, packet, packed}
use runnerd.Protocol.Submit.Encode.{encode_submit_request-packet}
use runnerd.Protocol.Submit.RoundTrip.{
  decode_submit_request-packet, decode-encode_submit_request, encode-decode_submit_request,
}
use runnerd.Tests.Jobs.{sleep_spec, sleep_spec-IsValid}

sleep_spec-Fits : Fits sleep_spec
unfolding packet packed uint32_bytes submit_command codes
sleep_spec-Fits = record { timeout_fits = omega arith; size_fits = omega arith }

packet-IsByte : All IsByte (packet sleep_spec)
unfolding packet packed uint32_bytes submit_command codes
packet-IsByte = omega arith

pub encoded : encode_submit_request sleep_spec ≡ ok (packet sleep_spec)
encoded =
    (encode_submit_request-packet sleep_spec (packet sleep_spec)).1
      (sleep_spec-IsValid, sleep_spec-Fits, refl)

encode_submit_request-packet_example :
    (encode_submit_request sleep_spec ≡ ok (packet sleep_spec))
    ↔ (IsValidSpec sleep_spec × Fits sleep_spec × (packet sleep_spec ≡ packet sleep_spec))
encode_submit_request-packet_example = encode_submit_request-packet sleep_spec (packet sleep_spec)

decode_submit_request-packet_example :
    (decode_submit_request (packet sleep_spec) ≡ ok sleep_spec) ↔ (
      (packet sleep_spec ≡ packet sleep_spec)
      × Fits sleep_spec
      × IsPositive sleep_spec.execution_timeout)
decode_submit_request-packet_example =
    decode_submit_request-packet (packet sleep_spec) sleep_spec packet-IsByte

decode-encode_submit_request_example :
    (decode_submit_request (packet sleep_spec) ≡ ok sleep_spec)
    × (validate_job_spec sleep_spec ≡ ok tt)
decode-encode_submit_request_example =
    decode-encode_submit_request sleep_spec (packet sleep_spec) encoded

encode-decode_submit_request_example : encode_submit_request sleep_spec ≡ ok (packet sleep_spec)
encode-decode_submit_request_example =
    encode-decode_submit_request (packet sleep_spec) sleep_spec packet-IsByte
      (decode-encode_submit_request sleep_spec (packet sleep_spec) encoded).0
      (decode-encode_submit_request sleep_spec (packet sleep_spec) encoded).1
