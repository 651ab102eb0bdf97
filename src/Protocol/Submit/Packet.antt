-- ===== src/Protocol/Submit/Packet.antt =====
-- The layout of a SUBMIT request, described on its own.
use runnerd.Prelude.{
  ℕ, ◌+◌, ◌*◌, ◌≤◌, ◌<◌, ◌^◌, List, [], ◌∷◌, ◌++◌, Option, none, some, length, ◌≡◌, refl, arith,
  length-append,
}
use runnerd.Prelude.Int.{ℤ, magnitude}
use runnerd.Job.{JobSpec}
use runnerd.Protocol.{max_frame_size, submit_command, uint32_bytes}

-- The milliseconds on the wire.
abbrev pub wire_timeout : Option ℤ → ℕ
wire_timeout none = 0
wire_timeout (some t) = magnitude t

-- Each argument behind its length.
unfoldable pub packed : List (List ℕ) → List ℕ
packed [] = []
packed (a ∷ rest) = uint32_bytes (length a) ++ (a ++ packed rest)

unfoldable pub packet : JobSpec → List ℕ
packet spec =
    submit_command
    ++ (uint32_bytes (wire_timeout spec.execution_timeout)
        ++ (uint32_bytes (length spec.argv) ++ packed spec.argv))

-- A specification that the protocol can carry.
pub record Fits (spec : JobSpec) : Type 0 where
  pub timeout_fits : wire_timeout spec.execution_timeout < 2 ^ 32
  pub size_fits : length (packet spec) ≤ max_frame_size

pub length-uint32_bytes : (v : ℕ) → length (uint32_bytes v) ≡ 4
unfolding uint32_bytes
length-uint32_bytes v = refl

-- Each argument takes four bytes at least.
pub length-packed-le : (argv : List (List ℕ)) → 4 * length argv ≤ length (packed argv)
unfolding packed uint32_bytes
length-packed-le [] = omega arith
length-packed-le (a ∷ rest) = omega (arith, length-append a (packed rest), length-packed-le rest)

pub length-packet :
    (spec : JobSpec) → length (packet spec) ≡ length submit_command + 8 + length (packed spec.argv)
unfolding packet uint32_bytes
length-packet spec = omega (
  arith,
  length-append submit_command (
      uint32_bytes (wire_timeout spec.execution_timeout)
      ++ (uint32_bytes (length spec.argv) ++ packed spec.argv)),
)
