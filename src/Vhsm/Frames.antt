-- ===== src/Vhsm/Frames.antt =====
-- One connection of crates/vhsm-daemon/src/listener.rs, from the two reads to the frame that is
-- written: four bytes of length, most significant first, and the JSON text.
use Prim.Native.String.{◌++◌}
use kms_platform.Common.{
  ℕ, ◌+◌, ◌*◌, ◌/◌, ◌%◌, ◌^◌, String, [], ◌∷◌, ◌++◌ as cat, Bytes, Option, none, some, Result, ok,
  err, length, ltb, if◌then◌else◌,
}
use kms_platform.Vhsm.Protocol.{HsmRequest, HsmResponse, error}

abbrev pub max_payload_size : ℕ
max_payload_size = 64 * 1024

-- `u32::to_be_bytes` and `u32::from_be_bytes`.
unfoldable pub to_be_bytes : ℕ → Bytes
to_be_bytes n = n / 0x1000000 % 256 ∷ n / 0x10000 % 256 ∷ n / 0x100 % 256 ∷ n % 256 ∷ []

unfoldable pub from_be_bytes : Bytes → ℕ
from_be_bytes (a ∷ b ∷ c ∷ d ∷ []) = a * 0x1000000 + b * 0x10000 + c * 0x100 + d
from_be_bytes _ = 0

-- `serde_json`: the four directions of the protocol.
pub record Codec : Type 0 where
  pub encode_request : HsmRequest → Result String Bytes
  pub decode_request : Bytes → Result String HsmRequest
  pub encode_response : HsmResponse → Result String Bytes
  pub decode_response : Bytes → Result String HsmResponse

-- What `timeout(…, stream.read_exact(&mut buffer)).await` leaves: the time has run out, the read has
-- failed with something in the buffer, or the buffer is filled.
pub data ReadOutcome : Type 0 where
  elapsed : ReadOutcome
  failed : (buffer : Bytes) → ReadOutcome
  filled : (buffer : Bytes) → ReadOutcome

-- `….await.is_err()` is true of an elapsed time only: a failed read goes on with the buffer.
abbrev pub buffer_of : ReadOutcome → Option Bytes
buffer_of elapsed = none
buffer_of (failed buffer) = some buffer
buffer_of (filled buffer) = some buffer

unfoldable pub frame : Bytes → Bytes
frame payload = cat (to_be_bytes (length payload % 2 ^ 32)) payload

module _ (codec : Codec) (handle : HsmRequest → HsmResponse) where
  respond : Result String HsmRequest → HsmResponse
  respond (ok request) = handle request
  respond (err e) = error 400 ("Failed to deserialize HSM request: " ++ e)

  send_payload : Result String Bytes → Option Bytes
  send_payload (err e) = none
  send_payload (ok payload) =
      if ltb max_payload_size (length payload) then none else some (frame payload)

  read_payload : Option Bytes → Option Bytes
  read_payload none = none
  read_payload (some payload) =
      send_payload (codec.encode_response (respond (codec.decode_request payload)))

  read_header : Option Bytes → (ℕ → ReadOutcome) → Option Bytes
  read_header none body = none
  read_header (some header) body =
      let len = from_be_bytes header in
      if ltb max_payload_size len then none else read_payload (buffer_of (body len))

  -- The frame that is written, if any; `body` is the second read, by the length asked for.
  unfoldable pub connection : ReadOutcome → (ℕ → ReadOutcome) → Option Bytes
  unfolding respond send_payload read_payload read_header
  connection header body = read_header (buffer_of header) body
