-- ===== src/HsmClient/Laws.antt =====
-- The frames of the two sides fit together: a request that is small enough reaches the vHSM's
-- handler, and its answer comes back.
use kms_platform.Common.{
  ℕ, ◌+◌, ◌^◌, ◌%◌, ◌≤◌, ◌<◌, ◌≡◌, refl, ap, ◌++◌, Bytes, none, some, ok, err, length, take, drop,
  arith, take_all, take-append, drop-append, length-append,
}
use kms_platform.Vhsm.Protocol.{HsmRequest, HsmResponse}
use kms_platform.Vhsm.Frames.{
  Codec, to_be_bytes, from_be_bytes, frame, filled, connection, max_payload_size,
}
use kms_platform.HsmClient.{
  Socket, io, framed_message, read_frame, send_hsm_request, refuse_error, max_hsm_frame_size,
}

-- A number below 2 ^ 32 is read back from its four bytes.
pub from_be_bytes-to_be_bytes : (n : ℕ) → n < 2 ^ 32 → from_be_bytes (to_be_bytes n) ≡ n
unfolding from_be_bytes to_be_bytes
from_be_bytes-to_be_bytes n h = omega arith

length-to_be_bytes : (n : ℕ) → length (to_be_bytes n) ≡ 4
unfolding to_be_bytes
length-to_be_bytes n = refl

frame-eq :
    (payload : Bytes)
    → length payload < 2 ^ 32
    → frame payload ≡ to_be_bytes (length payload) ++ payload
unfolding frame
frame-eq payload h =
    let low : length payload % 2 ^ 32 ≡ length payload = omega arith in
    ap (λ n. to_be_bytes n ++ payload) low

module _ (payload : Bytes) (fits : length payload ≤ max_hsm_frame_size) where
  take-frame : take 4 (frame payload) ≡ to_be_bytes (length payload)
  take-frame =
      rw (frame-eq payload (omega arith))
        (take-append 4 (to_be_bytes (length payload)) payload (length-to_be_bytes _))

  drop-frame : drop 4 (frame payload) ≡ payload
  drop-frame =
      rw (frame-eq payload (omega arith))
        (drop-append 4 (to_be_bytes (length payload)) payload (length-to_be_bytes _))

  header-frame : from_be_bytes (take 4 (frame payload)) ≡ length payload
  header-frame = rw take-frame (from_be_bytes-to_be_bytes (length payload) (omega arith))

  length-frame : length (frame payload) ≡ 4 + length payload
  length-frame = rw (frame-eq payload (omega arith)) (
      omega (
        arith,
        length-append (to_be_bytes (length payload)) payload,
        length-to_be_bytes (length payload),
      ))

  framed_message-eq-frame : framed_message payload ≡ ok (frame payload)
  unfolding framed_message
  framed_message-eq-frame = rw (frame-eq payload (omega arith)) (ground arith)

  -- A frame is read back as its payload.
  pub read_frame-frame : read_frame (frame payload) ≡ ok payload
  unfolding read_frame
  read_frame-frame = rw (length-frame, header-frame, drop-frame, take_all) (ground arith)

-- The socket on whose other side the vHSM serves one connection with `handle`, where no read fails.
abbrev pub served : Codec → (HsmRequest → HsmResponse) → Socket
served codec handle written =
    elim (connection codec handle (filled (take 4 written))
      (λ n. filled (take n (drop 4 written)))) [ none ↦ err io | some answer ↦ ok answer ]

module _ (codec : Codec) (handle : HsmRequest → HsmResponse) where
  -- The vHSM reads the payload of a frame whole, if it is not above its limit.
  connection-frame :
      (payload answer : Bytes) (r : HsmRequest)
      → length payload ≤ max_payload_size
      → length answer ≤ max_payload_size
      → codec.decode_request payload ≡ ok r
      → codec.encode_response (handle r) ≡ ok answer
      → served codec handle (frame payload) ≡ ok (frame answer)
  unfolding connection
  connection-frame payload answer r small small' read written = ground (
    arith,
    header-frame payload (omega arith),
    drop-frame payload (omega arith),
    take_all payload,
    read,
    written,
  )

  -- A payload above the vHSM's limit and within the client's is sent and not answered.
  pub connection-frame_large :
      (payload : Bytes)
      → max_payload_size < length payload
      → length payload ≤ max_hsm_frame_size
      → (framed_message payload ≡ ok (frame payload))
        × (served codec handle (frame payload) ≡ err io)
  unfolding connection
  connection-frame_large payload large fits =
      (framed_message-eq-frame payload fits, ground (arith, header-frame payload fits))

  -- A request whose JSON text and whose answer's have at most 64 KiB each, and are read back as they
  -- were written: the client gets the answer of the vHSM's handler, an `Error` answer as its error
  -- `Remote`.
  pub send_hsm_request-served :
      (r : HsmRequest) (payload answer : Bytes)
      → codec.encode_request r ≡ ok payload
      → codec.decode_request payload ≡ ok r
      → codec.encode_response (handle r) ≡ ok answer
      → codec.decode_response answer ≡ ok (handle r)
      → length payload ≤ max_payload_size
      → length answer ≤ max_payload_size
      → send_hsm_request codec (served codec handle) r ≡ refuse_error (handle r)
  unfolding send_hsm_request
  send_hsm_request-served r payload answer out read written back small small' = rw (
    out,
    framed_message-eq-frame payload (omega arith),
    connection-frame payload answer r small small' read written,
    read_frame-frame answer (omega arith),
    back,
  )
