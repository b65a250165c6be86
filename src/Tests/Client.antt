-- ===== src/Tests/Client.antt =====
-- The two sides of the socket, with a codec of one request and one answer.
use kms_platform.Common.{ℕ, ◌≡◌, refl, [], ◌∷◌, Bytes, ok, err, arith}
use kms_platform.Vhsm.Protocol.{HsmRequest, HsmResponse, ping, pong}
use kms_platform.Vhsm.Frames.{Codec, frame}
use kms_platform.HsmClient.{io, framed_message, read_frame, refuse_error, send_hsm_request}
use kms_platform.HsmClient.Laws.{
  served, read_frame-frame, connection-frame_large, send_hsm_request-served,
}
use kms_platform.Tests.Toy.{replicate, length-replicate}

abbrev codec : Codec
codec = record {
  encode_request = λ r. ok (1 ∷ []);
  decode_request = λ bytes. ok ping;
  encode_response = λ r. ok (2 ∷ []);
  decode_response = λ bytes. ok pong;
}

abbrev handle : HsmRequest → HsmResponse
handle r = pong

abbrev large : Bytes
large = replicate 70000 0

send_hsm_request-served_example :
    send_hsm_request codec (served codec handle) ping ≡ refuse_error pong
send_hsm_request-served_example =
    send_hsm_request-served codec handle ping (1 ∷ []) (2 ∷ []) refl refl refl refl (omega arith)
      (omega arith)

connection-frame_large_example :
    (framed_message large ≡ ok (frame large)) × (served codec handle (frame large) ≡ err io)
connection-frame_large_example =
    connection-frame_large codec handle large (omega (arith, length-replicate {A = ℕ} 70000 0))
      (omega (arith, length-replicate {A = ℕ} 70000 0))

read_frame-frame_example : read_frame (frame (1 ∷ 2 ∷ [])) ≡ ok (1 ∷ 2 ∷ [])
read_frame-frame_example = read_frame-frame (1 ∷ 2 ∷ []) (omega arith)
