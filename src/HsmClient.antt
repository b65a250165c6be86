-- ===== src/HsmClient.antt =====
-- crates/kms-core/src/hsm/client.rs: the client side of the vHSM's socket. The socket is a
-- parameter: the bytes that can be read back once a frame is written.
pub mod Laws
use Prim.Native.String.{◌++◌}
use kms_platform.Common.{
  ℕ, ◌+◌, ◌*◌, ◌^◌, ◌%◌, String, Bool, true, false, List, [], ◌∷◌, ◌++◌ as cat, Bytes, Option, none,
  some, Result, ok, err, map_err, ◌>>=◌, length, take, drop, show, ltb, leb, ◌==◌, not,
  if◌then◌else◌,
}
use kms_platform.Vhsm.Protocol.{
  HsmRequest, generate_random_bytes, init_root_ca, load_root_ca, encrypt, decrypt, HsmResponse,
  encrypted, decrypted, master_key_initialized, random_bytes_generated, root_ca_key_generated,
  error,
}
use kms_platform.Vhsm.Frames.{Codec, to_be_bytes, from_be_bytes}

pub data HsmClientError : Type 0 where
  io : HsmClientError
  timeout : HsmClientError
  invalid_frame : HsmClientError
  invalid_response : HsmClientError
  serialization : String → HsmClientError
  remote : String → HsmClientError

abbrev pub HsmResult : Type 0 → Type 0
HsmResult A = Result HsmClientError A

abbrev pub max_hsm_frame_size : ℕ
max_hsm_frame_size = 1024 * 1024

-- `payload.len().try_into::<u32>()` cannot fail below the limit.
unfoldable pub framed_message : Bytes → HsmResult Bytes
framed_message payload =
    if ltb max_hsm_frame_size (length payload)
    then err invalid_frame
    else if leb (2 ^ 32) (length payload)
    then err invalid_frame
    else ok (cat (to_be_bytes (length payload)) payload)

-- `read_frame_with_timeout` on the bytes that arrive before the peer closes.
unfoldable pub read_frame : Bytes → HsmResult Bytes
read_frame stream =
    let len = from_be_bytes (take 4 stream) in
    if ltb (length stream) 4
    then err io
    else if ltb max_hsm_frame_size len
    then err invalid_frame
    else if ltb (length stream) (4 + len)
    then err io
    else ok (take len (drop 4 stream))

-- What is read back after a frame is written, or why it is not: a timeout or an I/O error.
abbrev pub Socket : Type 0
Socket = Bytes → HsmResult Bytes

unfoldable pub refuse_error : HsmResponse → HsmResult HsmResponse
refuse_error (error code message) =
    err (remote ("HSM returned error " ++ (show code ++ (": " ++ message))))
refuse_error response = ok response

-- `validate_key_version`
unfoldable pub validate_key_version : Option ℕ → ℕ → HsmResult (Unit {0})
validate_key_version none response_version = ok tt
validate_key_version (some requested) response_version =
    if ltb response_version requested
    then err (
        remote (
          "Downgrade detected: response version "
          ++ (show response_version ++ (" < requested " ++ show requested))))
    else if not (response_version == requested)
    then err invalid_response
    else ok tt

accept_version : Option ℕ → ℕ → Bytes → HsmResult Bytes
accept_version requested version text = do
  _ ← validate_key_version requested version
  if version == 0 then err invalid_response else ok text

take_ciphertext : Option ℕ → HsmResponse → HsmResult Bytes
take_ciphertext requested (encrypted ciphertext version) =
    accept_version requested version ciphertext
take_ciphertext requested (error code message) =
    err (remote ("HSM encryption failed (" ++ (show code ++ ("): " ++ message))))
take_ciphertext requested _ = err invalid_response

take_plaintext : Option ℕ → HsmResponse → HsmResult Bytes
take_plaintext requested (decrypted plaintext version) = accept_version requested version plaintext
take_plaintext requested (error code message) =
    err (remote ("HSM decryption failed (" ++ (show code ++ ("): " ++ message))))
take_plaintext requested _ = err invalid_response

take_loaded : HsmResponse → HsmResult (Unit {0})
take_loaded master_key_initialized = ok tt
take_loaded (error code message) =
    err (remote ("vHSM load Root CA failed (" ++ (show code ++ ("): " ++ message))))
take_loaded _ = err invalid_response

take_random : ℕ → HsmResponse → HsmResult Bytes
take_random len (random_bytes_generated bytes) =
    if not (length bytes == len) then err invalid_response else ok bytes
take_random len (error code message) =
    err (remote ("HSM random bytes generation failed (" ++ (show code ++ ("): " ++ message))))
take_random len _ = err invalid_response

take_root_ca : HsmResponse → HsmResult (Bytes × Bytes × ℕ × String × Option String)
take_root_ca (root_ca_key_generated private_key public_key version algorithm pem) =
    ok (private_key, public_key, version, algorithm, pem)
take_root_ca (error code message) =
    err (remote ("vHSM InitRootCa failed (" ++ (show code ++ ("): " ++ message))))
take_root_ca _ = err invalid_response

module _ (codec : Codec) (socket : Socket) where
  unfoldable pub send_hsm_request : HsmRequest → HsmResult HsmResponse
  send_hsm_request request = do
    payload ← map_err serialization (codec.encode_request request)
    frame ← framed_message payload
    stream ← socket frame
    response_bytes ← read_frame stream
    response ← map_err serialization (codec.decode_response response_bytes)
    refuse_error response

  unfoldable pub encrypt_via_hsm : String → Option ℕ → Bytes → HsmResult Bytes
  unfolding take_ciphertext accept_version validate_key_version
  encrypt_via_hsm key_id key_version plaintext = do
    response ← send_hsm_request (encrypt key_id key_version plaintext)
    take_ciphertext key_version response

  unfoldable pub decrypt_via_hsm : String → Option ℕ → Bytes → HsmResult Bytes
  unfolding take_plaintext accept_version validate_key_version
  decrypt_via_hsm key_id key_version ciphertext = do
    response ← send_hsm_request (decrypt key_id key_version ciphertext)
    take_plaintext key_version response

  unfoldable pub load_root_ca_via_hsm : String → Bytes → HsmResult (Unit {0})
  unfolding take_loaded
  load_root_ca_via_hsm ca_tag encrypted_private_key = do
    response ← send_hsm_request (load_root_ca ca_tag encrypted_private_key)
    take_loaded response

  unfoldable pub generate_random_bytes_via_hsm : ℕ → HsmResult Bytes
  unfolding take_random
  generate_random_bytes_via_hsm len = do
    response ← send_hsm_request (generate_random_bytes len)
    take_random len response

  unfoldable pub generate_root_ca_via_hsm :
      String → HsmResult (Bytes × Bytes × ℕ × String × Option String)
  unfolding take_root_ca
  generate_root_ca_via_hsm algorithm = do
    response ← send_hsm_request (init_root_ca "root" "kms-root-ca" (365 * 20) algorithm)
    take_root_ca response
