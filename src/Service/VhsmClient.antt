-- ===== src/Service/VhsmClient.antt =====
-- crates/kms-service/src/infrastructure/crypto/vhsm_client.rs: the service's own client of the
-- vHSM's socket, on Unix. The socket is a parameter: how the connection, the two writes and the two
-- reads end. What `Display` gives of an I/O error is its text.
use Prim.Native.String.{◌++◌}
use kms_platform.Common.{
  ℕ, ◌%◌, ◌^◌, String, Bool, false, Bytes, none, Result, ok, err, map_err, ◌>>=◌, length,
}
use kms_platform.Vhsm.Protocol.{
  HsmRequest, status, encrypt, decrypt, generate_credential, HsmResponse, status_info, encrypted,
  decrypted, credential_generated, error,
}
use kms_platform.Vhsm.Frames.{Codec, to_be_bytes, from_be_bytes}
use kms_platform.Service.Errors.{AppError, crypto_error, runtime_error, serialization_error}

-- What `timeout(…).await` gives.
pub data Timed (A : Type 0) : Type 0 where
  elapsed : Timed A
  failed : (e : String) → Timed A
  finished : A → Timed A

-- `.map_err(|_| …)?.map_err(|e| …)?`
abbrev pub in_time : {A : Type 0} → Timed A → String → String → Result AppError A
in_time elapsed late broken = err (runtime_error late)
in_time (failed e) late broken = err (runtime_error (broken ++ e))
in_time (finished a) late broken = ok a

pub record Stream : Type 0 where
  pub connect : Timed (Unit {0})
  pub write_header : Bytes → Timed (Unit {0})
  pub write_payload : Bytes → Timed (Unit {0})
  pub read_header : Timed Bytes
  pub read_body : ℕ → Timed Bytes

pub record VhsmClient : Type 0 where
  pub socket_path : String
  pub codec : Codec

-- The length is cut to 32 bits by `as u32`.
unfoldable pub send_request : VhsmClient → Stream → HsmRequest → Result AppError HsmResponse
unfolding to_be_bytes from_be_bytes
send_request c stream request = do
  payload ← map_err serialization_error (c.codec.encode_request request)
  _ ←
      in_time stream.connect ("Timeout connecting to vHSM at " ++ c.socket_path)
        ("Nie udało się połączyć z vhsm-daemon pod ścieżką " ++ (c.socket_path ++ ": "))
  _ ←
      in_time (stream.write_header (to_be_bytes (length payload % 2 ^ 32)))
        "Timeout writing header to vHSM" "Błąd zapisu nagłówka do vHSM: "
  _ ←
      in_time (stream.write_payload payload) "Timeout writing payload to vHSM"
        "Błąd zapisu ładunku do vHSM: "
  header ←
      in_time stream.read_header "Timeout reading header from vHSM"
        "Błąd odczytu nagłówka odpowiedzi z vHSM: "
  body ←
      in_time (stream.read_body (from_be_bytes header)) "Timeout reading body from vHSM"
        "Błąd odczytu treści odpowiedzi z vHSM: "
  map_err serialization_error (c.codec.decode_response body)

take_status : HsmResponse → Result AppError ℕ
take_status (status_info initialized active_key_version) = ok active_key_version
take_status (error code message) = err (crypto_error ("vHSM status error: " ++ message))
take_status _ = err (crypto_error "Nieoczekiwana odpowiedź vHSM dla status")

take_ready : Result AppError HsmResponse → Bool
take_ready (ok (status_info initialized active_key_version)) = initialized
take_ready _ = false

take_ciphertext : HsmResponse → Result AppError Bytes
take_ciphertext (encrypted ciphertext key_version) = ok ciphertext
take_ciphertext (error code message) = err (crypto_error ("vHSM błąd: " ++ message))
take_ciphertext _ = err (crypto_error "Nieoczekiwana odpowiedź vHSM")

take_plaintext : HsmResponse → Result AppError Bytes
take_plaintext (decrypted plaintext key_version) = ok plaintext
take_plaintext (error code message) = err (crypto_error ("vHSM błąd: " ++ message))
take_plaintext _ = err (crypto_error "Nieoczekiwana odpowiedź vHSM")

take_credential : HsmResponse → Result AppError (String × String × Bytes × ℕ)
take_credential (credential_generated credential_id password wrapped_password key_version) =
    ok (credential_id, password, wrapped_password, key_version)
take_credential (error code message) = err (crypto_error ("vHSM błąd: " ++ message))
take_credential _ = err (crypto_error "Nieoczekiwana odpowiedź vHSM")

-- The requests, by what `send_request` gives.
module _ (send : HsmRequest → Result AppError HsmResponse) where
  unfoldable pub master_key_version : Result AppError ℕ
  unfolding take_status
  master_key_version = send status >>= take_status

  unfoldable pub is_ready : Bool
  unfolding take_ready
  is_ready = take_ready (send status)

  unfoldable pub encrypt_bytes : Bytes → Result AppError Bytes
  unfolding take_ciphertext
  encrypt_bytes plaintext = send (encrypt "master_key" none plaintext) >>= take_ciphertext

  unfoldable pub decrypt_bytes : Bytes → Result AppError Bytes
  unfolding take_plaintext
  decrypt_bytes ciphertext = send (decrypt "master_key" none ciphertext) >>= take_plaintext

  unfoldable pub credential : ℕ → Result AppError (String × String × Bytes × ℕ)
  unfolding take_credential
  credential password_length = send (generate_credential password_length) >>= take_credential
