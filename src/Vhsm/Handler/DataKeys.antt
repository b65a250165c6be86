-- ===== src/Vhsm/Handler/DataKeys.antt =====
-- The arms of `handle_request` that use the master key under one hold of the lock: key encryption
-- keys, data keys, credentials, random bytes, `Encrypt` and `Decrypt`.
use Prim.Native.String.{◌++◌}
use kms_platform.Common.{
  ℕ, ◌+◌, String, Bool, false, ◌||◌, Option, none, some, Bytes, Result, ok, err, show, trim, ltb,
  ◌==◌, str_eq, not, if◌then◌else◌,
}
use kms_platform.Host.{Host}
use kms_platform.Vhsm.Protocol.{
  HsmResponse, error, kek_generated, data_key_generated, random_bytes_generated, encrypted,
  decrypted, credential_generated,
}
use kms_platform.Vhsm.State.{VhsmState}
use kms_platform.Vhsm.Crypto.{encrypt_bytes, decrypt_bytes}
use kms_platform.Vhsm.Handler.Phase.{Env, locked, with_root_key}

-- Whether a version is asked for, and another one than `active`.
abbrev pub is_other_version : Option ℕ → ℕ → Bool
is_other_version none active = false
is_other_version (some requested) active = not (requested == active)

abbrev pub version_text : Option ℕ → String
version_text none = ""
version_text (some requested) = show requested

-- `match … { Ok(v) => …, Err(msg) => Error { code: 500, message: msg } }`
abbrev pub or_500 {ℓ} : {A : Type ℓ} → Result String A → (A → HsmResponse) → HsmResponse
or_500 (ok a) answer = answer a
or_500 (err msg) answer = error 500 msg

module _ (h : Host) where
  unfoldable pub kek_reply : Env → String → VhsmState → HsmResponse
  kek_reply e algorithm s = with_root_key s locked λ root_key.
      if not (str_eq (trim algorithm) "AES256GCM")
      then error 400 "Unsupported KEK algorithm. Only AES256GCM is supported."
      else or_500 (encrypt_bytes h (e.draw + 1) root_key (h.random e.draw 32))
          λ wrapped_kek. kek_generated wrapped_kek 1 s.active_key_version (trim algorithm)

  data_key_wrapped : Env → Bytes → ℕ → HsmResponse
  data_key_wrapped e kek root_key_version =
      let dek = h.random e.draw 32 in
      or_500 (encrypt_bytes h (e.draw + 1) kek dek)
        λ wrapped_dek. data_key_generated dek wrapped_dek 1 root_key_version

  data_key_unwrap : Env → Result String Bytes → ℕ → HsmResponse
  data_key_unwrap e (err msg) root_key_version = error 500 ("Failed to unwrap KEK: " ++ msg)
  data_key_unwrap e (ok kek) root_key_version = data_key_wrapped e kek root_key_version

  unfoldable pub data_key_reply : Env → Bytes → Option ℕ → String → VhsmState → HsmResponse
  unfolding data_key_unwrap data_key_wrapped
  data_key_reply e wrapped_kek kek_version algorithm s = with_root_key s locked λ root_key.
      if is_other_version kek_version 1
      then error 409 (
          "Requested KEK version "
          ++ (version_text kek_version ++ (" does not match active KEK version " ++ show 1)))
      else if not (str_eq (trim algorithm) "AES256GCM")
      then error 400 "Unsupported DEK algorithm. Only AES256GCM is supported."
      else data_key_unwrap e (decrypt_bytes h root_key wrapped_kek) s.active_key_version

  unfoldable pub random_reply : Env → ℕ → HsmResponse
  random_reply e len =
      if len == 0 || ltb 4096 len
      then error 400 "Invalid random bytes length"
      else random_bytes_generated (h.random e.draw len)

  unfoldable pub credential_reply : Env → ℕ → VhsmState → HsmResponse
  credential_reply e password_length s = with_root_key s locked λ root_key.
      if password_length == 0 || ltb 1024 password_length
      then error 400 "Invalid password length"
      else let password = h.random (e.draw + 1) password_length in
        or_500 (encrypt_bytes h (e.draw + 2) root_key password) λ wrapped.
          credential_generated (h.hex (h.random e.draw 16)) (h.base64 password) wrapped
            s.active_key_version

  -- The checks that `Encrypt` and `Decrypt` share, in their order.
  with_master_key : String → Option ℕ → VhsmState → (Bytes → HsmResponse) → HsmResponse
  with_master_key key_id key_version s use_key =
      if not (str_eq key_id "master_key")
      then error 404 ("Unknown key id: " ++ key_id)
      else with_root_key s locked λ root_key.
        if is_other_version key_version s.active_key_version
        then error 409 (
            "Requested key version "
            ++ (version_text key_version
                ++ (" does not match active key version " ++ show s.active_key_version)))
        else use_key root_key

  unfoldable pub encrypt_reply : Env → String → Option ℕ → Bytes → VhsmState → HsmResponse
  unfolding with_master_key
  encrypt_reply e key_id key_version plaintext s = with_master_key key_id key_version s λ root_key.
      or_500 (encrypt_bytes h e.draw root_key plaintext)
        λ ciphertext. encrypted ciphertext s.active_key_version

  unfoldable pub decrypt_reply : String → Option ℕ → Bytes → VhsmState → HsmResponse
  unfolding with_master_key
  decrypt_reply key_id key_version ciphertext s = with_master_key key_id key_version s λ root_key.
      or_500 (decrypt_bytes h root_key ciphertext)
        λ plaintext. decrypted plaintext s.active_key_version
