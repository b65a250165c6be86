-- ===== src/Containers.antt =====
-- crates/kms-core/src/crypto/aes.rs and keys.rs: containers under a password or a key. `call` numbers
-- the calls of the random source. An error is its text.
pub mod Opened
use Prim.Native.String.{◌++◌}
use kms_platform.Common.{
  ℕ, ◌+◌, ltb, ◌==◌, String, Bytes, Result, ok, err, map_err, ◌>>=◌, length, take, drop, not,
  if◌then◌else◌,
}
use kms_platform.Host.{Host}
use kms_platform.Sss.{KmsCoreError, invalid_input, internal, key_size}

-- `getrandom`, by its call number and the number of bytes; `SaltString`, `Argon2` and `hex`.
pub record Crates : Type 0 where
  pub getrandom : ℕ → ℕ → Result String Bytes
  pub encode_b64 : Bytes → Result String String
  pub generate_salt : ℕ → String
  pub as_bytes : String → Bytes
  -- `Params::new` at the constants of the program.
  pub params : Result String (Unit {0})
  pub hash_password_into : Bytes → Bytes → Result String Bytes
  pub hex_encode : Bytes → String
  pub hex_decode : String → Result String Bytes

pub record EncryptedContainer : Type 0 where
  pub salt : String
  pub nonce : String
  pub ciphertext : String

module _ (h : Host) (c : Crates) where
  -- The key that a password and a salt give.
  unfoldable pub derive_key_with_salt : String → String → Result String Bytes
  derive_key_with_salt password salt = do
    _ ← map_err (λ e. "Błąd konfiguracji parametrów Argon2id: " ++ e) c.params
    map_err (λ e. "Błąd derywacji klucza z solą: " ++ e)
        (c.hash_password_into (c.as_bytes password) (c.as_bytes salt))

  unfoldable pub derive_key_from_password : ℕ → String → Result String (Bytes × String)
  derive_key_from_password call password = do
    rng_bytes ← map_err (λ e. "Nie udało się wygenerować soli: " ++ e) (c.getrandom call 16)
    salt ← map_err (λ e. "Błąd kodowania soli B64: " ++ e) (c.encode_b64 rng_bytes)
    _ ← map_err (λ e. "Błąd konfiguracji parametrów Argon2id: " ++ e) c.params
    key_bytes ←
        map_err (λ e. "Błąd derywacji klucza Argon2id: " ++ e)
          (c.hash_password_into (c.as_bytes password) (c.as_bytes salt))
    ok (key_bytes, salt)

  -- A text under a key and a new nonce, with a salt beside it.
  unfoldable pub seal : ℕ → Bytes → String → Bytes → Result String EncryptedContainer
  seal call key salt text = do
    _ ← h.aes_init key
    nonce ← c.getrandom call 12
    ciphertext ← h.aes_encrypt key nonce text
    ok (record { salt = salt; nonce = c.hex_encode nonce; ciphertext = c.hex_encode ciphertext })

  unfoldable pub encrypt_bytes_with_password : ℕ → String → Bytes → Result String EncryptedContainer
  unfolding derive_key_from_password seal
  encrypt_bytes_with_password call password bytes = do
    derived ← derive_key_from_password call password
    seal (call + 1) derived.0 derived.1 bytes

  unfoldable pub open_container : Bytes → EncryptedContainer → Result String Bytes
  open_container key container = do
    _ ← h.aes_init key
    nonce_bytes ← c.hex_decode container.nonce
    ciphertext_bytes ← c.hex_decode container.ciphertext
    if not (length nonce_bytes == 12)
        then err "Invalid nonce length: expected 12 bytes"
        else h.aes_decrypt key nonce_bytes ciphertext_bytes

  unfoldable pub decrypt_bytes_with_password : String → EncryptedContainer → Result String Bytes
  unfolding derive_key_with_salt open_container
  decrypt_bytes_with_password password container = do
    key ← derive_key_with_salt password container.salt
    open_container key container

  unfoldable pub encrypt_storage_key : ℕ → Bytes → Bytes → Result String EncryptedContainer
  unfolding seal
  encrypt_storage_key call master_key storage_key =
      seal (call + 1) master_key (c.generate_salt call) storage_key

  unfoldable pub decrypt_storage_key : Bytes → EncryptedContainer → Result String Bytes
  unfolding open_container
  decrypt_storage_key master_key container = do
    decrypted_bytes ← open_container master_key container
    if not (length decrypted_bytes == key_size)
        then err "Invalid key length recovered"
        else ok decrypted_bytes

  -- `[16 B salt][12 B nonce][ciphertext + tag]`
  unfoldable pub decrypt_bytes_with_argon2_raw : String → Bytes → Result String Bytes
  decrypt_bytes_with_argon2_raw password bytes =
      if ltb (length bytes) 28 then err "Invalid encrypted file format: file too short" else do
        _ ← map_err (λ e. "Błąd parametrów Argon2id dla binarnego formatu Go: " ++ e) c.params
        key_bytes ←
            map_err (λ e. "Błąd derywacji klucza Argon2id: " ++ e)
              (c.hash_password_into (c.as_bytes password) (take 16 bytes))
        _ ← map_err (λ e. "Błąd inicjalizacji AES-256-GCM: " ++ e) (h.aes_init key_bytes)
        map_err (λ e. "Błąd deszyfrowania (nieprawidłowe hasło lub uszkodzony plik): " ++ e)
            (h.aes_decrypt key_bytes (take 12 (drop 16 bytes)) (drop 12 (drop 16 bytes)))

  unfoldable pub generate_secure_secret : ℕ → ℕ → Result KmsCoreError Bytes
  generate_secure_secret call size =
      if size == 0
      then err (invalid_input "Secret length must be greater than zero")
      else if ltb 4096 size
      then err (invalid_input "Requested secret length exceeds maximum allowed limit of 4096 bytes")
      else map_err (λ e. internal ("Failed to generate secure random bytes: " ++ e))
          (c.getrandom call size)
