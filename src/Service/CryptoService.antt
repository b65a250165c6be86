-- ===== src/Service/CryptoService.antt =====
-- The trait `KmsCryptoService` of crates/kms-service/src/domain/crypto.rs, and its implementation
-- `VhsmCryptoService` of infrastructure/crypto/kms_service.rs. Key generation, PEM and the random
-- generator are parameters; every call of these and of the vHSM is numbered. A version of the master
-- key is below 2 ^ 31, so that `as i32` keeps it.
use Prim.Native.String.{◌++◌}
use kms_platform.Common.{ℕ, ◌+◌, not, String, Bytes, Result, ok, err, map_err, ◌>>=◌, if◌then◌else◌}
use kms_platform.Vhsm.Protocol.{HsmRequest, HsmResponse}
use kms_platform.Service.Errors.{AppError, crypto_error, validation_error}
use kms_platform.Service.Crypto.{KeyAlgorithm, aes256_gcm, algorithm_eq, EncryptedPrivateKey}
use kms_platform.Service.VhsmClient

pub record RawKeyPair : Type 0 where
  pub public_key_pem : String
  pub private_key_bytes : Bytes

pub record GeneratedDataKey : Type 0 where
  pub algorithm : KeyAlgorithm
  pub plaintext : Bytes
  pub wrapped : Bytes
  pub master_key_version : ℕ

-- The trait; the first argument of a method is the number of its first call.
pub record KmsCryptoService : Type 0 where
  pub generate_ed25519_keypair : ℕ → Result AppError RawKeyPair
  pub generate_x25519_keypair : ℕ → Result AppError RawKeyPair
  pub generate_symmetric_key : ℕ → Result AppError RawKeyPair
  pub generate_data_key : ℕ → KeyAlgorithm → Result AppError GeneratedDataKey
  pub encrypt_private_key : ℕ → Bytes → Result AppError EncryptedPrivateKey
  pub decrypt_private_key : ℕ → EncryptedPrivateKey → Result AppError Bytes

pub record KeyLibraries : Type 0 where
  pub ed25519_secret : ℕ → Bytes
  pub ed25519_public_pem : Bytes → Result String String
  pub x25519_secret : ℕ → Bytes
  pub x25519_public : Bytes → Bytes
  pub pem_encode : String → Bytes → String
  pub try_fill_bytes : ℕ → Result String Bytes

abbrev pub Send : Type 0
Send = ℕ → HsmRequest → Result AppError HsmResponse

module _ (k : KeyLibraries) where
  unfoldable pub generate_ed25519_keypair : ℕ → Result AppError RawKeyPair
  generate_ed25519_keypair n = do
    let signing_key = k.ed25519_secret n
    pem ←
        map_err (λ e. crypto_error ("Failed to encode Ed25519 public key to PEM: " ++ e))
          (k.ed25519_public_pem signing_key)
    ok (record { public_key_pem = pem; private_key_bytes = signing_key })

  unfoldable pub generate_x25519_keypair : ℕ → Result AppError RawKeyPair
  generate_x25519_keypair n =
      let secret = k.x25519_secret n in
      ok (record {
        public_key_pem = k.pem_encode "X25519 PUBLIC KEY" (k.x25519_public secret);
        private_key_bytes = secret;
      })

  abbrev random_key : ℕ → Result AppError Bytes
  random_key n = map_err (λ e. crypto_error ("RNG error: " ++ e)) (k.try_fill_bytes n)

  unfoldable pub generate_symmetric_key : ℕ → Result AppError RawKeyPair
  generate_symmetric_key n = do
    key_bytes ← random_key n
    ok (record { public_key_pem = ""; private_key_bytes = key_bytes })

  module _ (send : Send) where
    unfoldable pub encrypt_private_key : ℕ → Bytes → Result AppError EncryptedPrivateKey
    unfolding VhsmClient.encrypt_bytes VhsmClient.master_key_version
    encrypt_private_key n private_key = do
      ciphertext ← VhsmClient.encrypt_bytes (send n) private_key
      version ← VhsmClient.master_key_version (send (n + 1))
      ok (record { ciphertext = ciphertext; master_key_version = version })

    unfoldable pub decrypt_private_key : ℕ → EncryptedPrivateKey → Result AppError Bytes
    unfolding VhsmClient.decrypt_bytes
    decrypt_private_key n key = VhsmClient.decrypt_bytes (send n) key.ciphertext

    unfoldable pub generate_data_key : ℕ → KeyAlgorithm → Result AppError GeneratedDataKey
    unfolding VhsmClient.encrypt_bytes VhsmClient.master_key_version
    generate_data_key n algorithm =
        if not (algorithm_eq algorithm aes256_gcm)
        then err (validation_error "Only AES256GCM is supported for GenerateDataKey")
        else random_key n >>= (λ plaintext.
          VhsmClient.encrypt_bytes (send (n + 1)) plaintext >>= (λ wrapped.
            VhsmClient.master_key_version (send (n + 2)) >>= (λ version. ok (record {
              algorithm = algorithm;
              plaintext = plaintext;
              wrapped = wrapped;
              master_key_version = version;
            }))))

    -- `VhsmCryptoService`
    abbrev pub vhsm_crypto_service : KmsCryptoService
    vhsm_crypto_service = record {
      generate_ed25519_keypair = generate_ed25519_keypair;
      generate_x25519_keypair = generate_x25519_keypair;
      generate_symmetric_key = generate_symmetric_key;
      generate_data_key = generate_data_key;
      encrypt_private_key = encrypt_private_key;
      decrypt_private_key = decrypt_private_key;
    }
