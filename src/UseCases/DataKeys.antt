-- ===== src/UseCases/DataKeys.antt =====
-- crates/kms-service/src/application/use_cases/generate_data_key.rs, encrypt_data.rs and
-- decrypt_data.rs.
use kms_platform.Common.{
  ℕ, not, String, Bytes, [], ◌∷◌, some, Result, ok, err, length, show, if◌then◌else◌,
}
use kms_platform.Service.Errors.{AppError, unauthorized, validation_error, crypto_error, to_string}
use kms_platform.Service.Crypto.{
  KeyAlgorithm, aes256_gcm, algorithm_eq, debug_algorithm, EncryptedPrivateKey,
}
use kms_platform.Service.Acl.{generate_data_key as data_key_access, authorize_key_access}
use kms_platform.Audit.Details.{string, number}
use kms_platform.Audit.Entries.{RequestContext, AuditAction, generate_data_key as data_key_made}
use kms_platform.Audit.Entries
use kms_platform.UseCases.{
  Platform, Action, ◌>>=◌, ◌>>◌, pure, raise, call, record_success, record_failure,
  record_access_denied, record_validation_failure, json,
}

pub record GenerateDataKeyOutput : Type 0 where
  pub caller_service : String
  pub algorithm : KeyAlgorithm
  pub plaintext_dek : Bytes
  pub wrapped_dek : Bytes
  pub master_key_version : ℕ

module _ (p : Platform) (ctx : RequestContext) where
  unfoldable pub data_key_authorized : String → KeyAlgorithm → Action GenerateDataKeyOutput
  data_key_authorized caller_service algorithm =
      if not (algorithm_eq algorithm aes256_gcm)
      then record_validation_failure p ctx data_key_made "Only AES256GCM is supported"
        >> raise (validation_error "Only AES256GCM is supported for GenerateDataKey")
      else call (λ n. p.crypto.generate_data_key n algorithm) >>= (λ generated.
        record_success p ctx data_key_made (
          some (
            json (
              ("target_service", string caller_service)
              ∷ ("algorithm", string (debug_algorithm algorithm))
              ∷ ("master_key_version", number (show generated.master_key_version))
              ∷ ("wrapped_len", number (show (length generated.wrapped)))
              ∷ [])))
        >> pure (record {
          caller_service = caller_service;
          algorithm = generated.algorithm;
          plaintext_dek = generated.plaintext;
          wrapped_dek = generated.wrapped;
          master_key_version = generated.master_key_version;
        }))

  -- `GenerateDataKeyUseCase::execute`
  unfoldable pub generate_data_key : String → KeyAlgorithm → Action GenerateDataKeyOutput
  unfolding data_key_authorized authorize_key_access
  generate_data_key caller_service algorithm =
      if authorize_key_access p.acl caller_service caller_service algorithm data_key_access
      then data_key_authorized caller_service algorithm
      else record_access_denied p ctx data_key_made "ACL Policy Violation for GenerateDataKey"
        >> raise unauthorized

  -- An error is recorded, and passed on as its text.
  unfoldable pub or_recorded : {A : Type 0} → AuditAction → Result AppError A → Action A
  unfolding to_string
  or_recorded action (ok a) = pure a
  or_recorded action (err e) =
      record_failure p ctx action (to_string e) >> raise (crypto_error (to_string e))

  -- `EncryptDataUseCase::execute`
  unfoldable pub encrypt_data : Bytes → Action EncryptedPrivateKey
  unfolding or_recorded
  encrypt_data plaintext = do
    result ← call (λ n. ok (p.crypto.encrypt_private_key n plaintext))
    encrypted ← or_recorded Entries.encrypt_data result
    _ ← record_success p ctx Entries.encrypt_data (
        some (
          json (
            ("plaintext_length", number (show (length plaintext)))
            ∷ ("result", string "ok")
            ∷ ("master_key_version", number (show encrypted.master_key_version))
            ∷ [])))
    pure encrypted

  -- `DecryptDataUseCase::execute`
  unfoldable pub decrypt_data : EncryptedPrivateKey → Action Bytes
  unfolding or_recorded
  decrypt_data encrypted = do
    result ← call (λ n. ok (p.crypto.decrypt_private_key n encrypted))
    plaintext ← or_recorded Entries.decrypt_data result
    _ ← record_success p ctx Entries.decrypt_data (
        some (
          json (
            ("ciphertext_length", number (show (length encrypted.ciphertext)))
            ∷ ("master_key_version", number (show encrypted.master_key_version))
            ∷ ("result", string "ok")
            ∷ [])))
    pure plaintext
