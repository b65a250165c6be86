-- ===== src/UseCases/Sign.antt =====
-- `SignDataUseCase::execute` of crates/kms-service/src/application/use_cases/sign_data.rs. Ed25519 is
-- a parameter; the wiping of the key is not modelled.
use kms_platform.Common.{
  ℕ, ltb, not, String, Bytes, [], ◌∷◌, Option, none, some, Result, ok, err, length, take, show,
  if◌then◌else◌,
}
use kms_platform.Service.Errors.{
  AppError, unauthorized, not_found, validation_error, crypto_error, to_string,
}
use kms_platform.Service.Crypto.{KeyAlgorithm, ed25519, algorithm_eq, debug_algorithm}
use kms_platform.Service.Acl.{private_key, authorize_key_access}
use kms_platform.Service.KeyCache.{CachedKeyValue, with_key}
use kms_platform.Keys.Repository.{KeyPairEntity, get_active_key, get_key_by_version}
use kms_platform.Audit.Details.{string, number}
use kms_platform.Audit.Entries.{RequestContext, sign_data as data_signed}
use kms_platform.UseCases.{
  Platform, Action, ◌>>=◌, ◌>>◌, pure, raise, select, call, gets, record_success, record_failure,
  record_access_denied, record_validation_failure, json,
}
use kms_platform.UseCases.Fetch.{KeyRequest, cache_key, preload}

pub record SignDataInput : Type 0 where
  pub caller_service : String
  pub target_service : String
  pub algorithm : KeyAlgorithm
  pub payload : Bytes
  pub key_version : Option ℕ

pub record SignDataOutput : Type 0 where
  pub service_id : String
  pub algorithm : KeyAlgorithm
  pub key_version : ℕ
  pub signature_bytes : Bytes

abbrev pub request_of : SignDataInput → KeyRequest
request_of input = record {
  caller_service = input.caller_service;
  target_service = input.target_service;
  algorithm = input.algorithm;
}

-- `.map(|key| key.version).unwrap_or(0)`
abbrev pub version_of : Option KeyPairEntity → ℕ
version_of none = 0
version_of (some key) = key.version

module _ (p : Platform) (ctx : RequestContext) (input : SignDataInput) where
  -- An error of the decryption is recorded and passed on.
  unfoldable pub decrypted : Result AppError Bytes → Action Bytes
  unfolding to_string
  decrypted (ok bytes) = pure bytes
  decrypted (err e) = record_failure p ctx data_signed (to_string e) >> raise e

  unfoldable pub stored_key : Option KeyPairEntity → Action Bytes
  unfolding decrypted preload
  stored_key none =
      record_validation_failure p ctx data_signed "Signing key not found"
      >> raise (not_found "Signing key not found")
  stored_key (some key) = do
    answer ← call (λ n. ok (p.crypto.decrypt_private_key n key.encrypted_private_key))
    bytes ← decrypted answer
    _ ← preload p (request_of input) key.version bytes
    pure bytes

  unfoldable pub find_key : Option ℕ → Action (Option KeyPairEntity)
  unfolding select get_active_key get_key_by_version
  find_key none = select p (get_active_key input.target_service input.algorithm)
  find_key (some version) =
      select p (get_key_by_version input.target_service input.algorithm version)

  unfoldable pub signing_key : Option CachedKeyValue → Action Bytes
  unfolding find_key stored_key
  signing_key (some cached) = pure cached.bytes
  signing_key none = find_key input.key_version >>= stored_key

  -- The version that is reported with the signature.
  unfoldable pub output_version : Option ℕ → Action ℕ
  unfolding select get_active_key
  output_version (some version) = pure version
  output_version none = do
    key ← select p (get_active_key input.target_service input.algorithm)
    pure (version_of key)

  unfoldable pub sign_with : Bytes → Action SignDataOutput
  unfolding output_version
  sign_with private_key_bytes =
      if ltb (length private_key_bytes) 32
      then record_failure p ctx data_signed "Invalid Ed25519 private key length"
        >> raise (crypto_error "Invalid Ed25519 private key length")
      else output_version input.key_version >>= (λ version.
        record_success p ctx data_signed (
          some (
            json (
              ("target_service", string input.target_service)
              ∷ ("algorithm", string (debug_algorithm input.algorithm))
              ∷ ("key_version", number (show version))
              ∷ ("payload_len", number (show (length input.payload)))
              ∷ [])))
        >> pure (record {
          service_id = input.target_service;
          algorithm = input.algorithm;
          key_version = version;
          signature_bytes = p.ed25519_sign (take 32 private_key_bytes) input.payload;
        }))

  unfoldable pub sign_data : Action SignDataOutput
  unfolding sign_with signing_key with_key authorize_key_access
  sign_data =
      if not (algorithm_eq input.algorithm ed25519)
      then record_validation_failure p ctx data_signed "Only Ed25519 signing is supported"
        >> raise (validation_error "Signing endpoint supports only Ed25519 keys")
      else if authorize_key_access p.acl input.caller_service input.target_service input.algorithm
          private_key
      then gets (λ w. with_key (cache_key (request_of input)) w.cache) >>= signing_key >>= sign_with
      else record_access_denied p ctx data_signed "ACL Policy Violation" >> raise unauthorized
