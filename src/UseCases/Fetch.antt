-- ===== src/UseCases/Fetch.antt =====
-- The use cases that give out keys: crates/kms-service/src/application/use_cases/get_private_key.rs,
-- get_symmetric_key.rs and get_public_key.rs.
use Prim.Native.String.{◌++◌}
use kms_platform.Common.{
  ℕ, Bool, true, String, Bytes, [], ◌∷◌, Option, none, some, show, any, if◌then◌else◌,
}
use kms_platform.Service.Errors.{AppError, unauthorized, not_found}
use kms_platform.Service.Crypto.{KeyAlgorithm, debug_algorithm}
use kms_platform.Service.Acl.{
  CompiledAcl, KeyAccessLevel, private_key, symmetric_key, authorize_key_access, preload_eq,
}
use kms_platform.Service.KeyCache.{KeyCacheKey, CachedKeyValue, with_key, insert_key}
use kms_platform.Keys.Repository.{KeyPairEntity, get_active_key, get_active_or_valid_deprecated_key}
use kms_platform.Audit.Details.{string, number, boolean}
use kms_platform.Audit.Entries.{
  RequestContext, AuditAction, get_private_key as private_key_read,
  get_symmetric_key as symmetric_key_read, get_public_key as public_key_read,
}
use kms_platform.UseCases.{
  Platform, Action, ◌>>=◌, ◌>>◌, pure, raise, select, call, gets, update_cache, record_success,
  record_access_denied, record_validation_failure, json, micros,
}

-- `CompiledAcl::should_preload_for`
unfoldable pub should_preload_for : CompiledAcl → String → KeyAlgorithm → Bool
should_preload_for acl target algorithm =
    any (λ k. preload_eq k (record { target = target; algorithm = algorithm })) acl.preload

-- `GetPrivateKeyInput`, and `GetSymmetricKeyInput` with the same fields.
pub record KeyRequest : Type 0 where
  pub caller_service : String
  pub target_service : String
  pub algorithm : KeyAlgorithm

-- `GetPrivateKeyOutput`, and `GetSymmetricKeyOutput` with the same fields.
pub record KeyAnswer : Type 0 where
  pub service_id : String
  pub algorithm : KeyAlgorithm
  pub version : ℕ
  pub key_bytes : Bytes

abbrev pub cache_key : KeyRequest → KeyCacheKey
cache_key input = record { target_service = input.target_service; algorithm = input.algorithm }

module _ (p : Platform) where
  -- `if preload_enabled { key_cache.insert(…) }`
  unfoldable pub preload : KeyRequest → ℕ → Bytes → Action (Unit {0})
  unfolding insert_key should_preload_for
  preload input version bytes =
      if should_preload_for p.acl input.target_service input.algorithm
      then update_cache (insert_key (cache_key input) (record { version = version; bytes = bytes }))
      else pure tt

  -- The two use cases have one body, but for the action they record and the texts.
  module _ (action : AuditAction) (absent : String) (missing : AppError) where
    unfoldable pub answer_cached : RequestContext → KeyRequest → CachedKeyValue → Action KeyAnswer
    answer_cached ctx input cached =
        record_success p ctx action (
          some (
            json (
              ("cache_hit", boolean true)
              ∷ ("target_service", string input.target_service)
              ∷ ("algorithm", string (debug_algorithm input.algorithm))
              ∷ [])))
        >> pure (record {
          service_id = input.target_service;
          algorithm = input.algorithm;
          version = cached.version;
          key_bytes = cached.bytes;
        })

    unfoldable pub answer_stored :
        RequestContext → KeyRequest → Option KeyPairEntity → Action KeyAnswer
    unfolding preload
    answer_stored ctx input none = record_validation_failure p ctx action absent >> raise missing
    answer_stored ctx input (some key) = do
      bytes ← call (λ n. p.crypto.decrypt_private_key n key.encrypted_private_key)
      _ ← preload input key.version bytes
      _ ← record_success p ctx action (
          some (
            json (
              ("target_service", string input.target_service)
              ∷ ("algorithm", string (debug_algorithm input.algorithm))
              ∷ ("version", number (show key.version))
              ∷ [])))
      pure (record {
        service_id = key.service_id;
        algorithm = key.algorithm;
        version = key.version;
        key_bytes = bytes;
      })

    unfoldable pub answer : RequestContext → KeyRequest → Option CachedKeyValue → Action KeyAnswer
    unfolding answer_cached answer_stored select get_active_key
    answer ctx input (some cached) = answer_cached ctx input cached
    answer ctx input none =
        select p (get_active_key input.target_service input.algorithm) >>= answer_stored ctx input

    unfoldable pub fetch : KeyAccessLevel → String → RequestContext → KeyRequest → Action KeyAnswer
    unfolding answer authorize_key_access with_key
    fetch level violation ctx input =
        if authorize_key_access p.acl input.caller_service input.target_service input.algorithm
          level
        then gets (λ w. with_key (cache_key input) w.cache) >>= answer ctx input
        else record_access_denied p ctx action violation >> raise unauthorized

  -- `GetPrivateKeyUseCase::execute`
  unfoldable pub get_private_key : RequestContext → KeyRequest → Action KeyAnswer
  unfolding fetch
  get_private_key ctx input =
      fetch private_key_read "Key does not exist" (not_found "Key not found") private_key
        "ACL Policy Violation" ctx input

  -- `GetSymmetricKeyUseCase::execute`
  unfoldable pub get_symmetric_key : RequestContext → KeyRequest → Action KeyAnswer
  unfolding fetch
  get_symmetric_key ctx input =
      fetch symmetric_key_read "Symmetric Key does not exist"
        (not_found ("Brak aktywnego klucza symetrycznego dla " ++ input.target_service))
        symmetric_key "ACL Policy Violation for Symmetric Key" ctx input

  abbrev no_public_key : String → KeyAlgorithm → String
  no_public_key service_id algorithm =
      "No active or valid deprecated public key found for service '"
      ++ (service_id ++ ("' with algorithm '" ++ (debug_algorithm algorithm ++ "'")))

  unfoldable pub answer_public :
      RequestContext → String → KeyAlgorithm → Option KeyPairEntity → Action KeyPairEntity
  answer_public ctx service_id algorithm (some key) =
      record_success p ctx public_key_read (
        some (
          json (
            ("service_id", string service_id)
            ∷ ("algorithm", string (debug_algorithm algorithm))
            ∷ ("key_version", number (show key.version))
            ∷ [])))
      >> pure key
  answer_public ctx service_id algorithm none =
      record_validation_failure p ctx public_key_read
        "No active or valid deprecated public key found"
      >> raise (not_found (no_public_key service_id algorithm))

  -- `GetPublicKeyUseCase::execute`
  unfoldable pub get_public_key : RequestContext → String → KeyAlgorithm → Action KeyPairEntity
  unfolding answer_public select get_active_or_valid_deprecated_key
  get_public_key ctx service_id algorithm = do
    now ← gets (λ w. micros (p.now w.calls))
    key ← select p (get_active_or_valid_deprecated_key p.pg service_id algorithm now)
    answer_public ctx service_id algorithm key
