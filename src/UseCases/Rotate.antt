-- ===== src/UseCases/Rotate.antt =====
-- `RotateKeyUseCase::execute` of crates/kms-service/src/application/use_cases/rotate_key.rs. A version
-- is a `u32`, which wraps around in a release.
use Prim.Native.String.{◌++◌}
use kms_platform.Common.{
  ℕ, ◌+◌, ◌%◌, ◌^◌, Bool, true, false, String, [], ◌∷◌, Option, none, some, Result, ok, err, show,
  str_eq, if◌then◌else◌,
}
use kms_platform.Service.Errors.{AppError, unauthorized, not_found, validation_error, conflict}
use kms_platform.Service.Crypto.{
  KeyAlgorithm, ed25519, x25519, aes256_gcm, hmac_sha256, ecdsa_p256, debug_algorithm, KeyPurpose,
  EncryptedPrivateKey,
}
use kms_platform.Service.CryptoService.{RawKeyPair, KmsCryptoService}
use kms_platform.Service.Acl.{
  ControlAction, rotate_own_keys, rotate_all_keys, authorize_control_action,
}
use kms_platform.Service.KeyCache.{remove, remove_all_for_service}
use kms_platform.Keys.Repository.{KeyPairEntity, active, minutes, get_active_key}
use kms_platform.Keys.Repository.Statuses.{rotate_active_key}
use kms_platform.Audit.Details.{string, number}
use kms_platform.Audit.Entries.{RequestContext, key_rotated}
use kms_platform.UseCases.{
  Platform, Action, ◌>>=◌, ◌>>◌, pure, raise, lift, select, execute, call, gets, update_cache,
  record_success, record_access_denied, json, micros,
}

pub data RotationReason : Type 0 where
  scheduled : RotationReason
  compromised : RotationReason
  manual : RotationReason

abbrev pub debug_reason : RotationReason → String
debug_reason scheduled = "Scheduled"
debug_reason compromised = "Compromised"
debug_reason manual = "Manual"

pub record RotateKeyInput : Type 0 where
  pub service_id : String
  pub algorithm : KeyAlgorithm
  pub caller_service : String
  pub reason : RotationReason
  pub actor_id : String

abbrev pub required_action : RotateKeyInput → ControlAction
required_action input =
    if str_eq input.service_id input.caller_service then rotate_own_keys else rotate_all_keys

-- The match on the algorithm that both `RotateKeyUseCase` and `GenerateKeyPairUseCase` have, with
-- what each says of ECDSA.
unfoldable pub generate_pair :
    KmsCryptoService → String → KeyAlgorithm → ℕ → Result AppError RawKeyPair
generate_pair c unsupported ed25519 n = c.generate_ed25519_keypair n
generate_pair c unsupported x25519 n = c.generate_x25519_keypair n
generate_pair c unsupported aes256_gcm n = c.generate_symmetric_key n
generate_pair c unsupported hmac_sha256 n = c.generate_symmetric_key n
generate_pair c unsupported ecdsa_p256 n = err (validation_error unsupported)

-- `ok_or_else`
unfoldable pub found_or : AppError → Option KeyPairEntity → Result AppError KeyPairEntity
found_or e none = err e
found_or e (some key) = ok key

abbrev pub new_entity :
    String
    → KeyAlgorithm
    → KeyPurpose
    → RawKeyPair
    → EncryptedPrivateKey
    → ℕ
    → ℕ
    → ℕ
    → KeyPairEntity
new_entity service_id algorithm purpose pair encrypted version id now = record {
  id = id;
  service_id = service_id;
  algorithm = algorithm;
  purpose = purpose;
  public_key_pem = pair.public_key_pem;
  encrypted_private_key = encrypted;
  version = version;
  status = active;
  created_at = now;
  expires_at = none;
}

abbrev pub next_version : ℕ → ℕ
next_version version = (version + 1) % 2 ^ 32

module _ (p : Platform) where
  -- `Utc::now() + Duration::minutes(grace_period_minutes)`, or none for a compromised key.
  abbrev pub deprecated_until : RotationReason → ℕ → Option ℕ
  deprecated_until scheduled now = some (now + minutes p.grace_period_minutes)
  deprecated_until compromised now = none
  deprecated_until manual now = some (now + minutes p.grace_period_minutes)

  unfoldable pub invalidate : RotateKeyInput → Action (Unit {0})
  unfolding remove remove_all_for_service
  invalidate input = elim input.reason [
    | compromised ↦ update_cache (remove_all_for_service input.service_id)
    | _ ↦
        update_cache
          (remove (record { target_service = input.service_id; algorithm = input.algorithm }))
  ]

  unfoldable pub check_rotated : Bool → Action (Unit {0})
  check_rotated true = pure tt
  check_rotated false =
      raise (conflict "Failed to rotate key atomically: concurrent modification or active-key race")

  -- From the statement to the end.
  unfoldable pub install : RequestContext → RotateKeyInput → KeyPairEntity → Action KeyPairEntity
  unfolding execute invalidate check_rotated rotate_active_key
  install ctx input entity = do
    rotated ← execute p (λ rows.
        rotate_active_key p.pg entity.created_at input.service_id input.algorithm entity
          (deprecated_until input.reason entity.created_at) rows)
    _ ← check_rotated rotated
    _ ← invalidate input
    _ ← record_success p ctx key_rotated (
        some (
          json (
            ("service_id", string input.service_id)
            ∷ ("algorithm", string (debug_algorithm input.algorithm))
            ∷ ("reason", string (debug_reason input.reason))
            ∷ ("actor_id", string input.actor_id)
            ∷ ("new_version", number (show entity.version))
            ∷ [])))
    pure entity

  -- From the active key on.
  unfoldable pub renew : RequestContext → RotateKeyInput → KeyPairEntity → Action KeyPairEntity
  unfolding generate_pair install
  renew ctx input active_key = do
    pair ← call (
        generate_pair p.crypto "ECDSA_P256 rotation is not supported by this service"
          input.algorithm)
    encrypted ← call (λ n. p.crypto.encrypt_private_key n pair.private_key_bytes)
    entity ← gets (λ w.
        new_entity input.service_id input.algorithm active_key.purpose pair encrypted
          (next_version active_key.version) (p.uuid w.calls) (micros (p.now w.calls)))
    install ctx input entity

  unfoldable pub rotate_authorized : RequestContext → RotateKeyInput → Action KeyPairEntity
  unfolding select found_or get_active_key renew
  rotate_authorized ctx input = do
    row ← select p (get_active_key input.service_id input.algorithm)
    active_key ← lift (
        found_or
          (not_found (
            "Cannot rotate key: No active key exists for service '"
            ++ (input.service_id
                ++ ("' with algorithm '" ++ (debug_algorithm input.algorithm ++ "'")))))
          row)
    renew ctx input active_key

  unfoldable pub rotate_key : RequestContext → RotateKeyInput → Action KeyPairEntity
  unfolding rotate_authorized authorize_control_action
  rotate_key ctx input =
      if authorize_control_action p.acl input.caller_service (required_action input)
      then rotate_authorized ctx input
      else record_access_denied p ctx key_rotated "ACL Policy Violation" >> raise unauthorized
