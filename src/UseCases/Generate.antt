-- ===== src/UseCases/Generate.antt =====
-- `GenerateKeyPairUseCase::execute` of
-- crates/kms-service/src/application/use_cases/generate_key_pair.rs.
use kms_platform.Common.{
  ℕ, Bool, ◌||◌, String, [], ◌∷◌, Option, none, some, Result, ok, show, if◌then◌else◌,
  ◌>>=◌ as and_then,
}
use kms_platform.Service.Errors.{AppError, unauthorized}
use kms_platform.Service.Crypto.{KeyAlgorithm, debug_algorithm, KeyPurpose, debug_purpose}
use kms_platform.Service.Acl.{
  CompiledAcl, generate_keys, rotate_own_keys, rotate_all_keys, authorize_control_action,
}
use kms_platform.Keys.{Table}
use kms_platform.Keys.Repository.{KeyPairEntity, get_active_key, save_key}
use kms_platform.Keys.Repository.Statuses.{deactivate_keys_for_service}
use kms_platform.Audit.Details.{string, number}
use kms_platform.Audit.Entries.{RequestContext, generate_key}
use kms_platform.UseCases.{
  Platform, Action, ◌>>=◌, ◌>>◌, pure, raise, select, execute, call, gets, record_success,
  record_access_denied, json, micros,
}
use kms_platform.UseCases.Rotate.{generate_pair, new_entity, next_version}

pub record GenerateKeyPairInput : Type 0 where
  pub caller_service : String
  pub service_id : String
  pub algorithm : KeyAlgorithm
  pub purpose : KeyPurpose

unfoldable pub has_generate_permission : CompiledAcl → String → Bool
unfolding authorize_control_action
has_generate_permission acl caller =
    authorize_control_action acl caller generate_keys
    || (authorize_control_action acl caller rotate_own_keys
        || authorize_control_action acl caller rotate_all_keys)

-- A statement that writes and gives nothing.
abbrev pub written : Table → Result AppError ((Unit {0}) × Table)
written rows = ok (tt, rows)

module _ (p : Platform) where
  -- The version of the new key; the keys of the present one are deactivated.
  unfoldable pub retire_current : GenerateKeyPairInput → Option KeyPairEntity → Action ℕ
  unfolding execute deactivate_keys_for_service
  retire_current input none = pure 1
  retire_current input (some key) =
      execute p
        (λ rows. written (deactivate_keys_for_service input.service_id input.algorithm rows))
      >> pure (next_version key.version)

  -- From the statement that saves the key to the end.
  unfoldable pub store :
      RequestContext → GenerateKeyPairInput → KeyPairEntity → Action KeyPairEntity
  unfolding execute save_key
  store ctx input entity = do
    _ ← execute p (λ rows. and_then (save_key p.debug_time entity.created_at entity rows) written)
    _ ← record_success p ctx generate_key (
        some (
          json (
            ("target_service", string input.service_id)
            ∷ ("algorithm", string (debug_algorithm input.algorithm))
            ∷ ("key_id", string (p.texts.show_uuid entity.id))
            ∷ ("version", number (show entity.version))
            ∷ ("purpose", string (debug_purpose input.purpose))
            ∷ [])))
    pure entity

  -- From the generation of the key on.
  unfoldable pub seal : RequestContext → GenerateKeyPairInput → ℕ → Action KeyPairEntity
  unfolding generate_pair store
  seal ctx input version = do
    pair ← call (
        generate_pair p.crypto "ECDSA_P256 is not supported for in-process key generation"
          input.algorithm)
    encrypted ← call (λ n. p.crypto.encrypt_private_key n pair.private_key_bytes)
    entity ← gets (λ w.
        new_entity input.service_id input.algorithm input.purpose pair encrypted version
          (p.uuid w.calls) (micros (p.now w.calls)))
    store ctx input entity

  unfoldable pub generate_authorized : RequestContext → GenerateKeyPairInput → Action KeyPairEntity
  unfolding select get_active_key retire_current seal
  generate_authorized ctx input = do
    current_key ← select p (get_active_key input.service_id input.algorithm)
    version ← retire_current input current_key
    seal ctx input version

  unfoldable pub generate_key_pair : RequestContext → GenerateKeyPairInput → Action KeyPairEntity
  unfolding generate_authorized has_generate_permission
  generate_key_pair ctx input =
      if has_generate_permission p.acl input.caller_service
      then generate_authorized ctx input
      else record_access_denied p ctx generate_key "ACL Policy Violation for GenerateKey"
        >> raise unauthorized
