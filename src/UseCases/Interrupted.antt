-- ===== src/UseCases/Interrupted.antt =====
-- What a generation that fails half way leaves.
use kms_platform.Common.{
  ℕ, ◌+◌, ◌≡◌, refl, ap, ◌∙◌, true, String, Bytes, [], ◌∷◌, none, some, ok, err, Bool-cases,
  Result-cases, inl, inr, arith,
}
use kms_platform.Service.Errors.{AppError}
use kms_platform.Service.Crypto.{KeyAlgorithm, debug_algorithm}
use kms_platform.Keys
use kms_platform.Keys.{KeyDbRow, Table, first, is_active_for}
use kms_platform.Keys.Repository.{KeyPairEntity, get_active_key, entity_of}
use kms_platform.Keys.Repository.Statuses.{deactivate_keys_for_service}
use kms_platform.Audit.Entries.{RequestContext}
use kms_platform.UseCases.{World, Platform, proceed, select, execution, execute}
use kms_platform.UseCases.Rotate.{generate_pair, next_version}
use kms_platform.UseCases.Generate.{
  GenerateKeyPairInput, has_generate_permission, retire_current, seal, generate_authorized,
  generate_key_pair,
}

get_active_key-deactivate :
    (service_id algorithm : String) (rows : Table)
    → Keys.get_active_key service_id algorithm
        (Keys.deactivate_keys_for_service service_id algorithm rows)
      ≡ none
unfolding Keys.get_active_key Keys.deactivate_keys_for_service
get_active_key-deactivate service_id algorithm [] = refl
get_active_key-deactivate service_id algorithm (r ∷ rows) =
    let rest = get_active_key-deactivate service_id algorithm rows in
    elim (Bool-cases (is_active_for service_id algorithm r)) [
      | inl hit ↦ ground (arith, hit, rest)
      | inr miss ↦ ground (arith, miss, rest)
    ]

get_active_key-deactivated :
    (service_id : String) (algorithm : KeyAlgorithm) (rows : Table)
    → get_active_key service_id algorithm (deactivate_keys_for_service service_id algorithm rows)
      ≡ ok none
unfolding get_active_key entity_of deactivate_keys_for_service
get_active_key-deactivated service_id algorithm rows =
    rw (get_active_key-deactivate service_id (debug_algorithm algorithm) rows) refl

seal-broken :
    (p : Platform) (ctx : RequestContext) (input : GenerateKeyPairInput) (version : ℕ)
    (reason : AppError) (w : World)
    → ((n : ℕ) (key : Bytes) → p.crypto.encrypt_private_key n key ≡ err reason)
    → (failure : AppError) × ((seal p ctx input version w).0 ≡ err failure)
      × ((seal p ctx input version w).1.keys ≡ w.keys)
unfolding seal proceed
seal-broken p ctx input version reason w broken =
    let text : String = "ECDSA_P256 is not supported for in-process key generation" in
    elim (Result-cases (generate_pair p.crypto text input.algorithm w.calls)) [
      | inr (e, unmade) ↦ (e, rw unmade refl, rw unmade refl)
      | inl (pair, made) ↦
          let stopped = broken (w.calls + 3) pair.private_key_bytes in
          (reason, rw (made, stopped) refl, rw (made, stopped) refl)
    ]

-- A generation for a service with an active key that fails at the encryption of the new key leaves
-- the service without an active key of the algorithm: its keys are revoked before the new one is
-- made. The caller may generate and the database answers.
pub generate_key_pair-interrupted :
    (p : Platform) (ctx : RequestContext) (input : GenerateKeyPairInput) (old : KeyPairEntity)
    (reason : AppError) (w : World)
    → ((n : ℕ) → p.database_up n ≡ true)
    → has_generate_permission p.acl input.caller_service ≡ true
    → get_active_key input.service_id input.algorithm w.keys ≡ ok (some old)
    → ((n : ℕ) (key : Bytes) → p.crypto.encrypt_private_key n key ≡ err reason)
    → (failure : AppError) × ((generate_key_pair p ctx input w).0 ≡ err failure)
      × (get_active_key input.service_id input.algorithm (generate_key_pair p ctx input w).1.keys
          ≡ ok none)
unfolding generate_key_pair generate_authorized retire_current select execute execution proceed
generate_key_pair-interrupted p ctx input old reason w up allowed found broken =
    let left : Table = deactivate_keys_for_service input.service_id input.algorithm w.keys in
    let w2 : World = record w { keys = left; calls = w.calls + 1 + 1 } in
    let (failure, failed, keys) =
      seal-broken p ctx input (next_version old.version) reason w2 broken in
    rw (allowed, up w.calls, found, up (w.calls + 1))
      (
        failure,
        failed,
        ap (get_active_key input.service_id input.algorithm) keys
            ∙ get_active_key-deactivated input.service_id input.algorithm w.keys,
      )
