-- ===== src/UseCases/Replaced.antt =====
-- What a rotation that returns leaves in the table of keys, the cache and the audit table.
use kms_platform.Common.{
  ℕ, ◌+◌, ◌%◌, ◌^◌, ◌≡◌, refl, true, String, Option, none, some, ok, map_err-eq-ok,
}
use kms_platform.Service.Crypto.{debug_algorithm, debug_purpose}
use kms_platform.Service.Acl.{authorize_control_action}
use kms_platform.Service.KeyCache.{with_key}
use kms_platform.Keys
use kms_platform.Keys.{KeyDbRow}
use kms_platform.Keys.Laws.{get_key_by_version-upsert}
use kms_platform.Keys.Refinement.{active_keys, active_keys-rotate, set_active, rotate-inserts}
use kms_platform.Keys.Repository.{KeyPairEntity, active, get_active_key, failed}
use kms_platform.Keys.Repository.Statuses.{rotate_active_key, rotated_row, old_status}
use kms_platform.Audit.Inserted.{IsEntered}
use kms_platform.Audit.Entries.{RequestContext}
use kms_platform.UseCases.{World, Platform}
use kms_platform.UseCases.Rotate.{RotateKeyInput, required_action, deprecated_until}
use kms_platform.UseCases.Rotated.{cached_under, IsInstalled}

-- The row that a new key is to have, but for its identifier.
abbrev pub expected_row : RotateKeyInput → KeyPairEntity → KeyDbRow
expected_row input key = record {
  id = 0;
  service_id = input.service_id;
  algorithm = debug_algorithm input.algorithm;
  version = key.version;
  encrypted_key_data = key.encrypted_private_key.ciphertext;
  public_key_pem = key.public_key_pem;
  purpose = debug_purpose key.purpose;
  status = "Active";
  is_active = true;
  created_at = key.created_at;
}

-- `old` was the active key. The active keys are those from before but for the one of the service and
-- algorithm, which is the new key, and the new key is found under its version, the one after that of
-- `old`. The cache has nothing under the service and algorithm, and the audit table has one row more.
pub record IsReplacement (p : Platform) (ctx : RequestContext) (input : RotateKeyInput)
    (w w' : World) (entity : KeyPairEntity) : Type 0 where
  pub allowed : authorize_control_action p.acl input.caller_service (required_action input) ≡ true
  pub old : KeyPairEntity
  pub was_active : get_active_key input.service_id input.algorithm w.keys ≡ ok (some old)
  pub version : entity.version ≡ (old.version + 1) % 2 ^ 32
  pub status : entity.status ≡ active
  pub now_active :
      (s a : String)
      → active_keys w'.keys s a
        ≡ set_active input.service_id
            (debug_algorithm input.algorithm)
            (some (expected_row input entity))
            (active_keys w.keys)
            s
            a
  pub row_id : ℕ
  pub stored :
      Keys.get_key_by_version input.service_id
        (debug_algorithm input.algorithm)
        entity.version
        w'.keys
      ≡ some (record (expected_row input entity) { id = row_id })
  pub uncached : with_key (cached_under input) w'.cache ≡ none
  pub entered : IsEntered p.libraries "KeyRotated" ctx.actor_id "SUCCESS" w.audit w'.audit

module _ (p : Platform) (ctx : RequestContext) (input : RotateKeyInput) (entity : KeyPairEntity)
    (w w' : World) (left : IsInstalled p ctx input w w' entity) where
  abbrev pub new_row : KeyDbRow
  new_row = rotated_row entity.created_at input.service_id input.algorithm entity

  abbrev pub replaced : Option ℕ
  replaced = deprecated_until p input.reason entity.created_at

  -- The statement under the repository's method has succeeded.
  pub rotated_table :
      Keys.rotate_active_key p.pg entity.created_at input.service_id
        (debug_algorithm input.algorithm)
        (old_status replaced)
        new_row
        w.keys
      ≡ ok (true, w'.keys)
  unfolding rotate_active_key
  rotated_table = map_err-eq-ok failed _ left.written

  now_active :
      (s a : String)
      → active_keys w'.keys s a
        ≡ set_active input.service_id
            (debug_algorithm input.algorithm)
            (some (expected_row input entity))
            (active_keys w.keys)
            s
            a
  now_active s a =
      active_keys-rotate p.pg entity.created_at (old_status replaced) new_row w.keys w'.keys refl
        rotated_table s a

  stored :
      (i : ℕ) × (Keys.get_key_by_version input.service_id
          (debug_algorithm input.algorithm)
          entity.version
          w'.keys
        ≡ some (record (expected_row input entity) { id = i }))
  stored =
      let (before, inserted) =
        rotate-inserts p.pg entity.created_at (old_status replaced) new_row w.keys w'.keys
          rotated_table in
      get_key_by_version-upsert new_row before w'.keys inserted
