-- ===== src/Keys/Repository/Statuses.antt =====
-- The rest of `PgKeyRepository` in crates/kms-service/src/infrastructure/postgres/keys.rs: the lists
-- of keys, and the operations that change the status of keys. An instant that the repository is given
-- as `deprecated_until` is written nowhere.
use kms_platform.Common.{
  ℕ, ◌==◌, leb, Bool, true, false, not, ◌&&◌, String, List, [], ◌∷◌, any, Option, none, some,
  Result, ok, err, ◌>>=◌, map_err, if◌then◌else◌,
}
use kms_platform.Service.Errors.{AppError}
use kms_platform.Service.Crypto.{KeyAlgorithm, debug_algorithm, debug_purpose, EncryptedPrivateKey}
use kms_platform.Keys
use kms_platform.Keys.{KeyDbRow, Table, Postgres, SqlError, unique_violation, is_active_for}
use kms_platform.Keys.Repository.{
  KeyStatus, active, deprecated, revoked, expired, compromised, KeyPairEntity, is_active,
  status_str, map_key_row, map_key_rows, failed,
}

-- `get_all_active_public_keys` and `get_all_active_keys`, which run the same statement.
unfoldable pub get_all_active_keys : Postgres → Table → Result AppError (List KeyPairEntity)
unfolding map_key_rows Keys.get_active_rows
get_all_active_keys pg rows = map_key_rows (Keys.get_active_rows pg rows)

unfoldable pub get_all_keys : Postgres → Table → Result AppError (List KeyPairEntity)
unfolding map_key_rows Keys.get_keys_needing_rewrap
get_all_keys pg rows = map_key_rows (Keys.get_keys_needing_rewrap pg rows)

unfoldable pub deactivate_keys_for_service : String → KeyAlgorithm → Table → Table
unfolding Keys.deactivate_keys_for_service
deactivate_keys_for_service service_id algo =
    Keys.deactivate_keys_for_service service_id (debug_algorithm algo)

-- `UPDATE keys SET status = $2, is_active = $3 WHERE id = $1`: it fails where it would make a second
-- row active.
unfoldable pub set_status : ℕ → String → Bool → Table → Result SqlError Table
set_status key_id status on rows =
    let is_one = λ (r : KeyDbRow). r.id == key_id in
    if on
      && any
          (λ r.
            is_one r
            && any (λ other. is_active_for r.service_id r.algorithm other && not (is_one other))
                rows)
          rows
    then err unique_violation
    else ok (Keys.update is_one (λ r. record r { status = status; is_active = on }) rows)

unfoldable pub update_key_status : ℕ → KeyStatus → Option ℕ → Table → Result AppError Table
unfolding set_status
update_key_status key_id status deprecated_until rows =
    map_err failed (set_status key_id (status_str status) (is_active status) rows)

unfoldable pub compare_and_set_active_to_deprecated : ℕ → ℕ → Table → Bool × Table
unfolding Keys.compare_and_set_active_to_deprecated
compare_and_set_active_to_deprecated key_id deprecated_until rows =
    Keys.compare_and_set_active_to_deprecated key_id rows

-- The status of a key that is replaced.
abbrev pub old_status : Option ℕ → String
old_status none = "Compromised"
old_status (some deprecated_until) = "Deprecated"

-- The row of the new key, which the statement makes active.
abbrev pub rotated_row : ℕ → String → KeyAlgorithm → KeyPairEntity → KeyDbRow
rotated_row now service_id algorithm new_key = record {
  id = new_key.id;
  service_id = service_id;
  algorithm = debug_algorithm algorithm;
  version = new_key.version;
  encrypted_key_data = new_key.encrypted_private_key.ciphertext;
  public_key_pem = new_key.public_key_pem;
  purpose = debug_purpose new_key.purpose;
  status = "Active";
  is_active = true;
  created_at = now;
}

unfoldable pub rotate_active_key :
    Postgres
    → ℕ
    → String
    → KeyAlgorithm
    → KeyPairEntity
    → Option ℕ
    → Table
    → Result AppError (Bool × Table)
unfolding Keys.rotate_active_key
rotate_active_key pg now service_id algorithm new_key deprecated_until rows = map_err failed (
    Keys.rotate_active_key pg now service_id (debug_algorithm algorithm)
      (old_status deprecated_until) (rotated_row now service_id algorithm new_key) rows)

-- `matches!(status, Deprecated { valid_until } if valid_until <= now)`
abbrev pub is_over : ℕ → KeyStatus → Bool
is_over now active = false
is_over now (deprecated valid_until) = leb valid_until now
is_over now revoked = false
is_over now expired = false
is_over now compromised = false

-- The loop of `get_deprecated_keys_expired`.
unfoldable pub keep_expired : ℕ → Table → Result AppError (List KeyPairEntity)
unfolding map_key_row
keep_expired now [] = ok []
keep_expired now (row ∷ rows) = map_key_row row >>= (λ entity.
    keep_expired now rows >>= (λ out. ok (if is_over now entity.status then entity ∷ out else out)))

unfoldable pub get_deprecated_keys_expired :
    Postgres → ℕ → Table → Result AppError (List KeyPairEntity)
unfolding keep_expired Keys.get_deprecated_keys_expired
get_deprecated_keys_expired pg now rows =
    keep_expired now (Keys.get_deprecated_keys_expired pg rows)

unfoldable pub update_encrypted_key : ℕ → EncryptedPrivateKey → Table → Table
unfolding Keys.update_encrypted_key
update_encrypted_key key_id encrypted = Keys.update_encrypted_key key_id encrypted.ciphertext
