-- ===== src/Keys/Repository.antt =====
-- crates/kms-service/src/infrastructure/postgres/keys.rs: `PgKeyRepository`, over the statements of
-- `Keys`. How `Debug` prints an instant is a parameter. An instant is in microseconds, as the
-- database keeps it.
use Prim.Native.String.{◌++◌}
use kms_platform.Common.{
  ℕ, zero, suc, ◌+◌, ◌-◌, ◌*◌, Bool, true, false, ◌&&◌, ◌||◌, ltb, leb, String, Bytes, List, [],
  ◌∷◌, take, Option, none, some, Result, ok, err, ◌>>=◌, map_err, str_eq, if◌then◌else◌, replace,
}
use kms_platform.Service.Errors.{AppError, internal, database_error}
use kms_platform.Service.Crypto.{
  KeyAlgorithm, ed25519, x25519, aes256_gcm, hmac_sha256, algorithm_eq, debug_algorithm, KeyPurpose,
  signing, encryption, authentication, debug_purpose, EncryptedPrivateKey,
}
use kms_platform.Keys
use kms_platform.Keys.{KeyDbRow, Table, SqlError, Postgres}
pub mod Laws
pub mod Statuses
pub mod Saved

pub data KeyStatus : Type 0 where
  active : KeyStatus
  deprecated : ℕ → KeyStatus
  revoked : KeyStatus
  expired : KeyStatus
  compromised : KeyStatus

pub record KeyPairEntity : Type 0 where
  pub id : ℕ
  pub service_id : String
  pub algorithm : KeyAlgorithm
  pub purpose : KeyPurpose
  pub public_key_pem : String
  pub encrypted_private_key : EncryptedPrivateKey
  pub version : ℕ
  pub status : KeyStatus
  pub created_at : ℕ
  pub expires_at : Option ℕ

abbrev pub is_active : KeyStatus → Bool
is_active active = true
is_active (deprecated _) = false
is_active revoked = false
is_active expired = false
is_active compromised = false

-- `format!("{:?}", status)`
abbrev pub debug_status : (ℕ → String) → KeyStatus → String
debug_status debug_time active = "Active"
debug_status debug_time (deprecated valid_until) =
    "Deprecated { valid_until: " ++ (debug_time valid_until ++ " }")
debug_status debug_time revoked = "Revoked"
debug_status debug_time expired = "Expired"
debug_status debug_time compromised = "Compromised"

abbrev pub status_str : KeyStatus → String
status_str active = "Active"
status_str (deprecated _) = "Deprecated"
status_str revoked = "Revoked"
status_str expired = "Expired"
status_str compromised = "Compromised"

abbrev pub minutes : ℕ → ℕ
minutes n = n * 60 * 1000000

unfoldable pub algorithm_of_row : String → Result AppError KeyAlgorithm
algorithm_of_row name =
    if str_eq name "Ed25519"
    then ok ed25519
    else if str_eq name "X25519"
    then ok x25519
    else if str_eq name "AES256GCM"
    then ok aes256_gcm
    else if str_eq name "HmacSha256"
    then ok hmac_sha256
    else err (internal ("Unknown algorithm in database: " ++ name))

unfoldable pub purpose_of_row : String → Result AppError KeyPurpose
purpose_of_row name =
    if str_eq name "Signing"
    then ok signing
    else if str_eq name "Encryption"
    then ok encryption
    else if str_eq name "Authentication"
    then ok authentication
    else err (internal ("Unknown purpose in database: " ++ name))

unfoldable pub status_of_row : String → ℕ → Result AppError KeyStatus
status_of_row name created_at =
    if str_eq name "Active"
    then ok active
    else if str_eq name "Revoked"
    then ok revoked
    else if str_eq name "Compromised"
    then ok compromised
    else if str_eq name "Deprecated"
    then ok (deprecated (created_at + minutes 30))
    else if str_eq name "Expired"
    then ok expired
    else err (internal ("Unknown key status in database: " ++ name))

unfoldable pub map_key_row : KeyDbRow → Result AppError KeyPairEntity
unfolding algorithm_of_row purpose_of_row status_of_row
map_key_row row = do
  algorithm ← algorithm_of_row row.algorithm
  purpose ← purpose_of_row row.purpose
  status ← status_of_row row.status row.created_at
  ok (record {
    id = row.id;
    service_id = row.service_id;
    algorithm = algorithm;
    purpose = purpose;
    public_key_pem = row.public_key_pem;
    encrypted_private_key = record { ciphertext = row.encrypted_key_data; master_key_version = 0 };
    version = row.version;
    status = status;
    created_at = row.created_at;
    expires_at = none;
  })

-- `rows.into_iter().map(map_key_row).collect()`
unfoldable pub map_key_rows : Table → Result AppError (List KeyPairEntity)
unfolding map_key_row
map_key_rows [] = ok []
map_key_rows (row ∷ rows) =
    map_key_row row >>= (λ entity. map_key_rows rows >>= (λ entities. ok (entity ∷ entities)))

-- The message goes on with the text of the database's error, which is left out.
abbrev pub failed : SqlError → AppError
failed e = database_error "Database operation failed"

-- The row that `save_key` and `rotate_active_key` write at `now`.
unfoldable pub row_of : (ℕ → String) → ℕ → KeyPairEntity → KeyDbRow
unfolding replace
row_of debug_time now key_pair = record {
  id = key_pair.id;
  service_id = key_pair.service_id;
  algorithm = debug_algorithm key_pair.algorithm;
  version = key_pair.version;
  encrypted_key_data = key_pair.encrypted_private_key.ciphertext;
  public_key_pem = key_pair.public_key_pem;
  purpose = debug_purpose key_pair.purpose;
  status =
      replace "Deprecated { valid_until: ... }" "Deprecated"
        (debug_status debug_time key_pair.status);
  is_active = is_active key_pair.status;
  created_at = now;
}

unfoldable pub save_key : (ℕ → String) → ℕ → KeyPairEntity → Table → Result AppError Table
unfolding row_of
save_key debug_time now key_pair rows =
    map_err failed (Keys.save_key (row_of debug_time now key_pair) rows)

-- `match row { Some(r) => Ok(Some(map_key_row(r)?)), None => Ok(None) }`
unfoldable pub entity_of : Option KeyDbRow → Result AppError (Option KeyPairEntity)
unfolding map_key_row
entity_of none = ok none
entity_of (some row) = map_key_row row >>= (λ entity. ok (some entity))

unfoldable pub get_active_key :
    String → KeyAlgorithm → Table → Result AppError (Option KeyPairEntity)
unfolding entity_of Keys.get_active_key
get_active_key service_id algo rows =
    entity_of (Keys.get_active_key service_id (debug_algorithm algo) rows)

unfoldable pub get_key_by_version :
    String → KeyAlgorithm → ℕ → Table → Result AppError (Option KeyPairEntity)
unfolding entity_of Keys.get_key_by_version
get_key_by_version service_id algo version rows =
    entity_of (Keys.get_key_by_version service_id (debug_algorithm algo) version rows)

-- `matches!(status, Active) || matches!(status, Deprecated { valid_until } if valid_until > now)`
abbrev pub is_usable : ℕ → KeyStatus → Bool
is_usable now active = true
is_usable now (deprecated valid_until) = ltb now valid_until
is_usable now revoked = false
is_usable now expired = false
is_usable now compromised = false

-- The loop of `get_active_or_valid_deprecated_key` over the rows.
unfoldable pub find_usable :
    String → KeyAlgorithm → ℕ → Table → Result AppError (Option KeyPairEntity)
unfolding map_key_row
find_usable service_id algo now [] = ok none
find_usable service_id algo now (row ∷ rows) = map_key_row row >>= (λ entity.
    if str_eq entity.service_id service_id
      && (algorithm_eq entity.algorithm algo && is_usable now entity.status)
    then ok (some entity)
    else find_usable service_id algo now rows)

unfoldable pub get_active_or_valid_deprecated_key :
    Postgres → String → KeyAlgorithm → ℕ → Table → Result AppError (Option KeyPairEntity)
unfolding find_usable Keys.get_active_rows
get_active_or_valid_deprecated_key pg service_id algo now rows =
    find_usable service_id algo now (Keys.get_active_rows pg rows)

unfoldable pub get_keys_needing_rewrap :
    Postgres → ℕ → ℕ → Table → Result AppError (List KeyPairEntity)
unfolding map_key_rows Keys.get_keys_needing_rewrap
get_keys_needing_rewrap pg current_master_version batch_size rows =
    map_key_rows (take batch_size (Keys.get_keys_needing_rewrap pg rows))
