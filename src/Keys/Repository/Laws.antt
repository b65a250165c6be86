-- ===== src/Keys/Repository/Laws.antt =====
-- What is saved is read back, and where it is not.
use kms_platform.Common.{
  ℕ, ◌≡◌, ◌≢◌, refl, Bool, true, false, String, [], ◌∷◌, none, some, ok, err, filter, arith,
  Bool-cases, inl, inr, All, replace, map_err-eq-ok, Result-cases,
}
use kms_platform.Service.Errors.{internal}
use kms_platform.Service.Crypto.{
  KeyAlgorithm, ed25519, x25519, aes256_gcm, hmac_sha256, ecdsa_p256, KeyPurpose, signing,
  encryption, authentication, debug_algorithm, debug_purpose,
}
use kms_platform.Keys
use kms_platform.Keys.{
  KeyDbRow, Table, Postgres, IsOrdering, is_version, same_version, upsert, is_active_for, excluded,
}
use kms_platform.Keys.Repository.{
  KeyStatus, active, deprecated, revoked, expired, compromised, debug_status, KeyPairEntity,
  map_key_row, row_of, save_key, get_key_by_version, get_active_or_valid_deprecated_key,
  find_usable, algorithm_of_row, purpose_of_row, status_of_row, entity_of, failed,
}
use kms_platform.Keys.Laws.{get_key_by_version-upsert}

abbrev pub is_deprecated : KeyStatus → Bool
is_deprecated (deprecated _) = true
is_deprecated s = false

-- What is left of an entity in the database.
abbrev pub stored : ℕ → KeyPairEntity → KeyPairEntity
stored now key_pair = record key_pair {
  encrypted_private_key = record key_pair.encrypted_private_key { master_key_version = 0 };
  created_at = now;
  expires_at = none;
}

algorithm_of_row-debug :
    (a : KeyAlgorithm) → a ≢ ecdsa_p256 → algorithm_of_row (debug_algorithm a) ≡ ok a
unfolding algorithm_of_row
algorithm_of_row-debug ed25519 other = refl
algorithm_of_row-debug x25519 other = refl
algorithm_of_row-debug aes256_gcm other = refl
algorithm_of_row-debug hmac_sha256 other = refl
algorithm_of_row-debug ecdsa_p256 other = absurd (other refl)

purpose_of_row-debug : (p : KeyPurpose) → purpose_of_row (debug_purpose p) ≡ ok p
unfolding purpose_of_row
purpose_of_row-debug signing = refl
purpose_of_row-debug encryption = refl
purpose_of_row-debug authentication = refl

status_of_row-debug :
    (debug_time : ℕ → String) (now : ℕ) (s : KeyStatus)
    → is_deprecated s ≡ false
    → status_of_row
        (replace "Deprecated { valid_until: ... }" "Deprecated" (debug_status debug_time s))
        now
      ≡ ok s
unfolding status_of_row replace
status_of_row-debug debug_time now active kept = refl
status_of_row-debug debug_time now (deprecated until) kept = absurd (ground arith)
status_of_row-debug debug_time now revoked kept = refl
status_of_row-debug debug_time now expired kept = refl
status_of_row-debug debug_time now compromised kept = refl

pub map_key_row-row_of :
    (debug_time : ℕ → String) (now i : ℕ) (k : KeyPairEntity)
    → k.algorithm ≢ ecdsa_p256
    → is_deprecated k.status ≡ false
    → map_key_row (record (row_of debug_time now k) { id = i })
      ≡ ok (record (stored now k) { id = i })
unfolding map_key_row row_of
map_key_row-row_of debug_time now i k known kept = ground (
  arith,
  algorithm_of_row-debug k.algorithm known,
  purpose_of_row-debug k.purpose,
  status_of_row-debug debug_time now k.status kept,
)

map_key_row-ecdsa :
    (debug_time : ℕ → String) (now i : ℕ) (k : KeyPairEntity)
    → k.algorithm ≡ ecdsa_p256
    → map_key_row (record (row_of debug_time now k) { id = i })
      ≡ err (internal "Unknown algorithm in database: EcdsaP256")
unfolding map_key_row row_of algorithm_of_row
map_key_row-ecdsa debug_time now i k ecdsa = rw ecdsa refl

-- A key for ECDSA that is saved makes every reading of its version fail.
pub get_key_by_version-save_ecdsa :
    (debug_time : ℕ → String) (now : ℕ) (k : KeyPairEntity) (rows after : Table)
    → k.algorithm ≡ ecdsa_p256
    → save_key debug_time now k rows ≡ ok after
    → get_key_by_version k.service_id k.algorithm k.version after
      ≡ err (internal "Unknown algorithm in database: EcdsaP256")
unfolding save_key get_key_by_version entity_of row_of Keys.get_key_by_version
get_key_by_version-save_ecdsa debug_time now k rows after ecdsa saved =
    let done = map_err-eq-ok failed (Keys.save_key (row_of debug_time now k) rows) saved in
    let (i, found) = get_key_by_version-upsert (row_of debug_time now k) rows after done in
    rw found (rw (map_key_row-ecdsa debug_time now i k ecdsa) refl)

map_key_row-status :
    (r : KeyDbRow) (k : KeyPairEntity)
    → r.status ≡ "Active"
    → map_key_row r ≡ ok k
    → k.status ≡ active
unfolding map_key_row status_of_row
map_key_row-status r k mark read = elim (Result-cases (algorithm_of_row r.algorithm)) [
  | inr (e, bad) ↦ absurd (ground arith)
  | inl (a, known) ↦ elim (Result-cases (purpose_of_row r.purpose)) [
    | inr (e, bad) ↦ absurd (ground arith)
    | inl (p, meant) ↦
        let usable : status_of_row r.status r.created_at ≡ ok active = rw mark refl in
        ground (arith, known, meant, usable, read)
  ]
]

-- The rows that are marked active have the status that says so.
abbrev pub IsMarked : KeyDbRow → Type 0
IsMarked r = r.is_active ≡ true → r.status ≡ "Active"

find_usable-active :
    (service_id : String) (algo : KeyAlgorithm) (now : ℕ) (rows : Table) (k : KeyPairEntity)
    → All (λ r. r.status ≡ "Active") rows
    → find_usable service_id algo now rows ≡ ok (some k)
    → k.status ≡ active
unfolding find_usable
find_usable-active service_id algo now [] k marked found = absurd (ground arith)
find_usable-active service_id algo now (r ∷ rows) k (mark, marks) found =
    elim (Result-cases (map_key_row r)) [
      | inr (e, bad) ↦ absurd (ground arith)
      | inl (entity, read) ↦
          let own = map_key_row-status r entity mark read in
          let rest = find_usable-active service_id algo now rows k marks in
          ground (arith, own, read, found, rest)
    ]

filter-marked :
    (rows : Table)
    → All IsMarked rows
    → All (λ r. r.status ≡ "Active") (filter (λ r. r.is_active) rows)
filter-marked [] marked = marked
filter-marked (r ∷ rows) (mark, marks) = elim (Bool-cases r.is_active) [
  | inl on ↦ rw on (mark on, filter-marked rows marks)
  | inr off ↦ rw off (filter-marked rows marks)
]

-- What `get_active_or_valid_deprecated_key` gives has the status Active: it never gives a
-- deprecated key, whether its grace period is over or not. The table's rows that are marked active
-- have that status, and `ORDER BY` keeps what holds of all rows.
pub get_active_or_valid_deprecated_key-active :
    (pg : Postgres) (service_id : String) (algo : KeyAlgorithm) (now : ℕ) (rows : Table)
    (k : KeyPairEntity)
    → IsOrdering pg.by_name
    → All IsMarked rows
    → get_active_or_valid_deprecated_key pg service_id algo now rows ≡ ok (some k)
    → k.status ≡ active
unfolding get_active_or_valid_deprecated_key
get_active_or_valid_deprecated_key-active pg service_id algo now rows k order marked found =
    find_usable-active service_id algo now (pg.by_name (filter (λ r. r.is_active) rows)) k
      (order.all (λ r. r.status ≡ "Active") (filter (λ r. r.is_active) rows)
        (filter-marked rows marked))
      found
