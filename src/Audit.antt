-- ===== src/Audit.antt =====
-- The audit chain: the hash of crates/kms-core/src/audit.rs, `record` of
-- crates/kms-service/src/infrastructure/postgres/audit.rs, and the check of
-- crates/kms-service/src/handlers/audit.rs. SHA-256 of the JSON text of an object, the text of an
-- instant, Ed25519 and the order of identifiers are parameters. An instant is in nanoseconds; the
-- database keeps whole microseconds.
use Prim.Native.String.{◌++◌}
use kms_platform.Common.{
  ℕ, ◌+◌, ◌*◌, ◌/◌, ◌==◌, Bool, true, false, not, ◌&&◌, ◌||◌, String, Bytes, List, [], ◌∷◌, Option,
  none, some, any, length, is_empty, ltb, str_eq, if◌then◌else◌,
}
pub mod Tamper
pub mod Inserted
pub mod Recorded
pub mod Reasons
pub mod Details
pub mod Entries

pub record AuditHashInput : Type 0 where
  pub id : String
  pub caller_service : String
  pub target_service : String
  pub action : String
  pub algorithm : String
  pub status : String
  pub reason : Option String
  pub prev_hash : String
  pub timestamp : ℕ
  pub request_id : Option String
  pub operation_id : Option String
  pub target_id : Option String
  pub metadata : Option String

-- A JSON object of strings and nulls, in the order of its keys.
abbrev pub Payload : Type 0
Payload = List (String × Option String)

pub record Libraries : Type 0 where
  pub sha256_json : Payload → String
  pub to_rfc3339 : ℕ → String
  pub verify_strict : Bytes → String → Bytes → Bool
  pub id_later : String → String → Bool

pub record AuditLogRow : Type 0 where
  pub id : String
  pub caller_service : String
  pub target_service : String
  pub action : String
  pub algorithm : String
  pub status : String
  pub reason : Option String
  pub prev_hash : String
  pub hash : String
  pub signature : Option Bytes
  pub request_id : Option String
  pub operation_id : Option String
  pub target_id : Option String
  pub metadata : Option String
  pub created_at : ℕ

-- The hash before the first row.
abbrev pub genesis : String
genesis = "0000000000000000000000000000000000000000000000000000000000000000"

module _ (l : Libraries) where
  -- The `BTreeMap` of the version v1, which is the present one.
  abbrev pub payload : AuditHashInput → Payload
  payload i =
      ("action", some i.action)
      ∷ ("algorithm", some i.algorithm)
      ∷ ("caller_service", some i.caller_service)
      ∷ ("id", some i.id)
      ∷ ("metadata", i.metadata)
      ∷ ("operation_id", i.operation_id)
      ∷ ("prev_hash", some i.prev_hash)
      ∷ ("reason", i.reason)
      ∷ ("request_id", i.request_id)
      ∷ ("status", some i.status)
      ∷ ("target_id", i.target_id)
      ∷ ("target_service", some i.target_service)
      ∷ ("timestamp", some (l.to_rfc3339 i.timestamp))
      ∷ []

  unfoldable pub compute_audit_hash : AuditHashInput → String
  compute_audit_hash i = l.sha256_json (payload i)

  -- What the check hashes of a row.
  abbrev pub input_of : AuditLogRow → AuditHashInput
  input_of rec = record {
    id = rec.id;
    caller_service = rec.caller_service;
    target_service = rec.target_service;
    action = rec.action;
    algorithm = rec.algorithm;
    status = rec.status;
    reason = rec.reason;
    prev_hash = rec.prev_hash;
    timestamp = rec.created_at;
    request_id = rec.request_id;
    operation_id = rec.operation_id;
    target_id = rec.target_id;
    metadata = rec.metadata;
  }

  -- A signature of 64 bytes that no key verifies; other signatures are not looked at.
  unfoldable pub is_forged : List Bytes → String → Option Bytes → Bool
  is_forged pubkeys computed none = false
  is_forged pubkeys computed (some sig) =
      (length sig == 64 && not (is_empty pubkeys))
      && not (any (λ pk. l.verify_strict pk computed sig) pubkeys)

  -- The loop over the records: how many are in order, and the error that ends it, if any.
  unfoldable pub verify_records : List Bytes → String → ℕ → List AuditLogRow → ℕ × Option String
  unfolding compute_audit_hash is_forged
  verify_records pubkeys last_hash ok_count [] = (ok_count, none)
  verify_records pubkeys last_hash ok_count (rec ∷ records) =
      let computed = compute_audit_hash (input_of rec) in
      let rest = verify_records pubkeys rec.hash (ok_count + 1) records in
      if not (str_eq rec.prev_hash last_hash)
      then (
        ok_count,
        some (
            "Integrity violation at id "
            ++ (rec.id
                ++ (": prev_hash mismatch (expected "
                    ++ (last_hash ++ (" got " ++ (rec.prev_hash ++ ")")))))),
      )
      else if not (str_eq computed rec.hash)
      then (
        ok_count,
        some (
            "Integrity violation at id "
            ++ (rec.id
                ++ (": hash mismatch (expected " ++ (rec.hash ++ (" got " ++ (computed ++ ")")))))),
      )
      else if is_forged pubkeys computed rec.signature
      then (ok_count, some ("Signature verification failed for id " ++ rec.id))
      else rest

  -- `ORDER BY created_at, id`: whether `r` comes after `row`.
  abbrev pub is_later : AuditLogRow → AuditLogRow → Bool
  is_later row r =
      ltb row.created_at r.created_at || (row.created_at == r.created_at && l.id_later r.id row.id)

  -- The table is listed in that order.
  unfoldable pub insert : AuditLogRow → List AuditLogRow → List AuditLogRow
  insert row [] = row ∷ []
  insert row (r ∷ rows) =
      let rest = insert row rows in if is_later row r then row ∷ r ∷ rows else r ∷ rest

  -- `latest_hash`, or the hash before the first row.
  abbrev pub latest_hash : String → List AuditLogRow → String
  latest_hash hash [] = hash
  latest_hash hash (r ∷ rows) = latest_hash r.hash rows

  -- What the database keeps of an instant.
  abbrev pub stored_at : ℕ → ℕ
  stored_at timestamp = timestamp / 1000 * 1000

  abbrev pub chained : AuditHashInput → List AuditLogRow → AuditHashInput
  chained log rows = record log { prev_hash = latest_hash genesis rows }

  -- The row of a log entry, whose previous hash is still to be filled in and whose reason is
  -- sanitized.
  abbrev pub row_of : AuditHashInput → AuditLogRow
  row_of i = record {
    id = i.id;
    caller_service = i.caller_service;
    target_service = i.target_service;
    action = i.action;
    algorithm = i.algorithm;
    status = i.status;
    reason = i.reason;
    prev_hash = i.prev_hash;
    hash = l.sha256_json (payload i);
    signature = none;
    request_id = i.request_id;
    operation_id = i.operation_id;
    target_id = i.target_id;
    metadata = i.metadata;
    created_at = stored_at i.timestamp;
  }

  unfoldable pub record_log : AuditHashInput → List AuditLogRow → List AuditLogRow
  unfolding insert
  record_log log rows = insert (row_of (chained log rows)) rows
