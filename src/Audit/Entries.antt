-- ===== src/Audit/Entries.antt =====
-- The entries that the service writes: crates/kms-service/src/domain/audit/models.rs,
-- domain/audit/service.rs, and what `record` of infrastructure/postgres/audit.rs makes of an entry
-- before it is chained. The text of a JSON value and of a UUID are parameters, and so is what
-- `Uuid::now_v7` and `Utc::now` give.
use kms_platform.Common.{ℕ, String, List, Option, none, some}
use kms_platform.Service.Crypto.{KeyAlgorithm, aes256_gcm, as_str}
use kms_platform.Audit.{genesis, Libraries, AuditHashInput, AuditLogRow, record_log}
use kms_platform.Audit.Reasons.{sanitize_reason}
use kms_platform.Audit.Details.{Value, string, sanitize_details}

pub data AuditAction : Type 0 where
  get_private_key get_public_key get_symmetric_key generate_key generate_data_key : AuditAction
  encrypt_data decrypt_data rotate_key rewrap_keys sign_data : AuditAction
  issue_agent_credential import_bootstrap_credential : AuditAction
  credential_provisioned credential_provision_failed : AuditAction
  key_rotated key_revoked key_expired system_started system_shutdown : AuditAction
  master_key_generated master_key_unsealed master_key_sealed : AuditAction
  master_key_operation_failed audit_verification ca_sign_intermediate : AuditAction

-- `format!("{:?}", action)`
abbrev pub debug_action : AuditAction → String
debug_action get_private_key = "GetPrivateKey"
debug_action get_public_key = "GetPublicKey"
debug_action get_symmetric_key = "GetSymmetricKey"
debug_action generate_key = "GenerateKey"
debug_action generate_data_key = "GenerateDataKey"
debug_action encrypt_data = "EncryptData"
debug_action decrypt_data = "DecryptData"
debug_action rotate_key = "RotateKey"
debug_action rewrap_keys = "RewrapKeys"
debug_action sign_data = "SignData"
debug_action issue_agent_credential = "IssueAgentCredential"
debug_action import_bootstrap_credential = "ImportBootstrapCredential"
debug_action credential_provisioned = "CredentialProvisioned"
debug_action credential_provision_failed = "CredentialProvisionFailed"
debug_action key_rotated = "KeyRotated"
debug_action key_revoked = "KeyRevoked"
debug_action key_expired = "KeyExpired"
debug_action system_started = "SystemStarted"
debug_action system_shutdown = "SystemShutdown"
debug_action master_key_generated = "MasterKeyGenerated"
debug_action master_key_unsealed = "MasterKeyUnsealed"
debug_action master_key_sealed = "MasterKeySealed"
debug_action master_key_operation_failed = "MasterKeyOperationFailed"
debug_action audit_verification = "AuditVerification"
debug_action ca_sign_intermediate = "CaSignIntermediate"

pub data AuditStatus : Type 0 where
  recorded success access_denied missing validation_failure failure : AuditStatus

abbrev pub status_str : AuditStatus → String
status_str recorded = "RECORDED"
status_str success = "SUCCESS"
status_str access_denied = "ACCESS_DENIED"
status_str missing = "NOT_FOUND"
status_str validation_failure = "VALIDATION_FAILURE"
status_str failure = "FAILURE"

pub record AuditLog : Type 0 where
  pub id : ℕ
  pub caller_service : String
  pub target_service : String
  pub action : AuditAction
  pub algorithm : KeyAlgorithm
  pub status : AuditStatus
  pub reason : Option String
  pub request_id : Option String
  pub operation_id : Option String
  pub target_id : Option String
  pub metadata : Option String
  pub timestamp : ℕ

pub record RequestContext : Type 0 where
  pub operation_id : String
  pub nonce : Option String
  pub actor_id : String
  pub ip : Option String
  pub user_agent : Option String

pub record CanonicalAuditEntry : Type 0 where
  pub id : ℕ
  pub caller_service : String
  pub target_service : String
  pub action : AuditAction
  pub algorithm : KeyAlgorithm
  pub status : AuditStatus
  pub reason : Option String
  pub prev_hash : String
  pub request_id : Option String
  pub operation_id : Option String
  pub target_id : Option String
  pub metadata : Option Value
  pub timestamp : ℕ

pub record Texts : Type 0 where
  pub to_json : Value → String
  pub show_uuid : ℕ → String

-- `CanonicalAuditEntry::new`, with the new identifier and the present instant.
unfoldable pub new_entry :
    ℕ
    → ℕ
    → RequestContext
    → AuditAction
    → AuditStatus
    → Option Value
    → String
    → KeyAlgorithm
    → CanonicalAuditEntry
unfolding sanitize_details
new_entry id now context action status details prev_hash algorithm = record {
  id = id;
  caller_service = context.actor_id;
  target_service = context.actor_id;
  action = action;
  algorithm = algorithm;
  status = status;
  reason = none;
  prev_hash = prev_hash;
  request_id = some context.operation_id;
  operation_id = some context.operation_id;
  target_id = none;
  metadata = sanitize_details details;
  timestamp = now;
}

-- `a.or(b)`
abbrev pub or_else : {A : Type 0} → Option A → Option A → Option A
or_else none b = b
or_else (some a) b = some a

abbrev pub json_text : Texts → Option Value → Option String
json_text t none = none
json_text t (some value) = some (t.to_json value)

-- The entry that `record_internal` hands to the repository.
unfoldable pub log_of :
    Texts
    → ℕ
    → ℕ
    → RequestContext
    → AuditAction
    → AuditStatus
    → Option Value
    → Option String
    → KeyAlgorithm
    → AuditLog
unfolding new_entry
log_of t id now ctx action status details reason algorithm =
    let entry = new_entry id now ctx action status details genesis algorithm in
    record {
      id = entry.id;
      caller_service = entry.caller_service;
      target_service = entry.target_service;
      action = entry.action;
      algorithm = algorithm;
      status = entry.status;
      reason = or_else reason entry.reason;
      request_id = entry.request_id;
      operation_id = entry.operation_id;
      target_id = entry.target_id;
      metadata = json_text t entry.metadata;
      timestamp = entry.timestamp;
    }

-- The four ways in which the service records: `record_success`, `record_failure`,
-- `record_access_denied` and `record_validation_failure`.
unfoldable pub success_log : Texts → ℕ → ℕ → RequestContext → AuditAction → Option Value → AuditLog
unfolding log_of
success_log t id now ctx action details = log_of t id now ctx action success details none aes256_gcm

unfoldable pub failure_log : Texts → ℕ → ℕ → RequestContext → AuditAction → String → AuditLog
unfolding log_of sanitize_reason
failure_log t id now ctx action reason =
    log_of t id now ctx action failure (some (string reason)) (sanitize_reason (some reason))
      aes256_gcm

unfoldable pub access_denied_log : Texts → ℕ → ℕ → RequestContext → AuditAction → String → AuditLog
unfolding log_of sanitize_reason
access_denied_log t id now ctx action reason =
    log_of t id now ctx action access_denied (some (string reason)) (sanitize_reason (some reason))
      aes256_gcm

unfoldable pub validation_failure_log :
    Texts → ℕ → ℕ → RequestContext → AuditAction → String → AuditLog
unfolding log_of sanitize_reason
validation_failure_log t id now ctx action reason =
    log_of t id now ctx action validation_failure (some (string reason))
      (sanitize_reason (some reason)) aes256_gcm

-- What `record` hashes, but for the previous hash, which it reads from the table.
unfoldable pub hash_input : Texts → AuditLog → AuditHashInput
unfolding sanitize_reason
hash_input t log = record {
  id = t.show_uuid log.id;
  caller_service = log.caller_service;
  target_service = log.target_service;
  action = debug_action log.action;
  algorithm = as_str log.algorithm;
  status = status_str log.status;
  reason = sanitize_reason log.reason;
  prev_hash = "";
  timestamp = log.timestamp;
  request_id = log.request_id;
  operation_id = log.operation_id;
  target_id = log.target_id;
  metadata = log.metadata;
}

-- `AuditRepository::record`
unfoldable pub record_entry : Libraries → Texts → AuditLog → List AuditLogRow → List AuditLogRow
unfolding record_log hash_input
record_entry l t log rows = record_log l (hash_input t log) rows
