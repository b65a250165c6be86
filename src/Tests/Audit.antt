-- ===== src/Tests/Audit.antt =====
-- The audit chain with a hash that is the text of the instant.
use kms_platform.Common.{
  ℕ, All, ◌≡◌, ◌≢◌, ◌%◌, ◌==◌, refl, false, String, [], ◌∷◌, none, some, map, arith, eq_iff, ◌⊎◌,
  if◌then◌else◌,
}
use kms_platform.Audit.{
  Libraries, Payload, AuditHashInput, AuditLogRow, payload, input_of, verify_records,
  compute_audit_hash, genesis, record_log,
}
use kms_platform.Audit.Reasons.{
  Chars, chars, keywords, pattern, find, to_ascii_lowercase, redact_all, sanitize_reason,
}
use kms_platform.Audit.Reasons.Redacted.{redact_all-ends, sanitize_reason-find}
use kms_platform.Audit.Details.{
  Value, number, array, no_values, value_and, canonicalize_value, is_secret,
}
use kms_platform.Audit.Details.Secrets.{IsRedacted, canonicalize_value-IsRedacted}
use kms_platform.Audit.Tamper.{Collision, verified_tables_agree}
use kms_platform.Audit.Recorded.{record_log-verifies, record_log-breaks}

abbrev last_text : Payload → String
last_text [] = ""
last_text ((name, none) ∷ []) = ""
last_text ((name, some text) ∷ []) = text
last_text (entry ∷ entry' ∷ entries) = last_text (entry' ∷ entries)

abbrev libraries : Libraries
libraries = record {
  sha256_json = last_text;
  to_rfc3339 = λ t. if t % 1000 == 0 then "12:00:00.000001" else "12:00:00.000001234";
  verify_strict = λ key text signature. false;
  id_later = λ a b. false;
}

abbrev entry_at : ℕ → AuditHashInput
entry_at t = record {
  id = "a";
  caller_service = "billing";
  target_service = "billing";
  action = "KeyRotated";
  algorithm = "Ed25519";
  status = "Success";
  reason = none;
  prev_hash = "";
  timestamp = t;
  request_id = none;
  operation_id = none;
  target_id = none;
  metadata = none;
}

abbrev first_row : AuditLogRow
first_row = record {
  id = "a";
  caller_service = "billing";
  target_service = "billing";
  action = "KeyRotated";
  algorithm = "Ed25519";
  status = "Success";
  reason = none;
  prev_hash = genesis;
  hash = "12:00:00.000001";
  signature = none;
  request_id = none;
  operation_id = none;
  target_id = none;
  metadata = none;
  created_at = 1000;
}

record_log-verifies_example :
    verify_records libraries [] genesis 0 (record_log libraries (entry_at 2000) (first_row ∷ []))
    ≡ (2, none)
unfolding verify_records
record_log-verifies_example =
    record_log-verifies libraries [] (entry_at 2000) (first_row ∷ []) 1 refl (refl, tt) refl

record_log-breaks_example :
    (verify_records libraries [] genesis 0
      (record_log libraries (entry_at 2234) (first_row ∷ []))).1
    ≢ none
unfolding verify_records compute_audit_hash
record_log-breaks_example =
    record_log-breaks libraries [] (entry_at 2234) (first_row ∷ []) 1 refl (refl, tt)
      (λ e. ground (arith, eq_iff "12:00:00.000001" "12:00:00.000001234", e))

verified_tables_agree_example :
    (map (λ r. payload libraries (input_of libraries r)) (first_row ∷ [])
      ≡ map (λ r. payload libraries (input_of libraries r)) (first_row ∷ []))
    ⊎ Collision libraries (first_row ∷ []) (first_row ∷ [])
unfolding verify_records
verified_tables_agree_example =
    verified_tables_agree libraries [] 1 1 (first_row ∷ []) (first_row ∷ []) refl refl refl refl

redact_all-ends_example :
    (s : Chars) × (redact_all (map pattern keywords) (chars "Password and Pin") ≡ some s)
redact_all-ends_example = redact_all-ends (chars "Password and Pin")

sanitize_reason-find_example :
    All
      (λ keyword.
        find (pattern keyword) (to_ascii_lowercase (chars "[REDACTED]=[REDACTED]123")) ≡ none)
      keywords
unfolding sanitize_reason
sanitize_reason-find_example =
    sanitize_reason-find "password=Secret123" "[REDACTED]=[REDACTED]123" refl

abbrev numbers : Value
numbers = array (value_and (number "7") no_values)

canonicalize_value-IsRedacted_example : IsRedacted (canonicalize_value (some "db.Secret") numbers)
unfolding is_secret
canonicalize_value-IsRedacted_example = canonicalize_value-IsRedacted "db.Secret" numbers refl
