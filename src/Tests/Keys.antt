-- ===== src/Tests/Keys.antt =====
-- The table of keys with a few rows.
use kms_platform.Common.{
  ℕ, ◌≡◌, ◌≢◌, refl, true, Bool, List, [], ◌∷◌, ◌++◌, String, some, none, ok, err, arith,
}
use kms_platform.Service.Errors.{internal}
use kms_platform.Service.Crypto.{ed25519, ecdsa_p256, signing, KeyAlgorithm}
use kms_platform.Keys
use kms_platform.Keys.{
  KeyDbRow, Table, Postgres, IsOrdering, unique_violation, retire, rotate_active_key, upsert,
}
use kms_platform.Keys.Refinement.{
  Statement, save, deactivate, saved, deactivated, finished, then_all, active_keys, specified_all,
  statements-refine,
}
use kms_platform.Keys.Repository.{
  KeyPairEntity, active, save_key, get_key_by_version, get_active_or_valid_deprecated_key, row_of,
  algorithm_of_row, purpose_of_row, status_of_row,
}
use kms_platform.Keys.Repository.Laws.{
  get_key_by_version-save_ecdsa, get_active_or_valid_deprecated_key-active,
}
use kms_platform.Keys.Rewrap.{KmsCryptoService, RewrapKeysInput, rewrap_keys}
use kms_platform.Keys.Rewrap.Endless.{rewrap_keys-endless}

abbrev version_row : ℕ → Bool → KeyDbRow
version_row n on = record {
  id = n;
  service_id = "billing";
  algorithm = "Ed25519";
  version = n;
  encrypted_key_data = 1 ∷ [];
  public_key_pem = "PEM";
  purpose = "Signing";
  status = "Active";
  is_active = on;
  created_at = 0;
}

abbrev table : Table
table = version_row 1 true ∷ []

abbrev postgres : Bool → Postgres
postgres retires_first = record {
  by_name = λ rows. rows;
  by_age = λ rows. rows;
  retires_first = retires_first;
}

identity-IsOrdering : IsOrdering (λ rows. rows)
identity-IsOrdering = record { all = λ P rows a. a; size = λ rows. refl }

abbrev debug_time : ℕ → String
debug_time t = "2025-01-01T00:00:00Z"

abbrev pair : KeyAlgorithm → KeyPairEntity
pair algorithm = record {
  id = 9;
  service_id = "ledger";
  algorithm = algorithm;
  purpose = signing;
  public_key_pem = "PEM";
  encrypted_private_key = record { ciphertext = 3 ∷ []; master_key_version = 1 };
  version = 1;
  status = active;
  created_at = 3;
  expires_at = none;
}

get_key_by_version-save_ecdsa_example :
    get_key_by_version "ledger" ecdsa_p256 1 (table ++ (row_of debug_time 7 (pair ecdsa_p256) ∷ []))
    ≡ err (internal "Unknown algorithm in database: EcdsaP256")
unfolding save_key upsert
get_key_by_version-save_ecdsa_example =
    get_key_by_version-save_ecdsa debug_time 7 (pair ecdsa_p256) table
      (table ++ (row_of debug_time 7 (pair ecdsa_p256) ∷ [])) refl refl

abbrev active_key : KeyPairEntity
active_key = record {
  id = 1;
  service_id = "billing";
  algorithm = ed25519;
  purpose = signing;
  public_key_pem = "PEM";
  encrypted_private_key = record { ciphertext = 1 ∷ []; master_key_version = 0 };
  version = 1;
  status = active;
  created_at = 0;
  expires_at = none;
}

get_active_or_valid_deprecated_key-active_example : active_key.status ≡ active
unfolding get_active_or_valid_deprecated_key algorithm_of_row purpose_of_row status_of_row
get_active_or_valid_deprecated_key-active_example =
    get_active_or_valid_deprecated_key-active (postgres true) "billing" ed25519 4 table active_key
      identity-IsOrdering ((λ _. refl), tt) refl

abbrev crypto : KmsCryptoService
crypto = record {
  current_master_key_version = ok 1;
  decrypt_private_key = λ key. ok key.ciphertext;
  encrypt_private_key =
      λ draw plaintext. ok (record { ciphertext = plaintext; master_key_version = 1 });
}

abbrev input : RewrapKeysInput
input = record { target_master_version = 1; batch_size = 100 }

rewrap_keys-endless_example :
    rewrap_keys 50 (postgres true) crypto input table ≢ some (ok (1, table))
rewrap_keys-endless_example =
    rewrap_keys-endless (postgres true) crypto input table 50 (1, table) identity-IsOrdering
      (omega arith) (omega arith)

abbrev statements : List Statement
statements = deactivate "billing" "Ed25519" ∷ save (version_row 2 true) ∷ []

abbrev saved_table : Table
saved_table =
    Keys.deactivate_keys_for_service "billing" "Ed25519" table ++ (version_row 2 true ∷ [])

statements-refine_example :
    active_keys saved_table "billing" "Ed25519"
    ≡ specified_all statements (active_keys table) "billing" "Ed25519"
unfolding upsert Keys.deactivate_keys_for_service
statements-refine_example =
    statements-refine statements table saved_table (active_keys table)
      (then_all deactivated (then_all (saved refl refl) finished)) (λ s a. refl) "billing" "Ed25519"
