-- ===== src/Vhsm/Protocol.antt =====
-- crates/kms-core/src/hsm/protocol.rs: what the vHSM is asked and what it answers.
use kms_platform.Common.{ℕ, String, Bool, Option, List, Bytes}

-- `(u8, String)`: a share with its index.
abbrev pub Share : Type 0
Share = ℕ × String

pub data HsmRequest : Type 0 where
  ping : HsmRequest
  status : HsmRequest
  generate_ceremony : (threshold total_shares : ℕ) → HsmRequest
  init_master_key : (threshold : ℕ) (shares : List Share) → HsmRequest
  generate_kek : (algorithm : String) → HsmRequest
  generate_data_key :
      (wrapped_kek : Bytes) (kek_version : Option ℕ) (algorithm : String) → HsmRequest
  generate_random_bytes : (len : ℕ) → HsmRequest
  generate_credential : (password_length : ℕ) → HsmRequest
  init_root_ca : (ca_tag common_name : String) (validity_days : ℕ) (algorithm : String) → HsmRequest
  load_root_ca : (ca_tag : String) (encrypted_private_key : Bytes) → HsmRequest
  sign_intermediate_ca : (ca_tag csr_pem : String) (validity_days : ℕ) → HsmRequest
  sign_with_ca_key : (ca_tag algorithm : String) (tbs : Bytes) → HsmRequest
  generate_root_ca_key : (algorithm : String) → HsmRequest
  encrypt : (key_id : String) (key_version : Option ℕ) (plaintext : Bytes) → HsmRequest
  decrypt : (key_id : String) (key_version : Option ℕ) (ciphertext : Bytes) → HsmRequest

pub data HsmResponse : Type 0 where
  pong : HsmResponse
  status_info : (initialized : Bool) (active_key_version : ℕ) → HsmResponse
  ceremony_generated : (shares : List Share) → HsmResponse
  master_key_initialized : HsmResponse
  kek_generated :
      (wrapped_kek : Bytes) (kek_version root_key_version : ℕ) (algorithm : String) → HsmResponse
  data_key_generated :
      (plaintext_dek wrapped_dek : Bytes) (kek_version root_key_version : ℕ) → HsmResponse
  random_bytes_generated : (random_bytes : Bytes) → HsmResponse
  encrypted : (ciphertext : Bytes) (key_version : ℕ) → HsmResponse
  decrypted : (plaintext : Bytes) (key_version : ℕ) → HsmResponse
  credential_generated :
      (credential_id password : String) (wrapped_password : Bytes) (key_version : ℕ) → HsmResponse
  root_ca_key_generated :
      (encrypted_private_key public_key : Bytes) (master_key_version : ℕ) (algorithm : String)
      (certificate_pem : Option String)
      → HsmResponse
  signed_intermediate : (certificate_pem : String) → HsmResponse
  signature : (signature : Bytes) → HsmResponse
  error : (code : ℕ) (message : String) → HsmResponse
