-- ===== src/Service/Crypto.antt =====
-- crates/kms-service/src/domain/crypto.rs and domain/keys/models.rs: algorithms, purposes and
-- statuses of keys, with the names that `as_str` and the derived `Debug` give them.
use kms_platform.Common.{ℕ, ◌==◌, Bool, String, Bytes}

pub data KeyAlgorithm : Type 0 where
  ed25519 : KeyAlgorithm
  x25519 : KeyAlgorithm
  aes256_gcm : KeyAlgorithm
  hmac_sha256 : KeyAlgorithm
  ecdsa_p256 : KeyAlgorithm

abbrev pub as_str : KeyAlgorithm → String
as_str ed25519 = "Ed25519"
as_str x25519 = "X25519"
as_str aes256_gcm = "AES256GCM"
as_str hmac_sha256 = "HmacSha256"
as_str ecdsa_p256 = "ECDSA_P256"

-- `format!("{:?}", algorithm)`
abbrev pub debug_algorithm : KeyAlgorithm → String
debug_algorithm ed25519 = "Ed25519"
debug_algorithm x25519 = "X25519"
debug_algorithm aes256_gcm = "AES256GCM"
debug_algorithm hmac_sha256 = "HmacSha256"
debug_algorithm ecdsa_p256 = "EcdsaP256"

abbrev algorithm_index : KeyAlgorithm → ℕ
algorithm_index ed25519 = 0
algorithm_index x25519 = 1
algorithm_index aes256_gcm = 2
algorithm_index hmac_sha256 = 3
algorithm_index ecdsa_p256 = 4

-- The derived `==`.
abbrev pub algorithm_eq : KeyAlgorithm → KeyAlgorithm → Bool
algorithm_eq a b = algorithm_index a == algorithm_index b

pub data KeyPurpose : Type 0 where
  signing : KeyPurpose
  encryption : KeyPurpose
  authentication : KeyPurpose

abbrev pub debug_purpose : KeyPurpose → String
debug_purpose signing = "Signing"
debug_purpose encryption = "Encryption"
debug_purpose authentication = "Authentication"

pub record EncryptedPrivateKey : Type 0 where
  pub ciphertext : Bytes
  pub master_key_version : ℕ
