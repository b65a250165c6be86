-- ===== src/Host.antt =====
-- What the program calls and does not implement: the operating system's random bytes, AES-256-GCM
-- (`aes-gcm`), the `ssss` crate, `rcgen`, `x509-parser`, `p256`, `pem`, `base64` and `hex`. All are
-- parameters. `CertificateParams`, `RcgenCertificate`, `Csr` and `TbsCertificate` are the fields of
-- those crates' values that crates/vhsm-daemon/src/handler.rs sets or reads.
pub mod Laws
use kms_platform.Common.{ℕ, String, Bool, Option, List, Bytes, Result}

pub record CertificateParams : Type 0 where
  pub subject_alt_names : List String
  pub is_ca : Bool
  pub not_before : ℕ
  pub not_after : ℕ
  pub serial_number : Bytes
  pub common_name : String

pub record RcgenCertificate : Type 0 where
  pub pem : Result String String
  pub private_key_der : Bytes

pub record Csr : Type 0 where
  pub subject_pki : Bytes
  pub signature_verifies : Bool

pub record TbsCertificate : Type 0 where
  pub version : ℕ
  pub serial : Bytes
  pub issuer_common_name : String
  pub not_before : ℕ
  pub not_after : ℕ
  pub subject_common_name : String
  pub subject_pki_der : Bytes
  pub basic_constraints_ca : Bool
  pub key_usage : Bytes

pub record Host : Type 0 where
  -- The bytes that the n-th call of the random source returns, by n and by how many are asked for.
  pub random : ℕ → ℕ → Bytes
  -- `Aes256Gcm::new_from_slice`, `encrypt` and `decrypt`, by key, nonce and text.
  pub aes_init : Bytes → Result String (Unit {0})
  pub aes_encrypt : Bytes → Bytes → Bytes → Result String Bytes
  pub aes_decrypt : Bytes → Bytes → Bytes → Result String Bytes
  -- `ssss::gen_shares`, by its call number, the number of shares, the threshold and the secret.
  pub gen_shares : ℕ → ℕ → ℕ → Bytes → Result String (List String)
  pub unlock : List String → Result String Bytes
  -- `rcgen::Certificate::from_params`, by its call number.
  pub certificate_from_params : ℕ → CertificateParams → Result String RcgenCertificate
  -- `p256::SecretKey::from_pkcs8_der` with `to_be_bytes`; the public point of a scalar; whether
  -- `SigningKey::from_bytes` takes a scalar; the DER signature of a message's SHA-256 digest.
  pub from_pkcs8_der : Bytes → Result String Bytes
  pub public_point : Bytes → Bytes
  pub is_scalar : Bytes → Bool
  pub sign : Bytes → Bytes → Bytes
  pub parse_pem : String → Result String Bytes
  pub parse_csr : Bytes → Option Csr
  -- `yasna::construct_der` of a key's SubjectPublicKeyInfo, of a TBSCertificate, and of a
  -- certificate from its TBS part and its signature.
  pub spki_der : Bytes → Bytes
  pub tbs_der : TbsCertificate → Bytes
  pub certificate_der : Bytes → Bytes → Bytes
  pub base64 : Bytes → String
  pub hex : Bytes → String
