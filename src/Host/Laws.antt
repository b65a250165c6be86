-- ===== src/Host/Laws.antt =====
-- The documented behaviour of the parameters that theorems rely on: what is encrypted decrypts
-- under the same key and nonce, and enough shares give the secret back.
use kms_platform.Common.{ℕ, ◌≤◌, ◌≡◌, String, List, Bytes, ok, true, length, trim, map}
use kms_platform.Common.Picks.{Picks}
use kms_platform.Host.{Host}

-- AES-256-GCM: the length of random buffers, and decryption after encryption.
pub record HasAead (h : Host) : Type 0 where
  pub random_length : (draw n : ℕ) → length (h.random draw n) ≡ n
  pub open_sealed :
      (key nonce plaintext ciphertext : Bytes)
      → h.aes_encrypt key nonce plaintext ≡ ok ciphertext
      → h.aes_decrypt key nonce ciphertext ≡ ok plaintext

-- Shamir's scheme: `threshold` different shares or more, in any order, give the secret back. The
-- program stores each share without the white space around it.
pub record HasSharing (h : Host) : Type 0 where
  pub shares_length :
      (call total threshold : ℕ) (secret : Bytes) (shares : List String)
      → h.gen_shares call total threshold secret ≡ ok shares
      → length shares ≡ total
  pub unlock_shares :
      (call total threshold : ℕ) (secret : Bytes) (shares some_shares : List String)
      → h.gen_shares call total threshold secret ≡ ok shares
      → Picks some_shares (map trim shares)
      → threshold ≤ length some_shares
      → h.unlock some_shares ≡ ok secret

-- P-256 private keys that are read from PKCS#8 are valid scalars of 32 bytes.
pub record HasScalars (h : Host) : Type 0 where
  pub scalar :
      (der key : Bytes)
      → h.from_pkcs8_der der ≡ ok key
      → (length key ≡ 32) × (h.is_scalar key ≡ true)
