-- ===== src/Vhsm/Crypto.antt =====
-- crates/vhsm-daemon/src/crypto.rs. `draw` numbers the calls of the random source.
pub mod Laws
use Prim.Native.String.{◌++◌}
use kms_platform.Common.{
  ℕ, suc, ◌+◌, String, Bool, true, false, ◌||◌, Option, none, some, List, [], ◌∷◌, ◌++◌ as cat, map,
  Bytes, Result, ok, err, map_err, ◌>>=◌, length, take, drop, is_empty, show, ltb, ◌==◌, not,
  if◌then◌else◌,
}
use kms_platform.Host.{Host}
use kms_platform.Sss
use kms_platform.Sss.{SecretShare, display, combine_shares, split_shares}
use kms_platform.Vhsm.Protocol.{Share}

abbrev pub nonce_size : ℕ
nonce_size = 12

-- Whether `seen_indices.insert(index)` returns false.
unfoldable pub has_seen : ℕ → List ℕ → Bool
has_seen index [] = false
has_seen index (i ∷ seen) = i == index || has_seen index seen

-- The loop that looks for a duplicate index; `none` when there is none.
unfoldable pub duplicate_index : List ℕ → List Share → Option ℕ
unfolding has_seen
duplicate_index seen [] = none
duplicate_index seen ((index, value) ∷ rest) =
    let later = duplicate_index (index ∷ seen) rest in
    if has_seen index seen then some index else later

abbrev pub to_secret_share : Share → SecretShare
to_secret_share s = record { index = s.0; value = s.1 }

module _ (h : Host) where
  unfoldable pub generate_and_split_master_key : ℕ → ℕ → ℕ → Result String (Bytes × List Share)
  generate_and_split_master_key draw total threshold =
      let master_key = h.random draw Sss.key_size in
      do
        shares ←
            map_err (λ e. "Failed to split master key: " ++ display e)
              (split_shares h (draw + 1) master_key total threshold)
        ok (master_key, shares)

  reconstruct_unique : List Share → Result String Bytes
  reconstruct_unique shares = do
    recovered ←
        map_err (λ e. "Failed to reconstruct master key from shares: " ++ display e)
          (combine_shares h (map to_secret_share shares))
    if not (length recovered == 32)
        then err "Recovered master key must be 32 bytes"
        else ok recovered

  unfoldable pub reconstruct_master_key : List Share → Result String Bytes
  unfolding reconstruct_unique duplicate_index
  reconstruct_master_key shares =
      if is_empty shares
      then err "At least one share is required"
      else elim (duplicate_index [] shares) [
        | some index ↦ err ("Duplicate share index detected: " ++ show index)
        | none ↦ reconstruct_unique shares
      ]

  unfoldable pub encrypt_bytes : ℕ → Bytes → Bytes → Result String Bytes
  encrypt_bytes draw key plaintext = do
    _ ← map_err (λ e. "Failed to initialize AES-GCM: " ++ e) (h.aes_init key)
    ciphertext ←
        map_err (λ e. "Encryption failed: " ++ e)
          (h.aes_encrypt key (h.random draw nonce_size) plaintext)
    ok (cat (h.random draw nonce_size) ciphertext)

  unfoldable pub decrypt_bytes : Bytes → Bytes → Result String Bytes
  decrypt_bytes key payload =
      if ltb (length payload) nonce_size then err "Ciphertext payload too short" else do
        _ ← map_err (λ e. "Failed to initialize AES-GCM: " ++ e) (h.aes_init key)
        map_err (λ e. "Decryption failed: " ++ e)
            (h.aes_decrypt key (take nonce_size payload) (drop nonce_size payload))
