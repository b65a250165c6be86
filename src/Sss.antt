-- ===== src/Sss.antt =====
-- crates/kms-core/src/crypto/sss.rs: Shamir sharing over the `ssss` crate.
pub mod Laws
use kms_platform.Common.{
  ℕ, zero, suc, ◌+◌, ◌%◌, String, List, [], ◌∷◌, map, Bytes, Result, ok, err, map_err, ◌>>=◌,
  length, is_empty, trim, show, ltb, ◌==◌, if◌then◌else◌, not, ◌≡◌, refl,
}
use Prim.Native.String.{◌++◌}
use kms_platform.Host.{Host}

abbrev pub key_size : ℕ
key_size = 32

pub data KmsCoreError : Type 0 where
  invalid_input : String → KmsCoreError
  sss : String → KmsCoreError
  internal : String → KmsCoreError

-- `Display`, from the `#[error(…)]` attributes.
unfoldable pub display : KmsCoreError → String
display (invalid_input m) = "invalid input: " ++ m
display (sss m) = "sss error: " ++ m
display (internal m) = "internal error: " ++ m

pub record SecretShare : Type 0 where
  pub index : ℕ
  pub value : String

-- The loop over `share_strings.into_iter().enumerate()`; `idx as u8` keeps the low byte.
unfoldable pub number_shares : ℕ → List String → List SecretShare
number_shares idx [] = []
number_shares idx (raw ∷ rest) =
    record { index = idx % 256 + 1; value = trim raw } ∷ number_shares (idx + 1) rest

abbrev pub to_pair : SecretShare → ℕ × String
to_pair share = (share.index, share.value)

module _ (h : Host) where
  unfoldable pub split_secret : ℕ → Bytes → ℕ → ℕ → Result KmsCoreError (List SecretShare)
  split_secret call secret threshold shares_count =
      if not (length secret == key_size)
      then err (invalid_input ("Secret length must be exactly " ++ show key_size ++ " bytes"))
      else if shares_count == 0
      then err (invalid_input "Total shares must be greater than zero")
      else if threshold == 0
      then err (invalid_input "Threshold must be greater than zero")
      else if ltb shares_count threshold
      then err (invalid_input "Threshold cannot be greater than total shares")
      else if ltb threshold 2
      then err (invalid_input "Threshold must be at least 2")
      else do
        share_strings ← map_err sss (h.gen_shares call shares_count threshold secret)
        ok (number_shares 0 share_strings)

  unfoldable pub combine_shares : List SecretShare → Result KmsCoreError Bytes
  combine_shares shares =
      if is_empty shares
      then err (invalid_input "At least one share is required to reconstruct the key")
      else if ltb (length shares) 2
      then err (invalid_input "At least two shares are required to meet minimum threshold")
      else do
        recovered ←
            map_err
              (λ e.
                sss (
                  "Failed to reconstruct secret from " ++ show (length shares) ++ " shares: " ++ e))
              (h.unlock (map (λ share. share.value) shares))
        if not (length recovered == key_size)
            then err (invalid_input "Reconstructed key has invalid size")
            else ok recovered

  unfoldable pub split_shares : ℕ → Bytes → ℕ → ℕ → Result KmsCoreError (List (ℕ × String))
  unfolding split_secret
  split_shares call secret shares threshold = do
    shared ← split_secret call secret threshold shares
    ok (map to_pair shared)

  -- `combine_shares_legacy`: the values are trimmed once more.
  unfoldable pub combine_shares_legacy : List (ℕ × String) → Result KmsCoreError Bytes
  unfolding combine_shares
  combine_shares_legacy shares =
      combine_shares (map (λ s. record { index = s.0; value = trim s.1 }) shares)
