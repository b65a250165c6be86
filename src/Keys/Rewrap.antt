-- ===== src/Keys/Rewrap.antt =====
-- crates/kms-service/src/application/use_cases/rewrap_keys.rs: the loop that wraps every key again
-- under the present master key. The crypto service is a parameter; its draws of randomness are
-- numbered by the round and the position of the key. The database answers every statement; a failure
-- of it would end the loop with its error.
use Prim.Native.String.{◌++◌}
use kms_platform.Common.{
  show, ℕ, zero, suc, ◌+◌, ◌==◌, not, Bool, true, false, List, [], ◌∷◌, Option, none, some, Bytes,
  Result, ok, err, ◌>>=◌, length, is_empty, String, if◌then◌else◌,
}
use kms_platform.Service.Errors.{AppError, validation_error}
use kms_platform.Service.Crypto.{EncryptedPrivateKey}
use kms_platform.Keys.{Table, Postgres, update_encrypted_keys_batch}
use kms_platform.Keys.Repository.{KeyPairEntity, get_keys_needing_rewrap}
pub mod Endless

-- `dyn KmsCryptoService`
pub record KmsCryptoService : Type 0 where
  pub current_master_key_version : Result AppError ℕ
  pub decrypt_private_key : EncryptedPrivateKey → Result AppError Bytes
  pub encrypt_private_key : ℕ → Bytes → Result AppError EncryptedPrivateKey

pub record RewrapKeysInput : Type 0 where
  pub target_master_version : ℕ
  pub batch_size : ℕ

-- The loop `for key in pending_keys`.
unfoldable pub reencrypt :
    KmsCryptoService → ℕ → List KeyPairEntity → Result AppError (List (ℕ × Bytes))
reencrypt c draw [] = ok []
reencrypt c draw (key ∷ keys) = c.decrypt_private_key key.encrypted_private_key >>= (λ decrypted.
    c.encrypt_private_key draw decrypted >>= (λ reencrypted.
      reencrypt c (draw + 1) keys >>= (λ updates. ok ((key.id, reencrypted.ciphertext) ∷ updates))))

-- What one round of `loop` does: it breaks, or it goes on with the table and the total.
pub data Round : Type 0 where
  finished : Round
  continues : Table → ℕ → Round

unfoldable pub round : Postgres → KmsCryptoService → ℕ → ℕ → ℕ → Table → ℕ → Result AppError Round
unfolding get_keys_needing_rewrap reencrypt update_encrypted_keys_batch
round pg c draw current_version batch_size rows total =
    get_keys_needing_rewrap pg current_version batch_size rows >>= (λ pending_keys.
      if is_empty pending_keys
      then ok finished
      else reencrypt c draw pending_keys >>= (λ updated_keys.
        ok (
          continues (update_encrypted_keys_batch updated_keys rows) (total + length updated_keys))))

-- `loop`, for at most `fuel` rounds: `none` where these are not enough.
unfoldable pub rewrap_loop :
    ℕ → Postgres → KmsCryptoService → ℕ → ℕ → ℕ → Table → ℕ → Option (Result AppError (ℕ × Table))
unfolding round
rewrap_loop zero pg c draw version batch_size rows total = none
rewrap_loop (suc fuel) pg c draw version batch_size rows total =
    elim (round pg c draw version batch_size rows total) [
      | err e ↦ some (err e)
      | ok finished ↦ some (ok (total, rows))
      | ok (continues rows' total') ↦
          rewrap_loop fuel pg c (draw + batch_size) version batch_size rows' total'
    ]

unfoldable pub rewrap_keys :
    ℕ → Postgres → KmsCryptoService → RewrapKeysInput → Table → Option (Result AppError (ℕ × Table))
unfolding rewrap_loop
rewrap_keys fuel pg c input rows = elim c.current_master_key_version [
  | err e ↦ some (err e)
  | ok current_version ↦
      if not (current_version == input.target_master_version)
      then some (
          err (
            validation_error (
              "Target master key version "
              ++ (show input.target_master_version
                  ++ (" does not match KMS active version " ++ show current_version)))))
      else rewrap_loop fuel pg c 0 current_version input.batch_size rows 0
]
