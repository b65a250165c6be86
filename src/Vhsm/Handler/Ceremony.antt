-- ===== src/Vhsm/Handler/Ceremony.antt =====
-- The arms of `handle_request` that set the master key.
use Prim.Native.String.{◌++◌}
use kms_platform.Common.{
  ℕ, String, List, Bytes, Result, ok, err, length, show, ltb, ◌==◌, if◌then◌else◌,
}
use kms_platform.Host.{Host}
use kms_platform.Vhsm.Protocol.{error, ceremony_generated, master_key_initialized, Share}
use kms_platform.Vhsm.State.{VhsmState, set_master_key}
use kms_platform.Vhsm.Crypto.{generate_and_split_master_key, reconstruct_master_key}
use kms_platform.Vhsm.Handler.Phase.{Env, ceremony, unseal, Started, reply, hold, Outcome, answered}

module _ (h : Host) where
  ceremony_generate : Result String (Bytes × List Share) → Started
  ceremony_generate (ok (key, shares)) = hold (ceremony key shares)
  ceremony_generate (err msg) = reply (error 500 msg)

  -- `GenerateCeremony` reads `initialized`, drops the lock, and makes the key.
  unfoldable pub ceremony_start : Env → ℕ → ℕ → VhsmState → Started
  unfolding ceremony_generate
  ceremony_start e threshold total_shares s =
      if s.initialized
      then reply (error 400 "vHSM is already initialized. Reset required to re-run ceremony.")
      else ceremony_generate (generate_and_split_master_key h e.draw total_shares threshold)

  unseal_recover : Result String Bytes → Started
  unseal_recover (ok recovered) = hold (unseal recovered)
  unseal_recover (err msg) = reply (error 422 msg)

  -- `InitMasterKey` reads nothing of the state.
  unfoldable pub unseal_start : ℕ → List Share → Started
  unfolding unseal_recover
  unseal_start threshold shares =
      if threshold == 0
      then reply (error 400 "Threshold must be greater than zero.")
      else if ltb (length shares) threshold
      then reply (
          error 422 (
            "Insufficient shares: "
            ++ (show (length shares) ++ (" provided, " ++ (show threshold ++ " required.")))))
      else unseal_recover (reconstruct_master_key h shares)

unfoldable pub ceremony_resume : Bytes → List Share → VhsmState → Outcome × VhsmState
unfolding set_master_key
ceremony_resume key shares s = (answered (ceremony_generated shares), set_master_key key s)

unfoldable pub unseal_resume : Bytes → VhsmState → Outcome × VhsmState
unfolding set_master_key
unseal_resume key s = (answered master_key_initialized, set_master_key key s)
