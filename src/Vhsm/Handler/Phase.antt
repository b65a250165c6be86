-- ===== src/Vhsm/Handler/Phase.antt =====
-- What the arms of `handle_request` share: how far an arm gets under one hold of the state's lock.
use kms_platform.Common.{ℕ, String, List, none, some, Bytes}
use kms_platform.Vhsm.Protocol.{HsmResponse, error, Share}
use kms_platform.Vhsm.State.{VhsmState}

-- The number of the next call of the random source, and the time in seconds.
pub record Env : Type 0 where
  pub draw : ℕ
  pub now : ℕ

-- What an arm keeps in local variables while it does not hold the lock.
pub data Pending : Type 0 where
  ceremony : (master_key : Bytes) (shares : List Share) → Pending
  unseal : (recovered : Bytes) → Pending
  root_ca :
      (draw : ℕ) (private_key ca_private_key ca_public_key : Bytes) (pem algorithm : String)
      → Pending
  ca_key : (ca_tag : String) (decrypted : Bytes) → Pending

pub data Started : Type 0 where
  reply : HsmResponse → Started
  hold : Pending → Started

-- `panicked`: an `unwrap` of `None`; the task ends with no answer.
pub data Outcome : Type 0 where
  answered : HsmResponse → Outcome
  panicked : Outcome

abbrev pub locked : HsmResponse
locked = error 403 "vHSM is locked. Master key must be initialized first."

-- `match guard.master_key.as_ref()`
abbrev pub with_root_key {ℓ} : {A : Type ℓ} → VhsmState → A → (Bytes → A) → A
with_root_key s otherwise use_key = elim s.master_key [ none ↦ otherwise | some key ↦ use_key key ]
