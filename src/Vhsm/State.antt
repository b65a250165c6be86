-- ===== src/Vhsm/State.antt =====
-- crates/vhsm-daemon/src/state.rs: the daemon's state, and what it holds at start and after it is
-- cleared. That the freed memory is overwritten is not modelled.
use kms_platform.Common.{ℕ, String, Bool, true, false, Option, none, some, [], Bytes}
use kms_platform.Common.Assoc.{Assoc, insert}

pub record VhsmState : Type 0 where
  pub initialized : Bool
  pub active_key_version : ℕ
  pub master_key : Option Bytes
  pub unseal_started_at : Option ℕ
  pub active_ca_keys : Assoc Bytes

-- `VhsmState::new`, and `default`.
abbrev pub new : VhsmState
new = record {
  initialized = false;
  active_key_version = 0;
  master_key = none;
  unseal_started_at = none;
  active_ca_keys = [];
}

unfoldable pub start_unseal_timer : ℕ → VhsmState → VhsmState
start_unseal_timer now s = elim s.unseal_started_at [
  | none ↦ record s { unseal_started_at = some now }
  | some started ↦ s
]

abbrev pub cancel_unseal_timer : VhsmState → VhsmState
cancel_unseal_timer s = record s { unseal_started_at = none }

unfoldable pub zeroize_key : VhsmState → VhsmState
zeroize_key s = record s {
  master_key = none;
  initialized = false;
  active_key_version = 0;
  unseal_started_at = none;
  active_ca_keys = [];
}

-- The writes under `state.write()` with which both `GenerateCeremony` and `InitMasterKey` end.
unfoldable pub set_master_key : Bytes → VhsmState → VhsmState
set_master_key key s =
    cancel_unseal_timer
      (record s { master_key = some key; initialized = true; active_key_version = 1 })

-- The write with which `LoadRootCa` ends.
unfoldable pub load_ca_key : String → Bytes → VhsmState → VhsmState
unfolding insert
load_ca_key ca_tag key s = record s { active_ca_keys = insert ca_tag key s.active_ca_keys }
