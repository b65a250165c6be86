-- ===== src/Vhsm/Unseal.antt =====
-- `GenerateCeremony` and `InitMasterKey`: what unlocks the vHSM, with which key.
use mathlib.Core.List.{Memᴰ}
use kms_platform.Common.{
  ℕ, ◌≡◌, ◌≤◌, ◌<◌, ◌+◌, ◌∙◌, sym, refl, ap, length-map, List, [], ◌∷◌, map, Bytes, ok, length, All,
  arith, inl, inr, Result-cases, some,
}
use kms_platform.Common.Picks.{HasDistinct}
use kms_platform.Host.{Host}
use kms_platform.Host.Laws.{HasSharing}
use kms_platform.Sss.Laws.{split_shares_valid, combine_shares-eq-ok, unlock-split_shares}
use kms_platform.Sss.{combine_shares, split_shares, key_size}
use kms_platform.Vhsm.Protocol.{
  Share, generate_ceremony, init_master_key, ceremony_generated, master_key_initialized,
}
use kms_platform.Vhsm.State.{VhsmState}
use kms_platform.Vhsm.Crypto.{
  generate_and_split_master_key, reconstruct_master_key, to_secret_share,
}
use kms_platform.Vhsm.Crypto.Laws.{duplicate_index_iff}
use kms_platform.Vhsm.Handler.{Env, answered, handle_request}

values-to_secret_share :
    (given : List Share) → map (λ s. s.value) (map to_secret_share given) ≡ map (λ s. s.1) given
values-to_secret_share [] = refl
values-to_secret_share (s ∷ given) = ap (λ l. s.1 ∷ l) (values-to_secret_share given)

reconstruct_master_key-eq-ok :
    (h : Host) (given : List Share) (key : Bytes)
    → 2 ≤ length given
    → length key ≡ key_size
    → HasDistinct (λ s. s.0) given
    → h.unlock (map (λ s. s.1) given) ≡ ok key
    → reconstruct_master_key h given ≡ ok key
unfolding reconstruct_master_key
reconstruct_master_key-eq-ok h (a ∷ given) key many size distinct found =
    let shares = map to_secret_share (a ∷ given) in
    let combined : combine_shares h shares ≡ ok key =
      combine_shares-eq-ok h shares key (rw length-map many) size
        (rw values-to_secret_share found) in
    rw ((duplicate_index_iff (a ∷ given)).1 distinct, combined) (ground arith)
reconstruct_master_key-eq-ok h [] key many size distinct found = absurd (omega arith)

split_shares-generate :
    (h : Host) (draw : ℕ) (key : Bytes) (total threshold : ℕ) (shares : List Share)
    → generate_and_split_master_key h draw total threshold ≡ ok (key, shares)
    → split_shares h (draw + 1) key total threshold ≡ ok shares
unfolding generate_and_split_master_key
split_shares-generate h draw key total threshold shares made =
    elim (Result-cases (split_shares h (draw + 1) (h.random draw key_size) total threshold)) [
      | inl (split, e) ↦ ground arith
      | inr (m, e) ↦ absurd (ground arith)
    ]

reconstruct-generate :
    (h : Host) (draw : ℕ) (key : Bytes) (total threshold : ℕ) (shares given : List Share)
    → HasSharing h
    → generate_and_split_master_key h draw total threshold ≡ ok (key, shares)
    → threshold ≤ length given
    → HasDistinct (λ s. s.0) given
    → All (λ s. Memᴰ s shares) given
    → reconstruct_master_key h given ≡ ok key
reconstruct-generate h draw key total threshold shares given law made enough distinct members =
    let split = split_shares-generate h draw key total threshold shares made in
    let (two, fits, size) = split_shares_valid h (draw + 1) key total threshold shares split in
    reconstruct_master_key-eq-ok h given key (omega arith) size distinct (
      unlock-split_shares h (draw + 1) key total threshold shares given law split enough distinct
        members)

module _ (h : Host) where
  -- What a ceremony that answered with shares has done.
  ceremony-eq-generated :
      (e : Env) (threshold total : ℕ) (s : VhsmState) (shares : List Share)
      → (handle_request h e (generate_ceremony threshold total) s).0
        ≡ answered (ceremony_generated shares)
      → (key : Bytes) × (generate_and_split_master_key h e.draw total threshold ≡ ok (key, shares))
        × ((handle_request h e (generate_ceremony threshold total) s).1.master_key ≡ some key)
  unfolding handle_request
  ceremony-eq-generated e threshold total s shares answer =
      elim (Result-cases (generate_and_split_master_key h e.draw total threshold)) [
        | inl ((key, made), r) ↦ (key, ground arith, ground arith)
        | inr (m, r) ↦ absurd (ground arith)
      ]

  unseal-eq-initialized :
      (e : Env) (required : ℕ) (given : List Share) (s : VhsmState) (key : Bytes)
      → 0 < required
      → required ≤ length given
      → reconstruct_master_key h given ≡ ok key
      → ((handle_request h e (init_master_key required given) s).0
          ≡ answered master_key_initialized)
        × ((handle_request h e (init_master_key required given) s).1.master_key ≡ some key)
  unfolding handle_request
  unseal-eq-initialized e required given s key pos enough found = ground arith

-- After a ceremony that answered with shares, any of these shares that are at least as many as the
-- ceremony's threshold and have different indices, in any order, unlock a vHSM in any state (after a
-- restart, say) with the ceremony's master key, if the threshold named to `InitMasterKey` is not 0
-- and not above the number of shares given.
pub unseal_restores :
    (h : Host) (e e' : Env) (threshold total required : ℕ) (s s' : VhsmState)
    (shares given : List Share)
    → HasSharing h
    → (handle_request h e (generate_ceremony threshold total) s).0
      ≡ answered (ceremony_generated shares)
    → threshold ≤ length given
    → HasDistinct (λ s. s.0) given
    → All (λ s. Memᴰ s shares) given
    → 0 < required
    → required ≤ length given
    → ((handle_request h e' (init_master_key required given) s').0
        ≡ answered master_key_initialized)
      × ((handle_request h e' (init_master_key required given) s').1.master_key
          ≡ (handle_request h e (generate_ceremony threshold total) s).1.master_key)
unseal_restores h e e' threshold total required s s' shares given law answer enough distinct members
      pos fits =
    let (key, made, set) = ceremony-eq-generated h e threshold total s shares answer in
    let found =
      reconstruct-generate h e.draw key total threshold shares given law made enough distinct
        members in
    let (ready, same) = unseal-eq-initialized h e' required given s' key pos fits found in
    (ready, same ∙ sym set)
