-- ===== src/Vhsm/Access.antt =====
-- What an error answer leaves behind, what a locked vHSM answers, and how it gets unlocked.
use kms_platform.Common.{
  ℕ, ◌≡◌, ◌≤◌, ◌<◌, refl, String, Bool, true, false, List, [], Bytes, ok, length, arith, ◌⊎◌, inl,
  inr, some, none, Result-cases, Bool-cases,
}
use kms_platform.Common.Assoc.{lookup}
use kms_platform.Host.{Host}
use kms_platform.Vhsm.Protocol.{
  HsmRequest, ping, generate_ceremony, init_master_key, sign_intermediate_ca, sign_with_ca_key,
  HsmResponse, pong, status_info, ceremony_generated, master_key_initialized,
  random_bytes_generated, error, Share,
}
use kms_platform.Vhsm.State.{VhsmState}
use kms_platform.Vhsm.Crypto.{reconstruct_master_key, generate_and_split_master_key}
use kms_platform.Vhsm.Handler.{Env, Outcome, answered, panicked, handle_request}
use kms_platform.Vhsm.Tasks.Invariant.{is_unlocked, IsConsistent}

-- The codes that `handle_request` gives to errors.
abbrev pub IsErrorCode : ℕ → Type 0
IsErrorCode c = (c ≡ 400) ⊎ (c ≡ 403) ⊎ (c ≡ 404) ⊎ (c ≡ 409) ⊎ (c ≡ 422) ⊎ (c ≡ 500)

-- A request that is answered with an error has changed nothing, and the code is one of 400, 403,
-- 404, 409, 422 and 500.
pub error_changes_nothing :
    (h : Host) (e : Env) (r : HsmRequest) (s : VhsmState) (code : ℕ) (message : String)
    → (handle_request h e r s).0 ≡ answered (error code message)
    → ((handle_request h e r s).1 ≡ s) × IsErrorCode code
unfolding handle_request
error_changes_nothing h e ping s c m a = ground arith
error_changes_nothing h e r s c m a = ground arith

-- Answers that come from no key: the vHSM's status, random bytes, errors, and the plain word that a
-- master key is set. The shares of a ceremony come from the key that it makes.
abbrev pub is_keyless : HsmResponse → Bool
is_keyless pong = true
is_keyless (status_info _ _) = true
is_keyless master_key_initialized = true
is_keyless (random_bytes_generated _) = true
is_keyless (error _ _) = true
is_keyless _ = false

abbrev pub answers_keyless : Outcome → Bool
answers_keyless (answered r) = is_keyless r
answers_keyless panicked = false

lookup-nil :
    (tag : String) (s : VhsmState) → s.active_ca_keys ≡ [] → lookup tag s.active_ca_keys ≡ none
unfolding lookup
lookup-nil tag s e = rw e

-- A locked vHSM that is not initialized, at version 0 and without CA keys, as a locked one is in every
-- state that it reaches, answers every request. The answer is computed from no key: it has no wrapped or plain
-- key, no ciphertext or plaintext, no credential, no certificate and no signature; or the request is
-- `GenerateCeremony`, and the answer has the shares of the master key that it has just made.
pub locked_answers_keyless :
    (h : Host) (e : Env) (r : HsmRequest) (s : VhsmState)
    → IsConsistent s
    → is_unlocked s ≡ false
    → (answers_keyless (handle_request h e r s).0 ≡ true)
      ⊎ ((t : ℕ) × (n : ℕ) × (key : Bytes) × (shares : List Share) × (r ≡ generate_ceremony t n)
          × (generate_and_split_master_key h e.draw n t ≡ ok (key, shares))
          × ((handle_request h e r s).0 ≡ answered (ceremony_generated shares)))
unfolding handle_request
locked_answers_keyless h e ping s c shut = inl refl
locked_answers_keyless h e (generate_ceremony t n) s c shut =
    elim (Result-cases (generate_and_split_master_key h e.draw n t)) [
      | inl ((made, shares), ok_) ↦ elim (Bool-cases s.initialized) [
        | inl twice ↦ inl (ground arith)
        | inr fresh ↦ inr (t, n, made, shares, refl, ok_, ground arith)
      ]
      | inr (m, bad) ↦ inl (ground arith)
    ]
locked_answers_keyless h e (sign_intermediate_ca t p v) s c shut =
    inl (ground (arith, lookup-nil t s (c.sealed shut)))
locked_answers_keyless h e (sign_with_ca_key t a b) s c shut =
    inl (ground (arith, lookup-nil t s (c.sealed shut)))
locked_answers_keyless h e r s c shut = inl (ground arith)

-- A vHSM gets unlocked only by a ceremony that answers with its shares, or by `InitMasterKey` with
-- at least as many shares as the threshold that it names, which is not 0; the master key is then the
-- one that was made, or the one that the shares give.
pub unlocked_only_by :
    (h : Host) (e : Env) (r : HsmRequest) (s : VhsmState) (key : Bytes)
    → IsConsistent s
    → is_unlocked s ≡ false
    → (handle_request h e r s).1.master_key ≡ some key
    → ((t : ℕ) × (n : ℕ) × (shares : List Share) × (r ≡ generate_ceremony t n)
        × (generate_and_split_master_key h e.draw n t ≡ ok (key, shares))
        × ((handle_request h e r s).0 ≡ answered (ceremony_generated shares)))
      ⊎ ((t : ℕ) × (given : List Share) × (r ≡ init_master_key t given)
          × (0 < t)
          × (t ≤ length given)
          × (reconstruct_master_key h given ≡ ok key))
unfolding handle_request
unlocked_only_by h e (generate_ceremony t n) s key c shut set =
    elim (Result-cases (generate_and_split_master_key h e.draw n t)) [
      | inl ((made, shares), ok_) ↦ inl (t, n, shares, refl, ground arith, ground arith)
      | inr (m, bad) ↦ absurd (ground arith)
    ]
unlocked_only_by h e (init_master_key t given) s key c shut set =
    inr (t, given, refl, ground arith, ground arith, ground arith)
unlocked_only_by h e r s key c shut set = absurd (ground arith)
