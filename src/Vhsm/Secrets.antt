-- ===== src/Vhsm/Secrets.antt =====
-- What the vHSM wraps it unwraps again, also after other requests have come in between.
use kms_platform.Common.{
  ℕ, ◌≡◌, refl, String, Bool, true, false, Option, List, [], ◌∷◌, Bytes, ok, All, arith, ◌∙◌, sym,
  inl, inr, some, Option-cases, Result-cases,
}
use kms_platform.Host.{Host}
use kms_platform.Host.Laws.{HasAead}
use kms_platform.Vhsm.Protocol.{
  HsmRequest, ping, init_master_key, encrypt, decrypt, encrypted, decrypted,
}
use kms_platform.Vhsm.State.{VhsmState}
use kms_platform.Vhsm.Crypto.{encrypt_bytes, decrypt_bytes}
use kms_platform.Vhsm.Crypto.Laws.{decrypt_bytes-encrypt_bytes}
use kms_platform.Vhsm.Handler.{Env, answered, handle_request, serve}

-- Only `InitMasterKey` can put another master key in the place of one.
abbrev pub is_rekey : HsmRequest → Bool
is_rekey (init_master_key _ _) = true
is_rekey _ = false

abbrev pub KeepsKey : List (Env × HsmRequest) → Type 0
KeepsKey requests = All (λ r. is_rekey r.1 ≡ false) requests

-- The part of the state that wrapping goes by.
pub record IsSameKey (s s' : VhsmState) : Type 0 where
  pub initialized : s'.initialized ≡ true
  pub key : s'.master_key ≡ s.master_key
  pub version : s'.active_key_version ≡ s.active_key_version

module _ (h : Host) where
  pub handle_request-IsSameKey :
      (e : Env) (r : HsmRequest) (s : VhsmState)
      → is_rekey r ≡ false
      → s.initialized ≡ true
      → IsSameKey s (handle_request h e r s).1
  unfolding handle_request
  handle_request-IsSameKey e ping s k i = ground arith
  handle_request-IsSameKey e r s k i = ground arith

  -- An initialized vHSM keeps its master key and its version through requests that are not
  -- `InitMasterKey`.
  pub serve-IsSameKey :
      (requests : List (Env × HsmRequest)) (s : VhsmState)
      → KeepsKey requests
      → s.initialized ≡ true
      → IsSameKey s (serve h requests s)
  unfolding serve
  serve-IsSameKey [] s k i = record { initialized = i; key = refl; version = refl }
  serve-IsSameKey ((e, r) ∷ rest) s k i =
      let one = handle_request-IsSameKey e r s k.0 i in
      let more = serve-IsSameKey rest (handle_request h e r s).1 k.1 one.initialized in
      record {
        initialized = more.initialized;
        key = more.key ∙ one.key;
        version = more.version ∙ one.version;
      }

  encrypt-eq-encrypted :
      (e : Env) (id : String) (v : Option ℕ) (plaintext ciphertext : Bytes) (version : ℕ)
      (s : VhsmState)
      → (handle_request h e (encrypt id v plaintext) s).0 ≡ answered (encrypted ciphertext version)
      → (key : Bytes) × (s.master_key ≡ some key)
        × (version ≡ s.active_key_version)
        × (encrypt_bytes h e.draw key plaintext ≡ ok ciphertext)
  unfolding handle_request
  encrypt-eq-encrypted e id v plaintext ciphertext version s a = elim (Option-cases s.master_key) [
    | inl shut ↦ absurd (ground arith)
    | inr (key, found) ↦ elim (Result-cases (encrypt_bytes h e.draw key plaintext)) [
      | inl (c, made) ↦ (key, found, ground arith, ground arith)
      | inr (m, bad) ↦ absurd (ground arith)
    ]
  ]

  decrypt-eq-decrypted :
      (e : Env) (plaintext ciphertext key : Bytes) (version : ℕ) (s : VhsmState)
      → s.master_key ≡ some key
      → s.active_key_version ≡ version
      → decrypt_bytes h key ciphertext ≡ ok plaintext
      → (handle_request h e (decrypt "master_key" (some version) ciphertext) s).0
        ≡ answered (decrypted plaintext version)
  unfolding handle_request
  decrypt-eq-decrypted e plaintext ciphertext key version s found same opened = ground arith

-- What `Encrypt` answered with, `Decrypt` at the answered version gives back, after any requests
-- but `InitMasterKey` in between.
pub decrypt-encrypt :
    (h : Host) (e e' : Env) (id : String) (v : Option ℕ) (plaintext ciphertext : Bytes)
    (version : ℕ) (s : VhsmState) (between : List (Env × HsmRequest))
    → HasAead h
    → s.initialized ≡ true
    → KeepsKey between
    → (handle_request h e (encrypt id v plaintext) s).0 ≡ answered (encrypted ciphertext version)
    → (handle_request h e'
        (decrypt "master_key" (some version) ciphertext)
        (serve h between (handle_request h e (encrypt id v plaintext) s).1)).0
      ≡ answered (decrypted plaintext version)
decrypt-encrypt h e e' id v plaintext ciphertext version s between laws ready keeps answer =
    let (key, found, same, made) =
      encrypt-eq-encrypted h e id v plaintext ciphertext version s answer in
    let opened = decrypt_bytes-encrypt_bytes h laws e.draw key plaintext ciphertext made in
    let first = handle_request-IsSameKey h e (encrypt id v plaintext) s refl ready in
    let after = (handle_request h e (encrypt id v plaintext) s).1 in
    let late = serve-IsSameKey h between after keeps first.initialized in
    decrypt-eq-decrypted h e' plaintext ciphertext key version (serve h between after)
      (late.key ∙ first.key ∙ found) (late.version ∙ first.version ∙ sym same) opened
