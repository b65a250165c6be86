-- ===== src/Vhsm/DataKeys.antt =====
-- The wrapped keys and passwords that the vHSM gives out.
use kms_platform.Common.{
  none, err, subst, ℕ, ◌≡◌, ◌≤◌, ◌<◌, ◌+◌, refl, String, true, Option, List, Bytes, ok, length,
  arith, ◌∙◌, trim, ◌⊎◌, inl, inr, some, Option-cases, Result-cases, str_eq,
}
use kms_platform.Host.{Host}
use kms_platform.Host.Laws.{HasAead}
use kms_platform.Vhsm.Protocol.{
  HsmRequest, generate_kek, generate_data_key, generate_credential, kek_generated,
  data_key_generated, credential_generated, error,
}
use kms_platform.Vhsm.State.{VhsmState}
use kms_platform.Vhsm.Crypto.{encrypt_bytes, decrypt_bytes}
use kms_platform.Vhsm.Crypto.Laws.{decrypt_bytes-encrypt_bytes}
use kms_platform.Vhsm.Handler.{Env, Outcome, answered, handle_request, serve}
use kms_platform.Vhsm.Secrets.{KeepsKey, handle_request-IsSameKey, serve-IsSameKey}

-- A data key that `GenerateDataKey` answered with: the master key opens the wrapped key encryption
-- key, and that opens the wrapped data key to the plain one. The answered versions are 1 and the
-- active version of the master key.
pub data_key_opens :
    (h : Host) (e : Env) (wrapped_kek plain wrapped : Bytes) (v : Option ℕ) (algorithm : String)
    (kek_version root_version : ℕ) (s : VhsmState)
    → HasAead h
    → (handle_request h e (generate_data_key wrapped_kek v algorithm) s).0
      ≡ answered (data_key_generated plain wrapped kek_version root_version)
    → (root : Bytes) × (kek : Bytes) × (s.master_key ≡ some root)
      × (decrypt_bytes h root wrapped_kek ≡ ok kek)
      × (decrypt_bytes h kek wrapped ≡ ok plain)
      × (kek_version ≡ 1)
      × (root_version ≡ s.active_key_version)
unfolding handle_request
data_key_opens h e wrapped_kek plain wrapped v algorithm kek_version root_version s laws answer =
    elim (Option-cases s.master_key) [
      | inl shut ↦ absurd (ground arith)
      | inr (root, found) ↦ elim (Result-cases (decrypt_bytes h root wrapped_kek)) [
        | inr (m, bad) ↦ absurd (ground arith)
        | inl (kek, opened) ↦
            elim (Result-cases (encrypt_bytes h (e.draw + 1) kek (h.random e.draw 32))) [
              | inr (m, bad) ↦ absurd (ground arith)
              | inl (sealed, made) ↦ (
                root,
                kek,
                found,
                opened,
                decrypt_bytes-encrypt_bytes h laws (e.draw + 1) kek plain wrapped (ground arith),
                ground arith,
                ground arith,
              )
            ]
      ]
    ]

kek-eq-generated :
    (h : Host) (e : Env) (algorithm name : String) (wrapped_kek : Bytes)
    (kek_version root_version : ℕ) (s : VhsmState)
    → HasAead h
    → (handle_request h e (generate_kek algorithm) s).0
      ≡ answered (kek_generated wrapped_kek kek_version root_version name)
    → (root : Bytes) × (s.master_key ≡ some root)
      × (decrypt_bytes h root wrapped_kek ≡ ok (h.random e.draw 32))
      × (kek_version ≡ 1)
      × (s.active_key_version ≡ root_version)
unfolding handle_request
kek-eq-generated h e algorithm name wrapped_kek kek_version root_version s laws answer =
    elim (Option-cases s.master_key) [
      | inl shut ↦ absurd (ground arith)
      | inr (root, found) ↦
          elim (Result-cases (encrypt_bytes h (e.draw + 1) root (h.random e.draw 32))) [
            | inr (m, bad) ↦ absurd (ground arith)
            | inl (sealed, made) ↦ (
              root,
              found,
              decrypt_bytes-encrypt_bytes h laws (e.draw + 1) root (h.random e.draw 32) wrapped_kek
                  (ground arith),
              ground arith,
              ground arith,
            )
          ]
    ]

-- What `GenerateDataKey` answers under a key encryption key: a data key, or the cipher's own error.
abbrev pub IsServed : Host → Env → Bytes → ℕ → Outcome → Type 0
IsServed h e kek root_version answer =
    ((wrapped : Bytes) × (encrypt_bytes h (e.draw + 1) kek (h.random e.draw 32) ≡ ok wrapped)
      × (answer ≡ answered (data_key_generated (h.random e.draw 32) wrapped 1 root_version)))
    ⊎ ((message : String) × (encrypt_bytes h (e.draw + 1) kek (h.random e.draw 32) ≡ err message)
        × (answer ≡ answered (error 500 message)))

data_key_from_kek :
    (h : Host) (e : Env) (algorithm : String) (v : Option ℕ) (wrapped_kek root kek : Bytes)
    (root_version : ℕ) (s : VhsmState)
    → s.master_key ≡ some root
    → decrypt_bytes h root wrapped_kek ≡ ok kek
    → s.active_key_version ≡ root_version
    → str_eq (trim algorithm) "AES256GCM" ≡ true
    → (v ≡ none) ⊎ (v ≡ some 1)
    → IsServed h e kek root_version
        (handle_request h e (generate_data_key wrapped_kek v algorithm) s).0
unfolding handle_request
data_key_from_kek h e algorithm v wrapped_kek root kek root_version s found opened same named
      accepted =
    elim (Result-cases (encrypt_bytes h (e.draw + 1) kek (h.random e.draw 32))) [
      | inl (wrapped, made) ↦ elim accepted [
        | inl any_version ↦ inl (wrapped, made, ground (arith, any_version))
        | inr first_version ↦ inl (wrapped, made, ground (arith, first_version))
      ]
      | inr (m, bad) ↦ elim accepted [
        | inl any_version ↦ inr (m, bad, ground (arith, any_version))
        | inr first_version ↦ inr (m, bad, ground (arith, first_version))
      ]
    ]

-- A key encryption key that `GenerateKek` answered with serves `GenerateDataKey` for the algorithm
-- AES256GCM, with spaces around it or not, that names its version or none, after any requests but
-- `InitMasterKey` in between, on a vHSM that is initialized and whose cipher opens what it sealed: the
-- answer is a new data key with what the cipher makes of it under this key encryption key, at the same
-- version of the master key, or, where the cipher fails there, its error with code 500.
pub kek_serves_data_keys :
    (h : Host) (e e' : Env) (algorithm algorithm' name : String) (v : Option ℕ)
    (wrapped_kek : Bytes) (kek_version root_version : ℕ) (s : VhsmState)
    (between : List (Env × HsmRequest))
    → HasAead h
    → s.initialized ≡ true
    → KeepsKey between
    → (handle_request h e (generate_kek algorithm) s).0
      ≡ answered (kek_generated wrapped_kek kek_version root_version name)
    → str_eq (trim algorithm') "AES256GCM" ≡ true
    → (v ≡ none) ⊎ (v ≡ some kek_version)
    → IsServed h e'
        (h.random e.draw 32)
        root_version
        (handle_request h e'
          (generate_data_key wrapped_kek v algorithm')
          (serve h between (handle_request h e (generate_kek algorithm) s).1)).0
kek_serves_data_keys h e e' algorithm algorithm' name v wrapped_kek kek_version root_version s
      between laws ready keeps answer named accepted =
    let (root, found, opened, one, same) =
      kek-eq-generated h e algorithm name wrapped_kek kek_version root_version s laws answer in
    let first = handle_request-IsSameKey h e (generate_kek algorithm) s refl ready in
    let after = (handle_request h e (generate_kek algorithm) s).1 in
    let late = serve-IsSameKey h between after keeps first.initialized in
    data_key_from_kek h e' algorithm' v wrapped_kek root (h.random e.draw 32) root_version
      (serve h between after) (late.key ∙ first.key ∙ found) opened
      (late.version ∙ first.version ∙ same) named
      (subst (λ n. (v ≡ none) ⊎ (v ≡ some n)) one accepted)

-- The password of a credential that `GenerateCredential` answered with is the base64 text of what
-- the master key opens the wrapped password to.
pub credential_opens :
    (h : Host) (e : Env) (len : ℕ) (id password : String) (wrapped : Bytes) (version : ℕ)
    (s : VhsmState)
    → HasAead h
    → (handle_request h e (generate_credential len) s).0
      ≡ answered (credential_generated id password wrapped version)
    → (root : Bytes) × (plain : Bytes) × (s.master_key ≡ some root)
      × (decrypt_bytes h root wrapped ≡ ok plain)
      × (password ≡ h.base64 plain)
      × (length plain ≡ len)
      × (0 < len)
      × (len ≤ 1024)
unfolding handle_request
credential_opens h e len id password wrapped version s laws answer =
    elim (Option-cases s.master_key) [
      | inl shut ↦ absurd (ground arith)
      | inr (root, found) ↦
          let plain = h.random (e.draw + 1) len in
          elim (Result-cases (encrypt_bytes h (e.draw + 2) root plain)) [
            | inr (m, bad) ↦ absurd (ground arith)
            | inl (sealed, made) ↦ (
              root,
              plain,
              found,
              decrypt_bytes-encrypt_bytes h laws (e.draw + 2) root plain wrapped (ground arith),
              ground arith,
              laws.random_length (e.draw + 1) len,
              ground arith,
              ground arith,
            )
          ]
    ]
