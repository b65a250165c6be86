-- ===== src/Vhsm/Handler/Authority.antt =====
-- The arms of `handle_request` for certificate authorities.
use Prim.Native.String.{◌++◌}
use kms_platform.Common.{
  ℕ, ◌+◌, ◌*◌, String, ◌||◌, Option, none, some, Bytes, Result, ok, err, length, trim, ◌==◌, str_eq,
  not, true, if◌then◌else◌,
}
use kms_platform.Common.Assoc.{lookup}
use kms_platform.Host.{Host, Csr}
use kms_platform.Vhsm.Protocol.{
  HsmResponse, error, root_ca_key_generated, master_key_initialized, signed_intermediate, signature,
}
use kms_platform.Vhsm.State.{VhsmState, load_ca_key}
use kms_platform.Vhsm.Crypto.{encrypt_bytes, decrypt_bytes}
use kms_platform.Vhsm.Certificate.{
  parse_pem_to_der, build_root_ca_certificate_pem, build_and_sign_certificate,
}
use kms_platform.Vhsm.Handler.Phase.{
  Env, root_ca, ca_key, Started, reply, hold, Outcome, answered, panicked, locked, with_root_key,
}
use kms_platform.Vhsm.Handler.DataKeys.{or_500}

module _ (h : Host) where
  root_ca_built : Env → String → Result String (Bytes × Bytes × String) → Started
  root_ca_built e algorithm (err msg) = reply (error 500 msg)
  root_ca_built e algorithm (ok (ca_private_key, ca_public_key, pem)) =
      hold (root_ca (e.draw + 3) (h.random e.draw 32) ca_private_key ca_public_key pem algorithm)

  -- `InitRootCa` finds the master key, drops the lock, and makes the key and the certificate. The
  -- draws are one for `SigningKey::random` and two in the certificate.
  unfoldable pub root_ca_start : Env → String → ℕ → String → VhsmState → Started
  unfolding root_ca_built
  root_ca_start e common_name validity_days algorithm s = with_root_key s (reply locked) λ root_key.
      if not (str_eq (trim algorithm) "ECDSA_P256")
      then reply (error 400 "Unsupported algorithm for InitRootCa")
      else root_ca_built e algorithm
          (build_root_ca_certificate_pem h (e.draw + 1) e.now common_name validity_days)

  root_ca_wrapped :
      ℕ → Bytes → Bytes → Bytes → String → String → ℕ → Result String Bytes → HsmResponse
  root_ca_wrapped draw root_key ca_private_key ca_public_key pem algorithm version (err msg) =
      error 500 msg
  root_ca_wrapped draw root_key ca_private_key ca_public_key pem algorithm version (ok wrapped) =
      or_500 (encrypt_bytes h (draw + 1) root_key ca_private_key)
        λ blob. root_ca_key_generated blob ca_public_key version algorithm (some pem)

  -- It takes the lock again and unwraps the master key that it found before.
  unfoldable pub root_ca_resume :
      ℕ → Bytes → Bytes → Bytes → String → String → VhsmState → Outcome × VhsmState
  unfolding root_ca_wrapped
  root_ca_resume draw private_key ca_private_key ca_public_key pem algorithm s =
      with_root_key s (panicked, s)
        λ root_key. (
          answered (
              root_ca_wrapped draw root_key ca_private_key ca_public_key pem algorithm
                s.active_key_version (encrypt_bytes h draw root_key private_key)),
          s,
        )

  load_ca_decrypted : String → Result String Bytes → Started
  load_ca_decrypted ca_tag (err msg) =
      reply (error 422 ("Failed to decrypt provided CA blob: " ++ msg))
  load_ca_decrypted ca_tag (ok key) = hold (ca_key ca_tag key)

  -- `LoadRootCa` copies the master key, drops the lock, and decrypts.
  unfoldable pub load_ca_start : String → Bytes → VhsmState → Started
  unfolding load_ca_decrypted
  load_ca_start ca_tag blob s =
      with_root_key s (reply locked)
        λ root_key. load_ca_decrypted ca_tag (decrypt_bytes h root_key blob)

  abbrev not_loaded : String → HsmResponse
  not_loaded ca_tag = error 404 ("CA with tag '" ++ (ca_tag ++ "' not loaded"))

  sign_csr : Env → Bytes → Bytes → ℕ → Option Csr → HsmResponse
  sign_csr e key csr_der validity_days none = error 400 "Failed to parse CSR as PKCS#10"
  sign_csr e key csr_der validity_days (some csr) =
      if not csr.signature_verifies
      then error 422 "CSR signature verification failed"
      else or_500 (build_and_sign_certificate h e.draw e.now key csr_der validity_days true)
          signed_intermediate

  sign_pem : Env → Bytes → ℕ → Result String Bytes → HsmResponse
  sign_pem e key validity_days (err msg) = error 400 msg
  sign_pem e key validity_days (ok csr_der) =
      sign_csr e key csr_der validity_days (h.parse_csr csr_der)

  unfoldable pub sign_intermediate_reply : Env → String → String → ℕ → VhsmState → HsmResponse
  unfolding sign_csr sign_pem
  sign_intermediate_reply e ca_tag csr_pem validity_days s = elim (lookup ca_tag s.active_ca_keys) [
    | none ↦ not_loaded ca_tag
    | some key ↦ sign_pem e key validity_days (parse_pem_to_der h csr_pem)
  ]

  sign_tbs : String → Bytes → Bytes → HsmResponse
  sign_tbs algorithm tbs key =
      if not (
        str_eq algorithm "ECDSA_P256"
        || str_eq algorithm "ECDSA_P256_SHA256"
        || str_eq algorithm "ECDSA_P256-SHA256")
      then error 400 "Unsupported signing algorithm"
      else if not (length key == 32)
      then error 500 "Invalid CA private key length"
      else if not (h.is_scalar key)
      then error 500 "Failed to construct signing key"
      else signature (h.sign key tbs)

  unfoldable pub sign_reply : String → String → Bytes → VhsmState → HsmResponse
  unfolding sign_tbs
  sign_reply ca_tag algorithm tbs s = elim (lookup ca_tag s.active_ca_keys) [
    | none ↦ not_loaded ca_tag
    | some key ↦ sign_tbs algorithm tbs key
  ]

  root_ca_key_wrap : Env → Bytes → String → ℕ → Result String (Bytes × Bytes × String) → HsmResponse
  root_ca_key_wrap e root_key algorithm version (err msg) = error 500 msg
  root_ca_key_wrap e root_key algorithm version (ok (ca_private_key, ca_public_key, pem)) =
      or_500 (encrypt_bytes h (e.draw + 3) root_key ca_private_key)
        λ wrapped. root_ca_key_generated wrapped ca_public_key version algorithm (some pem)

  -- `GenerateRootCaKey` does all under one hold of the lock.
  unfoldable pub root_ca_key_reply : Env → String → VhsmState → HsmResponse
  unfolding root_ca_key_wrap
  root_ca_key_reply e algorithm s = with_root_key s locked λ root_key.
      if not (str_eq (trim algorithm) "ECDSA_P256")
      then error 400 ("Unsupported algorithm: " ++ trim algorithm)
      else root_ca_key_wrap e root_key (trim algorithm) s.active_key_version
          (build_root_ca_certificate_pem h (e.draw + 1) e.now "kms-root-ca" (365 * 20))

unfoldable pub load_ca_resume : String → Bytes → VhsmState → Outcome × VhsmState
unfolding load_ca_key
load_ca_resume ca_tag key s = (answered master_key_initialized, load_ca_key ca_tag key s)
