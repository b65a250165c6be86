-- ===== src/Vhsm/Handler.antt =====
-- `handle_request` of crates/vhsm-daemon/src/handler.rs. A request whose arm lets go of the state's
-- lock and takes it again is split there: `start` runs to that point, `resume` from it, each under
-- one hold of the lock. `handle_request` is a request that nothing interrupts.
mod Phase
mod Ceremony
mod DataKeys
mod Authority
unfoldable pub use Phase.*
unfoldable pub use Ceremony.*
unfoldable pub use DataKeys.*
unfoldable pub use Authority.*
use kms_platform.Common.{ℕ, String, List, [], ◌∷◌, Bytes, Result}
use kms_platform.Host.{Host}
use kms_platform.Vhsm.Protocol.{
  HsmRequest, ping, status, generate_ceremony, init_master_key, generate_kek, generate_data_key,
  generate_random_bytes, generate_credential, init_root_ca, load_root_ca, sign_intermediate_ca,
  sign_with_ca_key, generate_root_ca_key, encrypt, decrypt, HsmResponse, pong, status_info,
}
use kms_platform.Vhsm.State.{VhsmState}

module _ (h : Host) where
  unfoldable pub start : Env → HsmRequest → VhsmState → Started
  unfolding ceremony_start unseal_start kek_reply data_key_reply random_reply credential_reply
      encrypt_reply decrypt_reply root_ca_start load_ca_start sign_intermediate_reply sign_reply
      root_ca_key_reply
  start e ping s = reply pong
  start e status s = reply (status_info s.initialized s.active_key_version)
  start e (generate_ceremony threshold total_shares) s = ceremony_start h e threshold total_shares s
  start e (init_master_key threshold shares) s = unseal_start h threshold shares
  start e (generate_kek algorithm) s = reply (kek_reply h e algorithm s)
  start e (generate_data_key wrapped_kek kek_version algorithm) s =
      reply (data_key_reply h e wrapped_kek kek_version algorithm s)
  start e (generate_random_bytes len) s = reply (random_reply h e len)
  start e (generate_credential password_length) s = reply (credential_reply h e password_length s)
  start e (init_root_ca ca_tag common_name validity_days algorithm) s =
      root_ca_start h e common_name validity_days algorithm s
  start e (load_root_ca ca_tag blob) s = load_ca_start h ca_tag blob s
  start e (sign_intermediate_ca ca_tag csr_pem validity_days) s =
      reply (sign_intermediate_reply h e ca_tag csr_pem validity_days s)
  start e (sign_with_ca_key ca_tag algorithm tbs) s = reply (sign_reply h ca_tag algorithm tbs s)
  start e (generate_root_ca_key algorithm) s = reply (root_ca_key_reply h e algorithm s)
  start e (encrypt key_id key_version plaintext) s =
      reply (encrypt_reply h e key_id key_version plaintext s)
  start e (decrypt key_id key_version ciphertext) s =
      reply (decrypt_reply h key_id key_version ciphertext s)

  unfoldable pub resume : Pending → VhsmState → Outcome × VhsmState
  unfolding ceremony_resume unseal_resume root_ca_resume load_ca_resume
  resume (ceremony key shares) s = ceremony_resume key shares s
  resume (unseal key) s = unseal_resume key s
  resume (root_ca draw private_key ca_private_key ca_public_key pem algorithm) s =
      root_ca_resume h draw private_key ca_private_key ca_public_key pem algorithm s
  resume (ca_key ca_tag key) s = load_ca_resume ca_tag key s

  finish : Started → VhsmState → Outcome × VhsmState
  finish (reply r) s = (answered r, s)
  finish (hold p) s = resume p s

  unfoldable pub handle_request : Env → HsmRequest → VhsmState → Outcome × VhsmState
  unfolding start resume finish
  handle_request e request s = finish (start e request s) s

  -- Requests that are handled one after the other.
  unfoldable pub serve : List (Env × HsmRequest) → VhsmState → VhsmState
  unfolding handle_request
  serve [] s = s
  serve ((e, request) ∷ rest) s = serve rest (handle_request e request s).1
