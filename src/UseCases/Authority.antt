-- ===== src/UseCases/Authority.antt =====
-- The signing of an intermediate certificate: crates/kms-service/src/hsm/client.rs and
-- crates/kms-service/src/application/use_cases/sign_intermediate_ca.rs. The vHSM stands behind one
-- socket a call.
pub mod Recorded
use Prim.Native.String.{◌++◌}
use kms_platform.Common.{ℕ, String, [], ◌∷◌, none, some, Result, ok, map_err, show, if◌then◌else◌}
use kms_platform.Vhsm.Protocol.{
  HsmRequest, HsmResponse, sign_intermediate_ca as sign_request, signed_intermediate, error,
}
use kms_platform.Vhsm.Frames.{Codec}
use kms_platform.HsmClient.{
  HsmClientError, io, timeout, invalid_frame, invalid_response, serialization, remote, Socket,
}
use kms_platform.HsmClient
use kms_platform.Service.Errors.{AppError, forbidden, crypto_error, validation_error, hsm_error}
use kms_platform.Service.Acl.{authorize_control_action, ca_sign_intermediate as may_sign}
use kms_platform.Audit.Details.{Value, string, number}
use kms_platform.Audit.Entries.{RequestContext, ca_sign_intermediate}
use kms_platform.UseCases.{
  Platform, Action, proceed, ◌>>=◌, ◌>>◌, pure, raise, call, record_log, record_success,
  record_failure, record_access_denied, json,
}

pub record SignIntermediateCaInput : Type 0 where
  pub caller_service : String
  pub ca_tag : String
  pub csr_pem : String
  pub validity_days : ℕ

pub record SignIntermediateCaOutput : Type 0 where
  pub certificate_pem : String

-- The socket of each call, the text of an answer under `{:?}`, and the bytes of a text.
pub record Hsm : Type 0 where
  pub codec : Codec
  pub socket : ℕ → Socket
  pub debug_response : HsmResponse → String
  pub len : String → ℕ

-- `Display` of the client's errors.
abbrev pub display : HsmClientError → String
display io = "connection to HSM failed"
display timeout = "HSM request timed out"
display invalid_frame = "HSM frame is invalid"
display invalid_response = "HSM response was invalid"
display (serialization _) = "serializing HSM request failed"
display (remote message) = "HSM returned an error: " ++ message

module _ (p : Platform) (hsm : Hsm) where
  -- `crate::hsm::client::send_hsm_request`
  unfoldable pub send_hsm_request : HsmRequest → Action HsmResponse
  unfolding HsmClient.send_hsm_request
  send_hsm_request req = call (λ n.
      map_err (λ e. hsm_error (display e))
        (HsmClient.send_hsm_request hsm.codec (hsm.socket n) req))

  -- The context of an entry, under a new identifier.
  abbrev pub context : String → ℕ → RequestContext
  context caller n = record {
    operation_id = p.texts.show_uuid (p.uuid n);
    nonce = none;
    actor_id = caller;
    ip = none;
    user_agent = none;
  }

  -- A failure is recorded and raised.
  unfoldable pub sign_failed : String → String → AppError → Action SignIntermediateCaOutput
  unfolding record_log
  sign_failed caller detail e = do
    ctx ← call (λ n. ok (context caller n))
    _ ← record_failure p ctx ca_sign_intermediate detail
    raise e

  -- What is recorded of a certificate.
  abbrev pub signed_details : SignIntermediateCaInput → String → Value
  signed_details input certificate_pem = json (
      ("ca_tag", string input.ca_tag)
      ∷ ("validity_days", number (show input.validity_days))
      ∷ ("csr_pem_len", number (show (hsm.len input.csr_pem)))
      ∷ ("certificate_pem_len", number (show (hsm.len certificate_pem)))
      ∷ [])

  unfoldable pub take_signed :
      SignIntermediateCaInput → HsmResponse → Action SignIntermediateCaOutput
  unfolding sign_failed
  take_signed input (signed_intermediate certificate_pem) = do
    ctx ← call (λ n. ok (context input.caller_service n))
    _ ← record_success p ctx ca_sign_intermediate (some (signed_details input certificate_pem))
    pure (record { certificate_pem = certificate_pem })
  take_signed input (error code message) =
      let detail = "HSM error " ++ (show code ++ (": " ++ message)) in
      sign_failed input.caller_service detail (crypto_error detail)
  take_signed input other =
      let detail = "Unexpected HSM response: " ++ hsm.debug_response other in
      sign_failed input.caller_service detail (validation_error detail)

  unfoldable pub sign_intermediate_ca : SignIntermediateCaInput → Action SignIntermediateCaOutput
  unfolding send_hsm_request take_signed authorize_control_action
  sign_intermediate_ca input =
      if authorize_control_action p.acl input.caller_service may_sign
      then send_hsm_request (sign_request input.ca_tag input.csr_pem input.validity_days)
        >>= take_signed input
      else call (λ n. ok (context input.caller_service n)) >>= (λ ctx.
        record_access_denied p ctx ca_sign_intermediate
          "ACL policy violation for CA_SIGN_INTERMEDIATE"
        >> raise forbidden)
