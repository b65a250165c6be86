-- ===== src/UseCases/Refusals.antt =====
-- What a caller without rights gets.
use kms_platform.Common.{◌+◌, ◌≡◌, false, String, Result, err, Bool-cases, inl, inr}
use kms_platform.Service.Errors.{AppError, unauthorized, forbidden, validation_error}
use kms_platform.Service.Crypto.{KeyAlgorithm, ed25519, algorithm_eq}
use kms_platform.Service.Acl.{
  ControlAction, ca_sign_intermediate as may_sign, rotate_own_keys, rotate_all_keys, generate_keys,
  KeyAccessLevel, private_key, symmetric_key, generate_data_key as data_key_access,
  authorize_control_action, authorize_key_access,
}
use kms_platform.Audit.Entries.{
  RequestContext, key_rotated, generate_key, get_private_key as private_key_read,
  get_symmetric_key as symmetric_key_read, generate_data_key as data_key_made,
  sign_data as data_signed, ca_sign_intermediate, access_denied_log, validation_failure_log,
}
use kms_platform.UseCases.{World, Platform, proceed}
use kms_platform.UseCases.Rotate.{RotateKeyInput, required_action, rotate_key}
use kms_platform.UseCases.Generate.{
  GenerateKeyPairInput, has_generate_permission, generate_key_pair,
}
use kms_platform.UseCases.Fetch.{KeyRequest, fetch, get_private_key, get_symmetric_key}
use kms_platform.UseCases.Sign.{SignDataInput, sign_data}
use kms_platform.UseCases.DataKeys.{generate_data_key}
use kms_platform.UseCases.Authority.{
  SignIntermediateCaInput, SignIntermediateCaOutput, Hsm, context, sign_intermediate_ca,
}
use kms_platform.UseCases.Steps.{IsQuiet, refused}

-- An error, with keys and cache as before.
abbrev pub IsRefused : {A : Type 0} → World → Result AppError A × World → Type 0
IsRefused w r = (reason : AppError) × (r.0 ≡ err reason) × IsQuiet w r.1

abbrev pub request_by : String → String → KeyAlgorithm → KeyRequest
request_by caller target algorithm = record {
  caller_service = caller;
  target_service = target;
  algorithm = algorithm;
}

module _ (p : Platform) (ctx : RequestContext) (caller : String)
    (no_action : (action : ControlAction) → authorize_control_action p.acl caller action ≡ false)
    (no_access : (target : String) (algorithm : KeyAlgorithm) (level : KeyAccessLevel)
      → authorize_key_access p.acl caller target algorithm level ≡ false)
    (w : World) where
  rotate_key-IsRefused :
      (input : RotateKeyInput)
      → IsRefused w (rotate_key p ctx (record input { caller_service = caller }) w)
  unfolding rotate_key
  rotate_key-IsRefused input =
      rw (no_action (required_action (record input { caller_service = caller }))) (
        refused p
          (λ id now. access_denied_log p.texts id now ctx key_rotated "ACL Policy Violation")
          unauthorized w)

  generate_key_pair-IsRefused :
      (input : GenerateKeyPairInput)
      → IsRefused w (generate_key_pair p ctx (record input { caller_service = caller }) w)
  unfolding generate_key_pair has_generate_permission
  generate_key_pair-IsRefused input =
      rw (no_action generate_keys, no_action rotate_own_keys, no_action rotate_all_keys)
        (refused p
          (λ id now.
            access_denied_log p.texts id now ctx generate_key
              "ACL Policy Violation for GenerateKey")
          unauthorized w)

  get_private_key-IsRefused :
      (target : String) (algorithm : KeyAlgorithm)
      → IsRefused w (get_private_key p ctx (request_by caller target algorithm) w)
  unfolding get_private_key fetch
  get_private_key-IsRefused target algorithm = rw (no_access target algorithm private_key) (
      refused p
        (λ id now. access_denied_log p.texts id now ctx private_key_read "ACL Policy Violation")
        unauthorized w)

  get_symmetric_key-IsRefused :
      (target : String) (algorithm : KeyAlgorithm)
      → IsRefused w (get_symmetric_key p ctx (request_by caller target algorithm) w)
  unfolding get_symmetric_key fetch
  get_symmetric_key-IsRefused target algorithm = rw (no_access target algorithm symmetric_key) (
      refused p
        (λ id now.
          access_denied_log p.texts id now ctx symmetric_key_read
            "ACL Policy Violation for Symmetric Key")
        unauthorized w)

  generate_data_key-IsRefused :
      (algorithm : KeyAlgorithm) → IsRefused w (generate_data_key p ctx caller algorithm w)
  unfolding generate_data_key
  generate_data_key-IsRefused algorithm = rw (no_access caller algorithm data_key_access) (
      refused p
        (λ id now.
          access_denied_log p.texts id now ctx data_key_made
            "ACL Policy Violation for GenerateDataKey")
        unauthorized w)

  sign_data-IsRefused :
      (input : SignDataInput)
      → IsRefused w (sign_data p ctx (record input { caller_service = caller }) w)
  unfolding sign_data
  sign_data-IsRefused input = elim (Bool-cases (algorithm_eq input.algorithm ed25519)) [
    | inl right ↦
        rw (right, no_access input.target_service input.algorithm private_key)
          (refused p
            (λ id now. access_denied_log p.texts id now ctx data_signed "ACL Policy Violation")
            unauthorized w)
    | inr other ↦ rw other (
        refused p
          (λ id now.
            validation_failure_log p.texts id now ctx data_signed
              "Only Ed25519 signing is supported")
          (validation_error "Signing endpoint supports only Ed25519 keys") w)
  ]

  sign_intermediate_ca-IsRefused :
      (hsm : Hsm) (input : SignIntermediateCaInput)
      → IsRefused w (sign_intermediate_ca p hsm (record input { caller_service = caller }) w)
  unfolding sign_intermediate_ca proceed
  sign_intermediate_ca-IsRefused hsm input =
      let w1 = record w { calls = w.calls + 3 } in
      let (reason, failed, quiet) =
        refused p {A = SignIntermediateCaOutput}
          (λ id now.
            access_denied_log p.texts id now (context p hsm caller w.calls) ca_sign_intermediate
              "ACL policy violation for CA_SIGN_INTERMEDIATE")
          forbidden w1 in
      rw (no_action may_sign) (reason, failed, record { keys = quiet.keys; cache = quiet.cache })

-- A caller that the rules give no action and no access gets an error from each of these use cases,
-- and neither the keys nor the cache change: the rotation of a key, the generation of a key pair, the
-- signing of data, the generation of a data key, the reading of a private and of a symmetric key, and
-- the signing of an intermediate certificate.
pub stranger-IsRefused :
    (p : Platform) (ctx : RequestContext) (caller : String) (w : World) (rotation : RotateKeyInput)
    (generation : GenerateKeyPairInput) (signing : SignDataInput) (target : String)
    (algorithm : KeyAlgorithm) (hsm : Hsm) (certificate : SignIntermediateCaInput)
    → ((action : ControlAction) → authorize_control_action p.acl caller action ≡ false)
    → ((target : String) (algorithm : KeyAlgorithm) (level : KeyAccessLevel)
        → authorize_key_access p.acl caller target algorithm level ≡ false)
    → IsRefused w (rotate_key p ctx (record rotation { caller_service = caller }) w)
      × IsRefused w (generate_key_pair p ctx (record generation { caller_service = caller }) w)
      × IsRefused w (sign_data p ctx (record signing { caller_service = caller }) w)
      × IsRefused w (generate_data_key p ctx caller algorithm w)
      × IsRefused w (get_private_key p ctx (request_by caller target algorithm) w)
      × IsRefused w (get_symmetric_key p ctx (request_by caller target algorithm) w)
      × IsRefused w (sign_intermediate_ca p hsm (record certificate { caller_service = caller }) w)
stranger-IsRefused p ctx caller w rotation generation signing target algorithm hsm certificate
      no_action no_access =
    (
      rotate_key-IsRefused p ctx caller no_action no_access w rotation,
      generate_key_pair-IsRefused p ctx caller no_action no_access w generation,
      sign_data-IsRefused p ctx caller no_action no_access w signing,
      generate_data_key-IsRefused p ctx caller no_action no_access w algorithm,
      get_private_key-IsRefused p ctx caller no_action no_access w target algorithm,
      get_symmetric_key-IsRefused p ctx caller no_action no_access w target algorithm,
      sign_intermediate_ca-IsRefused p ctx caller no_action no_access w hsm certificate,
    )
