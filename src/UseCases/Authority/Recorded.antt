-- ===== src/UseCases/Authority/Recorded.antt =====
-- What the signing of an intermediate certificate gives and records, with the vHSM's handler on the
-- other side of the socket.
use Prim.Native.String.{◌++◌}
use kms_platform.Common.{ℕ, ◌+◌, ◌≤◌, ◌≡◌, refl, true, String, Bytes, some, ok, err, length, show}
use kms_platform.Vhsm.Protocol.{
  HsmRequest, HsmResponse, sign_intermediate_ca as sign_request, signed_intermediate, error,
}
use kms_platform.Vhsm.Frames.{max_payload_size}
use kms_platform.HsmClient.{refuse_error}
use kms_platform.HsmClient.Laws.{served, send_hsm_request-served}
use kms_platform.Service.Errors.{hsm_error}
use kms_platform.Service.Acl.{authorize_control_action, ca_sign_intermediate as may_sign}
use kms_platform.Audit.Entries.{ca_sign_intermediate, success_log, log_of, new_entry, record_entry}
use kms_platform.UseCases.{World, Platform, proceed, record_log}
use kms_platform.UseCases.Steps.{IsLogged}
use kms_platform.UseCases.Authority.{
  SignIntermediateCaInput, Hsm, send_hsm_request, context, signed_details, take_signed,
  sign_intermediate_ca,
}

abbrev pub request : SignIntermediateCaInput → HsmRequest
request input = sign_request input.ca_tag input.csr_pem input.validity_days

-- The texts of a request and of its answer: they have at most 64 KiB and are read back as they were
-- written.
pub record IsCarried (hsm : Hsm) (handle : HsmRequest → HsmResponse) (r : HsmRequest) : Type 0 where
  pub payload : Bytes
  pub answer : Bytes
  pub written : hsm.codec.encode_request r ≡ ok payload
  pub read : hsm.codec.decode_request payload ≡ ok r
  pub answered : hsm.codec.encode_response (handle r) ≡ ok answer
  pub returned : hsm.codec.decode_response answer ≡ ok (handle r)
  pub small : length payload ≤ max_payload_size
  pub brief : length answer ≤ max_payload_size

-- A caller who may sign, the vHSM behind the socket, and an error of its handler: the error is
-- returned as an error of the vHSM, and no entry of the failure is recorded: the state is as before,
-- but for the number of calls.
pub sign_intermediate_ca-unrecorded :
    (p : Platform) (hsm : Hsm) (handle : HsmRequest → HsmResponse) (input : SignIntermediateCaInput)
    (code : ℕ) (message : String) (w : World)
    → ((n : ℕ) → hsm.socket n ≡ served hsm.codec handle)
    → IsCarried hsm handle (request input)
    → authorize_control_action p.acl input.caller_service may_sign ≡ true
    → handle (request input) ≡ error code message
    → sign_intermediate_ca p hsm input w ≡ (
      err (
          hsm_error (
            "HSM returned an error: "
            ++ ("HSM returned error " ++ (show code ++ (": " ++ message))))),
      record w { calls = w.calls + 3 },
    )
unfolding sign_intermediate_ca send_hsm_request refuse_error proceed
sign_intermediate_ca-unrecorded p hsm handle input code message w behind c allowed failed =
    rw
      (
        allowed,
        behind w.calls,
        send_hsm_request-served hsm.codec handle (request input) c.payload c.answer c.written c.read
            c.answered c.returned c.small c.brief,
        failed,
      )
      refl

-- A certificate is recorded where the database answers, and returned.
take_signed-signed :
    (p : Platform) (hsm : Hsm) (input : SignIntermediateCaInput) (pem : String) (w : World)
    → ((n : ℕ) → p.database_up n ≡ true)
    → (w' : World) × (take_signed p hsm input (signed_intermediate pem) w
        ≡ (ok (record { certificate_pem = pem }), w'))
      × (w'.keys ≡ w.keys)
      × (w'.cache ≡ w.cache)
      × IsLogged p
          (context p hsm input.caller_service w.calls)
          ca_sign_intermediate
          w.audit
          w'.audit
unfolding take_signed proceed record_log success_log log_of new_entry
take_signed-signed p hsm input pem w up =
    let n = w.calls + 3 in
    let log =
      success_log p.texts (p.uuid n) (p.now n) (context p hsm input.caller_service w.calls)
        ca_sign_intermediate (some (signed_details p hsm input pem)) in
    (
      record w { audit = record_entry p.libraries p.texts log w.audit; calls = n + 1 },
      rw (up n) refl,
      refl,
      refl,
      record { log = log; of_action = refl; of_caller = refl; of_status = refl; appended = refl },
    )

-- A caller who may sign, the vHSM behind the socket, its handler's certificate, and a database that
-- answers: the certificate is returned, one entry of the success is recorded under the caller's
-- name, and keys and cache do not change.
pub sign_intermediate_ca-served :
    (p : Platform) (hsm : Hsm) (handle : HsmRequest → HsmResponse) (input : SignIntermediateCaInput)
    (pem : String) (w : World)
    → ((n : ℕ) → p.database_up n ≡ true)
    → ((n : ℕ) → hsm.socket n ≡ served hsm.codec handle)
    → IsCarried hsm handle (request input)
    → authorize_control_action p.acl input.caller_service may_sign ≡ true
    → handle (request input) ≡ signed_intermediate pem
    → (w' : World) × (sign_intermediate_ca p hsm input w
        ≡ (ok (record { certificate_pem = pem }), w'))
      × (w'.keys ≡ w.keys)
      × (w'.cache ≡ w.cache)
      × IsLogged p
          (context p hsm input.caller_service (w.calls + 3))
          ca_sign_intermediate
          w.audit
          w'.audit
unfolding sign_intermediate_ca send_hsm_request refuse_error proceed
sign_intermediate_ca-served p hsm handle input pem w up behind c allowed signed =
    let w1 = record w { calls = w.calls + 3 } in
    let (w', given, keys, cache, logged) = take_signed-signed p hsm input pem w1 up in
    (
      w',
      rw
          (
            allowed,
            behind w.calls,
            send_hsm_request-served hsm.codec handle (request input) c.payload c.answer c.written
                c.read c.answered c.returned c.small c.brief,
            signed,
            given,
          )
          refl,
      keys,
      cache,
      logged,
    )
