-- ===== src/Tests/Authority.antt =====
-- Certificates are signed on the service of `Platform`, with a vHSM of one answer.
use kms_platform.Common.{show, arith, ◌≡◌, refl, [], ◌∷◌, ok, err}
use kms_platform.Common.Assoc.{lookup}
use kms_platform.Vhsm.Protocol.{HsmResponse, signed_intermediate, error}
use kms_platform.Vhsm.Frames.{Codec}
use kms_platform.HsmClient.Laws.{served}
use kms_platform.Service.Errors.{hsm_error}
use kms_platform.Service.Acl.{ca_sign_intermediate as may_sign, authorize_control_action}
use kms_platform.Audit.Entries.{ca_sign_intermediate}
use kms_platform.UseCases.{World, Platform}
use kms_platform.UseCases.Steps.{IsLogged}
use kms_platform.UseCases.Authority.{SignIntermediateCaInput, Hsm, context, sign_intermediate_ca}
use kms_platform.UseCases.Authority.Recorded.{
  request, IsCarried, sign_intermediate_ca-unrecorded, sign_intermediate_ca-served,
}
use kms_platform.Tests.Platform.{platform, acl, world}

abbrev authority : Platform
authority = record platform { acl = record acl { actions = ("spire", may_sign ∷ []) ∷ [] } }

abbrev pub certificate : SignIntermediateCaInput
certificate = record {
  caller_service = "spire";
  ca_tag = "root";
  csr_pem = "CSR";
  validity_days = 30;
}

-- The handler gives one answer, and the codec writes it as one byte.
abbrev codec_of : HsmResponse → Codec
codec_of answer = record {
  encode_request = λ r. ok (1 ∷ []);
  decode_request = λ bytes. ok (request certificate);
  encode_response = λ r. ok (2 ∷ []);
  decode_response = λ bytes. ok answer;
}

abbrev pub hsm_of : HsmResponse → Hsm
hsm_of answer = record {
  codec = codec_of answer;
  socket = λ n. served (codec_of answer) (λ r. answer);
  debug_response = λ r. "response";
  len = λ text. 3;
}

carried : (answer : HsmResponse) → IsCarried (hsm_of answer) (λ r. answer) (request certificate)
carried answer = record {
  payload = 1 ∷ [];
  answer = 2 ∷ [];
  written = refl;
  read = refl;
  answered = refl;
  returned = refl;
  small = omega arith;
  brief = omega arith;
}

sign_intermediate_ca-unrecorded_example :
    sign_intermediate_ca authority (hsm_of (error 404 "no CA")) certificate world ≡ (
      err (hsm_error "HSM returned an error: HSM returned error 404: no CA"),
      record world { calls = 3 },
    )
unfolding authorize_control_action lookup show
sign_intermediate_ca-unrecorded_example =
    sign_intermediate_ca-unrecorded authority (hsm_of (error 404 "no CA")) (λ r. error 404 "no CA")
      certificate 404 "no CA" world (λ n. refl) (carried (error 404 "no CA")) refl refl

sign_intermediate_ca-served_example :
    (w' : World) × (sign_intermediate_ca authority
        (hsm_of (signed_intermediate "PEM"))
        certificate
        world
      ≡ (ok (record { certificate_pem = "PEM" }), w'))
    × (w'.keys ≡ world.keys)
    × (w'.cache ≡ world.cache)
    × IsLogged authority
        (context authority (hsm_of (signed_intermediate "PEM")) "spire" 3)
        ca_sign_intermediate
        world.audit
        w'.audit
unfolding authorize_control_action lookup
sign_intermediate_ca-served_example =
    sign_intermediate_ca-served authority (hsm_of (signed_intermediate "PEM"))
      (λ r. signed_intermediate "PEM") certificate "PEM" world (λ n. refl) (λ n. refl)
      (carried (signed_intermediate "PEM")) refl refl
