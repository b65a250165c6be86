-- ===== src/Vhsm/Chain.antt =====
-- From `InitRootCa` over `LoadRootCa` to `SignWithCaKey`: the key that signs is the certified one.
use kms_platform.Common.{
  ℕ, ◌≡◌, ◌+◌, ◌∙◌, refl, String, true, List, Bytes, Option, Result, ok, length, arith, inl, inr,
  some, Option-cases, Result-cases, eq_refl,
}
use kms_platform.Common.Assoc.{lookup, lookup-insert}
use kms_platform.Host.{Host, RcgenCertificate}
use kms_platform.Host.Laws.{HasAead, HasScalars}
use kms_platform.Vhsm.Protocol.{
  HsmRequest, init_root_ca, load_root_ca, sign_with_ca_key, root_ca_key_generated,
  master_key_initialized, signature,
}
use kms_platform.Vhsm.State.{VhsmState}
use kms_platform.Vhsm.Crypto.{encrypt_bytes, decrypt_bytes}
use kms_platform.Vhsm.Crypto.Laws.{decrypt_bytes-encrypt_bytes}
use kms_platform.Vhsm.Certificate.{build_root_ca_certificate_pem, root_ca_params, root_ca_parts}
use kms_platform.Vhsm.Handler.{Env, answered, handle_request, serve}
use kms_platform.Vhsm.Secrets.{KeepsKey, handle_request-IsSameKey, serve-IsSameKey}

module _ (h : Host) where
  answer-eq :
      (key' key point : Bytes) (pem' pem : String)
      → ◌≡◌ {A = Result String (Bytes × Bytes × String)}
          (ok (key', h.public_point key', pem'))
          (ok (key, point, pem))
      → (length key' ≡ 32) × (h.is_scalar key' ≡ true)
      → (point ≡ h.public_point key) × (length key ≡ 32) × (h.is_scalar key ≡ true)
  answer-eq key' key point pem' pem e (size, valid) = let same : key' ≡ key = cc in (cc, cc, cc)

  parts-IsScalar :
      (cert : RcgenCertificate) (pem : String) (key point : Bytes)
      → HasScalars h
      → root_ca_parts h cert ≡ ok (key, point, pem)
      → (point ≡ h.public_point key) × (length key ≡ 32) × (h.is_scalar key ≡ true)
  unfolding root_ca_parts
  parts-IsScalar cert pem key point laws made = elim (Result-cases cert.pem) [
    | inr (m, bad) ↦ absurd (ground arith)
    | inl (pem', written) ↦ elim (Result-cases (h.from_pkcs8_der cert.private_key_der)) [
      | inr (m, bad) ↦ absurd (ground arith)
      | inl (key', parsed) ↦
          answer-eq key' key point pem' pem (ground arith)
            (laws.scalar cert.private_key_der key' parsed)
    ]
  ]

  build-IsScalar :
      (draw now days : ℕ) (name pem : String) (key point : Bytes)
      → HasScalars h
      → build_root_ca_certificate_pem h draw now name days ≡ ok (key, point, pem)
      → (point ≡ h.public_point key) × (length key ≡ 32) × (h.is_scalar key ≡ true)
  unfolding build_root_ca_certificate_pem
  build-IsScalar draw now days name pem key point laws made =
      elim (Result-cases
        (h.certificate_from_params (draw + 1) (root_ca_params h draw now name days))) [
          | inr (m, bad) ↦ absurd (ground arith)
          | inl (cert, signed) ↦ parts-IsScalar cert pem key point laws (ground arith)
        ]

  init-eq-generated :
      (e : Env) (tag name algorithm algorithm' : String) (days version : ℕ) (blob point : Bytes)
      (pem : Option String) (s : VhsmState)
      → HasAead h
      → HasScalars h
      → (handle_request h e (init_root_ca tag name days algorithm) s).0
        ≡ answered (root_ca_key_generated blob point version algorithm' pem)
      → (root : Bytes) × (key : Bytes) × (s.master_key ≡ some root)
        × (decrypt_bytes h root blob ≡ ok key)
        × (point ≡ h.public_point key)
        × (length key ≡ 32)
        × (h.is_scalar key ≡ true)
  unfolding handle_request
  init-eq-generated e tag name algorithm algorithm' days version blob point pem s laws scalars a =
      elim (Option-cases s.master_key) [
        | inl shut ↦ absurd (ground arith)
        | inr (root, found) ↦
            elim (Result-cases (build_root_ca_certificate_pem h (e.draw + 1) e.now name days)) [
              | inr (m, bad) ↦ absurd (ground arith)
              | inl ((key, point', pem'), built) ↦
                  let (at_point, size, valid) =
                    build-IsScalar (e.draw + 1) e.now days name pem' key point' scalars built in
                  elim (Result-cases (encrypt_bytes h (e.draw + 4) root key)) [
                    | inr (m, bad) ↦ absurd (ground arith)
                    | inl (sealed, made) ↦ (
                      root,
                      key,
                      found,
                      decrypt_bytes-encrypt_bytes h laws (e.draw + 4) root key blob (ground arith),
                      ground arith,
                      size,
                      valid,
                    )
                  ]
            ]
      ]

  load-answers :
      (e : Env) (tag : String) (blob root key : Bytes) (s : VhsmState)
      → s.master_key ≡ some root
      → decrypt_bytes h root blob ≡ ok key
      → ((handle_request h e (load_root_ca tag blob) s).0 ≡ answered master_key_initialized)
        × (lookup tag (handle_request h e (load_root_ca tag blob) s).1.active_ca_keys ≡ some key)
  unfolding handle_request
  load-answers e tag blob root key s found opened =
      (ground arith, ground (arith, lookup-insert tag tag key s.active_ca_keys, eq_refl tag))

  sign-answers :
      (e : Env) (tag : String) (tbs key : Bytes) (s : VhsmState)
      → lookup tag s.active_ca_keys ≡ some key
      → length key ≡ 32
      → h.is_scalar key ≡ true
      → (handle_request h e (sign_with_ca_key tag "ECDSA_P256" tbs) s).0
        ≡ answered (signature (h.sign key tbs))
  unfolding handle_request
  sign-answers e tag tbs key s found size valid = ground arith

-- The root CA chain. When `InitRootCa` has answered with a blob and a public key, `LoadRootCa` on
-- that blob is answered, and `SignWithCaKey` under its tag then signs with the private key of that
-- public key, whatever requests but `InitMasterKey` have come between the first two.
pub chain_signs_with_certified_key :
    (h : Host) (e e' e'' : Env) (tag tag' name algorithm algorithm' : String) (days version : ℕ)
    (blob point tbs : Bytes) (pem : Option String) (s : VhsmState)
    (between : List (Env × HsmRequest))
    → HasAead h
    → HasScalars h
    → s.initialized ≡ true
    → KeepsKey between
    → (handle_request h e (init_root_ca tag name days algorithm) s).0
      ≡ answered (root_ca_key_generated blob point version algorithm' pem)
    → let s1 = serve h between (handle_request h e (init_root_ca tag name days algorithm) s).1 in
      let load = handle_request h e' (load_root_ca tag' blob) s1 in
      (key : Bytes) × (point ≡ h.public_point key)
      × (load.0 ≡ answered master_key_initialized)
      × ((handle_request h e'' (sign_with_ca_key tag' "ECDSA_P256" tbs) load.1).0
          ≡ answered (signature (h.sign key tbs)))
chain_signs_with_certified_key h e e' e'' tag tag' name algorithm algorithm' days version blob point
      tbs pem s between laws scalars ready keeps answer =
    let request = init_root_ca tag name days algorithm in
    let (root, key, found, opened, at_point, size, valid) =
      init-eq-generated h e tag name algorithm algorithm' days version blob point pem s laws scalars
        answer in
    let first = handle_request-IsSameKey h e request s refl ready in
    let after = (handle_request h e request s).1 in
    let late = serve-IsSameKey h between after keeps first.initialized in
    let s1 = serve h between after in
    let (loaded, held) =
      load-answers h e' tag' blob root key s1 (late.key ∙ first.key ∙ found) opened in
    (
      key,
      at_point,
      loaded,
      sign-answers h e'' tag' tbs key (handle_request h e' (load_root_ca tag' blob) s1).1 held size
          valid,
    )
