-- ===== src/Service/Security/Authentic.antt =====
-- What a request that is run as a service has shown.
use kms_platform.Common.{
  ℕ, ◌≡◌, ◌≤◌, String, true, false, Bytes, some, ok, any, str_eq, eq_iff, arith, Option-cases,
  Result-cases, Bool-cases, inl, inr, ◌∙◌,
}
use kms_platform.Common.Assoc.{lookup}
use kms_platform.Service.Security.{
  Libraries, Settings, Clocks, Request, NonceStore, run_as, Signed, verify, verify_signature, skew,
  text_of, or_else, parse_timestamp, canonical_payload, nonce_key, hmac_security_middleware, admit,
  max_hmac_body_size, max_nonce_ttl_seconds,
}
use kms_platform.Service.Security.Nonces.{admit-eq-run_as}

-- The secret of the service signs the request with its nonce and its timestamp.
pub record IsSignedBy (l : Libraries) (c : Settings) (r : Request) (bytes : Bytes)
    (name timestamp nonce : String) : Type 0 where
  pub secret : Bytes
  pub known : lookup name c.secrets ≡ some secret
  pub signature : String
  pub given :
      text_of
        (or_else (or_else (r.get "X-Signature") (r.get "x-signature")) (r.get "X-HMAC-Signature"))
      ≡ ok signature
  pub code :
      l.hmac_hex secret (canonical_payload r timestamp nonce (l.sha256_hex bytes)) ≡ some signature

module _ (l : Libraries) (c : Settings) where
  verify_signature-eq-ok :
      (r : Request) (bytes : Bytes) (name timestamp : String) (signed : Signed)
      → verify_signature l c r bytes name timestamp ≡ ok signed
      → (nonce : String) × (text_of (or_else (r.get "X-Nonce") (r.get "x-nonce")) ≡ ok nonce)
        × IsSignedBy l c r bytes name timestamp nonce
        × (signed.service_name ≡ name)
        × (signed.key ≡ nonce_key name nonce timestamp)
  unfolding verify_signature
  verify_signature-eq-ok r bytes name timestamp signed good =
      elim (Result-cases (text_of (or_else (r.get "X-Nonce") (r.get "x-nonce")))) [
        | inr (e, bad) ↦ absurd (ground arith)
        | inl (nonce, has_nonce) ↦
            elim (Result-cases (
              text_of (
                or_else (or_else (r.get "X-Signature") (r.get "x-signature"))
                  (r.get "X-HMAC-Signature")))) [
                    | inr (e, bad) ↦ absurd (ground arith)
                    | inl (given, has_signature) ↦ elim (Option-cases (lookup name c.secrets)) [
                      | inl unknown ↦ absurd (ground arith)
                      | inr (secret, known) ↦
                          elim (Option-cases (
                            l.hmac_hex secret
                              (canonical_payload r timestamp nonce (l.sha256_hex bytes)))) [
                                | inl bad ↦ absurd (ground arith)
                                | inr (expected, coded) ↦
                                    let same : str_eq given expected ≡ true = ground arith in
                                    (
                                      nonce,
                                      has_nonce,
                                      record {
                                        secret = secret;
                                        known = known;
                                        signature = given;
                                        given = has_signature;
                                        code = rw ((eq_iff given expected).0 same) coded;
                                      },
                                      ground arith,
                                      ground arith,
                                    )
                              ]
                    ]
                  ]
      ]

  verify-eq-ok :
      (clocks : Clocks) (r : Request) (bytes : Bytes) (signed : Signed)
      → verify l c clocks r bytes ≡ ok signed
      → (name : String) × (timestamp : String) × (at : ℕ) × (text_of
            (or_else (r.get "X-Service-ID") (r.get "X-Service-Name"))
          ≡ ok name)
        × (text_of (r.get "X-Timestamp") ≡ ok timestamp)
        × (parse_timestamp l timestamp ≡ ok at)
        × (skew clocks.utc at ≤ 300)
        × (verify_signature l c r bytes name timestamp ≡ ok signed)
  unfolding verify
  verify-eq-ok clocks r bytes signed good =
      elim (Result-cases (text_of (or_else (r.get "X-Service-ID") (r.get "X-Service-Name")))) [
        | inr (e, bad) ↦ absurd (ground arith)
        | inl (name, named) ↦ elim (Result-cases (text_of (r.get "X-Timestamp"))) [
          | inr (e, bad) ↦ absurd (ground arith)
          | inl (timestamp, written) ↦ elim (Result-cases (parse_timestamp l timestamp)) [
            | inr (e, bad) ↦ absurd (ground arith)
            | inl (at, parsed) ↦
                let rest : verify_signature l c r bytes name timestamp ≡ ok signed = ground arith in
                (name, timestamp, at, named, written, parsed, ground arith, rest)
          ]
        ]
      ]

-- A request that is run as a service, with any nonce store, is not on a public path and was read
-- whole; its headers name that service, a timestamp within 300 s of the clock and a nonce; it is
-- signed with the secret of the service over its method, path, this timestamp, this nonce and the hash
-- of its body; and the store took the service, this nonce and this timestamp together as new.
pub run_as_authentic :
    {S : Type 0} (store : NonceStore S) (l : Libraries) (c : Settings) (clocks : Clocks)
    (r : Request) (name : String) (s : S)
    → (hmac_security_middleware store l c clocks r s).0 ≡ run_as name
    → (bytes : Bytes) × (timestamp : String) × (nonce : String) × (at : ℕ) × (r.body
          max_hmac_body_size
        ≡ some bytes)
      × (any (λ p. str_eq p r.path) c.public_endpoints ≡ false)
      × (text_of (or_else (r.get "X-Service-ID") (r.get "X-Service-Name")) ≡ ok name)
      × (text_of (r.get "X-Timestamp") ≡ ok timestamp)
      × (text_of (or_else (r.get "X-Nonce") (r.get "x-nonce")) ≡ ok nonce)
      × (parse_timestamp l timestamp ≡ ok at)
      × (skew clocks.utc at ≤ 300)
      × IsSignedBy l c r bytes name timestamp nonce
      × ((store.mark_used clocks.instant (nonce_key name nonce timestamp) max_nonce_ttl_seconds s).0
          ≡ ok true)
unfolding hmac_security_middleware admit
run_as_authentic store l c clocks r name s ran = elim (Option-cases (r.body max_hmac_body_size)) [
  | inl unread ↦ absurd (ground (arith, unread))
  | inr (bytes, read) ↦ elim (Bool-cases (any (λ p. str_eq p r.path) c.public_endpoints)) [
    | inl exempt ↦ absurd (ground (arith, read, exempt))
    | inr checked ↦ elim (Result-cases (verify l c clocks r bytes)) [
      | inr (e, bad) ↦ absurd (ground (arith, read, checked, bad))
      | inl (signed, good) ↦
          let (owner, timestamp, at, titled, written, parsed, recent, rest) =
            verify-eq-ok l c clocks r bytes signed good in
          let (nonce, sent, authentic, owned, keyed) =
            verify_signature-eq-ok l c r bytes owner timestamp signed rest in
          let mark = store.mark_used clocks.instant signed.key max_nonce_ttl_seconds s in
          let admitted : (admit signed mark).0 ≡ run_as name =
            ground (arith, ran, read, checked, good) in
          let (named, fresh) = admit-eq-run_as signed name mark admitted in
          let same : name ≡ owner = named ∙ owned in
          (
            bytes,
            timestamp,
            nonce,
            at,
            read,
            checked,
            rw same titled,
            written,
            sent,
            parsed,
            recent,
            rw same authentic,
            rw same (rw (← keyed) fresh),
          )
    ]
  ]
]
