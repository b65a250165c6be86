-- ===== src/Service/Security/Accepted.antt =====
-- The checks of a request before and after the nonce store is asked.
use kms_platform.Common.{
  ◌⊎◌, ◌>>=◌, ℕ, ◌≡◌, ◌≢◌, ◌≤◌, ◌<◌, ◌+◌, String, true, false, List, [], ◌∷◌, Bytes, some, Result,
  ok, err, any, All, ltb, str_eq, if◌then◌else◌, arith, Option-cases, Result-cases, Bool-cases, inl,
  inr,
}
use kms_platform.Service.Errors.{AppError, unauthorized}
use kms_platform.Service.RateLimiter.{InMemoryNonceStore, mark_used, duration}
use kms_platform.Service.Security.{
  Libraries, Settings, Clocks, Request, NonceStore, run_as, rejected, Signed, verify, skew, text_of,
  or_else, parse_timestamp, max_clock_skew_seconds, admit, hmac_security_middleware,
  max_nonce_ttl_seconds, max_hmac_body_size,
}
use kms_platform.Service.Security.Nonces.{
  Remembers, mark_used-Remembers, mark_used-first, admit_state, admit-eq-run_as,
}

abbrev pub in_memory : NonceStore InMemoryNonceStore
in_memory = record { mark_used = mark_used }

module _ (l : Libraries) (c : Settings) where
  -- Requests one after the other.
  abbrev pub serve : List (Clocks × Request) → InMemoryNonceStore → InMemoryNonceStore
  serve [] s = s
  serve ((clocks, r) ∷ rest) s = serve rest (hmac_security_middleware in_memory l c clocks r s).1

  -- A request reaches the nonce store, or it leaves it alone and runs as no one.
  pub middleware-cases :
      (clocks : Clocks) (r : Request) (s : InMemoryNonceStore)
      → ((hmac_security_middleware in_memory l c clocks r s).1 ≡ s)
          × ((name : String) → (hmac_security_middleware in_memory l c clocks r s).0 ≢ run_as name)
        ⊎ ((bytes : Bytes) × (signed : Signed) × (verify l c clocks r bytes ≡ ok signed)
            × (r.body max_hmac_body_size ≡ some bytes)
            × (any (λ p. str_eq p r.path) c.public_endpoints ≡ false)
            × (hmac_security_middleware in_memory l c clocks r s
                ≡ admit signed (mark_used clocks.instant signed.key max_nonce_ttl_seconds s)))
  unfolding hmac_security_middleware
  middleware-cases clocks r s = elim (Option-cases (r.body max_hmac_body_size)) [
    | inl unread ↦ inl (ground (arith, unread), λ name e. ground (arith, unread))
    | inr (bytes, read) ↦ elim (Bool-cases (any (λ p. str_eq p r.path) c.public_endpoints)) [
      | inl exempt ↦ inl (ground (arith, read, exempt), λ name e. ground (arith, read, exempt))
      | inr checked ↦ elim (Result-cases (verify l c clocks r bytes)) [
        | inr (e, bad) ↦
            inl (ground (arith, read, checked, bad), λ name e. ground (arith, read, checked, bad))
        | inl (signed, good) ↦
            inr (bytes, signed, good, read, checked, ground (arith, read, checked, good))
      ]
    ]
  ]

  -- The instant that the timestamp's header gives.
  abbrev pub timestamp_of : Request → Result AppError ℕ
  timestamp_of r = text_of (r.get "X-Timestamp") >>= parse_timestamp l

  -- Of the clocks, a request's checks depend on the skew only.
  pub verify-eq-ok :
      (clocks : Clocks) (r : Request) (bytes : Bytes) (signed : Signed) (at : ℕ)
      → verify l c clocks r bytes ≡ ok signed
      → timestamp_of r ≡ ok at
      → (skew clocks.utc at ≤ 300)
        × ((clocks' : Clocks)
            → verify l c clocks' r bytes ≡ (
                if ltb max_clock_skew_seconds (skew clocks'.utc at)
                then err unauthorized
                else ok signed))
  unfolding verify
  verify-eq-ok clocks r bytes signed at good time =
      elim (Result-cases (text_of (or_else (r.get "X-Service-ID") (r.get "X-Service-Name")))) [
        | inr (e, bad) ↦ absurd (ground arith)
        | inl (name, named) ↦ elim (Result-cases (text_of (r.get "X-Timestamp"))) [
          | inr (e, bad) ↦ absurd (ground arith)
          | inl (text, written) ↦
              let parsed : parse_timestamp l text ≡ ok at = ground (arith, written, time) in
              (ground arith, λ clocks'. ground arith)
        ]
      ]

  pub middleware-Remembers :
      (clocks : Clocks) (r : Request) (key : String) (t : ℕ) (s : InMemoryNonceStore)
      → Remembers key t s
      → clocks.instant ≤ t + duration max_nonce_ttl_seconds
      → Remembers key t (hmac_security_middleware in_memory l c clocks r s).1
  unfolding admit
  middleware-Remembers clocks r key t s known soon = elim (middleware-cases clocks r s) [
    | inl (same, _) ↦ rw same known
    | inr (_, signed, _, _, _, marked) ↦
        let more = mark_used-Remembers clocks.instant t signed.key key s known soon in
        rw marked (
          rw (admit_state signed (mark_used clocks.instant signed.key max_nonce_ttl_seconds s))
            more)
  ]

  pub serve-Remembers :
      (requests : List (Clocks × Request)) (key : String) (t : ℕ) (s : InMemoryNonceStore)
      → Remembers key t s
      → All (λ q. q.0.instant ≤ t + duration max_nonce_ttl_seconds) requests
      → Remembers key t (serve requests s)
  serve-Remembers [] key t s known soon = known
  serve-Remembers ((clocks, r) ∷ rest) key t s known soon =
      serve-Remembers rest key t (hmac_security_middleware in_memory l c clocks r s).1
        (middleware-Remembers clocks r key t s known soon.0) soon.1

  -- A request that ran as someone passed the checks, and its nonce is remembered.
  pub middleware-eq-run_as :
      (clocks : Clocks) (r : Request) (name : String) (s : InMemoryNonceStore)
      → (hmac_security_middleware in_memory l c clocks r s).0 ≡ run_as name
      → (bytes : Bytes) × (signed : Signed) × (verify l c clocks r bytes ≡ ok signed)
        × (r.body max_hmac_body_size ≡ some bytes)
        × (any (λ p. str_eq p r.path) c.public_endpoints ≡ false)
        × (name ≡ signed.service_name)
        × ((mark_used clocks.instant signed.key max_nonce_ttl_seconds s).0 ≡ ok true)
        × Remembers signed.key clocks.instant (hmac_security_middleware in_memory l c clocks r s).1
  unfolding admit
  middleware-eq-run_as clocks r name s ran = elim (middleware-cases clocks r s) [
    | inl (_, not_run) ↦ absurd (not_run name ran)
    | inr (bytes, signed, good, read, checked, marked) ↦
        let mark = mark_used clocks.instant signed.key max_nonce_ttl_seconds s in
        let ran' : (admit signed mark).0 ≡ run_as name = ground (arith, ran, marked) in
        let (named, fresh) = admit-eq-run_as signed name mark ran' in
        (
          bytes,
          signed,
          good,
          read,
          checked,
          named,
          fresh,
          rw marked
              (rw (admit_state signed mark) (mark_used-first clocks.instant signed.key s fresh)),
        )
  ]

  -- A replay at a later time: too old for the clock, or known to the store.
  pub replay :
      (clocks clocks' : Clocks) (r : Request) (bytes : Bytes) (signed : Signed) (at : ℕ)
      (s : InMemoryNonceStore)
      → verify l c clocks r bytes ≡ ok signed
      → timestamp_of r ≡ ok at
      → r.body max_hmac_body_size ≡ some bytes
      → any (λ p. str_eq p r.path) c.public_endpoints ≡ false
      → (300 < skew clocks'.utc at)
        ⊎ ((mark_used clocks'.instant signed.key max_nonce_ttl_seconds s).0 ≡ ok false)
      → (hmac_security_middleware in_memory l c clocks' r s).0 ≡ rejected unauthorized
  unfolding hmac_security_middleware admit
  replay clocks clocks' r bytes signed at s good time read checked (inl old) =
      let (_, again) = verify-eq-ok clocks r bytes signed at good time in
      ground (arith, read, checked, again clocks', old)
  replay clocks clocks' r bytes signed at s good time read checked (inr known) =
      let (_, again) = verify-eq-ok clocks r bytes signed at good time in
      elim (Bool-cases (ltb max_clock_skew_seconds (skew clocks'.utc at))) [
        | inl old ↦ ground (arith, read, checked, again clocks', old)
        | inr recent ↦ ground (arith, read, checked, again clocks', recent, known)
      ]

  pub verify-timestamp_of :
      (clocks : Clocks) (r : Request) (bytes : Bytes) (signed : Signed)
      → verify l c clocks r bytes ≡ ok signed
      → (at : ℕ) × (timestamp_of r ≡ ok at)
  unfolding verify
  verify-timestamp_of clocks r bytes signed good =
      elim (Result-cases (text_of (or_else (r.get "X-Service-ID") (r.get "X-Service-Name")))) [
        | inr (e, bad) ↦ absurd (ground arith)
        | inl (name, named) ↦ elim (Result-cases (text_of (r.get "X-Timestamp"))) [
          | inr (e, bad) ↦ absurd (ground arith)
          | inl (text, written) ↦ elim (Result-cases (parse_timestamp l text)) [
            | inr (e, bad) ↦ absurd (ground arith)
            | inl (at, parsed) ↦ (at, ground (arith, written, parsed))
          ]
        ]
      ]

  -- What passes the checks goes by the store.
  pub middleware-verified :
      (clocks : Clocks) (r : Request) (bytes : Bytes) (signed : Signed) (s : InMemoryNonceStore)
      → verify l c clocks r bytes ≡ ok signed
      → r.body max_hmac_body_size ≡ some bytes
      → any (λ p. str_eq p r.path) c.public_endpoints ≡ false
      → hmac_security_middleware in_memory l c clocks r s
        ≡ admit signed (mark_used clocks.instant signed.key max_nonce_ttl_seconds s)
  unfolding hmac_security_middleware
  middleware-verified clocks r bytes signed s good read checked =
      ground (arith, good, read, checked)
