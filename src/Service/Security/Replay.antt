-- ===== src/Service/Security/Replay.antt =====
-- Replayed requests, with the nonce store in memory.
use kms_platform.Common.{
  ℕ, ◌≡◌, ◌≤◌, ◌<◌, ◌+◌, String, List, ok, All, All-map, lt_or_le, arith, inl, inr,
}
use kms_platform.Service.Errors.{unauthorized}
use kms_platform.Service.RateLimiter.{InMemoryNonceStore, new_store, mark_used, duration}
use kms_platform.Service.Security.{
  Libraries, Settings, Clocks, Request, run_as, rejected, verify, skew, hmac_security_middleware,
  max_nonce_ttl_seconds,
}
use kms_platform.Service.Security.Nonces.{mark_used-again, mark_used-expired, admit_state, admit-ok}
use kms_platform.Service.Security.Accepted.{
  in_memory, serve, timestamp_of, verify-eq-ok, verify-timestamp_of, serve-Remembers,
  middleware-eq-run_as, middleware-verified, replay,
}

abbrev nonce_ttl : ℕ
nonce_ttl = duration max_nonce_ttl_seconds

-- A request that has been run as a service is refused while its nonce is kept, which is 300 s by
-- the monotonic clock, whatever requests come in between within that time.
pub replay_refused_within_ttl :
    (l : Libraries) (c : Settings) (clocks clocks' : Clocks) (r : Request) (name : String)
    (s : InMemoryNonceStore) (between : List (Clocks × Request))
    → (hmac_security_middleware in_memory l c clocks r s).0 ≡ run_as name
    → All (λ q. q.0.instant ≤ clocks.instant + nonce_ttl) between
    → clocks'.instant ≤ clocks.instant + nonce_ttl
    → (hmac_security_middleware in_memory l c clocks' r
        (serve l c between (hmac_security_middleware in_memory l c clocks r s).1)).0
      ≡ rejected unauthorized
replay_refused_within_ttl l c clocks clocks' r name s between ran soon soon' =
    let (bytes, signed, good, read, checked, _, _, known) =
      middleware-eq-run_as l c clocks r name s ran in
    let (at, time) = verify-timestamp_of l c clocks r bytes signed good in
    let s' = serve l c between (hmac_security_middleware in_memory l c clocks r s).1 in
    let known' =
      serve-Remembers l c between signed.key clocks.instant
        (hmac_security_middleware in_memory l c clocks r s).1 known soon in
    replay l c clocks clocks' r bytes signed at s' good time read checked
      (inr (mark_used-again clocks'.instant clocks.instant signed.key s' known' soon'))

skew-old : (now at : ℕ) → at + 301000000000 ≤ now → 300 < skew now at
unfolding skew
skew-old now at old = omega arith

-- A request whose timestamp is at least a second old when it is run as a service is refused ever
-- after, if the two clocks advance together and the requests in between come before it.
pub replay_refused_forever :
    (l : Libraries) (c : Settings) (clocks clocks' : Clocks) (r : Request) (name : String) (at : ℕ)
    (s : InMemoryNonceStore) (between : List (Clocks × Request))
    → (hmac_security_middleware in_memory l c clocks r s).0 ≡ run_as name
    → timestamp_of l c r ≡ ok at
    → at + 1000000000 ≤ clocks.utc
    → clocks.utc + clocks'.instant ≡ clocks'.utc + clocks.instant
    → All (λ q. q.0.instant ≤ clocks'.instant) between
    → (hmac_security_middleware in_memory l c clocks' r
        (serve l c between (hmac_security_middleware in_memory l c clocks r s).1)).0
      ≡ rejected unauthorized
replay_refused_forever l c clocks clocks' r name at s between ran time aged together before =
    let (bytes, signed, good, read, checked, _, _, _) =
      middleware-eq-run_as l c clocks r name s ran in
    let s' = serve l c between (hmac_security_middleware in_memory l c clocks r s).1 in
    elim (lt_or_le (clocks.instant + nonce_ttl) clocks'.instant) [
      | inl expired ↦
          replay l c clocks clocks' r bytes signed at s' good time read checked
            (inl (skew-old clocks'.utc at (omega arith)))
      | inr soon ↦
          let all_soon = All-map (λ q b. omega arith) between before in
          replay_refused_within_ttl l c clocks clocks' r name s between ran all_soon soon
    ]

-- A request that was run as a service, by a store that started empty, is run again as soon as its
-- nonce has expired, if its timestamp is still within the skew of the clock by then.
pub replay_runs_after_expiry :
    (l : Libraries) (c : Settings) (clocks clocks' : Clocks) (r : Request) (name : String) (at : ℕ)
    → (hmac_security_middleware in_memory l c clocks r new_store).0 ≡ run_as name
    → timestamp_of l c r ≡ ok at
    → clocks.instant + nonce_ttl < clocks'.instant
    → skew clocks'.utc at ≤ 300
    → (hmac_security_middleware in_memory l c clocks' r
        (hmac_security_middleware in_memory l c clocks r new_store).1).0
      ≡ run_as name
replay_runs_after_expiry l c clocks clocks' r name at ran time expired recent =
    let (bytes, signed, good, read, checked, named, first, _) =
      middleware-eq-run_as l c clocks r name new_store ran in
    let (_, again) = verify-eq-ok l c clocks r bytes signed at good time in
    let good' : verify l c clocks' r bytes ≡ ok signed = ground (arith, again clocks', recent) in
    let marked = middleware-verified l c clocks r bytes signed new_store good read checked in
    let after = (mark_used clocks.instant signed.key max_nonce_ttl_seconds new_store).1 in
    let state =
      admit_state signed (mark_used clocks.instant signed.key max_nonce_ttl_seconds new_store) in
    let marked' = middleware-verified l c clocks' r bytes signed after good' read checked in
    let again' = mark_used-expired clocks.instant clocks'.instant signed.key expired in
    rw marked (rw state (rw marked' (rw named (admit-ok signed _ again'))))
