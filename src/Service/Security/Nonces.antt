-- ===== src/Service/Security/Nonces.antt =====
-- What the nonce store in memory remembers.
use kms_platform.Common.{
  ℕ, ◌≡◌, ◌≤◌, ◌<◌, ◌+◌, ◌-◌, refl, String, Bool, true, false, some, Result, ok, err, leb, arith,
  eq_iff, eq_refl, Option-cases, Bool-cases, inl, inr,
}
use kms_platform.Common.Assoc.{lookup, insert, retain, lookup-insert, lookup-retain}
use kms_platform.Service.Errors.{AppError}
use kms_platform.Service.RateLimiter.{InMemoryNonceStore, new_store, mark_used, duration}
use kms_platform.Service.Security.{run_as, Signed, admit, max_nonce_ttl_seconds}

-- The store keeps `key` until `ttl_sec` seconds after `t`.
pub record Remembers (key : String) (t : ℕ) (s : InMemoryNonceStore) : Type 0 where
  pub healthy : s.poisoned ≡ false
  pub entry : lookup key s.used ≡ some t

pub mark_used-Remembers :
    (now t : ℕ) (k key : String) (s : InMemoryNonceStore)
    → Remembers key t s
    → now ≤ t + duration max_nonce_ttl_seconds
    → Remembers key t (mark_used now k max_nonce_ttl_seconds s).1
unfolding mark_used
mark_used-Remembers now t k key s known soon =
    let p = λ (u : ℕ). leb (now - u) (duration max_nonce_ttl_seconds) in
    let live = retain p s.used in
    let kept = lookup-retain p key t s.used known.entry (ground arith) in
    elim (Option-cases (lookup k live)) [
      | inr (u, found) ↦ record {
        healthy = ground (arith, known.healthy);
        entry = ground (arith, known.healthy, found, kept);
      }
      | inl missing ↦ record {
        healthy = ground (arith, known.healthy);
        entry =
            ground
              (arith, known.healthy, missing, kept, lookup-insert k key now live, eq_iff k key);
      }
    ]

pub mark_used-again :
    (now t : ℕ) (key : String) (s : InMemoryNonceStore)
    → Remembers key t s
    → now ≤ t + duration max_nonce_ttl_seconds
    → (mark_used now key max_nonce_ttl_seconds s).0 ≡ ok false
unfolding mark_used
mark_used-again now t key s known soon = ground (
  arith,
  lookup-retain (λ u. leb (now - u) (duration max_nonce_ttl_seconds)) key t s.used known.entry,
  known.healthy,
)

pub mark_used-first :
    (now : ℕ) (key : String) (s : InMemoryNonceStore)
    → (mark_used now key max_nonce_ttl_seconds s).0 ≡ ok true
    → Remembers key now (mark_used now key max_nonce_ttl_seconds s).1
unfolding mark_used
mark_used-first now key s fresh =
    let live = retain (λ u. leb (now - u) (duration max_nonce_ttl_seconds)) s.used in
    elim (Bool-cases s.poisoned) [
      | inl poisoned ↦ absurd (ground arith)
      | inr healthy ↦ elim (Option-cases (lookup key live)) [
        | inr (u, found) ↦ absurd (ground arith)
        | inl missing ↦ record {
          healthy = ground (arith, healthy, missing);
          entry = ground (arith, healthy, missing, lookup-insert key key now live, eq_refl key);
        }
      ]
    ]

pub admit_state :
    (signed : Signed) (p : Result AppError Bool × InMemoryNonceStore) → (admit signed p).1 ≡ p.1
unfolding admit
admit_state signed (ok true, s) = refl
admit_state signed (ok false, s) = refl
admit_state signed (err e, s) = refl

pub admit-eq-run_as :
    {S : Type 0} (signed : Signed) (name : String) (p : Result AppError Bool × S)
    → (admit signed p).0 ≡ run_as name
    → (name ≡ signed.service_name) × (p.0 ≡ ok true)
unfolding admit
admit-eq-run_as signed name (ok true, s) e = (ground arith, refl)
admit-eq-run_as signed name (ok false, s) e = absurd (ground arith)
admit-eq-run_as signed name (err m, s) e = absurd (ground arith)

pub mark_used-expired :
    (now now' : ℕ) (key : String)
    → now + duration max_nonce_ttl_seconds < now'
    → (mark_used now' key max_nonce_ttl_seconds
        (mark_used now key max_nonce_ttl_seconds new_store).1).0
      ≡ ok true
unfolding mark_used lookup retain insert
mark_used-expired now now' key expired = ground arith

pub admit-ok :
    (signed : Signed) (p : Result AppError Bool × InMemoryNonceStore)
    → p.0 ≡ ok true
    → (admit signed p).0 ≡ run_as signed.service_name
unfolding admit
admit-ok signed (ok true, s) e = refl
admit-ok signed (ok false, s) e = absurd (ground arith)
admit-ok signed (err m, s) e = absurd (ground arith)
