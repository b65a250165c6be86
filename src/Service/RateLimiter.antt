-- ===== src/Service/RateLimiter.antt =====
-- crates/kms-service/src/domain/rate_limiter.rs: the stores in memory. An `Instant` is a number of
-- nanoseconds; `duration_since` stops at zero, as subtraction does. The stores over Redis are not
-- modelled.
use kms_platform.Common.{
  ℕ, ◌+◌, ◌-◌, ◌*◌, Bool, true, false, String, List, [], ◌∷◌, ◌++◌, Option, none, some, Result, ok,
  err, length, filter, ltb, leb, if◌then◌else◌,
}
use kms_platform.Common.Assoc.{Assoc, lookup, insert, retain}
use kms_platform.Service.Errors.{AppError, internal}
pub mod Laws

-- `Duration::from_secs(sec.max(1))`
abbrev pub duration : ℕ → ℕ
duration sec = (if ltb sec 1 then 1 else sec) * 1000000000

pub record RateLimitStatus : Type 0 where
  pub allowed : Bool
  pub current : ℕ

-- The entries of `buckets.entry(key).or_default()`.
unfoldable pub entries : String → Assoc (List ℕ) → List ℕ
unfolding lookup
entries key buckets = elim (lookup key buckets) [ none ↦ [] | some instants ↦ instants ]

unfoldable pub check : ℕ → String → ℕ → ℕ → Assoc (List ℕ) → RateLimitStatus × Assoc (List ℕ)
unfolding entries
check now key limit window_sec buckets =
    let kept = filter (λ t. leb (now - t) (duration window_sec)) (entries key buckets) in
    let current = length kept in
    if ltb current limit
    then (record { allowed = true; current = current + 1 }, insert key (kept ++ (now ∷ [])) buckets)
    else (record { allowed = false; current = current }, insert key kept buckets)

-- The mutex is poisoned where a thread has panicked while it held the lock.
pub record InMemoryNonceStore : Type 0 where
  pub used : Assoc ℕ
  pub poisoned : Bool

-- `InMemoryNonceStore::new`
abbrev pub new_store : InMemoryNonceStore
new_store = record { used = []; poisoned = false }

unfoldable pub mark_used :
    ℕ → String → ℕ → InMemoryNonceStore → Result AppError Bool × InMemoryNonceStore
unfolding lookup retain insert
mark_used now key ttl_sec s =
    if s.poisoned
    then (err (internal "In-memory nonce cache is poisoned"), s)
    else let live = retain (λ t. leb (now - t) (duration ttl_sec)) s.used in
      elim (lookup key live) [
        | some t ↦ (ok false, record s { used = live })
        | none ↦ (ok true, record s { used = insert key now live })
      ]
