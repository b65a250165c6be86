-- ===== src/UseCases/Workers.antt =====
-- One round of two of the workers of crates/kms-service/src/workers: `run_cache_cleanup` of
-- cache_cleanup.rs, and `process_expirations` of expiration.rs.
use kms_platform.Common.{
  ℕ, String, List, [], ◌∷◌, map, Option, none, some, Result, ok, err, if◌then◌else◌,
}
use kms_platform.Service.Errors.{AppError}
use kms_platform.Service.KeyCache.{KeyCache, KeyCacheKey, remove_all_for_service}
use kms_platform.Keys.{Table}
use kms_platform.Keys.Repository.{KeyPairEntity, expired, get_active_or_valid_deprecated_key}
use kms_platform.Keys.Repository.Statuses.{get_deprecated_keys_expired, update_key_status}
use kms_platform.Audit.Reasons.{sanitize_reason}
use kms_platform.Audit.Entries.{AuditLog, success, key_expired}
use kms_platform.UseCases.{
  World, Platform, Action, ◌>>=◌, ◌>>◌, pure, select, execute, gets, record_log, micros,
}

-- `keys_snapshot`, in the order of the entries.
unfoldable pub keys_snapshot : KeyCache → List KeyCacheKey
keys_snapshot cache = if cache.poisoned then [] else map (λ e. e.0) cache.entries

module _ (p : Platform) where
  -- What follows the look at one key: an error counts as a key that is there.
  unfoldable pub drop_missing :
      String → Result AppError (Option KeyPairEntity) → KeyCache → KeyCache
  unfolding remove_all_for_service
  drop_missing service (ok none) cache = remove_all_for_service service cache
  drop_missing service (ok (some key)) cache = cache
  drop_missing service (err e) cache = cache

  unfoldable pub look : KeyCacheKey → ℕ → World → Result AppError (Option KeyPairEntity) × World
  unfolding select get_active_or_valid_deprecated_key
  look k now = select p (get_active_or_valid_deprecated_key p.pg k.target_service k.algorithm now)

  -- The loop over the keys.
  unfoldable pub clean_each : ℕ → List KeyCacheKey → World → World
  unfolding look drop_missing
  clean_each now [] w = w
  clean_each now (k ∷ keys) w =
      let (found, w') = look k now w in
      clean_each now keys (record w' { cache = drop_missing k.target_service found w'.cache })

  unfoldable pub clean_cache : World → World
  unfolding clean_each keys_snapshot
  clean_cache w = clean_each (micros (p.now w.calls)) (keys_snapshot w.cache) w

  unfoldable pub expiry_log : KeyPairEntity → ℕ → ℕ → AuditLog
  unfolding sanitize_reason
  expiry_log key id now = record {
    id = id;
    caller_service = key.service_id;
    target_service = key.service_id;
    action = key_expired;
    algorithm = key.algorithm;
    status = success;
    reason = sanitize_reason (some "Deprecated period expired; key expired automatically");
    request_id = none;
    operation_id = none;
    target_id = some (p.texts.show_uuid key.id);
    metadata = some "key_expired";
    timestamp = now;
  }

  abbrev marked : Result AppError Table → Result AppError ((Unit {0}) × Table)
  marked (ok rows) = ok (tt, rows)
  marked (err e) = err e

  -- The loop over the keys whose time is over.
  unfoldable pub expire_each : List KeyPairEntity → Action (Unit {0})
  unfolding execute update_key_status expiry_log record_log
  expire_each [] = pure tt
  expire_each (key ∷ keys) =
      execute p (λ rows. marked (update_key_status key.id expired none rows))
      >> record_log p (expiry_log key)
      >> expire_each keys

  unfoldable pub process_expirations : Action (Unit {0})
  unfolding select get_deprecated_keys_expired expire_each
  process_expirations = do
    now ← gets (λ w. micros (p.now w.calls))
    keys ← select p (get_deprecated_keys_expired p.pg now)
    expire_each keys
