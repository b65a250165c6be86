-- ===== src/Keys/Repository/Saved.antt =====
-- A key that is saved as active is the active one.
use kms_platform.Common.{ℕ, ◌≡◌, ◌≢◌, refl, true, false, String, some, ok, map_err-eq-ok}
use kms_platform.Service.Crypto.{ecdsa_p256}
use kms_platform.Keys
use kms_platform.Keys.{Table}
use kms_platform.Keys.Active.{get_active_key-upsert}
use kms_platform.Keys.Repository.{
  KeyPairEntity, active, is_active, row_of, save_key, get_active_key, entity_of, failed,
}
use kms_platform.Keys.Repository.Laws.{stored, is_deprecated, map_key_row-row_of}

pub get_active_key-save_key :
    (debug_time : ℕ → String) (now : ℕ) (k : KeyPairEntity) (rows after : Table)
    → k.algorithm ≢ ecdsa_p256
    → k.status ≡ active
    → save_key debug_time now k rows ≡ ok after
    → (i : ℕ) × (get_active_key k.service_id k.algorithm after
        ≡ ok (some (record (stored now k) { id = i })))
unfolding save_key get_active_key entity_of row_of Keys.get_active_key
get_active_key-save_key debug_time now k rows after known on saved =
    let done = map_err-eq-ok failed (Keys.save_key (row_of debug_time now k) rows) saved in
    let live : is_active k.status ≡ true = rw on refl in
    let kept : is_deprecated k.status ≡ false = rw on refl in
    let (i, found) = get_active_key-upsert (row_of debug_time now k) rows after live done in
    let read = map_key_row-row_of debug_time now i k known kept in (i, rw found (rw read refl))
