-- ===== src/Keys.antt =====
-- The table `keys`: the constraints of crates/kms-migrate/migrations/001_init.sql and the statements
-- of `KeyQueries` in crates/kms-db/src/repositories.rs. A table is the list of its rows; `ORDER BY`
-- is a parameter, and so is the order in which a statement runs its data-modifying parts, which
-- PostgreSQL leaves open. A statement that fails changes nothing. An identifier is a number; the
-- column `version` is read back as the `u32` that was bound.
use kms_platform.Common.{
  ℕ, ◌==◌, Bool, true, false, not, ◌&&◌, ◌||◌, String, Bytes, List, [], ◌∷◌, ◌++◌, map, Option,
  none, some, Result, ok, err, ◌>>=◌, All, length, ◌≡◌, any, filter, str_eq, if◌then◌else◌,
}
pub mod Laws
pub mod Active
pub mod Lookups
pub mod Refinement
pub mod Repository
pub mod Rewrap

pub record KeyDbRow : Type 0 where
  pub id : ℕ
  pub service_id : String
  pub algorithm : String
  pub version : ℕ
  pub encrypted_key_data : Bytes
  pub public_key_pem : String
  pub purpose : String
  pub status : String
  pub is_active : Bool
  pub created_at : ℕ

abbrev pub Table : Type 0
Table = List KeyDbRow

pub data SqlError : Type 0 where
  unique_violation : SqlError

-- What the database decides: the rows in the order that a query asks for, and whether the update of
-- `rotate_active_key` runs before its insertion.
pub record Postgres : Type 0 where
  pub by_name : Table → Table
  pub by_age : Table → Table
  pub retires_first : Bool

-- What `ORDER BY` does not change: what holds of all rows, and how many there are.
pub record IsOrdering (order : Table → Table) : Type 1 where
  pub all : (P : KeyDbRow → Type 0) (rows : Table) → All P rows → All P (order rows)
  pub size : (rows : Table) → length (order rows) ≡ length rows

abbrev pub is_named : String → String → KeyDbRow → Bool
is_named service_id algorithm r = str_eq r.service_id service_id && str_eq r.algorithm algorithm

-- `UNIQUE (service_id, algorithm, version)`
abbrev pub is_version : String → String → ℕ → KeyDbRow → Bool
is_version service_id algorithm version r = is_named service_id algorithm r && r.version == version

-- `uniq_active_key_per_service_algorithm`
abbrev pub is_active_for : String → String → KeyDbRow → Bool
is_active_for service_id algorithm r = is_named service_id algorithm r && r.is_active

-- `LIMIT 1`
abbrev pub first : Table → Option KeyDbRow
first [] = none
first (r ∷ rows) = some r

-- `DO UPDATE SET`: all but the identifier and the key of the conflict.
abbrev pub excluded : KeyDbRow → KeyDbRow → KeyDbRow
excluded new r = record r {
  encrypted_key_data = new.encrypted_key_data;
  public_key_pem = new.public_key_pem;
  purpose = new.purpose;
  status = new.status;
  is_active = new.is_active;
  created_at = new.created_at;
}

abbrev pub same_version : KeyDbRow → KeyDbRow → Bool
same_version new r = is_version new.service_id new.algorithm new.version r

-- `INSERT … ON CONFLICT (service_id, algorithm, version) DO UPDATE`. The other two unique indexes
-- are the primary key and that on active rows.
unfoldable pub upsert : KeyDbRow → Table → Result SqlError Table
upsert new rows =
    let others = filter (λ r. not (same_version new r)) rows in
    if new.is_active && any (is_active_for new.service_id new.algorithm) others
    then err unique_violation
    else if any (same_version new) rows
    then ok (map (λ r. if same_version new r then excluded new r else r) rows)
    else if any (λ r. r.id == new.id) rows
    then err unique_violation
    else ok (rows ++ (new ∷ []))

abbrev pub save_key : KeyDbRow → Table → Result SqlError Table
save_key = upsert

unfoldable pub get_active_key : String → String → Table → Option KeyDbRow
get_active_key service_id algorithm rows = first (filter (is_active_for service_id algorithm) rows)

unfoldable pub get_key_by_version : String → String → ℕ → Table → Option KeyDbRow
get_key_by_version service_id algorithm version rows =
    first (filter (is_version service_id algorithm version) rows)

-- `UPDATE keys SET … WHERE`
abbrev pub update : (KeyDbRow → Bool) → (KeyDbRow → KeyDbRow) → Table → Table
update p f rows = map (λ r. if p r then f r else r) rows

unfoldable pub deactivate_keys_for_service : String → String → Table → Table
deactivate_keys_for_service service_id algorithm =
    update (is_active_for service_id algorithm)
      (λ r. record r { status = "Revoked"; is_active = false })

unfoldable pub compare_and_set_active_to_deprecated : ℕ → Table → Bool × Table
compare_and_set_active_to_deprecated key_id rows =
    let p = λ (r : KeyDbRow). r.id == key_id && str_eq r.status "Active" in
    (any p rows, update p (λ r. record r { status = "Deprecated"; is_active = false }) rows)

-- The common table expression `retired`.
unfoldable pub retire : ℕ → String → String → String → Table → Table
retire now service_id algorithm old_status =
    update (is_active_for service_id algorithm)
      (λ r. record r { status = old_status; is_active = false; created_at = now })

-- The number of affected rows is that of the insertion, which is 1 whenever the statement succeeds.
-- The update sees the rows from before the statement; where the insertion runs first and passes the
-- index, none of these is active but one of the version inserted, which a statement writes once.
unfoldable pub rotate_active_key :
    Postgres → ℕ → String → String → String → KeyDbRow → Table → Result SqlError (Bool × Table)
unfolding retire upsert
rotate_active_key pg now service_id algorithm old_status new rows =
    if pg.retires_first
    then upsert new (retire now service_id algorithm old_status rows) >>= (λ t. ok (true, t))
    else upsert new rows >>= (λ t. ok (true, t))

-- `get_all_active_keys`, `get_all_active_public_keys` and `get_active_or_valid_deprecated_key` run the
-- same statement.
unfoldable pub get_active_rows : Postgres → Table → Table
get_active_rows pg rows = pg.by_name (filter (λ r. r.is_active) rows)

unfoldable pub get_deprecated_keys_expired : Postgres → Table → Table
get_deprecated_keys_expired pg rows = pg.by_age (filter (λ r. str_eq r.status "Deprecated") rows)

-- `get_keys_needing_rewrap` and `get_all_keys` run the same statement.
unfoldable pub get_keys_needing_rewrap : Postgres → Table → Table
get_keys_needing_rewrap pg rows = pg.by_age rows

unfoldable pub update_encrypted_key : ℕ → Bytes → Table → Table
update_encrypted_key key_id encrypted_key_data =
    update (λ r. r.id == key_id) (λ r. record r { encrypted_key_data = encrypted_key_data })

-- One transaction; the number of updates is returned.
unfoldable pub update_encrypted_keys_batch : List (ℕ × Bytes) → Table → Table
unfolding update_encrypted_key
update_encrypted_keys_batch [] rows = rows
update_encrypted_keys_batch ((key_id, encrypted) ∷ updates) rows =
    update_encrypted_keys_batch updates (update_encrypted_key key_id encrypted rows)
