-- ===== src/UseCases.antt =====
-- What the use cases of crates/kms-service/src/application/use_cases work on, and how: the table of
-- keys, the audit table and the cache are the state; every call of the database, the crypto service,
-- the clock or the UUID generator has a number, by which the parameters answer. An error leaves what
-- was written before it.
use kms_platform.Common.{
  ℕ, ◌+◌, ◌/◌, Bool, String, List, [], ◌∷◌, Bytes, Option, none, some, Result, ok, err,
  if◌then◌else◌,
}
pub mod Rotate
pub mod Generate
pub mod Fetch
pub mod Sign
pub mod DataKeys
pub mod Steps
pub mod Refusals
pub mod Rotated
pub mod Replaced
pub mod Unrotated
pub mod Generated
pub mod Provided
pub mod Workers
pub mod Signed
pub mod Interrupted
pub mod Authority
use kms_platform.Keys.{Table, Postgres}
use kms_platform.Audit.{Libraries, AuditLogRow}
use kms_platform.Audit.Details.{Value, object, Members, no_members, insert_field}
use kms_platform.Audit.Entries.{
  Texts, AuditLog, AuditAction, RequestContext, success_log, failure_log, access_denied_log,
  validation_failure_log, record_entry,
}
use kms_platform.Service.Errors.{AppError, database_error}
use kms_platform.Service.Acl.{CompiledAcl}
use kms_platform.Service.KeyCache.{KeyCache}
use kms_platform.Service.CryptoService.{KmsCryptoService}

pub record World : Type 0 where
  pub keys : Table
  pub audit : List AuditLogRow
  pub cache : KeyCache
  pub calls : ℕ

-- `now` is in nanoseconds.
pub record Platform : Type 0 where
  pub pg : Postgres
  pub database_up : ℕ → Bool
  pub debug_time : ℕ → String
  pub libraries : Libraries
  pub texts : Texts
  pub now : ℕ → ℕ
  pub uuid : ℕ → ℕ
  pub crypto : KmsCryptoService
  pub ed25519_sign : Bytes → Bytes → Bytes
  pub acl : CompiledAcl
  pub grace_period_minutes : ℕ

abbrev pub Action : Type 0 → Type 0
Action A = World → Result AppError A × World

unfoldable pub proceed :
    {A B : Type 0} → Result AppError A × World → (A → Action B) → Result AppError B × World
proceed (ok a, w) f = f a w
proceed (err e, w) f = (err e, w)

infixl 5 ◌>>=◌ ◌>>◌
abbrev pub ◌>>=◌ : {A B : Type 0} → Action A → (A → Action B) → Action B
◌>>=◌ m f w = proceed (m w) f

abbrev pub ◌>>◌ : {A B : Type 0} → Action A → Action B → Action B
m >> k = m >>= (λ _. k)

module _ {A : Type 0} where
  abbrev pub pure : A → Action A
  pure a w = (ok a, w)

  abbrev pub raise : AppError → Action A
  raise e w = (err e, w)

  abbrev pub lift : Result AppError A → Action A
  lift r w = (r, w)

  -- What is read of the state.
  abbrev pub gets : (World → A) → Action A
  gets f w = (ok (f w), w)

  -- A statement that reads.
  unfoldable pub select : Platform → (Table → Result AppError A) → Action A
  select p f w =
      let w' = record w { calls = w.calls + 1 } in
      if p.database_up w.calls
      then (f w.keys, w')
      else (err (database_error "Database operation failed"), w')

  execution : World → Result AppError (A × Table) → Result AppError A × World
  execution w (ok (a, rows)) = (ok a, record w { keys = rows })
  execution w (err e) = (err e, w)

  -- A statement that writes.
  unfoldable pub execute : Platform → (Table → Result AppError (A × Table)) → Action A
  unfolding execution
  execute p f w =
      let w' = record w { calls = w.calls + 1 } in
      if p.database_up w.calls
      then execution w' (f w.keys)
      else (err (database_error "Database operation failed"), w')

  -- A call that no part of the state is changed by, given its number.
  abbrev pub call : (ℕ → Result AppError A) → Action A
  call f w = (f w.calls, record w { calls = w.calls + 3 })

abbrev pub update_cache : (KeyCache → KeyCache) → Action (Unit {0})
update_cache f w = (ok tt, record w { cache = f w.cache })

-- An entry is recorded, given its identifier and its instant.
unfoldable pub record_log : Platform → (ℕ → ℕ → AuditLog) → Action (Unit {0})
unfolding record_entry
record_log p log w =
    let w' = record w { calls = w.calls + 1 } in
    if p.database_up w.calls
    then (
      ok tt,
      record w' {
        audit = record_entry p.libraries p.texts (log (p.uuid w.calls) (p.now w.calls)) w.audit;
      },
    )
    else (err (database_error "Database operation failed"), w')

module _ (p : Platform) (ctx : RequestContext) (action : AuditAction) where
  abbrev pub record_success : Option Value → Action (Unit {0})
  record_success details = record_log p (λ id now. success_log p.texts id now ctx action details)

  abbrev pub record_failure : String → Action (Unit {0})
  record_failure reason = record_log p (λ id now. failure_log p.texts id now ctx action reason)

  abbrev pub record_access_denied : String → Action (Unit {0})
  record_access_denied reason =
      record_log p (λ id now. access_denied_log p.texts id now ctx action reason)

  abbrev pub record_validation_failure : String → Action (Unit {0})
  record_validation_failure reason =
      record_log p (λ id now. validation_failure_log p.texts id now ctx action reason)

abbrev pub fields_of : List (String × Value) → Members → Members
fields_of [] fields = fields
fields_of ((key, value) ∷ entries) fields = fields_of entries (insert_field key value fields)

-- `json!` of an object.
abbrev pub json : List (String × Value) → Value
json entries = object (fields_of entries no_members)

-- `chrono`'s microseconds of an instant.
abbrev pub micros : ℕ → ℕ
micros now = now / 1000
