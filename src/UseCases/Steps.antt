-- ===== src/UseCases/Steps.antt =====
-- What a use case that returns has done, step by step.
use kms_platform.Common.{
  ℕ, ap, ◌≡◌, refl, ◌+◌, Bool, true, false, List, Option, Result, ok, err, Bool-cases, Result-cases,
  inl, inr, arith, if◌then◌else◌,
}
use kms_platform.Keys.{Table}
use kms_platform.Audit.{AuditLogRow}
use kms_platform.Audit.Details.{Value}
use kms_platform.Audit.Entries.{
  RequestContext, AuditAction, success, AuditLog, record_entry, success_log, log_of, new_entry,
}
use kms_platform.Service.Errors.{AppError}
use kms_platform.UseCases.{
  World, Platform, Action, proceed, ◌>>◌, raise, select, execution, execute, record_log,
  record_success,
}

-- The step leaves keys and cache as they are.
pub record IsQuiet (w w' : World) : Type 0 where
  pub keys : w'.keys ≡ w.keys
  pub cache : w'.cache ≡ w.cache

-- A chain that returns has returned at its first step.
pub proceed-ok :
    {A B : Type 0} {r : Result AppError A × World} {f : A → Action B} {w' : World} {b : B}
    → proceed r f ≡ (ok b, w')
    → (a : A) × (w1 : World) × (r ≡ (ok a, w1)) × (f a w1 ≡ (ok b, w'))
unfolding proceed
proceed-ok {r = (ok a, w1)} e = (a, w1, refl, e)
proceed-ok {r = (err x, w1)} e = absurd (ground (arith, e))

-- The guard of a use case that returns has held, where what it does otherwise gives an error.
pub guard-ok :
    {A : Type 0} (b : Bool) (m : Action A) (refusal : Result AppError A × World) (w w' : World)
    {a : A}
    → (reason : AppError) → refusal.0 ≡ err reason
    → (if b then m w else refusal) ≡ (ok a, w')
    → (b ≡ true) × (m w ≡ (ok a, w'))
guard-ok true m refusal w w' reason failed done = (refl, done)
guard-ok false m refusal w w' reason failed done = absurd (ground (arith, failed, done))

-- Equal results are of equal values.
pub value-eq :
    {A : Type 0} {a b : A} {w w' : World}
    → ◌≡◌ {A = Result AppError A × World} (ok a, w) (ok b, w')
    → a ≡ b
value-eq same = ground (arith, same)

-- A conditional at an argument.
pub if-apply :
    {A B : Type 0} (b : Bool) (f g : A → B) (a : A)
    → (if b then f else g) a ≡ (if b then f a else g a)
if-apply true f g a = refl
if-apply false f g a = refl

module _ (p : Platform) where
  pub select-ok :
      {A : Type 0} (f : Table → Result AppError A) (w w' : World) {a : A}
      → select p f w ≡ (ok a, w')
      → (f w.keys ≡ ok a) × (w' ≡ record w { calls = w.calls + 1 })
  unfolding select
  select-ok f w w' done = elim (Bool-cases (p.database_up w.calls)) [
    | inl up ↦ (ground (arith, up, done), ground (arith, up, done))
    | inr down ↦ absurd (ground (arith, down, done))
  ]

  pub execute-ok :
      {A : Type 0} (f : Table → Result AppError (A × Table)) (w w' : World) {a : A}
      → execute p f w ≡ (ok a, w')
      → (rows : Table) × (f w.keys ≡ ok (a, rows))
        × (w' ≡ record w { keys = rows; calls = w.calls + 1 })
  unfolding execute execution
  execute-ok f w w' done = elim (Bool-cases (p.database_up w.calls)) [
    | inr down ↦ absurd (ground (arith, down, done))
    | inl up ↦ elim (Result-cases (f w.keys)) [
      | inr (e, bad) ↦ absurd (ground (arith, up, bad, done))
      | inl ((a, rows), good) ↦
          (rows, ground (arith, up, good, done), ground (arith, up, good, done))
    ]
  ]

  pub record_log-ok :
      (log : ℕ → ℕ → AuditLog) (w w' : World)
      → record_log p log w ≡ (ok tt, w')
      → w' ≡ record w {
        audit = record_entry p.libraries p.texts (log (p.uuid w.calls) (p.now w.calls)) w.audit;
        calls = w.calls + 1;
      }
  unfolding record_log
  record_log-ok log w w' done = elim (Bool-cases (p.database_up w.calls)) [
    | inl up ↦ ground (arith, up, done)
    | inr down ↦ absurd (ground (arith, down, done))
  ]

  pub record_log-IsQuiet : (log : ℕ → ℕ → AuditLog) (w : World) → IsQuiet w (record_log p log w).1
  unfolding record_log
  record_log-IsQuiet log w = elim (Bool-cases (p.database_up w.calls)) [
    | inl up ↦ record { keys = ground (arith, up); cache = ground (arith, up) }
    | inr down ↦ record { keys = ground (arith, down); cache = ground (arith, down) }
  ]

  -- A refusal is recorded where the database takes it, and gives nothing.
  pub refused :
      {A : Type 0} (log : ℕ → ℕ → AuditLog) (e : AppError) (w : World)
      → (reason : AppError) × (((record_log p log >> raise {A = A} e) w).0 ≡ err reason)
        × IsQuiet w ((record_log p log >> raise {A = A} e) w).1
  unfolding proceed
  refused {A} log e w =
      let quiet = record_log-IsQuiet log w in
      elim (Result-cases (record_log p log w).0) [
        | inl (a, done) ↦ (
          e,
          ground (arith, done),
          record {
            keys = ground (arith, done, quiet.keys);
            cache = ground (arith, done, quiet.cache);
          },
        )
        | inr (x, failed) ↦ (
          x,
          ground (arith, failed),
          record {
            keys = ground (arith, failed, quiet.keys);
            cache = ground (arith, failed, quiet.cache);
          },
        )
      ]

  -- One entry is recorded of a success of the action.
  pub record IsLogged (ctx : RequestContext) (action : AuditAction)
      (before after : List AuditLogRow) : Type 0 where
    pub log : AuditLog
    pub of_action : log.action ≡ action
    pub of_caller : log.caller_service ≡ ctx.actor_id
    pub of_status : log.status ≡ success
    pub appended : after ≡ record_entry p.libraries p.texts log before

  pub record_success-ok :
      (ctx : RequestContext) (action : AuditAction) (details : Option Value) (w w' : World)
      → record_success p ctx action details w ≡ (ok tt, w')
      → (w'.keys ≡ w.keys) × (w'.cache ≡ w.cache) × IsLogged ctx action w.audit w'.audit
  unfolding success_log log_of new_entry
  record_success-ok ctx action details w w' done =
      let log = success_log p.texts (p.uuid w.calls) (p.now w.calls) ctx action details in
      let same =
        record_log-ok (λ id now. success_log p.texts id now ctx action details) w w' done in
      (
        ap (λ x. x.keys) same,
        ap (λ x. x.cache) same,
        record {
          log = log;
          of_action = refl;
          of_caller = refl;
          of_status = refl;
          appended = ap (λ x. x.audit) same;
        },
      )
