-- ===== src/UseCases/Unrotated.antt =====
-- No rotation returns where the database inserts the new key before it retires the old one.
use kms_platform.Common.{
  ◌==◌, ◌≡◌, ◌≢◌, ◌∙◌, refl, sym, Bool, true, false, not, String, [], ◌∷◌, some, Result, ok, any,
  ap, bind-eq-ok, filter, Bool-cases, Option-cases, Result-cases, inl, inr, arith,
}
use kms_platform.Service.Errors.{AppError}
use kms_platform.Service.Crypto.{KeyAlgorithm, debug_algorithm}
use kms_platform.Keys
use kms_platform.Keys.{KeyDbRow, Table, is_active_for, first, same_version}
use kms_platform.Keys.Laws.{rotate_inserting_first}
use kms_platform.Keys.Repository.{
  KeyPairEntity, get_active_key, map_key_row, algorithm_of_row, purpose_of_row, status_of_row,
}
use kms_platform.Keys.Repository.Statuses.{old_status}
use kms_platform.Audit.Entries.{RequestContext}
use kms_platform.UseCases.{World, Platform}
use kms_platform.UseCases.Rotate.{RotateKeyInput, rotate_key}
use kms_platform.UseCases.Rotated.{rotate_key-IsRotation}
use kms_platform.UseCases.Replaced.{new_row, replaced, rotated_table}

entity-eq : {a b : KeyPairEntity} → ◌≡◌ {A = Result AppError KeyPairEntity} (ok a) (ok b) → a ≡ b
entity-eq same = ground (arith, same)

map_key_row-version :
    (r : KeyDbRow) (key : KeyPairEntity) → map_key_row r ≡ ok key → key.version ≡ r.version
unfolding map_key_row
map_key_row-version r key read =
    let (algorithm, _, read1) = bind-eq-ok (algorithm_of_row r.algorithm) _ read in
    let (purpose, _, read2) = bind-eq-ok (purpose_of_row r.purpose) _ read1 in
    let (status, _, read3) = bind-eq-ok (status_of_row r.status r.created_at) _ read2 in
    ap (λ k. k.version) (sym (entity-eq read3))

-- The active key is read from a row of its version.
active-row :
    (service_id : String) (algorithm : KeyAlgorithm) (rows : Table) (key : KeyPairEntity)
    → get_active_key service_id algorithm rows ≡ ok (some key)
    → (r : KeyDbRow) × (first (filter (is_active_for service_id (debug_algorithm algorithm)) rows)
        ≡ some r)
      × (key.version ≡ r.version)
unfolding get_active_key Keys.get_active_key
active-row service_id algorithm rows key read =
    elim (Option-cases
      (first (filter (is_active_for service_id (debug_algorithm algorithm)) rows))) [
        | inl missing ↦ absurd (ground (arith, missing, read))
        | inr (r, found) ↦ elim (Result-cases (map_key_row r)) [
          | inr (e, bad) ↦ absurd (ground (arith, found, bad, read))
          | inl (entity, good) ↦
              let same : entity ≡ key = ground (arith, found, good, read) in
              (r, found, rw (← same) (map_key_row-version r entity good))
        ]
      ]

any-filter :
    (p q : KeyDbRow → Bool) (rows : Table) (r : KeyDbRow)
    → first (filter q rows) ≡ some r
    → p r ≡ true
    → any q (filter p rows) ≡ true
any-filter p q [] r found kept = absurd (ground (arith, found))
any-filter p q (x ∷ rows) r found kept = elim (Bool-cases (q x)) [
  | inl hit ↦
      let same : x ≡ r = ground (arith, hit, found) in
      let held : p x ≡ true = rw same kept in ground (arith, hit, held)
  | inr miss ↦
      let later = any-filter p q rows r (ground (arith, miss, found)) kept in
      elim (Bool-cases (p x)) [
        | inl held ↦ ground (arith, held, miss, later)
        | inr dropped ↦ ground (arith, dropped, later)
      ]
]

-- Where the database runs the insertion of the rotation's statement before the update that retires the
-- old key, which the statement leaves open, `RotateKeyUseCase` never returns a key, in any state and
-- whoever asks: it fails, since the row of the old version is still active when the new one comes.
pub rotate_key-never :
    (p : Platform) (ctx : RequestContext) (input : RotateKeyInput) (entity : KeyPairEntity)
    (w w' : World)
    → p.pg.retires_first ≡ false
    → rotate_key p ctx input w ≢ (ok entity, w')
rotate_key-never p ctx input entity w w' last done =
    let r = rotate_key-IsRotation p ctx input entity w w' done in
    let (row, found, same) =
      active-row input.service_id input.algorithm w.keys r.old r.was_active in
    let other : (row.version == entity.version) ≡ false = ground (arith, same, r.version) in
    let new = new_row p ctx input entity w w' r.left in
    let kept : not (same_version new row) ≡ true = ground (arith, other) in
    let busy =
      any-filter (λ x. not (same_version new x))
        (is_active_for input.service_id (debug_algorithm input.algorithm)) w.keys row found kept in
    let wrote = rotated_table p ctx input entity w w' r.left in
    let refused =
      rotate_inserting_first p.pg entity.created_at
        (old_status (replaced p ctx input entity w w' r.left)) new w.keys last refl busy in
    absurd (ground (arith, sym refused ∙ wrote))
