-- ===== src/Audit/Inserted.antt =====
-- Where an entry stands in the table after it is recorded, and what it says.
use kms_platform.Common.{◌≡◌, refl, ap, Bool-cases, inl, inr, arith, String, List, [], ◌∷◌, ◌++◌}
use kms_platform.Audit.{
  Libraries, AuditHashInput, AuditLogRow, insert, is_later, row_of, chained, record_log,
  latest_hash, genesis,
}

-- The table after has one row more, which carries on the chain from the last row before; all others
-- are kept in their order.
pub record IsEntered (l : Libraries) (action caller status : String) (rows after : List AuditLogRow)
    : Type 0 where
  pub row : AuditLogRow
  pub earlier : List AuditLogRow
  pub later : List AuditLogRow
  pub split : rows ≡ earlier ++ later
  pub entered : after ≡ earlier ++ (row ∷ later)
  pub of_action : row.action ≡ action
  pub of_caller : row.caller_service ≡ caller
  pub of_status : row.status ≡ status
  pub chained_on : row.prev_hash ≡ latest_hash l genesis rows

insert-splits :
    (l : Libraries) (row : AuditLogRow) (rows : List AuditLogRow)
    → (earlier : List AuditLogRow) × (later : List AuditLogRow) × (rows ≡ earlier ++ later)
      × (insert l row rows ≡ earlier ++ (row ∷ later))
unfolding insert
insert-splits l row [] = ([], [], refl, refl)
insert-splits l row (r ∷ rows) = elim (Bool-cases (is_later l row r)) [
  | inl before ↦ ([], r ∷ rows, refl, ground (arith, before))
  | inr after ↦
      let (earlier, later, same, put) = insert-splits l row rows in
      (r ∷ earlier, later, ap (λ t. r ∷ t) same, ground (arith, after, put))
]

pub record_log-IsEntered :
    (l : Libraries) (log : AuditHashInput) (rows : List AuditLogRow)
    → IsEntered l log.action log.caller_service log.status rows (record_log l log rows)
unfolding record_log
record_log-IsEntered l log rows =
    let row = row_of l (chained l log rows) in
    let (earlier, later, same, put) = insert-splits l row rows in
    record {
      row = row;
      earlier = earlier;
      later = later;
      split = same;
      entered = put;
      of_action = refl;
      of_caller = refl;
      of_status = refl;
      chained_on = refl;
    }
