-- ===== src/Audit/Recorded.antt =====
-- What the check says of a table after one more entry.
use kms_platform.Common.{
  ℕ, ◌≡◌, ◌≢◌, ◌+◌, refl, false, String, Bytes, List, [], ◌∷◌, ◌++◌, none, All, eq_iff, eq_refl,
  arith, ap,
}
use kms_platform.Audit.{
  Libraries, AuditHashInput, AuditLogRow, payload, input_of, verify_records, compute_audit_hash,
  latest_hash, genesis, insert, is_later, row_of, chained, record_log, stored_at,
}
use kms_platform.Audit.Tamper.{verify_records-cons}

module _ (l : Libraries) where
  insert-last :
      (row : AuditLogRow) (rows : List AuditLogRow)
      → All (λ r. is_later l row r ≡ false) rows
      → insert l row rows ≡ rows ++ (row ∷ [])
  unfolding insert
  insert-last row [] last = refl
  insert-last row (r ∷ rows) (early, others) = ground (arith, early, insert-last row rows others)

  verify_records-append :
      (pubkeys : List Bytes) (last : String) (n m : ℕ) (rows : List AuditLogRow) (row : AuditLogRow)
      → verify_records l pubkeys last n rows ≡ (m, none)
      → verify_records l pubkeys last n (rows ++ (row ∷ []))
        ≡ verify_records l pubkeys (latest_hash l last rows) m (row ∷ [])
  unfolding verify_records
  verify_records-append pubkeys last n m [] row done =
      ap (λ k. verify_records l pubkeys last k (row ∷ [])) (ground arith)
  verify_records-append pubkeys last n m (r ∷ rows) row done =
      let (prev, own, rest) = verify_records-cons l pubkeys last n m r rows done in
      ground (arith, verify_records-append pubkeys r.hash (n + 1) m rows row rest, prev, own, done)

  recorded :
      (pubkeys : List Bytes) (log : AuditHashInput) (rows : List AuditLogRow) (m : ℕ)
      → verify_records l pubkeys genesis 0 rows ≡ (m, none)
      → All (λ r. is_later l (row_of l (chained l log rows)) r ≡ false) rows
      → verify_records l pubkeys genesis 0 (record_log l log rows)
        ≡ verify_records l pubkeys
            (latest_hash l genesis rows)
            m
            (row_of l (chained l log rows) ∷ [])
  unfolding record_log
  recorded pubkeys log rows m done latest =
      rw (insert-last (row_of l (chained l log rows)) rows latest)
        (verify_records-append pubkeys genesis 0 m rows (row_of l (chained l log rows)) done)

-- An entry that is recorded last into a table without errors, at a whole microsecond, leaves it
-- without errors, with one record more.
pub record_log-verifies :
    (l : Libraries) (pubkeys : List Bytes) (log : AuditHashInput) (rows : List AuditLogRow) (m : ℕ)
    → verify_records l pubkeys genesis 0 rows ≡ (m, none)
    → All (λ r. is_later l (row_of l (chained l log rows)) r ≡ false) rows
    → stored_at l log.timestamp ≡ log.timestamp
    → verify_records l pubkeys genesis 0 (record_log l log rows) ≡ (m + 1, none)
unfolding verify_records
record_log-verifies l pubkeys log rows m done latest whole =
    let last = latest_hash l genesis rows in
    let hash = l.sha256_json (payload l (chained l log rows)) in
    let own : l.sha256_json (payload l (input_of l (row_of l (chained l log rows)))) ≡ hash =
      rw whole refl in
    rw (recorded l pubkeys log rows m done latest) (ground (arith, own, eq_refl last, eq_refl hash))

-- An entry that is recorded last into a table without errors makes the check fail, if the hash of
-- the entry at the instant that the database keeps is another one than at the instant of the entry.
pub record_log-breaks :
    (l : Libraries) (pubkeys : List Bytes) (log : AuditHashInput) (rows : List AuditLogRow) (m : ℕ)
    → verify_records l pubkeys genesis 0 rows ≡ (m, none)
    → All (λ r. is_later l (row_of l (chained l log rows)) r ≡ false) rows
    → compute_audit_hash l (record (chained l log rows) { timestamp = stored_at l log.timestamp })
      ≢ compute_audit_hash l (chained l log rows)
    → (verify_records l pubkeys genesis 0 (record_log l log rows)).1 ≢ none
unfolding verify_records
record_log-breaks l pubkeys log rows m done latest other clean =
    let last = latest_hash l genesis rows in
    let hash = l.sha256_json (payload l (chained l log rows)) in
    let kept = l.sha256_json (payload l (input_of l (row_of l (chained l log rows)))) in
    let run = recorded l pubkeys log rows m done latest in
    other ((eq_iff kept hash).0 (ground (arith, run, clean, eq_refl last)))
