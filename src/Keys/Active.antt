-- ===== src/Keys/Active.antt =====
-- The active key after an insertion.
use kms_platform.Common.{
  ◌≡◌, ℕ, Bool, true, false, not, [], ◌∷◌, ◌++◌, map, some, ok, any, filter, eq_refl, if◌then◌else◌,
  arith, Bool-cases, inl, inr,
}
use kms_platform.Keys.{
  KeyDbRow, Table, is_active_for, first, excluded, same_version, upsert, get_active_key,
}
use kms_platform.Keys.Laws.{excluded-eq}

module _ (new : KeyDbRow) (active : new.is_active ≡ true) where
  abbrev is_busy : KeyDbRow → Bool
  is_busy r = is_active_for new.service_id new.algorithm r

  -- Among the rows of other versions none is active.
  abbrev IsIdle : Table → Type 0
  IsIdle rows = any is_busy (filter (λ r. not (same_version new r)) rows) ≡ false

  found_updated :
      (rows : Table)
      → IsIdle rows
      → any (same_version new) rows ≡ true
      → (i : ℕ) × (first
            (filter is_busy (map (λ r. if same_version new r then excluded new r else r) rows))
          ≡ some (record new { id = i }))
  found_updated [] idle known = absurd (ground (arith))
  found_updated (r ∷ rows) idle known = elim (Bool-cases (same_version new r)) [
    | inl hit ↦ (
      r.id,
      ground (
        arith,
        hit,
        excluded-eq new r hit,
        active,
        eq_refl new.service_id,
        eq_refl new.algorithm,
      ),
    )
    | inr miss ↦
        let (i, rest) =
          found_updated rows (ground (arith, idle, miss)) (ground (arith, miss, known)) in
        (i, ground (arith, miss, idle, rest))
  ]

  found_added :
      (rows : Table)
      → IsIdle rows
      → any (same_version new) rows ≡ false
      → first (filter is_busy (rows ++ (new ∷ []))) ≡ some new
  found_added [] idle unused = ground (arith, active, eq_refl new.service_id, eq_refl new.algorithm)
  found_added (r ∷ rows) idle unused = elim (Bool-cases (same_version new r)) [
    | inl hit ↦ absurd (ground (arith, hit, unused))
    | inr miss ↦ ground (
      arith,
      miss,
      idle,
      found_added rows (ground (arith, idle, miss)) (ground (arith, unused, miss)),
    )
  ]

-- After an insertion of an active row that succeeded, this row is the active one, with its own
-- identifier or that of the older row of its version.
pub get_active_key-upsert :
    (new : KeyDbRow) (rows after : Table)
    → new.is_active ≡ true
    → upsert new rows ≡ ok after
    → (i : ℕ) × (get_active_key new.service_id new.algorithm after ≡ some (record new { id = i }))
unfolding upsert get_active_key
get_active_key-upsert new rows after active done =
    elim (Bool-cases (any (is_busy new active) (filter (λ r. not (same_version new r)) rows))) [
      | inl busy ↦ absurd (ground (arith, busy, active, done))
      | inr idle ↦ elim (Bool-cases (any (same_version new) rows)) [
        | inl known ↦
            let (i, found) = found_updated new active rows idle known in
            let last : after ≡ map (λ r. if same_version new r then excluded new r else r) rows =
              ground (arith, known, idle, done) in
            (i, rw last found)
        | inr unused ↦
            let last : after ≡ rows ++ (new ∷ []) = ground (arith, unused, idle, done) in
            (new.id, rw last (found_added new active rows idle unused))
      ]
    ]
