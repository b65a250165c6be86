-- ===== src/Keys/Laws.antt =====
-- What a rotation does, in either order of its two parts.
use kms_platform.Common.{
  ◌∙◌, ℕ, ◌≡◌, refl, ◌==◌, Bool, true, false, not, String, [], ◌∷◌, ◌++◌, map, some, ok, err, any,
  filter, eq_iff, eq_refl, if◌then◌else◌, arith, Bool-cases, inl, inr,
}
use kms_platform.Keys.{
  KeyDbRow, Table, unique_violation, Postgres, is_version, is_active_for, first, excluded,
  same_version, upsert, get_active_key, get_key_by_version, retire, rotate_active_key,
}

module _ (now : ℕ) (service_id algorithm old_status : String) where
  filter-retire :
      (rows later : Table)
      → filter
          (is_active_for service_id algorithm)
          (retire now service_id algorithm old_status rows ++ later)
        ≡ filter (is_active_for service_id algorithm) later
  unfolding retire
  filter-retire [] later = refl
  filter-retire (r ∷ rows) later = elim (Bool-cases (is_active_for service_id algorithm r)) [
    | inl hit ↦ ground (arith, hit, filter-retire rows later)
    | inr miss ↦ ground (arith, miss, filter-retire rows later)
  ]

  none_active :
      (p : KeyDbRow → Bool) (rows : Table)
      → any
          (is_active_for service_id algorithm)
          (filter p (retire now service_id algorithm old_status rows))
        ≡ false
  unfolding retire
  none_active p [] = refl
  none_active p (r ∷ rows) = elim (Bool-cases (is_active_for service_id algorithm r)) [
    | inl hit ↦ ground (arith, hit, none_active p rows)
    | inr miss ↦ ground (arith, miss, none_active p rows)
  ]

  -- A test that does not read what is updated.
  any-retire :
      (p : KeyDbRow → Bool) (rows : Table)
      → ((r : KeyDbRow)
          → p (record r { status = old_status; is_active = false; created_at = now }) ≡ p r)
      → any p (retire now service_id algorithm old_status rows) ≡ any p rows
  unfolding retire
  any-retire p [] same = refl
  any-retire p (r ∷ rows) same = elim (Bool-cases (is_active_for service_id algorithm r)) [
    | inl hit ↦ ground (arith, hit, same r, any-retire p rows same)
    | inr miss ↦ ground (arith, miss, any-retire p rows same)
  ]

upsert-fresh :
    (new : KeyDbRow) (rows : Table)
    → any (is_active_for new.service_id new.algorithm) (filter (λ r. not (same_version new r)) rows)
      ≡ false
    → any (same_version new) rows ≡ false
    → any (λ r. r.id == new.id) rows ≡ false
    → upsert new rows ≡ ok (rows ++ (new ∷ []))
unfolding upsert
upsert-fresh new rows idle unused free = ground (arith, idle, unused, free)

-- A rotation that retires first, to a version and an identifier that no row has, succeeds: the new
-- key is added and is the active one.
pub rotate_retiring_first :
    (pg : Postgres) (now : ℕ) (old_status : String) (new : KeyDbRow) (rows : Table)
    → pg.retires_first ≡ true
    → new.is_active ≡ true
    → any (same_version new) rows ≡ false
    → any (λ r. r.id == new.id) rows ≡ false
    → let after = retire now new.service_id new.algorithm old_status rows ++ (new ∷ []) in
      (rotate_active_key pg now new.service_id new.algorithm old_status new rows ≡ ok (true, after))
      × (get_active_key new.service_id new.algorithm after ≡ some new)
unfolding rotate_active_key get_active_key
rotate_retiring_first pg now old_status new rows order active unused free =
    let s = new.service_id in
    let a = new.algorithm in
    let retired = retire now s a old_status rows in
    let added =
      upsert-fresh new retired (none_active now s a old_status (λ r. not (same_version new r)) rows)
        (any-retire now s a old_status (same_version new) rows (λ r. refl) ∙ unused)
        (any-retire now s a old_status (λ r. r.id == new.id) rows (λ r. refl) ∙ free) in
    let left = filter-retire now s a old_status rows (new ∷ []) in
    (ground (arith, order, added), ground (arith, left, active, eq_refl s, eq_refl a))

-- A rotation that inserts first fails whenever a key of another version is active.
pub rotate_inserting_first :
    (pg : Postgres) (now : ℕ) (old_status : String) (new : KeyDbRow) (rows : Table)
    → pg.retires_first ≡ false
    → new.is_active ≡ true
    → any (is_active_for new.service_id new.algorithm) (filter (λ r. not (same_version new r)) rows)
      ≡ true
    → rotate_active_key pg now new.service_id new.algorithm old_status new rows
      ≡ err unique_violation
unfolding rotate_active_key upsert
rotate_inserting_first pg now old_status new rows order active busy =
    ground (arith, order, busy, active)

module _ (new : KeyDbRow) where
  abbrev found_by : Table → Table
  found_by rows = filter (is_version new.service_id new.algorithm new.version) rows

  pub excluded-eq :
      (r : KeyDbRow) → same_version new r ≡ true → excluded new r ≡ record new { id = r.id }
  excluded-eq r same =
      let s : r.service_id ≡ new.service_id = ground (arith, eq_iff r.service_id new.service_id) in
      let a : r.algorithm ≡ new.algorithm = ground (arith, eq_iff r.algorithm new.algorithm) in
      let v : r.version ≡ new.version = ground arith in cc

  found_updated :
      (rows : Table)
      → any (same_version new) rows ≡ true
      → (i : ℕ) × (first
            (found_by (map (λ r. if same_version new r then excluded new r else r) rows))
          ≡ some (record new { id = i }))
  found_updated [] known = absurd (ground arith)
  found_updated (r ∷ rows) known = elim (Bool-cases (same_version new r)) [
    | inl hit ↦ (r.id, ground (arith, hit, excluded-eq r hit))
    | inr miss ↦
        let (i, rest) = found_updated rows (ground (arith, miss)) in (i, ground (arith, miss, rest))
  ]

  found_added :
      (rows : Table)
      → any (same_version new) rows ≡ false
      → first (found_by (rows ++ (new ∷ []))) ≡ some new
  found_added [] unused = ground (arith, eq_refl new.service_id, eq_refl new.algorithm)
  found_added (r ∷ rows) unused = ground (arith, found_added rows)

-- After an insertion that succeeded, its version is looked up with the columns inserted; only the
-- identifier may be that of an older row of the version.
pub get_key_by_version-upsert :
    (new : KeyDbRow) (rows after : Table)
    → upsert new rows ≡ ok after
    → (i : ℕ) × (get_key_by_version new.service_id new.algorithm new.version after
        ≡ some (record new { id = i }))
unfolding upsert get_key_by_version
get_key_by_version-upsert new rows after done = elim (Bool-cases (any (same_version new) rows)) [
  | inl known ↦
      let (i, found) = found_updated new rows known in
      let last : after ≡ map (λ r. if same_version new r then excluded new r else r) rows =
        ground (arith, known) in
      (i, rw last found)
  | inr unused ↦
      let last : after ≡ rows ++ (new ∷ []) = ground (arith, unused) in
      (new.id, rw last (found_added new rows unused))
]
