-- ===== src/Keys/Lookups.antt =====
-- What a lookup of the active key finds after an update or an insertion.
use kms_platform.Common.{
  ◌≡◌, ◌∙◌, refl, sym, ap, ◌&&◌, Bool, true, false, String, [], ◌∷◌, ◌++◌, map, Option, none, ok,
  any, filter, eq_iff, str_eq, if◌then◌else◌, arith, Bool-cases, inl, inr,
}
use kms_platform.Keys.{
  KeyDbRow, Table, is_named, is_active_for, first, excluded, same_version, update, upsert,
}

-- An update of the rows with `p`, none of which has `q` afterwards.
module _ (p q : KeyDbRow → Bool) (f : KeyDbRow → KeyDbRow)
    (off : (r : KeyDbRow) → q (f r) ≡ false) where
  none-update :
      (rows : Table) → ((r : KeyDbRow) → q r ≡ p r) → first (filter q (update p f rows)) ≡ none
  none-update [] same = refl
  none-update (r ∷ rows) same =
      let rest = none-update rows same in
      elim (Bool-cases (p r)) [
        | inl hit ↦ rw (hit, off r) rest
        | inr miss ↦ rw (miss, same r, miss) rest
      ]

  kept-update :
      (rows : Table)
      → ((r : KeyDbRow) → p r ≡ true → q r ≡ false)
      → first (filter q (update p f rows)) ≡ first (filter q rows)
  kept-update [] apart = refl
  kept-update (r ∷ rows) apart =
      let rest = kept-update rows apart in
      elim (Bool-cases (p r)) [
        | inl hit ↦ rw (hit, off r, apart r hit) rest
        | inr miss ↦ elim (Bool-cases (q r)) [
          | inl found ↦ rw (miss, found) refl
          | inr lost ↦ rw (miss, lost) rest
        ]
      ]

module _ (service_id algorithm asked_service asked_algorithm : String) where
  -- Of a row with one name, the other name is tested as the names are.
  is_named_other :
      (r : KeyDbRow)
      → is_named service_id algorithm r ≡ true
      → is_named asked_service asked_algorithm r
        ≡ (str_eq service_id asked_service && str_eq algorithm asked_algorithm)
  is_named_other r named =
      let s : r.service_id ≡ service_id = ground (arith, named, eq_iff r.service_id service_id) in
      let a : r.algorithm ≡ algorithm = ground (arith, named, eq_iff r.algorithm algorithm) in
      rw (s, a) refl

  abbrev pub is_asked : Bool
  is_asked = str_eq service_id asked_service && str_eq algorithm asked_algorithm

  is_named_asked :
      (r : KeyDbRow)
      → is_asked ≡ true
      → is_named asked_service asked_algorithm r ≡ is_named service_id algorithm r
  is_named_asked r asked =
      let s : service_id ≡ asked_service = ground (arith, asked, eq_iff service_id asked_service) in
      let a : algorithm ≡ asked_algorithm =
        ground (arith, asked, eq_iff algorithm asked_algorithm) in
      rw (s, a) refl

  abbrev pub found : Table → Option KeyDbRow
  found rows = first (filter (is_active_for asked_service asked_algorithm) rows)

  is_active_for-apart :
      (r : KeyDbRow)
      → is_asked ≡ false
      → is_active_for service_id algorithm r ≡ true
      → is_active_for asked_service asked_algorithm r ≡ false
  is_active_for-apart r apart hit = elim (Bool-cases (is_named service_id algorithm r)) [
    | inl named ↦ rw (is_named_other r named, apart) refl
    | inr other ↦ absurd (ground (arith, other, hit))
  ]

  -- An update that makes rows of a service and algorithm inactive, and names none anew.
  pub found-update :
      (f : KeyDbRow → KeyDbRow) (rows : Table)
      → ((r : KeyDbRow) → (f r).is_active ≡ false)
      → found (update (is_active_for service_id algorithm) f rows)
        ≡ (if is_asked then none else found rows)
  found-update f rows off =
      let p : KeyDbRow → Bool = is_active_for service_id algorithm in
      let q : KeyDbRow → Bool = is_active_for asked_service asked_algorithm in
      let gone : (r : KeyDbRow) → q (f r) ≡ false = λ r. ground (arith, off r) in
      elim (Bool-cases is_asked) [
        | inl asked ↦
            rw asked (
              none-update p q f gone rows
                (λ r. ap (λ b. b && r.is_active) (is_named_asked r asked)))
        | inr apart ↦
            rw apart (kept-update p q f gone rows (λ r hit. is_active_for-apart r apart hit))
      ]

-- A row that is inserted changes nothing of other services and algorithms.
module _ (new : KeyDbRow) (asked_service asked_algorithm : String)
    (apart : (str_eq new.service_id asked_service && str_eq new.algorithm asked_algorithm)
      ≡ false) where
  abbrev pub found_other : Table → Option KeyDbRow
  found_other rows = first (filter (is_active_for asked_service asked_algorithm) rows)

  found-append : (rows : Table) → found_other (rows ++ (new ∷ [])) ≡ found_other rows
  found-append [] = ground (arith, apart)
  found-append (r ∷ rows) = ground (arith, found-append rows)

  found-excluded :
      (rows : Table)
      → found_other (map (λ r. if same_version new r then excluded new r else r) rows)
        ≡ found_other rows
  found-excluded [] = refl
  found-excluded (r ∷ rows) =
      let rest = found-excluded rows in
      elim (Bool-cases (is_named new.service_id new.algorithm r)) [
        | inl named ↦
            let other =
              is_named_other new.service_id new.algorithm asked_service asked_algorithm r named in
            ground (arith, other, apart, rest)
        | inr strange ↦ ground (arith, strange, rest)
      ]

  pub found-upsert :
      (rows after : Table) → upsert new rows ≡ ok after → found_other after ≡ found_other rows
  unfolding upsert
  found-upsert rows after done = elim (Bool-cases (any (same_version new) rows)) [
    | inl known ↦
        let last : map (λ r. if same_version new r then excluded new r else r) rows ≡ after =
          ground (arith, known, done) in
        ap found_other (sym last) ∙ found-excluded rows
    | inr unused ↦
        let last : rows ++ (new ∷ []) ≡ after = ground (arith, unused, done) in
        ap found_other (sym last) ∙ found-append rows
  ]
