-- ===== src/Keys/Refinement.antt =====
-- The abstract table: for each service and algorithm the active key, if any, without its identifier.
-- The statements that change which key is active, as steps of the table and as steps of that map.
use kms_platform.Common.{
  ◌≡◌, ◌∙◌, refl, ap, ℕ, ◌&&◌, Bool, true, false, String, List, [], ◌∷◌, Option, none, some, Result,
  ok, err, ◌>>=◌, eq_iff, str_eq, if◌then◌else◌, arith, Bool-cases, inl, inr,
}
use kms_platform.Keys.{
  KeyDbRow, Table, Postgres, SqlError, is_active_for, update, upsert, get_active_key,
  deactivate_keys_for_service, retire, rotate_active_key,
}
use kms_platform.Keys.Active.{get_active_key-upsert}
use kms_platform.Keys.Lookups.{found-update, found-upsert}

abbrev pub without_id : KeyDbRow → KeyDbRow
without_id r = record r { id = 0 }

abbrev pub without_ids : Option KeyDbRow → Option KeyDbRow
without_ids none = none
without_ids (some r) = some (without_id r)

abbrev pub ActiveKeys : Type 0
ActiveKeys = String → String → Option KeyDbRow

-- What a table says of the active keys.
unfoldable pub active_keys : Table → ActiveKeys
unfolding get_active_key
active_keys rows service_id algorithm = without_ids (get_active_key service_id algorithm rows)

pub data Statement : Type 0 where
  save : (new : KeyDbRow) → Statement
  deactivate : (service_id algorithm : String) → Statement
  rotate : (pg : Postgres) (now : ℕ) (old_status : String) (new : KeyDbRow) → Statement

-- A statement that succeeds on a table, with what is written active where it is a key.
pub data Runs : Statement → Table → Table → Type 0 where
  saved :
      {new : KeyDbRow} {rows after : Table}
      → new.is_active ≡ true
      → upsert new rows ≡ ok after
      → Runs (save new) rows after
  deactivated :
      {service_id algorithm : String} {rows : Table}
      → Runs
          (deactivate service_id algorithm)
          rows
          (deactivate_keys_for_service service_id algorithm rows)
  rotated :
      {pg : Postgres} {now : ℕ} {old_status : String} {new : KeyDbRow} {rows after : Table}
      → new.is_active ≡ true
      → rotate_active_key pg now new.service_id new.algorithm old_status new rows ≡ ok (true, after)
      → Runs (rotate pg now old_status new) rows after

pub data RunsAll : List Statement → Table → Table → Type 0 where
  finished : {rows : Table} → RunsAll [] rows rows
  then_all :
      {s : Statement} {others : List Statement} {rows between after : Table}
      → Runs s rows between
      → RunsAll others between after
      → RunsAll (s ∷ others) rows after

-- The map with one entry replaced.
abbrev pub set_active : String → String → Option KeyDbRow → ActiveKeys → ActiveKeys
set_active service_id algorithm key keys asked_service asked_algorithm =
    if str_eq service_id asked_service && str_eq algorithm asked_algorithm
    then key
    else keys asked_service asked_algorithm

abbrev pub specified : Statement → ActiveKeys → ActiveKeys
specified (save new) = set_active new.service_id new.algorithm (some (without_id new))
specified (deactivate service_id algorithm) = set_active service_id algorithm none
specified (rotate pg now old_status new) =
    set_active new.service_id new.algorithm (some (without_id new))

abbrev pub specified_all : List Statement → ActiveKeys → ActiveKeys
specified_all [] keys = keys
specified_all (s ∷ others) keys = specified_all others (specified s keys)

active_keys-upsert :
    (new : KeyDbRow) (rows after : Table) (s a : String)
    → new.is_active ≡ true
    → upsert new rows ≡ ok after
    → active_keys after s a
      ≡ set_active new.service_id new.algorithm (some (without_id new)) (active_keys rows) s a
unfolding active_keys get_active_key
active_keys-upsert new rows after s a active done =
    elim (Bool-cases (str_eq new.service_id s && str_eq new.algorithm a)) [
      | inl own ↦
          let (i, found) = get_active_key-upsert new rows after active done in
          let same_s : new.service_id ≡ s = ground (arith, own, eq_iff new.service_id s) in
          let same_a : new.algorithm ≡ a = ground (arith, own, eq_iff new.algorithm a) in
          rw own (rw (← same_s, ← same_a) (ap without_ids found))
      | inr apart ↦ rw apart (ap without_ids (found-upsert new s a apart rows after done))
    ]

active_keys-update :
    (service_id algorithm : String) (f : KeyDbRow → KeyDbRow) (rows : Table) (s a : String)
    → ((r : KeyDbRow) → (f r).is_active ≡ false)
    → active_keys (update (is_active_for service_id algorithm) f rows) s a
      ≡ set_active service_id algorithm none (active_keys rows) s a
unfolding active_keys get_active_key
active_keys-update service_id algorithm f rows s a off =
    let found = found-update service_id algorithm s a f rows off in
    elim (Bool-cases (str_eq service_id s && str_eq algorithm a)) [
      | inl own ↦ ground (arith, own, found)
      | inr apart ↦ ground (arith, apart, found)
    ]

rotate-ok :
    (r : Result SqlError Table) (after : Table)
    → ◌>>=◌ {B = Bool × Table} r (λ t. ok (true, t)) ≡ ok (true, after)
    → r ≡ ok after
rotate-ok (ok t) after done = ground (arith, done)
rotate-ok (err e) after done = absurd (ground (arith, done))

-- A rotation that succeeds ends in an insertion that succeeds.
pub rotate-inserts :
    (pg : Postgres) (now : ℕ) (old_status : String) (new : KeyDbRow) (rows after : Table)
    → rotate_active_key pg now new.service_id new.algorithm old_status new rows ≡ ok (true, after)
    → (before : Table) × (upsert new before ≡ ok after)
unfolding rotate_active_key
rotate-inserts pg now old_status new rows after done = elim (Bool-cases pg.retires_first) [
  | inr last ↦ (rows, rotate-ok (upsert new rows) after (ground (arith, last, done)))
  | inl early ↦
      let left = retire now new.service_id new.algorithm old_status rows in
      (left, rotate-ok (upsert new left) after (ground (arith, early, done)))
]

module _ (pg : Postgres) (now : ℕ) (old_status : String) (new : KeyDbRow) (rows after : Table)
    (active : new.is_active ≡ true)
    (done : rotate_active_key pg now new.service_id new.algorithm old_status new rows
      ≡ ok (true, after))
    (s a : String) where
  pub active_keys-rotate :
      active_keys after s a
      ≡ set_active new.service_id new.algorithm (some (without_id new)) (active_keys rows) s a
  unfolding rotate_active_key retire
  active_keys-rotate = elim (Bool-cases pg.retires_first) [
    | inr last ↦
        let inserted = rotate-ok (upsert new rows) after (ground (arith, last, done)) in
        active_keys-upsert new rows after s a active inserted
    | inl early ↦
        let left = retire now new.service_id new.algorithm old_status rows in
        let inserted = rotate-ok (upsert new left) after (ground (arith, early, done)) in
        let before =
          active_keys-update new.service_id new.algorithm
            (λ r. record r { status = old_status; is_active = false; created_at = now }) rows s a
            (λ r. refl) in
        let now_active = active_keys-upsert new left after s a active inserted in
        elim (Bool-cases (str_eq new.service_id s && str_eq new.algorithm a)) [
          | inl own ↦ ground (arith, own, now_active)
          | inr apart ↦ ground (arith, apart, now_active, before)
        ]
  ]

-- One statement that succeeds does to the active keys what is specified of it.
step-refines :
    {st : Statement} {rows after : Table}
    → Runs st rows after
    → (keys : ActiveKeys) → ((s a : String) → active_keys rows s a ≡ keys s a)
    → (s a : String) → active_keys after s a ≡ specified st keys s a
unfolding deactivate_keys_for_service rotate_active_key retire
step-refines (saved {new} {rows} {after} active done) keys same s a =
    active_keys-upsert new rows after s a active done
    ∙ ap
        (λ k.
          if str_eq new.service_id s && str_eq new.algorithm a then some (without_id new) else k)
        (same s a)
step-refines (deactivated {service_id} {algorithm} {rows}) keys same s a =
    active_keys-update service_id algorithm
      (λ r. record r { status = "Revoked"; is_active = false }) rows s a (λ r. refl)
    ∙ ap (λ k. if str_eq service_id s && str_eq algorithm a then none else k) (same s a)
step-refines (rotated {pg} {now} {old_status} {new} {rows} {after} active done) keys same s a =
    active_keys-rotate pg now old_status new rows after active done s a
    ∙ ap
        (λ k.
          if str_eq new.service_id s && str_eq new.algorithm a then some (without_id new) else k)
        (same s a)

-- Any sequence of statements that succeed, from any table, leaves the active keys that the same
-- sequence of specified updates gives: a key that is saved or rotated in is the one active key of its
-- service and algorithm, a deactivation leaves none, and no other service or algorithm is affected.
-- What is saved is active, and identifiers are not compared.
pub statements-refine :
    (statements : List Statement) (rows after : Table) (keys : ActiveKeys)
    → RunsAll statements rows after
    → ((s a : String) → active_keys rows s a ≡ keys s a)
    → (s a : String) → active_keys after s a ≡ specified_all statements keys s a
statements-refine [] rows after keys finished same s a = same s a
statements-refine (st ∷ others) rows after keys (then_all {between} step rest) same s a =
    statements-refine others between after (specified st keys) rest (step-refines step keys same) s
      a
