-- ===== src/UseCases/Rotated.antt =====
-- What a rotation that returns has done.
use kms_platform.Common.{
  ◌⊎◌, ◌+◌, ◌≡◌, refl, Bool, true, false, Option, none, some, Result, ok, inl, inr, eq_refl, arith,
  ap, subst, ◌∙◌, sym,
}
use kms_platform.Service.Errors.{AppError, unauthorized}
use kms_platform.Service.Acl.{authorize_control_action}
use kms_platform.Service.KeyCache.{KeyCacheKey, with_key, remove_all_for_service}
use kms_platform.Service.KeyCache.Laws.{with_key-remove, with_key-remove_all_for_service}
use kms_platform.Keys.{Table}
use kms_platform.Keys.Repository.{KeyPairEntity, active, get_active_key}
use kms_platform.Keys.Repository.Statuses.{rotate_active_key}
use kms_platform.Audit.Entries.{RequestContext, key_rotated, access_denied_log}
use kms_platform.UseCases.{World, Platform, record_access_denied, raise, ◌>>◌}
use kms_platform.UseCases.Rotate.{
  RotateKeyInput, RotationReason, scheduled, compromised, manual, required_action, found_or,
  next_version, deprecated_until, invalidate, check_rotated, install, renew, rotate_authorized,
  rotate_key,
}
use kms_platform.UseCases.Steps.{
  proceed-ok, select-ok, execute-ok, record_success-ok, IsLogged, guard-ok, if-apply, refused,
}

abbrev pub cached_under : RotateKeyInput → KeyCacheKey
cached_under input = record { target_service = input.service_id; algorithm = input.algorithm }

reason_cases : (r : RotationReason) → (r ≡ compromised) ⊎ ((r ≡ scheduled) ⊎ (r ≡ manual))
reason_cases scheduled = inr (inl refl)
reason_cases compromised = inl refl
reason_cases manual = inr (inr refl)

module _ (p : Platform) where
  invalidate-ok :
      (input : RotateKeyInput) (w w' : World)
      → invalidate p input w ≡ (ok tt, w')
      → (w'.keys ≡ w.keys) × (w'.audit ≡ w.audit) × (with_key (cached_under input) w'.cache ≡ none)
  unfolding invalidate
  invalidate-ok input w w' done =
      let key = cached_under input in
      elim (reason_cases input.reason) [
        | inl taken ↦
            let cleared : with_key key (remove_all_for_service input.service_id w.cache) ≡ none =
              with_key-remove_all_for_service input.service_id key w.cache
              ∙ rw (eq_refl input.service_id) refl in
            (
              ground (arith, taken, done),
              ground (arith, taken, done),
              ground (arith, taken, done, cleared),
            )
        | inr (inl due) ↦
            let cleared = with_key-remove key w.cache in
            (
              ground (arith, due, done),
              ground (arith, due, done),
              ground (arith, due, done, cleared),
            )
        | inr (inr asked) ↦
            let cleared = with_key-remove key w.cache in
            (
              ground (arith, asked, done),
              ground (arith, asked, done),
              ground (arith, asked, done, cleared),
            )
      ]

  found_or-ok :
      (e : AppError) (row : Option KeyPairEntity) (old : KeyPairEntity) (w w' : World)
      → ◌≡◌ {A = Result AppError KeyPairEntity × World} (found_or e row, w) (ok old, w')
      → (row ≡ some old) × (w' ≡ w)
  unfolding found_or
  found_or-ok x none old w w' e = absurd (ground (arith, e))
  found_or-ok x (some key) old w w' e = (ground (arith, e), ground (arith, e))

  check_rotated-ok :
      (rotated : Bool) (w w' : World)
      → check_rotated p rotated w ≡ (ok tt, w')
      → (rotated ≡ true) × (w' ≡ w)
  unfolding check_rotated
  check_rotated-ok true w w' e = (refl, ground (arith, e))
  check_rotated-ok false w w' e = absurd (ground (arith, e))

  -- What `install` leaves.
  pub record IsInstalled (ctx : RequestContext) (input : RotateKeyInput) (w w' : World)
      (entity : KeyPairEntity) : Type 0 where
    pub written :
        rotate_active_key p.pg entity.created_at input.service_id input.algorithm entity
          (deprecated_until p input.reason entity.created_at)
          w.keys
        ≡ ok (true, w'.keys)
    pub uncached : with_key (cached_under input) w'.cache ≡ none
    pub logged : IsLogged p ctx key_rotated w.audit w'.audit

  -- The steps put together.
  finish :
      (ctx : RequestContext) (input : RotateKeyInput) (entity given : KeyPairEntity)
      (rotated : Bool) (rows : Table) (w w1 w2 w3 w4 w' : World)
      → rotate_active_key p.pg entity.created_at input.service_id input.algorithm entity
          (deprecated_until p input.reason entity.created_at)
          w.keys
        ≡ ok (rotated, rows)
      → w1 ≡ record w { keys = rows; calls = w.calls + 1 }
      → rotated ≡ true
      → w2 ≡ w1
      → w3.keys ≡ w2.keys
      → w3.audit ≡ w2.audit
      → with_key (cached_under input) w3.cache ≡ none
      → (w4.keys ≡ w3.keys) × (w4.cache ≡ w3.cache) × IsLogged p ctx key_rotated w3.audit w4.audit
      → ◌≡◌ {A = Result AppError KeyPairEntity × World} (ok entity, w4) (ok given, w')
      → (given ≡ entity) × IsInstalled ctx input w w' entity
  finish ctx input entity given rotated rows w w1 w2 w3 w4 w' wrote same1 agreed same2 kept audit
        uncached noted last =
      let (keys4, cache4, logged) = noted in
      let last_world : w4 ≡ w' = ground (arith, last) in
      let rows_left : rows ≡ w'.keys =
        sym (ap (λ x. x.keys) same1)
        ∙ sym (ap (λ x. x.keys) same2)
        ∙ sym kept
        ∙ sym keys4
        ∙ ap (λ x. x.keys) last_world in
      let before : w3.audit ≡ w.audit = audit ∙ ap (λ x. x.audit) same2 ∙ ap (λ x. x.audit) same1 in
      (
        ground (arith, last),
        record {
          written = cc;
          uncached = rw (← last_world, cache4) uncached;
          logged = rw (← last_world, ← before) logged;
        },
      )

  installed :
      (ctx : RequestContext) (input : RotateKeyInput) (entity given : KeyPairEntity) (w w' : World)
      → install p ctx input entity w ≡ (ok given, w')
      → (given ≡ entity) × IsInstalled ctx input w w' entity
  unfolding install
  installed ctx input entity given w w' done =
      let (rotated, w1, ran, rest1) = proceed-ok done in
      let (rows, wrote, same1) =
        execute-ok p
          (λ rows.
            rotate_active_key p.pg entity.created_at input.service_id input.algorithm entity
              (deprecated_until p input.reason entity.created_at) rows)
          w w1 ran in
      let (_, w2, checked, rest2) = proceed-ok rest1 in
      let (agreed, same2) = check_rotated-ok rotated w1 w2 checked in
      let (_, w3, cleared, rest3) = proceed-ok rest2 in
      let (kept, audit, uncached) = invalidate-ok input w2 w3 cleared in
      let (_, w4, noted, rest4) = proceed-ok rest3 in
      finish ctx input entity given rotated rows w w1 w2 w3 w4 w' wrote same1 agreed same2 kept
        audit uncached (record_success-ok p ctx key_rotated _ w3 w4 noted) rest4

  IsInstalled-before :
      (ctx : RequestContext) (input : RotateKeyInput) (w w1 w' : World) (entity : KeyPairEntity)
      → w1.keys ≡ w.keys
      → w1.audit ≡ w.audit
      → IsInstalled ctx input w1 w' entity
      → IsInstalled ctx input w w' entity
  IsInstalled-before ctx input w w1 w' entity keys audit left = record {
    written =
        subst
          (λ rows.
            rotate_active_key p.pg entity.created_at input.service_id input.algorithm entity
              (deprecated_until p input.reason entity.created_at) rows
            ≡ ok (true, w'.keys))
          keys left.written;
    uncached = left.uncached;
    logged = subst (λ rows. IsLogged p ctx key_rotated rows w'.audit) audit left.logged;
  }

  renewed :
      (ctx : RequestContext) (input : RotateKeyInput) (old given : KeyPairEntity) (w w' : World)
      → renew p ctx input old w ≡ (ok given, w')
      → (given.version ≡ next_version old.version)
        × (given.status ≡ active)
        × IsInstalled ctx input w w' given
  unfolding renew
  renewed ctx input old given w w' done =
      let (pair, w1, made, rest1) = proceed-ok done in
      let (encrypted, w2, wrapped, rest2) = proceed-ok rest1 in
      let (entity, w3, built, rest3) = proceed-ok rest2 in
      let (same, left) = installed ctx input entity given w3 w' rest3 in
      let keys3 : w3.keys ≡ w.keys =
        sym (ap (λ r. r.1.keys) built)
        ∙ sym (ap (λ r. r.1.keys) wrapped)
        ∙ sym (ap (λ r. r.1.keys) made) in
      let audit3 : w3.audit ≡ w.audit =
        sym (ap (λ r. r.1.audit) built)
        ∙ sym (ap (λ r. r.1.audit) wrapped)
        ∙ sym (ap (λ r. r.1.audit) made) in
      (
        ap (λ e. e.version) same ∙ sym (ground (arith, built)),
        ap (λ e. e.status) same ∙ sym (ground (arith, built)),
        subst (IsInstalled ctx input w w') (sym same)
            (IsInstalled-before ctx input w w3 w' entity keys3 audit3 left),
      )

  -- What a rotation has done: `old` was the active key, the statement has put the entity in its
  -- place with the version after it, the cache has no key of the service and algorithm, and one
  -- entry is recorded.
  pub record IsRotation (ctx : RequestContext) (input : RotateKeyInput) (w w' : World)
      (entity : KeyPairEntity) : Type 0 where
    pub allowed : authorize_control_action p.acl input.caller_service (required_action input) ≡ true
    pub old : KeyPairEntity
    pub was_active : get_active_key input.service_id input.algorithm w.keys ≡ ok (some old)
    pub version : entity.version ≡ next_version old.version
    pub status : entity.status ≡ active
    pub left : IsInstalled ctx input w w' entity

  rotated_by :
      (ctx : RequestContext) (input : RotateKeyInput) (entity : KeyPairEntity) (w w' : World)
      → authorize_control_action p.acl input.caller_service (required_action input) ≡ true
      → rotate_authorized p ctx input w ≡ (ok entity, w')
      → IsRotation ctx input w w' entity
  unfolding rotate_authorized
  rotated_by ctx input entity w w' allowed done =
      let (row, w1, read, rest1) = proceed-ok done in
      let (found, same1) =
        select-ok p (get_active_key input.service_id input.algorithm) w w1 read in
      let (old, w2, taken, rest2) = proceed-ok rest1 in
      let (was, same2) = found_or-ok _ row old w1 w2 taken in
      let (version, status, left) = renewed ctx input old entity w2 w' rest2 in
      let whole : w2 ≡ record w { calls = w.calls + 1 } = same2 ∙ same1 in
      record {
        allowed = allowed;
        old = old;
        was_active = rw (← was) found;
        version = version;
        status = status;
        left =
            IsInstalled-before ctx input w w2 w' entity (ap (λ x. x.keys) whole)
              (ap (λ x. x.audit) whole) left;
      }

-- A rotation that returns a key was allowed to the caller. The key that was active is replaced: the
-- table is the one that the statement of the rotation leaves, which has the new key with the version
-- after the old one; the cache has nothing under the service and the algorithm any more; and the
-- audit table has one entry more, of a rotation by the caller.
pub rotate_key-IsRotation :
    (p : Platform) (ctx : RequestContext) (input : RotateKeyInput) (entity : KeyPairEntity)
    (w w' : World)
    → rotate_key p ctx input w ≡ (ok entity, w')
    → IsRotation p ctx input w w' entity
unfolding rotate_key
rotate_key-IsRotation p ctx input entity w w' done =
    let refusal =
      record_access_denied p ctx key_rotated "ACL Policy Violation" >> raise unauthorized in
    let allowed = authorize_control_action p.acl input.caller_service (required_action input) in
    let (reason, failed, quiet) =
      refused p (λ id now. access_denied_log p.texts id now ctx key_rotated "ACL Policy Violation")
        unauthorized w in
    let (held, ran) =
      guard-ok allowed (rotate_authorized p ctx input) (refusal w) w w' reason failed
        (sym (if-apply allowed (rotate_authorized p ctx input) refusal w) ∙ done) in
    rotated_by p ctx input entity w w' held ran
