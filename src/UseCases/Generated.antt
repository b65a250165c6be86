-- ===== src/UseCases/Generated.antt =====
-- What a generation that returns has done, and what is read afterwards.
use kms_platform.Common.{
  ℕ, ◌≡◌, ◌≢◌, ◌∙◌, sym, ap, subst, true, String, Option, none, some, Result, ok, err, arith,
}
use kms_platform.Common.{◌>>=◌ as and_then}
use kms_platform.Service.Errors.{AppError, unauthorized}
use kms_platform.Service.Crypto.{KeyAlgorithm, ecdsa_p256}
use kms_platform.Service.CryptoService.{RawKeyPair, KmsCryptoService}
use kms_platform.Keys.{Table}
use kms_platform.Keys.Repository.{KeyPairEntity, active, get_active_key, save_key}
use kms_platform.Keys.Repository.Statuses.{deactivate_keys_for_service}
use kms_platform.Audit.Entries.{RequestContext, generate_key, access_denied_log}
use kms_platform.UseCases.{World, Platform, ◌>>◌, raise, record_access_denied}
use kms_platform.UseCases.Rotate.{generate_pair}
use kms_platform.UseCases.Generate.{
  GenerateKeyPairInput, has_generate_permission, written, retire_current, generate_authorized, seal,
  store, generate_key_pair,
}
use kms_platform.UseCases.Steps.{
  proceed-ok, select-ok, execute-ok, record_success-ok, value-eq, guard-ok, if-apply, refused,
}

pub generate_pair-known :
    (c : KmsCryptoService) (text : String) (a : KeyAlgorithm) (n : ℕ) (pair : RawKeyPair)
    → generate_pair c text a n ≡ ok pair
    → a ≢ ecdsa_p256
unfolding generate_pair
generate_pair-known c text a n pair made same =
    let e = ap (λ x. generate_pair c text x n) same in absurd (ground (arith, e, made))

written-ok :
    {r : Result AppError Table} {rows : Table} → and_then r written ≡ ok (tt, rows) → r ≡ ok rows
written-ok {r = ok t} e = ground (arith, e)
written-ok {r = err x} e = absurd (ground (arith, e))

module _ (p : Platform) (ctx : RequestContext) (input : GenerateKeyPairInput) where
  stored_by :
      (entity given : KeyPairEntity) (w w' : World)
      → store p ctx input entity w ≡ (ok given, w')
      → (given ≡ entity)
        × (save_key p.debug_time entity.created_at entity w.keys ≡ ok w'.keys)
        × (w'.cache ≡ w.cache)
  unfolding store
  stored_by entity given w w' done =
      let (_, w1, ran, rest1) = proceed-ok done in
      let (rows, wrote, same1) =
        execute-ok p
          (λ rows. and_then (save_key p.debug_time entity.created_at entity rows) written) w w1
          ran in
      let (_, w2, noted, rest2) = proceed-ok rest1 in
      let (keys2, cache2, logged) = record_success-ok p ctx generate_key _ w1 w2 noted in
      let keys : rows ≡ w'.keys =
        sym (ap (λ x. x.keys) same1) ∙ sym keys2 ∙ ap (λ r. r.1.keys) rest2 in
      let cache : w'.cache ≡ w.cache =
        sym (ap (λ r. r.1.cache) rest2) ∙ cache2 ∙ ap (λ x. x.cache) same1 in
      (sym (value-eq rest2), written-ok wrote ∙ ap ok keys, cache)

  -- What `seal` leaves.
  pub record IsSealed (version : ℕ) (w w' : World) (entity : KeyPairEntity) : Type 0 where
    pub pair : RawKeyPair
    pub draw : ℕ
    pub made :
        generate_pair p.crypto "ECDSA_P256 is not supported for in-process key generation"
          input.algorithm draw
        ≡ ok pair
    pub sealing : ℕ
    pub wrapped :
        p.crypto.encrypt_private_key sealing pair.private_key_bytes
        ≡ ok entity.encrypted_private_key
    pub service_id : entity.service_id ≡ input.service_id
    pub algorithm : entity.algorithm ≡ input.algorithm
    pub numbered : entity.version ≡ version
    pub status : entity.status ≡ active
    pub saved : save_key p.debug_time entity.created_at entity w.keys ≡ ok w'.keys
    pub cache : w'.cache ≡ w.cache

  IsSealed-by :
      (version : ℕ) (given : KeyPairEntity) (w w' : World)
      → seal p ctx input version w ≡ (ok given, w')
      → IsSealed version w w' given
  unfolding seal
  IsSealed-by version given w w' done =
      let (pair, w1, made, rest1) = proceed-ok done in
      let (encrypted, w2, wrapped, rest2) = proceed-ok rest1 in
      let (entity, w3, built, rest3) = proceed-ok rest2 in
      let (same, saved, cache) = stored_by entity given w3 w' rest3 in
      let keys3 : w3.keys ≡ w.keys =
        sym (ap (λ r. r.1.keys) built)
        ∙ sym (ap (λ r. r.1.keys) wrapped)
        ∙ sym (ap (λ r. r.1.keys) made) in
      let cache3 : w3.cache ≡ w.cache =
        sym (ap (λ r. r.1.cache) built)
        ∙ sym (ap (λ r. r.1.cache) wrapped)
        ∙ sym (ap (λ r. r.1.cache) made) in
      subst (IsSealed version w w') (sym same) (record {
        pair = pair;
        draw = w.calls;
        made = ap (λ r. r.0) made;
        sealing = w1.calls;
        wrapped = ap (λ r. r.0) wrapped ∙ ap (λ e. ok e.encrypted_private_key) (value-eq built);
        service_id = sym (ap (λ e. e.service_id) (value-eq built));
        algorithm = sym (ap (λ e. e.algorithm) (value-eq built));
        numbered = sym (ap (λ e. e.version) (value-eq built));
        status = sym (ap (λ e. e.status) (value-eq built));
        saved = ap (save_key p.debug_time entity.created_at entity) (sym keys3) ∙ saved;
        cache = cache ∙ cache3;
      })

  -- A generation that returns seals a key into the table that `retire_current` leaves.
  pub record IsGeneration (w w' : World) (entity : KeyPairEntity) : Type 0 where
    pub allowed : has_generate_permission p.acl input.caller_service ≡ true
    pub version : ℕ
    pub retired : World
    pub left : IsSealed version retired w' entity
    pub kept : retired.cache ≡ w.cache

  retire_current-cache :
      (current : Option KeyPairEntity) (w w' : World) (version : ℕ)
      → retire_current p input current w ≡ (ok version, w')
      → w'.cache ≡ w.cache
  unfolding retire_current
  retire_current-cache none w w' version done = sym (ap (λ r. r.1.cache) done)
  retire_current-cache (some key) w w' version done =
      let (_, w1, ran, rest1) = proceed-ok done in
      let (rows, wrote, same1) =
        execute-ok p
          (λ rows. written (deactivate_keys_for_service input.service_id input.algorithm rows)) w w1
          ran in
      sym (ap (λ r. r.1.cache) rest1) ∙ ap (λ x. x.cache) same1

  generated_by :
      (entity : KeyPairEntity) (w w' : World)
      → has_generate_permission p.acl input.caller_service ≡ true
      → generate_authorized p ctx input w ≡ (ok entity, w')
      → IsGeneration w w' entity
  unfolding generate_authorized
  generated_by entity w w' allowed done =
      let (current, w1, read, rest1) = proceed-ok done in
      let (found, same1) =
        select-ok p (get_active_key input.service_id input.algorithm) w w1 read in
      let (version, w2, retired, rest2) = proceed-ok rest1 in
      record {
        allowed = allowed;
        version = version;
        retired = w2;
        left = IsSealed-by version entity w2 w' rest2;
        kept = retire_current-cache current w1 w2 version retired ∙ ap (λ x. x.cache) same1;
      }

  pub generate_key_pair-IsGeneration :
      (entity : KeyPairEntity) (w w' : World)
      → generate_key_pair p ctx input w ≡ (ok entity, w')
      → IsGeneration w w' entity
  unfolding generate_key_pair
  generate_key_pair-IsGeneration entity w w' done =
      let text : String = "ACL Policy Violation for GenerateKey" in
      let refusal = record_access_denied p ctx generate_key text >> raise unauthorized in
      let allowed = has_generate_permission p.acl input.caller_service in
      let (reason, failed, quiet) =
        refused p (λ id now. access_denied_log p.texts id now ctx generate_key text) unauthorized
          w in
      let (held, ran) =
        guard-ok allowed (generate_authorized p ctx input) (refusal w) w w' reason failed
          (sym (if-apply allowed (generate_authorized p ctx input) refusal w) ∙ done) in
      generated_by entity w w' held ran
