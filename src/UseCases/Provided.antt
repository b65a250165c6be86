-- ===== src/UseCases/Provided.antt =====
-- What is given out after a generation.
use kms_platform.Common.{
  ℕ, ◌+◌, ◌≡◌, ◌≢◌, ◌∙◌, refl, sym, ap, Bool, true, String, Bytes, none, some, ok, Bool-cases, inl,
  inr,
}
use kms_platform.Service.Crypto.{KeyAlgorithm, ecdsa_p256, EncryptedPrivateKey}
use kms_platform.Service.CryptoService.{RawKeyPair, KmsCryptoService}
use kms_platform.Service.Acl.{authorize_key_access, private_key}
use kms_platform.Service.KeyCache.{CachedKeyValue, with_key}
use kms_platform.Keys.Repository.{KeyPairEntity, get_active_key}
use kms_platform.Keys.Repository.Laws.{stored}
use kms_platform.Keys.Repository.Saved.{get_active_key-save_key}
use kms_platform.Audit.Entries.{RequestContext}
use kms_platform.UseCases.{World, Platform, proceed, select, record_log}
use kms_platform.UseCases.Rotate.{generate_pair}
use kms_platform.UseCases.Generate.{GenerateKeyPairInput, generate_key_pair}
use kms_platform.UseCases.Generated.{generate_pair-known, generate_key_pair-IsGeneration}
use kms_platform.UseCases.Fetch.{
  KeyRequest, KeyAnswer, cache_key, should_preload_for, preload, answer, answer_cached,
  answer_stored, fetch, get_private_key,
}

-- What is encrypted is decrypted to itself, whatever version it is marked with.
pub record HasRoundTrip (c : KmsCryptoService) : Type 0 where
  pub opens :
      (m n version : ℕ) (key : Bytes) (encrypted : EncryptedPrivateKey)
      → c.encrypt_private_key m key ≡ ok encrypted
      → c.decrypt_private_key n (record encrypted { master_key_version = version }) ≡ ok key

module _ (p : Platform) (ctx : RequestContext) (request : KeyRequest)
    (up : (n : ℕ) → p.database_up n ≡ true) where
  abbrev is_allowed : Bool
  is_allowed =
      authorize_key_access p.acl request.caller_service request.target_service request.algorithm
        private_key

  -- A key that is stored and can be decrypted is given out.
  get_private_key-stored :
      (k : KeyPairEntity) (bytes : Bytes) (w : World)
      → is_allowed ≡ true
      → with_key (cache_key request) w.cache ≡ none
      → get_active_key request.target_service request.algorithm w.keys ≡ ok (some k)
      → ((n : ℕ) → p.crypto.decrypt_private_key n k.encrypted_private_key ≡ ok bytes)
      → (get_private_key p ctx request w).0
        ≡ ok (record {
          service_id = k.service_id;
          algorithm = k.algorithm;
          version = k.version;
          key_bytes = bytes;
        })
  unfolding get_private_key fetch answer answer_stored preload select record_log proceed
  get_private_key-stored k bytes w allowed uncached found opened =
      elim (Bool-cases (should_preload_for p.acl request.target_service request.algorithm)) [
        | inl kept ↦
            rw
              (
                allowed,
                uncached,
                up w.calls,
                found,
                opened (w.calls + 1),
                kept,
                up (w.calls + 1 + 3),
              )
              refl
        | inr passed ↦
            rw
              (
                allowed,
                uncached,
                up w.calls,
                found,
                opened (w.calls + 1),
                passed,
                up (w.calls + 1 + 3),
              )
              refl
      ]

  get_private_key-cached :
      (cached : CachedKeyValue) (w : World)
      → is_allowed ≡ true
      → with_key (cache_key request) w.cache ≡ some cached
      → (get_private_key p ctx request w).0
        ≡ ok (record {
          service_id = request.target_service;
          algorithm = request.algorithm;
          version = cached.version;
          key_bytes = cached.bytes;
        })
  unfolding get_private_key fetch answer answer_cached record_log proceed
  get_private_key-cached cached w allowed held = rw (allowed, held, up w.calls) refl

abbrev pub request_of : String → GenerateKeyPairInput → KeyRequest
request_of caller input = record {
  caller_service = caller;
  target_service = input.service_id;
  algorithm = input.algorithm;
}

abbrev answer_of : String → KeyAlgorithm → ℕ → Bytes → KeyAnswer
answer_of service_id algorithm version key_bytes = record {
  service_id = service_id;
  algorithm = algorithm;
  version = version;
  key_bytes = key_bytes;
}

-- What is given out is the private key that was generated, with the version of the entity.
pub IsProvided :
    (p : Platform) (ctx : RequestContext) (caller : String) (input : GenerateKeyPairInput)
    (entity : KeyPairEntity) (w : World)
    → Type 0
IsProvided p ctx caller input entity w =
    (pair : RawKeyPair) × (draw : ℕ) × (generate_pair p.crypto
        "ECDSA_P256 is not supported for in-process key generation" input.algorithm draw
      ≡ ok pair)
    × ((get_private_key p ctx (request_of caller input) w).0
        ≡ ok (record {
          service_id = input.service_id;
          algorithm = input.algorithm;
          version = entity.version;
          key_bytes = pair.private_key_bytes;
        }))

-- After a generation that returned a key, a caller with the right to read it gets the private key
-- that was generated, with the version of the key returned. The cache has no key of the service and
-- algorithm from before, the database answers, and the vHSM decrypts what it encrypted.
pub get_private_key-generate_key_pair :
    (p : Platform) (ctx : RequestContext) (caller : String) (input : GenerateKeyPairInput)
    (entity : KeyPairEntity) (w w' : World)
    → ((n : ℕ) → p.database_up n ≡ true)
    → HasRoundTrip p.crypto
    → authorize_key_access p.acl caller input.service_id input.algorithm private_key ≡ true
    → with_key (cache_key (request_of caller input)) w.cache ≡ none
    → generate_key_pair p ctx input w ≡ (ok entity, w')
    → IsProvided p ctx caller input entity w'
unfolding IsProvided
get_private_key-generate_key_pair p ctx caller input entity w w' up trip allowed uncached done =
    let g = generate_key_pair-IsGeneration p ctx input entity w w' done in
    let s = g.left in
    let known : entity.algorithm ≢ ecdsa_p256 = λ e.
      generate_pair-known p.crypto _ input.algorithm s.draw s.pair s.made (sym s.algorithm ∙ e) in
    let (i, found) =
      get_active_key-save_key p.debug_time entity.created_at entity g.retired.keys w'.keys known
        s.status s.saved in
    let cache : with_key (cache_key (request_of caller input)) w'.cache ≡ none =
      ap (with_key (cache_key (request_of caller input))) (s.cache ∙ g.kept) ∙ uncached in
    let row : get_active_key input.service_id input.algorithm w'.keys
        ≡ ok (some (record (stored entity.created_at entity) { id = i })) =
      ap (λ x. get_active_key x input.algorithm w'.keys) (sym s.service_id)
      ∙ ap (λ x. get_active_key entity.service_id x w'.keys) (sym s.algorithm)
      ∙ found in
    let read =
      get_private_key-stored p ctx (request_of caller input) up
        (record (stored entity.created_at entity) { id = i }) s.pair.private_key_bytes w' allowed
        cache row
        (λ n.
          trip.opens s.sealing n 0 s.pair.private_key_bytes entity.encrypted_private_key
            s.wrapped) in
    (
      s.pair,
      s.draw,
      s.made,
      read
          ∙ ap (λ x. ok (answer_of x entity.algorithm entity.version s.pair.private_key_bytes))
              s.service_id
          ∙ ap (λ x. ok (answer_of input.service_id x entity.version s.pair.private_key_bytes))
              s.algorithm,
    )

-- Where the cache has a key of the service and algorithm, a caller with the right to read it still
-- gets that key after a generation that returned a new one. The database answers.
pub get_private_key-stale :
    (p : Platform) (ctx : RequestContext) (caller : String) (input : GenerateKeyPairInput)
    (entity : KeyPairEntity) (cached : CachedKeyValue) (w w' : World)
    → ((n : ℕ) → p.database_up n ≡ true)
    → authorize_key_access p.acl caller input.service_id input.algorithm private_key ≡ true
    → with_key (cache_key (request_of caller input)) w.cache ≡ some cached
    → generate_key_pair p ctx input w ≡ (ok entity, w')
    → (get_private_key p ctx (request_of caller input) w').0
      ≡ ok (record {
        service_id = input.service_id;
        algorithm = input.algorithm;
        version = cached.version;
        key_bytes = cached.bytes;
      })
get_private_key-stale p ctx caller input entity cached w w' up allowed held done =
    let g = generate_key_pair-IsGeneration p ctx input entity w w' done in
    get_private_key-cached p ctx (request_of caller input) up cached w' allowed
      (ap (with_key (cache_key (request_of caller input))) (g.left.cache ∙ g.kept) ∙ held)
