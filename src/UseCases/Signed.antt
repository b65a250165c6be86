-- ===== src/UseCases/Signed.antt =====
-- Which key signs, and which version is reported.
use kms_platform.Common.{
  String, Bytes, ap, ◌∙◌, ℕ, ◌≤◌, ◌≡◌, refl, ltb, true, false, some, ok, length, take, arith,
}
use kms_platform.Service.Crypto.{ed25519, algorithm_eq}
use kms_platform.Service.Acl.{authorize_key_access, private_key}
use kms_platform.Service.KeyCache.{CachedKeyValue, with_key}
use kms_platform.Audit.Entries.{RequestContext}
use kms_platform.UseCases.{World, Platform, proceed, record_log}
use kms_platform.Keys.Repository.{KeyPairEntity}
use kms_platform.UseCases.Generate.{GenerateKeyPairInput, generate_key_pair}
use kms_platform.UseCases.Generated.{generate_key_pair-IsGeneration}
use kms_platform.UseCases.Fetch.{cache_key}
use kms_platform.UseCases.Sign.{
  SignDataInput, request_of, signing_key, output_version, sign_with, sign_data,
}

-- The request for a signature of a version of the key that was generated.
abbrev pub asks : String → GenerateKeyPairInput → Bytes → ℕ → SignDataInput
asks caller generation payload version = record {
  caller_service = caller;
  target_service = generation.service_id;
  algorithm = generation.algorithm;
  payload = payload;
  key_version = some version;
}

-- Where the cache has a key of the service, an Ed25519 request for the signature of a given version is
-- signed with the cached key, whatever its version, and the version asked for is reported. The
-- caller may use the key, the cached key has at least 32 bytes, and the database answers.
sign_data-cached :
    (p : Platform) (ctx : RequestContext) (input : SignDataInput) (version : ℕ)
    (cached : CachedKeyValue) (w : World)
    → ((n : ℕ) → p.database_up n ≡ true)
    → input.algorithm ≡ ed25519
    → input.key_version ≡ some version
    → authorize_key_access p.acl input.caller_service input.target_service input.algorithm
        private_key
      ≡ true
    → with_key (cache_key (request_of input)) w.cache ≡ some cached
    → 32 ≤ length cached.bytes
    → (sign_data p ctx input w).0
      ≡ ok (record {
        service_id = input.target_service;
        algorithm = input.algorithm;
        key_version = version;
        signature_bytes = p.ed25519_sign (take 32 cached.bytes) input.payload;
      })
unfolding sign_data signing_key output_version sign_with record_log proceed
sign_data-cached p ctx input version cached w up known asked allowed held long =
    let right : algorithm_eq input.algorithm ed25519 ≡ true = rw known refl in
    let enough : ltb (length cached.bytes) 32 ≡ false = ground (arith, long) in
    rw (right, allowed, held, enough, asked, up w.calls) refl

-- After a generation that returned a new Ed25519 key, where the cache had a key of the service and
-- algorithm before, a request that asks for the version of the new key is signed with the key from
-- before, and the version of the new key is reported with the signature. The caller may use the private
-- key, the cached key has at least 32 bytes, and the database answers.
pub sign_data-generate_key_pair :
    (p : Platform) (ctx ctx' : RequestContext) (generation : GenerateKeyPairInput) (caller : String)
    (payload : Bytes) (entity : KeyPairEntity) (cached : CachedKeyValue) (w w' : World)
    → ((n : ℕ) → p.database_up n ≡ true)
    → generation.algorithm ≡ ed25519
    → authorize_key_access p.acl caller generation.service_id generation.algorithm private_key
      ≡ true
    → with_key (cache_key (request_of (asks caller generation payload entity.version))) w.cache
      ≡ some cached
    → 32 ≤ length cached.bytes
    → generate_key_pair p ctx generation w ≡ (ok entity, w')
    → (sign_data p ctx' (asks caller generation payload entity.version) w').0
      ≡ ok (record {
        service_id = generation.service_id;
        algorithm = generation.algorithm;
        key_version = entity.version;
        signature_bytes = p.ed25519_sign (take 32 cached.bytes) payload;
      })
sign_data-generate_key_pair p ctx ctx' generation caller payload entity cached w w' up known allowed
      held long done =
    let g = generate_key_pair-IsGeneration p ctx generation entity w w' done in
    let input = asks caller generation payload entity.version in
    sign_data-cached p ctx' input entity.version cached w' up known refl allowed
      (ap (with_key (cache_key (request_of input))) (g.left.cache ∙ g.kept) ∙ held) long
