-- ===== src/Tests/UseCases.antt =====
-- The use cases run on the service of `Platform`.
use kms_platform.Common.{ℕ, arith, ◌≡◌, ◌≢◌, refl, false, [], ◌∷◌, none, some, ok, err}
use kms_platform.Service.Errors.{AppError, crypto_error, database_error}
use kms_platform.Service.Crypto.{ed25519, signing}
use kms_platform.Service.KeyCache.{KeyCache, with_key, cache_key_eq}
use kms_platform.Keys.Repository
use kms_platform.Keys.Repository.{KeyPairEntity, active}
use kms_platform.UseCases.{World, Platform, proceed, record_log}
use kms_platform.Common.Assoc.{lookup}
use kms_platform.Keys.{upsert}
use kms_platform.Service.Acl.{authorize_key_access, authorize_control_action}
use kms_platform.UseCases.Rotate.{RotateKeyInput, manual, rotate_key}
use kms_platform.UseCases.Unrotated.{rotate_key-never}
use kms_platform.UseCases.Generate.{
  GenerateKeyPairInput, has_generate_permission, generate_key_pair,
}
use kms_platform.UseCases.Provided.{
  HasRoundTrip, IsProvided, request_of, get_private_key-generate_key_pair, get_private_key-stale,
}
use kms_platform.UseCases.Fetch.{get_private_key, get_symmetric_key}
use kms_platform.UseCases.DataKeys.{generate_data_key}
use kms_platform.UseCases.Sign.{SignDataInput, sign_data}
use kms_platform.UseCases.Signed.{asks, sign_data-generate_key_pair}
use kms_platform.UseCases.Interrupted.{generate_key_pair-interrupted}
use kms_platform.UseCases.Refusals.{IsRefused, request_by, stranger-IsRefused}
use kms_platform.Vhsm.Protocol.{pong}
use kms_platform.UseCases.Authority.{sign_intermediate_ca}
use kms_platform.Tests.Authority.{certificate, hsm_of}
use kms_platform.Tests.Toy.{replicate}
use kms_platform.Tests.Platform.{crypto, platform, sealed_platform, ctx, world, warm_world}

abbrev rotation : RotateKeyInput
rotation = record {
  service_id = "billing";
  algorithm = ed25519;
  caller_service = "billing";
  reason = manual;
  actor_id = "ops";
}

abbrev second_key : ℕ → KeyPairEntity
second_key id = record {
  id = id;
  service_id = "billing";
  algorithm = ed25519;
  purpose = signing;
  public_key_pem = "PEM";
  encrypted_private_key = record { ciphertext = 5 ∷ []; master_key_version = 1 };
  version = 2;
  status = active;
  created_at = id;
  expires_at = none;
}

abbrev rotated_world : World
rotated_world = (rotate_key platform ctx rotation world).1

abbrev inserting_platform : Platform
inserting_platform = record platform { pg = record platform.pg { retires_first = false } }

rotate_key-never_example :
    rotate_key inserting_platform ctx rotation world
    ≢ (ok (record (second_key 107) { created_at = 7 }), rotated_world)
rotate_key-never_example =
    rotate_key-never inserting_platform ctx rotation (record (second_key 107) { created_at = 7 })
      world rotated_world refl

-- The same run of the code.
rotate_key_inserting :
    (rotate_key inserting_platform ctx rotation world).0
    ≡ err (database_error "Database operation failed")
unfolding rotate_key proceed lookup record_log
rotate_key_inserting = refl

abbrev first_entity : KeyPairEntity
first_entity = record {
  id = 1;
  service_id = "billing";
  algorithm = ed25519;
  purpose = signing;
  public_key_pem = "PEM";
  encrypted_private_key = record { ciphertext = 4 ∷ []; master_key_version = 0 };
  version = 1;
  status = active;
  created_at = 0;
  expires_at = none;
}

abbrev generation : GenerateKeyPairInput
generation = record {
  caller_service = "billing";
  service_id = "billing";
  algorithm = ed25519;
  purpose = signing;
}

crypto-HasRoundTrip : HasRoundTrip crypto
crypto-HasRoundTrip = record { opens = λ m n version key encrypted e. ground (arith, e) }

get_private_key-generate_key_pair_example :
    IsProvided platform ctx "ledger" generation
      (record (second_key 108) { created_at = 8 })
      (generate_key_pair platform ctx generation world).1
unfolding generate_key_pair proceed authorize_key_access with_key lookup upsert record_log
get_private_key-generate_key_pair_example =
    get_private_key-generate_key_pair platform ctx "ledger" generation
      (record (second_key 108) { created_at = 8 }) world
      (generate_key_pair platform ctx generation world).1 (λ n. refl) crypto-HasRoundTrip refl refl
      refl

get_private_key-stale_example :
    (get_private_key platform ctx
      (request_of "ledger" generation)
      (generate_key_pair platform ctx generation warm_world).1).0
    ≡ ok (record { service_id = "billing"; algorithm = ed25519; version = 1; key_bytes = 4 ∷ [] })
unfolding generate_key_pair proceed authorize_key_access with_key cache_key_eq lookup upsert
    record_log
get_private_key-stale_example =
    get_private_key-stale platform ctx "ledger" generation
      (record (second_key 108) { created_at = 8 }) (record { version = 1; bytes = 4 ∷ [] })
      warm_world (generate_key_pair platform ctx generation warm_world).1 (λ n. refl) refl refl refl

abbrev signing_cache : KeyCache
signing_cache = record {
  entries =
      (
        record { target_service = "billing"; algorithm = ed25519 },
        record { version = 1; bytes = replicate 32 9 },
      )
      ∷ [];
  poisoned = false;
}

abbrev request : SignDataInput
request = record {
  caller_service = "ledger";
  target_service = "billing";
  algorithm = ed25519;
  payload = 1 ∷ [];
  key_version = some 7;
}

abbrev signing_world : World
signing_world = record world { cache = signing_cache }

sign_data-generate_key_pair_example :
    (sign_data platform ctx
      (asks "ledger" generation (1 ∷ []) 2)
      (generate_key_pair platform ctx generation signing_world).1).0
    ≡ ok (record {
      service_id = "billing";
      algorithm = ed25519;
      key_version = 2;
      signature_bytes = replicate 32 9;
    })
unfolding generate_key_pair proceed authorize_key_access with_key cache_key_eq lookup upsert
    record_log
sign_data-generate_key_pair_example =
    sign_data-generate_key_pair platform ctx ctx generation "ledger" (1 ∷ [])
      (record (second_key 108) { created_at = 8 }) (record { version = 1; bytes = replicate 32 9 })
      signing_world (generate_key_pair platform ctx generation signing_world).1 (λ n. refl) refl
      refl refl (omega arith) refl

generate_key_pair-interrupted_example :
    (failure : AppError) × ((generate_key_pair sealed_platform ctx generation world).0
      ≡ err failure)
    × (Repository.get_active_key "billing" ed25519
          (generate_key_pair sealed_platform ctx generation world).1.keys
        ≡ ok none)
unfolding has_generate_permission lookup Repository.get_active_key
generate_key_pair-interrupted_example =
    generate_key_pair-interrupted sealed_platform ctx generation first_entity
      (crypto_error "sealed") world (λ n. refl) refl refl (λ n key. refl)

stranger-IsRefused_example :
    IsRefused world (rotate_key platform ctx (record rotation { caller_service = "mallory" }) world)
    × IsRefused world
        (generate_key_pair platform ctx (record generation { caller_service = "mallory" }) world)
    × IsRefused world (sign_data platform ctx (record request { caller_service = "mallory" }) world)
    × IsRefused world (generate_data_key platform ctx "mallory" ed25519 world)
    × IsRefused world (get_private_key platform ctx (request_by "mallory" "billing" ed25519) world)
    × IsRefused world
        (get_symmetric_key platform ctx (request_by "mallory" "billing" ed25519) world)
    × IsRefused world (
        sign_intermediate_ca platform
          (hsm_of pong)
          (record certificate { caller_service = "mallory" })
          world)
unfolding authorize_control_action authorize_key_access lookup
stranger-IsRefused_example =
    stranger-IsRefused platform ctx "mallory" world rotation generation request "billing" ed25519
      (hsm_of pong) certificate (λ action. refl) (λ target algorithm level. refl)
