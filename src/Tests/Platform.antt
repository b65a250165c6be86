-- ===== src/Tests/Platform.antt =====
-- A service with two keys, over functions in place of its libraries: a cipher that changes nothing, a
-- hash and texts that are constant.
use kms_platform.Common.{◌+◌, ◌*◌, true, false, [], ◌∷◌, none, ok, err}
use kms_platform.Service.Errors.{crypto_error}
use kms_platform.Service.Crypto.{ed25519}
use kms_platform.Service.CryptoService.{KmsCryptoService}
use kms_platform.Service.Acl.{CompiledAcl, private_key, rotate_own_keys, generate_keys}
use kms_platform.Service.KeyCache.{KeyCache, new_cache}
use kms_platform.Keys.{KeyDbRow}
use kms_platform.Audit.Entries.{RequestContext}
use kms_platform.UseCases.{World, Platform}

abbrev pub crypto : KmsCryptoService
crypto = record {
  generate_ed25519_keypair =
      λ n. ok (record { public_key_pem = "PEM"; private_key_bytes = 5 ∷ [] });
  generate_x25519_keypair = λ n. ok (record { public_key_pem = "PEM"; private_key_bytes = 6 ∷ [] });
  generate_symmetric_key = λ n. ok (record { public_key_pem = ""; private_key_bytes = 7 ∷ [] });
  generate_data_key = λ n algorithm. err (crypto_error "no data keys");
  encrypt_private_key = λ n key. ok (record { ciphertext = key; master_key_version = 1 });
  decrypt_private_key = λ n encrypted. ok encrypted.ciphertext;
}

-- The vHSM is sealed.
abbrev pub broken_crypto : KmsCryptoService
broken_crypto = record crypto { encrypt_private_key = λ n key. err (crypto_error "sealed") }

abbrev pub acl : CompiledAcl
acl = record {
  access =
      record {
        caller = "ledger";
        target = "billing";
        algorithm = ed25519;
        access_level = private_key;
      }
      ∷ [];
  preload = [];
  actions = ("billing", rotate_own_keys ∷ generate_keys ∷ []) ∷ [];
}

abbrev pub platform : Platform
platform = record {
  pg = record { by_name = λ rows. rows; by_age = λ rows. rows; retires_first = true };
  database_up = λ n. true;
  debug_time = λ t. "2025-01-01T00:00:00Z";
  libraries = record {
    sha256_json = λ payload. "hash";
    to_rfc3339 = λ t. "12:00";
    verify_strict = λ key text signature. false;
    id_later = λ a b. false;
  };
  texts = record { to_json = λ value. "{}"; show_uuid = λ n. "id" };
  now = λ n. n * 1000;
  uuid = λ n. n + 100;
  crypto = crypto;
  ed25519_sign = λ key message. key;
  acl = acl;
  grace_period_minutes = 60;
}

abbrev pub sealed_platform : Platform
sealed_platform = record platform { crypto = broken_crypto }

abbrev pub ctx : RequestContext
ctx = record {
  operation_id = "op-1";
  nonce = none;
  actor_id = "billing";
  ip = none;
  user_agent = none;
}

abbrev pub first_key : KeyDbRow
first_key = record {
  id = 1;
  service_id = "billing";
  algorithm = "Ed25519";
  version = 1;
  encrypted_key_data = 4 ∷ [];
  public_key_pem = "PEM";
  purpose = "Signing";
  status = "Active";
  is_active = true;
  created_at = 0;
}

abbrev pub world : World
world = record { keys = first_key ∷ []; audit = []; cache = new_cache; calls = 0 }

abbrev pub warm_cache : KeyCache
warm_cache = record {
  entries =
      (
        record { target_service = "billing"; algorithm = ed25519 },
        record { version = 1; bytes = 4 ∷ [] },
      )
      ∷ [];
  poisoned = false;
}

abbrev pub warm_world : World
warm_world = record world { cache = warm_cache }
