-- ===== src/Tests/Service.antt =====
-- The HTTP service: a signed request and its replays, the rate limiter, and the access rules.
use kms_platform.Common.{
  ℕ, ◌≡◌, ◌≤◌, ◌+◌, ◌*◌, refl, true, false, List, [], ◌∷◌, Bytes, String, Option, some, none, ok,
  arith, any, not, ◌&&◌, str_eq, if◌then◌else◌,
}
use kms_platform.Common.Assoc.{lookup}
use kms_platform.Service.Errors.{unauthorized}
use kms_platform.Service.Crypto.{ed25519}
use kms_platform.Service.Acl.{
  AclSettings, AccessRule, private_key, rotate_own_keys, compile, authorize_key_access,
  authorize_control_action, is_allowed, has_control_action,
}
use kms_platform.Service.Acl.Laws.{compile_decides_alike}
use kms_platform.Service.Iam.{IamCredentialPolicy, is_action_allowed}
use kms_platform.Service.Iam.Decision.{has_effect, is_action_allowed-decision}
use kms_platform.Service.KeyCache.{
  KeyCacheKey, CachedKeyValue, new_cache, with_key, insert_key, remove_all_for_service,
}
use kms_platform.Service.KeyCache.Laws.{with_key-remove_all_for_service}
use kms_platform.Service.RateLimiter.{new_store, mark_used, duration}
use kms_platform.Service.RateLimiter.Laws.{count, admitted, check_keeps_limit}
use kms_platform.Service.Security.{
  HeaderValue, Request, Libraries, Settings, Clocks, run_as, rejected, verify, verify_signature,
  skew, text_of, or_else, parse_timestamp, nonce_key, hmac_security_middleware, max_hmac_body_size,
  max_nonce_ttl_seconds,
}
use kms_platform.Service.Security.Accepted.{in_memory, serve}
use kms_platform.Service.Security.Authentic.{IsSignedBy, run_as_authentic}
use kms_platform.Service.Security.Replay.{replay_refused_forever, replay_runs_after_expiry}

abbrev second : ℕ
second = 1000000000

-- A parser that reads every text as the instant 1000 s, and codes that do not depend on the text.
abbrev libraries : Libraries
libraries = record {
  parse_i64 = λ s. none;
  timestamp_opt = λ n. none;
  parse_from_rfc3339 = λ s. some (1000 * second);
  sha256_hex = λ bytes. "00";
  hmac_hex = λ secret text. some "code";
}

abbrev settings : Settings
settings = record { public_endpoints = "/health" ∷ []; secrets = ("billing", 1 ∷ []) ∷ [] }

abbrev header : String → Option HeaderValue
header name =
    if str_eq name "X-Service-ID"
    then some (record { to_str = some "billing" })
    else if str_eq name "X-Signature"
    then some (record { to_str = some "code" })
    else some (record { to_str = some "t" })

abbrev request : Request
request = record { method = "POST"; path = "/sign"; get = header; body = λ limit. some [] }

-- The clocks, by seconds: `Utc` is 1000 s ahead of the monotonic clock.
abbrev clocks : ℕ → Clocks
clocks n = record { instant = n * second; utc = (n + 1000) * second }

run_as_authentic_example :
    (bytes : Bytes) × (timestamp : String) × (nonce : String) × (at : ℕ) × (request.body
        max_hmac_body_size
      ≡ some bytes)
    × (any (λ p. str_eq p request.path) settings.public_endpoints ≡ false)
    × (text_of (or_else (request.get "X-Service-ID") (request.get "X-Service-Name")) ≡ ok "billing")
    × (text_of (request.get "X-Timestamp") ≡ ok timestamp)
    × (text_of (or_else (request.get "X-Nonce") (request.get "x-nonce")) ≡ ok nonce)
    × (parse_timestamp libraries timestamp ≡ ok at)
    × (skew (clocks 5).utc at ≤ 300)
    × IsSignedBy libraries settings request bytes "billing" timestamp nonce
    × ((mark_used
          (clocks 5).instant
          (nonce_key "billing" nonce timestamp)
          max_nonce_ttl_seconds
          new_store).0
        ≡ ok true)
unfolding hmac_security_middleware verify verify_signature mark_used
run_as_authentic_example =
    run_as_authentic in_memory libraries settings (clocks 5) request "billing" new_store refl

replay_refused_forever_example :
    (hmac_security_middleware in_memory libraries settings (clocks 4000) request (
      serve libraries settings
        ((clocks 9, request) ∷ [])
        (hmac_security_middleware in_memory libraries settings (clocks 5) request new_store).1)).0
    ≡ rejected unauthorized
unfolding hmac_security_middleware verify mark_used text_of parse_timestamp
replay_refused_forever_example =
    replay_refused_forever libraries settings (clocks 5) (clocks 4000) request "billing"
      (1000 * second) new_store ((clocks 9, request) ∷ []) refl refl (omega arith) (omega arith)
      (omega arith, tt)

-- The clocks of a server that is a hundred seconds behind the sender's.
abbrev behind : ℕ → Clocks
behind n = record { instant = n * second; utc = (n + 900) * second }

replay_runs_after_expiry_example :
    (hmac_security_middleware in_memory libraries settings
      (behind 301)
      request
      (hmac_security_middleware in_memory libraries settings (behind 0) request new_store).1).0
    ≡ run_as "billing"
unfolding hmac_security_middleware verify mark_used text_of parse_timestamp skew
replay_runs_after_expiry_example =
    replay_runs_after_expiry libraries settings (behind 0) (behind 301) request "billing"
      (1000 * second) refl refl (omega arith) (omega arith)

abbrev calls : List (ℕ × String)
calls = (1 * second, "a") ∷ (2 * second, "b") ∷ (3 * second, "a") ∷ (4 * second, "a") ∷ []

check_keeps_limit_example : count (1 * second) (duration 60) (admitted "a" 2 60 calls []) ≤ 2
check_keeps_limit_example =
    check_keeps_limit "a" 2 60 (1 * second) 0 calls
      (omega arith, (omega arith, (omega arith, (omega arith, tt))))

abbrev rule : AccessRule
rule = record {
  target_service = "ledger";
  algorithm = ed25519;
  access_level = private_key;
  preload = false;
}

abbrev services : AclSettings
services =
    (
      "billing",
      record { service_id = "billing"; allowed_access = rule ∷ []; allowed_actions = none },
    )
    ∷ (
      "audit",
      record {
        service_id = "audit";
        allowed_access = [];
        allowed_actions = some (rotate_own_keys ∷ []);
      },
    )
    ∷ []

compile_decides_alike_example :
    (authorize_key_access (compile services) "billing" "ledger" ed25519 private_key
      ≡ is_allowed services "billing" "ledger" ed25519 private_key)
    × (authorize_control_action (compile services) "billing" rotate_own_keys
        ≡ has_control_action services "billing" rotate_own_keys)
unfolding lookup
compile_decides_alike_example =
    compile_decides_alike services "billing" "ledger" ed25519 private_key rotate_own_keys
      (refl, refl, (refl, refl, tt))

abbrev cached : CachedKeyValue
cached = record { version = 1; bytes = 5 ∷ [] }

abbrev billing_key : KeyCacheKey
billing_key = record { target_service = "billing"; algorithm = ed25519 }

with_key-remove_all_for_service_example :
    with_key billing_key
      (remove_all_for_service "billing" (insert_key billing_key cached new_cache))
    ≡ (if str_eq "billing" "billing"
        then none
        else with_key billing_key (insert_key billing_key cached new_cache))
with_key-remove_all_for_service_example =
    with_key-remove_all_for_service "billing" billing_key (insert_key billing_key cached new_cache)

abbrev policy : IamCredentialPolicy
policy = record {
  version = "1";
  statements =
      record {
        sid = "all";
        effect = "Allow";
        roles = "*" ∷ [];
        actions = "kms:*" ∷ [];
        resources = "*" ∷ [];
      }
      ∷ record {
        sid = "none";
        effect = "Deny";
        roles = "guest" ∷ [];
        actions = "kms:*" ∷ [];
        resources = "*" ∷ [];
      }
      ∷ [];
}

is_action_allowed-decision_example : is_action_allowed policy "guest" "kms:read" "arn:kms:db" ≡ (
    any (has_effect "Allow" "guest" "kms:read" "arn:kms:db") policy.statements
    && not (any (has_effect "Deny" "guest" "kms:read" "arn:kms:db") policy.statements))
is_action_allowed-decision_example =
    is_action_allowed-decision policy "guest" "kms:read" "arn:kms:db"

iam_tests :
    (is_action_allowed policy "guest" "kms:read" "arn:kms:db" ≡ false)
    × (is_action_allowed policy "clerk" "kms:read" "arn:kms:db" ≡ true)
unfolding is_action_allowed
iam_tests = (refl, refl)
