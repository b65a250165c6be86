-- ===== src/Service/Security.antt =====
-- crates/kms-service/src/server/middleware/security.rs: the check of a signed request. The header
-- map, the body's stream, the parsers of numbers and dates, SHA-256 and HMAC are parameters, and so
-- is the nonce store. An instant of `Utc` is its number of nanoseconds since chrono's first one.
use Prim.Native.String.{◌++◌}
use kms_platform.Common.{
  ℕ, ◌+◌, ◌-◌, ◌*◌, ◌/◌, Bool, true, false, not, String, List, [], ◌∷◌, Bytes, Option, none, some,
  Result, ok, err, ◌>>=◌, any, ltb, str_eq, if◌then◌else◌,
}
use kms_platform.Common.Assoc.{Assoc, lookup}
use kms_platform.Service.Errors.{AppError, unauthorized, internal}
pub mod Nonces
pub mod Accepted
pub mod Authentic
pub mod Replay

pub data ℤ : Type 0 where
  pos : ℕ → ℤ
  negsuc : ℕ → ℤ

-- The value of a header: its text, where it is visible ASCII.
pub record HeaderValue : Type 0 where
  pub to_str : Option String

-- `body` gives what `to_bytes` does at a limit.
pub record Request : Type 0 where
  pub method : String
  pub path : String
  pub get : String → Option HeaderValue
  pub body : ℕ → Option Bytes

pub record Libraries : Type 0 where
  pub parse_i64 : String → Option ℤ
  pub timestamp_opt : ℤ → Option ℕ
  pub parse_from_rfc3339 : String → Option ℕ
  pub sha256_hex : Bytes → String
  -- The key is refused, or the text has this code, in hexadecimal digits.
  pub hmac_hex : Bytes → String → Option String

-- `dyn NonceStore`, at an instant of the monotonic clock.
pub record NonceStore (S : Type 0) : Type 0 where
  pub mark_used : ℕ → String → ℕ → S → Result AppError Bool × S

-- The settings that the check reads: the public paths, and the secrets of `acl.services`.
pub record Settings : Type 0 where
  pub public_endpoints : List String
  pub secrets : Assoc Bytes

-- What the clocks say: `Instant::now` and `Utc::now`.
pub record Clocks : Type 0 where
  pub instant : ℕ
  pub utc : ℕ

abbrev pub max_hmac_body_size : ℕ
max_hmac_body_size = 10 * 1024 * 1024

abbrev pub max_clock_skew_seconds : ℕ
max_clock_skew_seconds = 300

abbrev pub max_nonce_ttl_seconds : ℕ
max_nonce_ttl_seconds = 300

-- The request goes on without a principal, or with one, or it is answered.
pub data Verdict : Type 0 where
  run_public : Verdict
  run_as : String → Verdict
  rejected : AppError → Verdict

-- `get(a).or_else(|| get(b))`
abbrev pub or_else {ℓ} : {A : Type ℓ} → Option A → Option A → Option A
or_else none b = b
or_else (some a) b = some a

-- `and_then(|v| v.to_str().ok())`, and `Unauthorized` for none.
unfoldable pub text_of : Option HeaderValue → Result AppError String
text_of none = err unauthorized
text_of (some v) = elim v.to_str [ none ↦ err unauthorized | some s ↦ ok s ]

abbrev pub ok_or {ℓ} : {A : Type ℓ} → Option A → AppError → Result AppError A
ok_or none e = err e
ok_or (some a) e = ok a

unfoldable pub parse_timestamp : Libraries → String → Result AppError ℕ
parse_timestamp l value = elim (l.parse_i64 value) [
  | some epoch_seconds ↦ ok_or (l.timestamp_opt epoch_seconds) unauthorized
  | none ↦ ok_or (l.parse_from_rfc3339 value) unauthorized
]

-- `(now - timestamp_dt).num_seconds().abs()`: whole seconds, rounded towards zero.
unfoldable pub skew : ℕ → ℕ → ℕ
skew now timestamp_dt = ((now - timestamp_dt) + (timestamp_dt - now)) / 1000000000

unfoldable pub canonical_payload : Request → String → String → String → String
canonical_payload r timestamp nonce body_sha256 =
    r.method
    ++ (":" ++ (r.path ++ (":" ++ (timestamp ++ (":" ++ (nonce ++ (":" ++ body_sha256)))))))

unfoldable pub nonce_key : String → String → String → String
nonce_key service_name nonce timestamp =
    "hmac:nonce:" ++ (service_name ++ (":" ++ (nonce ++ (":" ++ timestamp))))

-- A request that is in order but for its nonce.
pub record Signed : Type 0 where
  pub service_name : String
  pub key : String

-- From the nonce header to the comparison of the codes.
unfoldable pub verify_signature :
    Libraries → Settings → Request → Bytes → String → String → Result AppError Signed
unfolding text_of canonical_payload nonce_key
verify_signature l c r body_bytes service_name timestamp = do
  nonce ← text_of (or_else (r.get "X-Nonce") (r.get "x-nonce"))
  signature_hex ←
      text_of
        (or_else (or_else (r.get "X-Signature") (r.get "x-signature")) (r.get "X-HMAC-Signature"))
  secret ← ok_or (lookup service_name c.secrets) unauthorized
  expected_signature ←
      ok_or (l.hmac_hex secret (canonical_payload r timestamp nonce (l.sha256_hex body_bytes)))
        (internal "HMAC init failed")
  matching ←
      if not (str_eq signature_hex expected_signature) then err unauthorized else ok signature_hex
  ok (record { service_name = service_name; key = nonce_key service_name nonce timestamp })

-- The checks before the nonce store is asked.
unfoldable pub verify : Libraries → Settings → Clocks → Request → Bytes → Result AppError Signed
unfolding text_of parse_timestamp skew verify_signature
verify l c clocks r body_bytes = do
  service_name ← text_of (or_else (r.get "X-Service-ID") (r.get "X-Service-Name"))
  timestamp ← text_of (r.get "X-Timestamp")
  timestamp_dt ← parse_timestamp l timestamp
  recent ←
      if ltb max_clock_skew_seconds (skew clocks.utc timestamp_dt)
      then err unauthorized
      else ok timestamp_dt
  verify_signature l c r body_bytes service_name timestamp

-- `unwrap_or(false)`: a store that fails counts as a replay.
unfoldable pub admit : {S : Type 0} → Signed → Result AppError Bool × S → Verdict × S
admit signed (ok true, s) = (run_as signed.service_name, s)
admit signed (ok false, s) = (rejected unauthorized, s)
admit signed (err e, s) = (rejected unauthorized, s)

unfoldable pub hmac_security_middleware :
    {S : Type 0} → NonceStore S → Libraries → Settings → Clocks → Request → S → Verdict × S
unfolding verify admit
hmac_security_middleware store l c clocks r s = elim (r.body max_hmac_body_size) [
  | none ↦ (rejected unauthorized, s)
  | some body_bytes ↦
      if any (λ p. str_eq p r.path) c.public_endpoints
      then (run_public, s)
      else elim (verify l c clocks r body_bytes) [
        | err e ↦ (rejected e, s)
        | ok signed ↦
            admit signed (store.mark_used clocks.instant signed.key max_nonce_ttl_seconds s)
      ]
]
