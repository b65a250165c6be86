-- ===== src/Service/KeyCache/Laws.antt =====
-- What each operation of the cache leaves of a key.
use kms_platform.Common.{
  ◌≡◌, refl, Bool, true, false, ◌&&◌, String, List, [], ◌∷◌, map, filter, any, none, some, str_eq,
  eq_iff, eq_refl, if◌then◌else◌, arith, Bool-cases, inl, inr, sym, ◌∙◌,
}
use kms_platform.Service.Crypto.{
  KeyAlgorithm, ed25519, x25519, aes256_gcm, hmac_sha256, ecdsa_p256, algorithm_eq,
}
use kms_platform.Service.KeyCache.{
  KeyCacheKey, CachedKeyValue, KeyCache, cache_key_eq, get, removed, with_key, remove_each, remove,
  remove_all_for_service, insert_key,
}

both : (a b : Bool) → (a && b) ≡ true → (a ≡ true) × (b ≡ true)
both true true e = (refl, refl)
both true false e = absurd (ground arith)
both false b e = absurd (ground arith)

algorithm_eq→eq : (a b : KeyAlgorithm) → algorithm_eq a b ≡ true → a ≡ b
algorithm_eq→eq a b same = ground (arith, same)

-- Equal keys are equal to the same keys.
cache_key_eq_same :
    (a b c : KeyCacheKey) → cache_key_eq a b ≡ true → cache_key_eq a c ≡ cache_key_eq b c
unfolding cache_key_eq
cache_key_eq_same a b c same =
    let (owner, algorithm) = both (str_eq a.target_service b.target_service) _ same in
    let services : a.target_service ≡ b.target_service =
      (eq_iff a.target_service b.target_service).0 owner in
    let algorithms : a.algorithm ≡ b.algorithm =
      algorithm_eq→eq a.algorithm b.algorithm algorithm in
    rw (services, algorithms) refl

get-removed :
    (key asked : KeyCacheKey) (entries : List (KeyCacheKey × CachedKeyValue))
    → get asked (removed key entries) ≡ (if cache_key_eq asked key then none else get asked entries)
unfolding get
get-removed key asked [] = ground arith
get-removed key asked (entry ∷ entries) =
    let deeper = get-removed key asked entries in
    elim (Bool-cases (cache_key_eq entry.0 asked)) [
      | inl hit ↦ ground (arith, hit, cache_key_eq_same entry.0 asked key hit, deeper)
      | inr miss ↦ ground (arith, miss, deeper)
    ]

get-remove_each :
    (keys : List KeyCacheKey) (asked : KeyCacheKey) (entries : List (KeyCacheKey × CachedKeyValue))
    → get asked (remove_each keys entries)
      ≡ (if any (cache_key_eq asked) keys then none else get asked entries)
unfolding remove_each
get-remove_each [] asked entries = refl
get-remove_each (key ∷ keys) asked entries =
    ground (arith, get-remove_each keys asked (removed key entries), get-removed key asked entries)

algorithm_eq_refl : (a : KeyAlgorithm) → algorithm_eq a a ≡ true
algorithm_eq_refl ed25519 = refl
algorithm_eq_refl x25519 = refl
algorithm_eq_refl aes256_gcm = refl
algorithm_eq_refl hmac_sha256 = refl
algorithm_eq_refl ecdsa_p256 = refl

cache_key_eq_refl : (a : KeyCacheKey) → cache_key_eq a a ≡ true
unfolding cache_key_eq
cache_key_eq_refl a = rw (eq_refl a.target_service, algorithm_eq_refl a.algorithm) refl

cache_key_eq_sym : (a b : KeyCacheKey) → cache_key_eq a b ≡ true → cache_key_eq b a ≡ true
cache_key_eq_sym a b same = sym (cache_key_eq_same a b a same) ∙ cache_key_eq_refl a

cache_key_eq_service :
    (a b : KeyCacheKey) → cache_key_eq a b ≡ true → a.target_service ≡ b.target_service
unfolding cache_key_eq
cache_key_eq_service a b same =
    (eq_iff a.target_service b.target_service).0
      (both (str_eq a.target_service b.target_service) _ same).0

-- The keys that `remove_all_for_service` collects.
abbrev collected : String → List (KeyCacheKey × CachedKeyValue) → List KeyCacheKey
collected target entries = filter (λ k. str_eq k.target_service target) (map (λ e. e.0) entries)

any-collected_other :
    (target : String) (asked : KeyCacheKey) (entries : List (KeyCacheKey × CachedKeyValue))
    → str_eq asked.target_service target ≡ false
    → any (cache_key_eq asked) (collected target entries) ≡ false
any-collected_other target asked [] other = refl
any-collected_other target asked (entry ∷ entries) other =
    let rest = any-collected_other target asked entries other in
    elim (Bool-cases (str_eq entry.0.target_service target)) [
      | inr miss ↦ ground (arith, miss, rest)
      | inl hit ↦ elim (Bool-cases (cache_key_eq asked entry.0)) [
        | inr miss ↦ ground (arith, hit, miss, rest)
        | inl same ↦ absurd (ground (arith, other, hit, cache_key_eq_service asked entry.0 same))
      ]
    ]

get-uncollected :
    (target : String) (asked : KeyCacheKey) (entries : List (KeyCacheKey × CachedKeyValue))
    → str_eq asked.target_service target ≡ true
    → any (cache_key_eq asked) (collected target entries) ≡ false
    → get asked entries ≡ none
unfolding get
get-uncollected target asked [] mine free = refl
get-uncollected target asked (entry ∷ entries) mine free =
    elim (Bool-cases (cache_key_eq entry.0 asked)) [
      | inl same ↦
          let owner = cache_key_eq_service entry.0 asked same in
          absurd (ground (arith, mine, free, owner, cache_key_eq_sym entry.0 asked same))
      | inr miss ↦ elim (Bool-cases (str_eq entry.0.target_service target)) [
        | inl hit ↦ elim (Bool-cases (cache_key_eq asked entry.0)) [
          | inl same ↦ absurd (ground (arith, miss, cache_key_eq_sym asked entry.0 same))
          | inr apart ↦ ground (
            arith,
            miss,
            get-uncollected target asked entries mine (ground (arith, hit, apart, free)),
          )
        ]
        | inr away ↦
            ground
              (arith, miss, get-uncollected target asked entries mine (ground (arith, away, free)))
      ]
    ]

-- After `remove_all_for_service` no key of that service is found, whatever its algorithm, and every
-- other key is found as before.
pub with_key-remove_all_for_service :
    (target : String) (asked : KeyCacheKey) (cache : KeyCache)
    → with_key asked (remove_all_for_service target cache)
      ≡ (if str_eq asked.target_service target then none else with_key asked cache)
unfolding with_key remove_all_for_service
with_key-remove_all_for_service target asked cache =
    let keys = collected target cache.entries in
    let left = get-remove_each keys asked cache.entries in
    elim (Bool-cases cache.poisoned) [
      | inl poisoned ↦ ground (arith, poisoned)
      | inr healthy ↦ elim (Bool-cases (str_eq asked.target_service target)) [
        | inr other ↦
            ground
              (arith, healthy, other, left, any-collected_other target asked cache.entries other)
        | inl mine ↦ elim (Bool-cases (any (cache_key_eq asked) keys)) [
          | inl known ↦ ground (arith, healthy, mine, left, known)
          | inr free ↦ ground (
            arith,
            healthy,
            mine,
            left,
            free,
            get-uncollected target asked cache.entries mine free,
          )
        ]
      ]
    ]

-- After `remove` the key is not found.
pub with_key-remove :
    (key : KeyCacheKey) (cache : KeyCache) → with_key key (remove key cache) ≡ none
unfolding with_key remove
with_key-remove key cache = elim (Bool-cases cache.poisoned) [
  | inl poisoned ↦ ground (arith, poisoned)
  | inr healthy ↦ ground (arith, healthy, get-removed key key cache.entries, cache_key_eq_refl key)
]

-- What `insert_key` leaves of a key.
pub with_key-insert_key :
    (key asked : KeyCacheKey) (value : CachedKeyValue) (cache : KeyCache)
    → cache.poisoned ≡ false
    → with_key asked (insert_key key value cache)
      ≡ (if cache_key_eq key asked then some value else with_key asked cache)
unfolding with_key insert_key get
with_key-insert_key key asked value cache healthy = elim (Bool-cases (cache_key_eq key asked)) [
  | inl same ↦ ground (arith, healthy, same)
  | inr other ↦ elim (Bool-cases (cache_key_eq asked key)) [
    | inl same ↦ absurd (ground (arith, other, cache_key_eq_sym asked key same))
    | inr apart ↦ ground (arith, healthy, other, apart, get-removed key asked cache.entries)
  ]
]
