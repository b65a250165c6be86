-- ===== src/Service/KeyCache.antt =====
-- The cache of keys of crates/kms-service/src/server/state.rs. A lock that is poisoned makes every
-- operation do nothing. The wiping of removed values is not modelled.
use kms_platform.Common.{
  ℕ, Bool, true, false, not, ◌&&◌, String, Bytes, List, [], ◌∷◌, map, filter, Option, none, some,
  str_eq, if◌then◌else◌,
}
use kms_platform.Service.Crypto.{KeyAlgorithm, algorithm_eq}
pub mod Laws

pub record KeyCacheKey : Type 0 where
  pub target_service : String
  pub algorithm : KeyAlgorithm

pub record CachedKeyValue : Type 0 where
  pub version : ℕ
  pub bytes : Bytes

pub record KeyCache : Type 0 where
  pub entries : List (KeyCacheKey × CachedKeyValue)
  pub poisoned : Bool

-- `KeyCache::new`
abbrev pub new_cache : KeyCache
new_cache = record { entries = []; poisoned = false }

-- The derived `==`.
unfoldable pub cache_key_eq : KeyCacheKey → KeyCacheKey → Bool
cache_key_eq a b = str_eq a.target_service b.target_service && algorithm_eq a.algorithm b.algorithm

unfoldable pub get : KeyCacheKey → List (KeyCacheKey × CachedKeyValue) → Option CachedKeyValue
get key [] = none
get key (entry ∷ entries) =
    let deeper = get key entries in if cache_key_eq entry.0 key then some entry.1 else deeper

-- `guard.remove(&key)`
abbrev pub removed :
    KeyCacheKey → List (KeyCacheKey × CachedKeyValue) → List (KeyCacheKey × CachedKeyValue)
removed key entries = filter (λ entry. not (cache_key_eq entry.0 key)) entries

-- `with_key`, with what its closure is given.
unfoldable pub with_key : KeyCacheKey → KeyCache → Option CachedKeyValue
unfolding get
with_key key cache = if cache.poisoned then none else get key cache.entries

unfoldable pub insert_key : KeyCacheKey → CachedKeyValue → KeyCache → KeyCache
insert_key key value cache =
    if cache.poisoned
    then cache
    else record cache { entries = (key, value) ∷ removed key cache.entries }

unfoldable pub remove : KeyCacheKey → KeyCache → KeyCache
remove key cache =
    if cache.poisoned then cache else record cache { entries = removed key cache.entries }

-- The loop over the keys that were collected.
unfoldable pub remove_each :
    List KeyCacheKey → List (KeyCacheKey × CachedKeyValue) → List (KeyCacheKey × CachedKeyValue)
remove_each [] entries = entries
remove_each (key ∷ keys) entries = remove_each keys (removed key entries)

unfoldable pub remove_all_for_service : String → KeyCache → KeyCache
unfolding remove_each
remove_all_for_service target_service cache = if cache.poisoned then cache else record cache {
  entries =
      remove_each
        (filter (λ k. str_eq k.target_service target_service) (map (λ e. e.0) cache.entries))
        cache.entries;
}

unfoldable pub clear : KeyCache → KeyCache
clear cache = if cache.poisoned then cache else record cache { entries = [] }
