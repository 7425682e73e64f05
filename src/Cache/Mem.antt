-- ===== src/Cache/Mem.antt =====
-- cache/memcache.go. The lock makes each method one step on the map.
pub mod Laws
use credential_helper.Base.{
  ℕ, Bool, true, false, not, ◌||◌, Option, none, some, [], if◌then◌else◌, ltb,
}
use credential_helper.Text.{Text, is_empty}
use credential_helper.Dict.{Dict, lookup, insert, keep}
use credential_helper.Errors.{Result, ok, err, cache_miss}
use credential_helper.Api.{GetCredentialsResponse, CachableGetCredentialsResponse, Rfc3339, Cache}

pub record MemCache : Type 0 where
  pub cache : Dict CachableGetCredentialsResponse

-- `NewMemCache`
abbrev pub new_mem_cache : MemCache
new_mem_cache = record { cache = [] }

abbrev found : Option CachableGetCredentialsResponse → Result GetCredentialsResponse
found none = err cache_miss
found (some value) = ok value.response

unfoldable pub retrieve : Text → MemCache → Result GetCredentialsResponse × MemCache
retrieve key c = (found (lookup key c.cache), c)

-- the guard of `Store`
abbrev pub is_cachable : CachableGetCredentialsResponse → Bool
is_cachable value = not (is_empty value.cache_key || is_empty value.response.expires)

unfoldable pub store : CachableGetCredentialsResponse → MemCache → Result (Unit {0}) × MemCache
store value c =
    if is_cachable value
    then (ok tt, record c { cache = insert value.cache_key value c.cache })
    else (ok tt, c)

module _ (time : Rfc3339) where
  -- whether the loop of `Prune` leaves the pair: its time parses and is not before the clock
  unfoldable pub survives : (Text → ℕ) → Text → CachableGetCredentialsResponse → Bool
  survives now key value = elim (time.parse value.response.expires) [
    | none ↦ false
    | some ts ↦ not (ltb ts (now key))
  ]

  unfoldable pub prune : (Text → ℕ) → MemCache → Result (Unit {0}) × MemCache
  prune now c = (ok tt, record c { cache = keep (survives now) c.cache })

  abbrev pub mem_cache : Cache MemCache
  mem_cache = record { retrieve = retrieve; store = store; prune = prune }
