-- ===== src/Client/Caching.antt =====
-- What a run of the process prints, and what a later run gets from the cache.
use credential_helper.Base.{◌≡◌, true, Option, none, some, [], ◌∷◌, arith, length}
use credential_helper.Text.{Text}
use credential_helper.Errors.{Result, ok, err, cache_miss}
use credential_helper.Api.{
  GetCredentialsRequest, GetCredentialsResponse, CachableGetCredentialsResponse, Cache, Rfc3339,
}
use credential_helper.Cache.Mem
use credential_helper.Cache.Mem.{MemCache, mem_cache, is_cachable}
use credential_helper.Cache.Mem.Laws.{retrieve-store_self}
use credential_helper.Client.{Helper, foreground, respond, resolve, print_and_store}

module _ {S Raw : Type 0} (cache : Cache S) (print : GetCredentialsResponse → Result (Unit {0}))
    (configure : Text → Result (Option (Helper Raw) × Option Raw)) where
  -- A run that does not fail prints exactly one response, whatever the cache and the helper do.
  pub foreground_prints_one :
      (req : Result GetCredentialsRequest) (s : S)
      → (foreground cache print configure req s).0.fatal ≡ none
      → length (foreground cache print configure req s).0.printed ≡ 1
  unfolding foreground respond resolve print_and_store
  foreground_prints_one (err e) s h = ground arith
  foreground_prints_one (ok req) s h = ground arith

module _ {Raw : Type 0} (time : Rfc3339) (print : GetCredentialsResponse → Result (Unit {0}))
    (configure configure' : Text → Result (Option (Helper Raw) × Option Raw))
    (req : GetCredentialsRequest) where
  -- a run that finds no response stores the one it resolves
  misses :
      (helper : Helper Raw) (config : Option Raw)
      (get : GetCredentialsRequest → Result GetCredentialsResponse) (resp : GetCredentialsResponse)
      (s : MemCache)
      → configure req.uri ≡ ok (some helper, config)
      → (Mem.retrieve (helper.cache_key req) s).0 ≡ err cache_miss
      → helper.resolver config ≡ ok get
      → get req ≡ ok resp
      → print resp ≡ ok tt
      → (foreground (mem_cache time) print configure (ok req) s).1
        ≡ (Mem.store (record { cache_key = helper.cache_key req; response = resp }) s).1
  unfolding foreground respond resolve print_and_store Mem.retrieve Mem.store
  misses helper config get resp s c miss r g p = ground (arith, c, miss, r, g, p)

  -- a run that finds a response prints it
  hit :
      (helper : Helper Raw) (config : Option Raw) (resp : GetCredentialsResponse) (s : MemCache)
      → configure' req.uri ≡ ok (some helper, config)
      → (Mem.retrieve (helper.cache_key req) s).0 ≡ ok resp
      → print resp ≡ ok tt
      → foreground (mem_cache time) print configure' (ok req) s
        ≡ (record { printed = resp ∷ []; fatal = none }, s)
  unfolding foreground respond Mem.retrieve
  hit helper config resp s c found p = ground (arith, c, found, p)

  -- A response that was not in the in-memory cache, was resolved, printed and let into the cache is
  -- what a later run for the same request prints, if its helper has the same key for the request;
  -- that run does not ask its resolver, and leaves the cache as it is.
  pub foreground_twice :
      (helper helper' : Helper Raw) (config config' : Option Raw)
      (get : GetCredentialsRequest → Result GetCredentialsResponse) (resp : GetCredentialsResponse)
      (s : MemCache)
      → configure req.uri ≡ ok (some helper, config)
      → configure' req.uri ≡ ok (some helper', config')
      → helper'.cache_key req ≡ helper.cache_key req
      → (Mem.retrieve (helper.cache_key req) s).0 ≡ err cache_miss
      → helper.resolver config ≡ ok get
      → get req ≡ ok resp
      → print resp ≡ ok tt
      → is_cachable (record { cache_key = helper.cache_key req; response = resp }) ≡ true
      → (s' : MemCache) → s' ≡ (foreground (mem_cache time) print configure (ok req) s).1
      → foreground (mem_cache time) print configure' (ok req) s'
        ≡ (record { printed = resp ∷ []; fatal = none }, s')
  foreground_twice helper helper' config config' get resp s c c' same miss r g p good s' e =
      hit helper' config' resp s' c' (rw (same, e, stored) (retrieve-store_self v s good)) p
    where
      k : Text
      k = helper.cache_key req

      v : CachableGetCredentialsResponse
      v = record { cache_key = k; response = resp }

      stored : (foreground (mem_cache time) print configure (ok req) s).1 ≡ (Mem.store v s).1
      stored = misses helper config get resp s c miss r g p
