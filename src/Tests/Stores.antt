-- ===== src/Tests/Stores.antt =====
-- The cache in a database, and the region of a host.
use credential_helper.Base.{◌≡◌, ◌≢◌, ◌⊎◌, refl, true, none, some, [], ◌∷◌, ◌++◌, arith}
use credential_helper.Text.{lit, text_eq}
use credential_helper.Text.Affix.{has_prefix, has_suffix, trim_suffix, contains}
use credential_helper.Text.Parts.{join, split}
use credential_helper.Text.Parts.Laws.{IsFree}
use credential_helper.Errors.{Result, ok, err, cache_miss}
use credential_helper.Api.{GetCredentialsResponse, CachableGetCredentialsResponse}
use credential_helper.Cache.Sqlite
use credential_helper.Cache.Sqlite.{Row, Driver, max_retries}
use credential_helper.Cache.Sqlite.Laws.{Works, IsBefore, retrieve-prune_store, store_busy}
use credential_helper.Authenticate.S3.Region.{region_from_host, aws_legacy_global_region}
use credential_helper.Authenticate.S3.Hosts.{bucket_host, region_from_host-bucket_host}
use credential_helper.Tests.Caching.{entry}
use credential_helper.Tests.World.{json, json-IsLosslessJson}

abbrev working : Driver
working = record { query = none; scan = none; prepare = none; insert = λ i. none; delete = none }

working-Works : Works working
working-Works = record { query = refl; scan = refl; prepare = refl; insert = refl; delete = refl }

abbrev dated : CachableGetCredentialsResponse
dated = record {
  cache_key = lit "k";
  response = record { expires = lit "2025-03-02T10:00:00Z"; headers = [] };
}

entry-has_key : dated.cache_key ≢ []
unfolding lit
entry-has_key = λ e. ground arith

-- The entry has expired for an hour when the prune runs, on the day on which it expired.
abbrev read_after_prune : Result GetCredentialsResponse
read_after_prune =
    Sqlite.retrieve json.cachable working (lit "k")
      (Sqlite.prune json.cachable working (lit "2025-03-02" ++ b' ' ∷ lit "11:00:00 +0000 UTC")
        (Sqlite.store json.cachable working dated []).1).1

retrieve-prune_store_example :
    (((lit "2025-03-02" ≡ lit "2025-03-02") ⊎ IsBefore (lit "2025-03-02") (lit "2025-03-02"))
      × (read_after_prune ≡ err cache_miss))
    ⊎ (IsBefore (lit "2025-03-02") (lit "2025-03-02") × (read_after_prune ≡ ok dated.response))
retrieve-prune_store_example =
    retrieve-prune_store json.cachable json-IsLosslessJson.cachable working (lit "2025-03-02")
      (lit "11:00:00 +0000 UTC") (lit "2025-03-02") (lit "10:00:00Z") dated [] working-Works
      entry-has_key (unfold lit in refl) refl

abbrev busy : Driver
busy = record working { insert = λ i. some (lit "database is locked (5) (SQLITE_BUSY)") }

busy-contains : contains (lit "database is locked (5) (SQLITE_BUSY)") (lit "SQLITE_BUSY") ≡ true
unfolding contains has_prefix lit
busy-contains = refl

store_busy_example : Sqlite.store json.cachable busy entry [] ≡ (ok tt, [])
store_busy_example =
    store_busy json.cachable json-IsLosslessJson.cachable busy entry [] refl
      (λ j l. (lit "database is locked (5) (SQLITE_BUSY)", refl, busy-contains))

data-IsFree : IsFree b'.' (lit "data")
unfolding lit
data-IsFree = ground arith

region-IsFree : IsFree b'.' (lit "eu-west-1")
unfolding lit
region-IsFree = ground arith

data_differs : lit "data" ≢ lit "s3"
unfolding lit
data_differs = λ e. ground arith

region_differs : lit "eu-west-1" ≢ lit "s3"
unfolding lit
region_differs = λ e. ground arith

-- in the form of a URL, and with a bucket whose name has a dot
bucket_host_test :
    (bucket_host (lit "data") (lit "eu-west-1") ≡ lit "data.s3.eu-west-1.amazonaws.com")
    × (region_from_host (lit "my.data.s3.eu-west-1.amazonaws.com") ≡ [])
unfolding region_from_host lit join split has_suffix has_prefix trim_suffix aws_legacy_global_region
    text_eq
bucket_host_test = (refl, refl)

region_from_host-bucket_host_example :
    region_from_host (bucket_host (lit "data") (lit "eu-west-1")) ≡ lit "eu-west-1"
region_from_host-bucket_host_example =
    region_from_host-bucket_host (lit "data") (lit "eu-west-1") data-IsFree region-IsFree
      data_differs region_differs
