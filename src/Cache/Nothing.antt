-- ===== src/Cache/Nothing.antt =====
-- cache/nocache.go
use credential_helper.Base.{ℕ}
use credential_helper.Text.{Text}
use credential_helper.Errors.{Result, ok, err, cache_miss}
use credential_helper.Api.{GetCredentialsResponse, CachableGetCredentialsResponse, Cache}

pub retrieve : Text → Unit {0} → Result GetCredentialsResponse × Unit {0}
retrieve key c = (err cache_miss, c)

pub store : CachableGetCredentialsResponse → Unit {0} → Result (Unit {0}) × Unit {0}
store value c = (ok tt, c)

pub prune : (Text → ℕ) → Unit {0} → Result (Unit {0}) × Unit {0}
prune now c = (ok tt, c)

abbrev pub no_cache : Cache (Unit {0})
unfolding retrieve store prune
no_cache = record { retrieve = retrieve; store = store; prune = prune }
