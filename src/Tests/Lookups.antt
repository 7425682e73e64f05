-- ===== src/Tests/Lookups.antt =====
-- The lookup chain and the choice by configuration.
use credential_helper.Base.{◌≡◌, ◌≢◌, ◌↔◌, refl, true, false, none, some, [], ◌∷◌, arith, map, Bool}
use credential_helper.Text.{Text, lit, text_eq, to_lower, trim_space}
use credential_helper.Errors.{Error, ok, err, not_found, failure, is_not_found_err, wrapped}
use credential_helper.Lookup.Source.{
  Source, env, static, google, source_lookup, bound_value, canonicalize, source_env, source_static,
  source_google,
}
use credential_helper.Lookup.Chain
use credential_helper.Lookup.Chain.{ConfigEntry, Config, source_for, default_config}
use credential_helper.Lookup.Chain.Laws.{Fails, FirstHit, lookup-FirstHit_iff, lookup_misses}
use credential_helper.Lookup.Chain.Defaults.{decoded, decoded-default_config}
use credential_helper.Url.{Url}
use credential_helper.Factory.{builtin_helpers}
use credential_helper.Config.Glob.{glob_match}
use credential_helper.Config.Glob.Matches.{Matches}
use credential_helper.Config.Glob.Decides.{glob_match_iff}
use credential_helper.Config.Find.{UrlConfig, entry_matches, find_loop, chosen}
use credential_helper.Config.Find.Laws.{Fits, here, later, entry_matches_iff, find_loop-FirstFit}
use credential_helper.Tests.World.{Message, source, sources, sources-IsLosslessSources, world}

abbrev token_env : Source
token_env = env (record { source = source_env; name = lit "TOKEN"; binding = lit "b" })

abbrev token_static : Source
token_static = static (record { source = source_static; value = lit "v"; binding = lit "b" })

abbrev token_google : Source
token_google = google (record {
  source = source_google;
  token_type = lit "id";
  scopes = [];
  audience = [];
  binding = lit "b";
})

abbrev env_entry : ConfigEntry Message
env_entry = record { source = source_env; raw_message = source token_env }

abbrev static_entry : ConfigEntry Message
static_entry = record { source = source_static; raw_message = source token_static }

abbrev google_entry : ConfigEntry Message
google_entry = record { source = source_google; raw_message = source token_google }

lookup-FirstHit_iff_example :
    (Chain.lookup sources world (env_entry ∷ static_entry ∷ []) (lit "b") ≡ ok (lit "v"))
    ↔ FirstHit sources world (lit "b") (lit "v") (env_entry ∷ static_entry ∷ [])
lookup-FirstHit_iff_example =
    lookup-FirstHit_iff sources world (env_entry ∷ static_entry ∷ []) (lit "b") (lit "v")

chain_test : Chain.lookup sources world (env_entry ∷ static_entry ∷ []) (lit "b") ≡ ok (lit "v")
unfolding Chain.lookup Chain.lookup_loop source_for text_eq lit source_lookup canonicalize
    bound_value
chain_test = refl

env_misses :
    (source_for sources env_entry ≡ ok token_env)
    × (source_lookup world token_env (lit "b") ≡ err (not_found ""))
unfolding source_for source_lookup canonicalize bound_value lit text_eq
env_misses = (refl, refl)

abbrev env_fails : Fails sources world (lit "b") env_entry
env_fails = record {
  source = token_env;
  error = not_found "";
  decodes = env_misses.0;
  fails = env_misses.1;
}

abbrev no_google : Error
no_google = wrapped "failed to find default credentials for id token" (failure "no credentials")

google_breaks :
    (source_for sources google_entry ≡ ok token_google)
    × (source_lookup world token_google (lit "b") ≡ err no_google)
unfolding source_for source_lookup canonicalize bound_value lit text_eq to_lower trim_space
google_breaks = (refl, refl)

abbrev google_fails : Fails sources world (lit "b") google_entry
google_fails = record {
  source = token_google;
  error = no_google;
  decodes = google_breaks.0;
  fails = google_breaks.1;
}

lookup_misses_example :
    (e : Error) × (Chain.lookup sources world (env_entry ∷ google_entry ∷ []) (lit "b") ≡ err e)
    × (is_not_found_err e ≡ false)
unfolding is_not_found_err
lookup_misses_example =
    lookup_misses sources world env_entry (google_entry ∷ []) (lit "b")
      (env_fails, (google_fails, tt))

decoded-default_config_example :
    (config : Config Message) × (default_config sources (token_env ∷ token_static ∷ []) ≡ ok config)
    × (decoded sources config ≡ ok (map canonicalize (token_env ∷ token_static ∷ [])))
decoded-default_config_example =
    decoded-default_config sources sources-IsLosslessSources (token_env ∷ token_static ∷ [])

glob_match_iff_example :
    (b : Bool) × (glob_match (lit "*.io") (lit "ghcr.io") ≡ some b)
    × ((b ≡ true) ↔ Matches (lit "*.io") (lit "ghcr.io"))
glob_match_iff_example = glob_match_iff (lit "*.io") (lit "ghcr.io")

glob_tests :
    (glob_match (lit "*.io") (lit "ghcr.io") ≡ some true)
    × (glob_match (lit "a*b*c") (lit "abxbc") ≡ some true)
    × (glob_match (lit "a*b") (lit "abc") ≡ some false)
unfolding glob_match lit
glob_tests = (refl, refl, refl)

abbrev url : Url
url = record {
  scheme = lit "https";
  host = lit "ghcr.io";
  path = lit "/v2/a";
  query_has = λ name. false;
}

abbrev by_host : Text → Text → UrlConfig Message
by_host host helper = record { scheme = []; host = host; path = []; helper = helper; config = none }

fits : Fits (by_host (lit "*.io") (lit "oci")) url
unfolding entry_matches glob_match lit
fits = (entry_matches_iff (by_host (lit "*.io") (lit "oci")) url).0 refl

misfit : ¬ Fits (by_host (lit "*.com") (lit "github")) url
unfolding entry_matches glob_match lit
misfit f =
    let h : entry_matches (by_host (lit "*.com") (lit "github")) url ≡ true =
      (entry_matches_iff (by_host (lit "*.com") (lit "github")) url).1 f in
    ground arith

not_nil : (lit "oci" ≢ []) × (lit "github" ≢ [])
unfolding lit
not_nil = (ground arith, ground arith)

find_loop-FirstFit_example :
    find_loop builtin_helpers
      (by_host (lit "*.com") (lit "github") ∷ by_host (lit "*.io") (lit "oci") ∷ [])
      url
    ≡ chosen builtin_helpers (by_host (lit "*.io") (lit "oci"))
find_loop-FirstFit_example =
    find_loop-FirstFit builtin_helpers url {c = by_host (lit "*.io") (lit "oci")}
      {config = by_host (lit "*.com") (lit "github") ∷ by_host (lit "*.io") (lit "oci") ∷ []}
      not_nil.0 (later not_nil.1 misfit (here fits))
