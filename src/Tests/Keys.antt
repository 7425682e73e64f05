-- ===== src/Tests/Keys.antt =====
-- The cache keys of the OCI helper, and the helper for remote APIs.
use mathlib.Core.List.{mem-cons_self}
use credential_helper.Base.{◌+◌, ◌≡◌, ◌≢◌, ◌↔◌, false, none, some, inl, refl, arith, [], ◌∷◌, List}
use credential_helper.Text.{Text, lit, text_eq}
use credential_helper.Text.Affix.{cut_prefix, has_prefix, has_suffix, trim_prefix, trim_suffix}
use credential_helper.Text.Parts.{split, split_first}
use credential_helper.Api.{GetCredentialsRequest}
use credential_helper.Authenticate.Oci.Repository.{
  derive_repository, cache_key, last_two, endpoint_suffix,
}
use credential_helper.Authenticate.Oci.Exchange.{get}
use credential_helper.Authenticate.Oci.Exchange.SameKey.{IsEscaping, get-cache_key}
use credential_helper.Tests.Helpers.{base64, ask, derive, no_one, offline, unquote, challenges}
use credential_helper.Errors.{Result, ok}
use credential_helper.Url.{Url}
use credential_helper.Lookup.Source.{Secrets}
use credential_helper.Authenticate.RemoteApis
use credential_helper.Authenticate.RemoteApis.{ConfigFragment}
use credential_helper.Authenticate.RemoteApis.Unconfigured.{
  api_key_response, get-IsBuildbuddyCall_iff,
}
use credential_helper.Authenticate.RemoteApis.ApiKey.{IsApiKey}
use credential_helper.Authenticate.RemoteApis.Calls.{IsBuildbuddyCall, rpc_names}
use credential_helper.Tests.World.{
  Message, parse_url, time, sources, sources-IsLosslessSources, world,
}

-- the bytes of the host are moved up, so that a zero ends it
escaped : Text → Text → Text
escaped [] rest = 0 ∷ rest
escaped (c ∷ host) rest = (c + 1) ∷ escaped host rest

escaped-cases :
    (host host' rest rest' : Text)
    → escaped host rest ≡ escaped host' rest'
    → (host ≡ host') × (rest ≡ rest')
unfolding escaped
escaped-cases [] [] rest rest' h = ground arith
escaped-cases [] (c ∷ host') rest rest' h = ground arith
escaped-cases (c ∷ host) [] rest rest' h = ground arith
escaped-cases (c ∷ host) (c' ∷ host') rest rest' h =
    ground (arith, escaped-cases host host' rest rest')

abbrev repository_of : List (Text × Text) → Text
repository_of [] = []
repository_of ((name, value) ∷ rest) = value

abbrev key_url : Text → List (Text × Text) → Text
unfolding escaped
key_url host query = escaped host (repository_of query)

key_url-IsEscaping : IsEscaping key_url
unfolding escaped key_url
key_url-IsEscaping host host' repository repository' h =
    escaped-cases host host' repository repository' h

abbrev blob : GetCredentialsRequest
blob = ask (lit "https://r.io/v2/a/b/blobs/sha256:0")

abbrev manifest : GetCredentialsRequest
manifest = ask (lit "https://r.io/v2/a/b/manifests/latest")

blob-has_key : cache_key parse_url key_url blob ≢ []
unfolding cache_key derive_repository lit cut_prefix text_eq split_first has_prefix has_suffix
    trim_prefix last_two split endpoint_suffix trim_suffix escaped
blob-has_key e = ground (arith, e)

same_key : cache_key parse_url key_url manifest ≡ cache_key parse_url key_url blob
unfolding cache_key derive_repository lit cut_prefix text_eq split_first has_prefix has_suffix
    trim_prefix last_two split endpoint_suffix trim_suffix
same_key = refl

get-cache_key_example :
    get offline unquote time 5 challenges derive parse_url manifest no_one
    ≡ get offline unquote time 5 challenges derive parse_url blob no_one
get-cache_key_example =
    get-cache_key parse_url key_url key_url-IsEscaping offline unquote time 5 challenges derive blob
      manifest no_one blob-has_key same_key

abbrev fragment : Message → ConfigFragment Message → Result (ConfigFragment Message)
fragment raw config = ok config

abbrev keyed : Secrets
keyed = record world { env = λ name. some (lit "s") }

-- The helper answers such a call.
get-IsBuildbuddyCall_iff_example :
    (RemoteApis.get parse_url sources keyed base64 fragment none
        (ask (lit "https://api.buildbuddy.io/google.bytestream.ByteStream"))
      ≡ ok (api_key_response (lit "s")))
    ↔ ((u : Url) × (parse_url (lit "https://api.buildbuddy.io/google.bytestream.ByteStream") ≡ ok u)
        × IsBuildbuddyCall u
        × (key : Text) × IsApiKey keyed key
        × (api_key_response (lit "s") ≡ api_key_response key))
get-IsBuildbuddyCall_iff_example =
    get-IsBuildbuddyCall_iff parse_url sources keyed base64 fragment sources-IsLosslessSources
      (ask (lit "https://api.buildbuddy.io/google.bytestream.ByteStream"))
      (api_key_response (lit "s"))

buildbuddy_call : IsBuildbuddyCall (record {
  scheme = lit "https";
  host = lit "api.buildbuddy.io";
  path = lit "/google.bytestream.ByteStream";
  query_has = λ name. false;
})
unfolding lit rpc_names
buildbuddy_call = record {
  scheme = inl refl;
  rpc_name = lit "google.bytestream.ByteStream";
  path = refl;
  service = mem-cons_self;
  subdomain = lit "api";
  host = refl;
}

answered_call :
    RemoteApis.get parse_url sources keyed base64 fragment none
      (ask (lit "https://api.buildbuddy.io/google.bytestream.ByteStream"))
    ≡ ok (api_key_response (lit "s"))
unfolding cut_prefix split_first lit
answered_call =
    get-IsBuildbuddyCall_iff_example.1 (_, refl, buildbuddy_call, lit "s", inl refl, refl)
