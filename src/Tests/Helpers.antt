-- ===== src/Tests/Helpers.antt =====
-- The helpers for GitHub, Google Cloud Storage and OCI registries.
use credential_helper.Base.{
  ◌<◌, ℕ, ◌≤◌, ◌+◌, ◌≡◌, ◌⊎◌, refl, true, false, Option, none, some, List, [], ◌∷◌, ◌++◌, arith,
}
use credential_helper.Base.Int.{pos}
use credential_helper.Text.{Text, lit, text_eq, equal_fold, trim_space}
use credential_helper.Text.Affix.{has_prefix, has_suffix, cut_prefix, trim_prefix, trim_suffix}
use credential_helper.Text.Parts.{split, split_first}
use credential_helper.Dict.{Dict, lookup, insert}
use credential_helper.Errors.{Result, ok, err, failure}
use credential_helper.Api.{GetCredentialsRequest, GetCredentialsResponse, IsFaithfulTime}
use credential_helper.Url.{Url}
use credential_helper.Authenticate.Token.{OauthToken, bearer}
use credential_helper.Authenticate.GitHub
use credential_helper.Authenticate.GitHub.Scope.{get_same_key}
use credential_helper.Authenticate.Oci.Repository.{
  Derived, derive_repository, last_two, endpoint_suffix,
}
use credential_helper.Authenticate.Oci.Repository.Layout.{Tail, derive_repository-Tail}
use credential_helper.Authenticate.Oci.Challenge.{
  parse_www_authenticate, challenge_loop, consume_kv, consume_key, consume_token_or_quoted,
  consume_token, split_token,
}
use credential_helper.Authenticate.Oci.Challenge.Ends.{IsShortening, parse_www_authenticate_ends}
use credential_helper.Authenticate.Oci.Tokens.{AuthConfig, WwwAuthenticate}
use credential_helper.Authenticate.Oci.Docker.{
  ConfigFile, Base64, decode_auth_field, encode_auth_field,
}
use credential_helper.Authenticate.Oci.Docker.RoundTrip.{decode_auth_field-encode_auth_field}
use credential_helper.Authenticate.Oci.Tokens.{BasicAuthToken, convert_basic}
use credential_helper.Authenticate.Oci.Tokens.Expiry.{convert_basic-expiry}
use credential_helper.Authenticate.Oci.AuthConfig.{
  ConfigFragment, Authenticator, config_from_context, derive_auth_config, is_empty_config,
}
use credential_helper.Authenticate.Oci.Exchange.{Http, www_authenticate}
use credential_helper.Authenticate.Oci.Exchange.Methods.{exchange_docker, exchange_twice}
use credential_helper.Lookup.Chain.{default_config}
use credential_helper.Tests.World.{Message, sources, world, time, parse_url}

abbrev token : OauthToken
token = record {
  access_token = lit "a";
  token_type = [];
  refresh_token = [];
  expiry = some 9;
  expires_in = pos 0;
}

abbrev pub base64 : Text → Text
base64 t = t

abbrev pub ask : Text → GetCredentialsRequest
ask uri = record { uri = uri }

abbrev at_github : Text → Text → Url
at_github scheme path = record {
  scheme = scheme;
  host = lit "github.com";
  path = path;
  query_has = λ name. false;
}

abbrev bearer_response : GetCredentialsResponse
bearer_response = record {
  expires = 9 ∷ [];
  headers = (lit "Authorization", bearer (lit "a") ∷ []) ∷ [];
}

get_same_key_example :
    GitHub.get parse_url time base64 (ok token) (ask (lit "https://github.com/b"))
    ≡ ok bearer_response
unfolding GitHub.get GitHub.cache_key lit cut_prefix text_eq split_first GitHub.is_github_host
    equal_fold GitHub.auth_string
get_same_key_example =
    get_same_key parse_url time base64 (ok token) (ask (lit "https://github.com/a"))
      (ask (lit "https://github.com/b")) bearer_response (at_github (lit "https") (lit "/b")) refl
      refl refl refl

abbrev blob_uri : Text
blob_uri = lit "https://ghcr.io/v2/a/b/blobs/sha256:0"

abbrev a_slash_b : Derived
a_slash_b = record { registry = lit "ghcr.io"; repository = lit "a/b"; ignore = false }

derives : derive_repository parse_url blob_uri ≡ ok a_slash_b
unfolding derive_repository lit cut_prefix text_eq split_first has_prefix has_suffix trim_prefix
    last_two split endpoint_suffix trim_suffix
derives = refl

derive_repository-Tail_example :
    (u : Url) × (parse_url blob_uri ≡ ok u)
    × (u.scheme ≡ lit "https")
    × (lit "ghcr.io" ≡ u.host)
    × ((tail : Text) × Tail tail × (u.path ≡ lit "/v2/" ++ (lit "a/b" ++ tail)))
derive_repository-Tail_example = derive_repository-Tail parse_url blob_uri a_slash_b derives refl

-- quoted text with no escapes
abbrev pub unquote : Text → Option (Text × Text)
unquote [] = none
unquote (c ∷ input) = none

unquote-IsShortening : IsShortening unquote
unquote-IsShortening [] value rest e = absurd (ground arith)
unquote-IsShortening (c ∷ input) value rest e = absurd (ground arith)

parse_www_authenticate_ends_example :
    ((has_prefix (lit "Bearer realm=r,service=s") (lit "Bearer ") ≡ true)
      × ((d : Dict Text) × (parse_www_authenticate unquote (lit "Bearer realm=r,service=s")
            ≡ ok (some d))))
    ⊎ ((has_prefix (lit "Bearer realm=r,service=s") (lit "Bearer ") ≡ false)
        × (parse_www_authenticate unquote (lit "Bearer realm=r,service=s")
            ≡ err (failure "unexpected auth type")))
parse_www_authenticate_ends_example =
    parse_www_authenticate_ends unquote unquote-IsShortening (lit "Bearer realm=r,service=s")

-- what stands behind a value with no quotes is not read
unquoted_test :
    parse_www_authenticate unquote (lit "Bearer realm=r,service=s")
    ≡ ok (some ((lit "realm", lit "r") ∷ []))
unfolding parse_www_authenticate lit cut_prefix challenge_loop consume_kv consume_key split_first
    trim_space consume_token_or_quoted has_prefix consume_token split_token insert
unquoted_test = refl

abbrev docker : AuthConfig
docker = record {
  username = lit "u";
  password = lit "p";
  auth = [];
  identity_token = [];
  registry_token = [];
  token_exchange_method = [];
}

abbrev docker_file : ConfigFile
docker_file = record { auths = []; credentials_store = lit "s"; credential_helpers = [] }

abbrev in_store : ConfigFile → Text → Result (Option AuthConfig)
in_store file host = ok (some docker)

abbrev unchanged : Message → ConfigFragment Message → Result (ConfigFragment Message)
unchanged raw config = ok config

abbrev fragment : ConfigFragment Message
fragment = record {
  parse_docker_config = true;
  token_exchange_method = lit "auto";
  lookup_chain = [];
}

abbrev pub no_one : Dict Authenticator
no_one = []

reads_fragment : config_from_context sources world unchanged none (lit "r.io") ≡ ok fragment
unfolding config_from_context default_config lit text_eq
reads_fragment = refl

not_empty : is_empty_config docker ≡ false
unfolding is_empty_config lit
not_empty = refl

abbrev pub derive : Text → Text → Text → Dict Authenticator → Result AuthConfig × Dict Authenticator
derive = derive_auth_config sources world unchanged none (ok docker_file) in_store

abbrev pub offline : Http
offline = record {
  challenge = λ registry. err (failure "offline");
  get_token = λ realm parameters user. err (failure "offline");
  post_form = λ realm form. err (failure "offline");
}

abbrev pub challenges : Dict WwwAuthenticate
challenges = (lit "r.io", record { realm = lit "t"; service = lit "s" }) ∷ []

knows :
    www_authenticate offline unquote time 5 challenges (lit "r.io")
    ≡ ok (record { realm = lit "t"; service = lit "s" })
unfolding www_authenticate lookup lit text_eq
knows = refl

abbrev exchange_again : List Text → Dict Authenticator → Result OauthToken × Dict Authenticator
exchange_again =
    exchange_docker sources world unchanged none docker_file in_store offline unquote time 5
      challenges (lit "r.io")

exchange_twice_example :
    (exchange_again [] (exchange_again [] no_one).1).0
    ≡ err (failure "unsupported token exchange method")
exchange_twice_example =
    exchange_twice sources world unchanged none docker_file in_store offline unquote time 5
      challenges (lit "r.io") [] [] no_one fragment docker
      (record { realm = lit "t"; service = lit "s" }) knows (unfold lookup in refl) reads_fragment
      refl refl not_empty refl refl

abbrev plain : Base64
plain = record { encode = λ t. t; decode = λ t. ok t }

decode_auth_field-encode_auth_field_example :
    decode_auth_field plain (encode_auth_field plain (lit "u") (lit "p:q"))
    ≡ ok (lit "u", lit "p:q")
unfolding lit
decode_auth_field-encode_auth_field_example =
    decode_auth_field-encode_auth_field plain (λ t. refl) (lit "u") (lit "p:q") (refl, tt)

time-IsFaithfulTime : IsFaithfulTime time
time-IsFaithfulTime = record {
  parse-format = λ t. refl;
  format-ne-nil = λ t e. absurd (ground arith);
}

abbrev lifetime : ℕ
lifetime = 300

abbrev basic : BasicAuthToken
basic = record {
  token = lit "a";
  access_token = [];
  expires_in = pos lifetime;
  issued_at = [];
  refresh_token = [];
}

convert_basic-expiry_example :
    ((lifetime ≡ 0) × ((convert_basic time 5 basic).expiry ≡ some (5 + 60)))
    ⊎ (((1 ≤ lifetime)
          × (lifetime ≤ 9223372036)
          × ((convert_basic time 5 basic).expiry ≡ some (5 + lifetime)))
        ⊎ ((9223372036 < lifetime)
            × (t : ℕ) × ((convert_basic time 5 basic).expiry ≡ some t)
            × (t < 5 + lifetime)))
convert_basic-expiry_example =
    convert_basic-expiry time time-IsFaithfulTime 5 basic lifetime refl refl
