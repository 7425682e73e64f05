-- ===== src/Authenticate/PathToHeader.antt =====
-- examples/customized/helper: the helper of authenticate/pathtoheader.go, which shows how to write
-- one, and the factory of helperfactory/helperfactory.go, which always gives it.
use credential_helper.Base.{ℕ, ◌+◌, List, [], ◌∷◌, ◌++◌, if◌then◌else◌}
use credential_helper.Text.{Text, lit, text_eq}
use credential_helper.Text.Parts.{split}
use credential_helper.Dict.{Dict, insert}
use credential_helper.Errors.{Result, ok, err, ◌>>=◌}
use credential_helper.Api.{GetCredentialsRequest, GetCredentialsResponse, Rfc3339}
use credential_helper.Url.{ParseUrl}
use credential_helper.Client.{Helper}

module _ (parse_url : ParseUrl) where
  unfoldable pub cache_key : GetCredentialsRequest → Text
  cache_key req = elim (parse_url req.uri) [
    | err e ↦ lit "PathToHeaderUnknown/" ++ req.uri
    | ok u ↦ lit "PathToHeader/" ++ u.path
  ]

  module _ (base64 : Text → Text) (time : Rfc3339) (now : ℕ) where
    -- the user and the password of a path for the test server
    basic_auth : List Text → Dict (List Text) → Dict (List Text)
    basic_auth (first ∷ kind ∷ user ∷ password ∷ []) headers =
        if text_eq kind (lit "basic-auth")
        then insert (lit "Authorization") ((lit "Basic " ++ base64 (user ++ b':' ∷ password)) ∷ [])
            headers
        else headers
    basic_auth _ headers = headers

    -- `Get`; the answer holds for 24 hours
    unfoldable pub get : GetCredentialsRequest → Result GetCredentialsResponse
    unfolding basic_auth
    get req = do
      u ← parse_url req.uri
      ok (record {
        expires = time.format (now + 86400);
        headers =
            basic_auth (split b'/' u.path)
              ((lit "X-Tweag-Credential-Helper-Path", u.path ∷ []) ∷ []);
      })

    -- `CustomHelperFactory`, with the helper's `Resolver`
    abbrev pub custom_helper_factory : {Raw : Type 0} → Text → Result (Helper Raw)
    custom_helper_factory uri = ok (record { cache_key = cache_key; resolver = λ config. ok get })
