-- ===== src/Authenticate/Token.antt =====
-- `oauth2.Token`, the parts of a response that the helpers make of it, and the helpers' view of
-- their configuration (authenticate/internal/helperconfig/helperconfig.go).
use credential_helper.Base.{ℕ, Bool, ◌||◌, Option, none, some, [], ◌++◌}
use credential_helper.Base.Int.{ℤ}
use credential_helper.Text.{Text, lit, is_empty, text_eq}
use credential_helper.Errors.{Result, ok}
use credential_helper.Api.{Rfc3339}
use credential_helper.Url.{Url, port}

-- A zero `Expiry` is `none`.
pub record OauthToken : Type 0 where
  pub access_token : Text
  pub token_type : Text
  pub refresh_token : Text
  pub expiry : Option ℕ
  pub expires_in : ℤ

abbrev pub bearer : Text → Text
bearer token = lit "Bearer " ++ token

-- `if !token.Expiry.IsZero() { expires = token.Expiry.UTC().Format(time.RFC3339) }`
abbrev pub expires_text : Rfc3339 → Option ℕ → Text
expires_text time none = []
expires_text time (some t) = time.format t

-- `parsedURL.Port() == "" || parsedURL.Port() == "443"`
abbrev pub has_https_port : Url → Bool
has_https_port u = is_empty (port u) || text_eq (port u) (lit "443")

-- `FromContext`: the configuration, read over the default, if there is one
abbrev pub from_context : {Raw A : Type 0} → (Raw → A → Result A) → Option Raw → A → Result A
from_context decode none config = ok config
from_context decode (some raw) config = decode raw config
