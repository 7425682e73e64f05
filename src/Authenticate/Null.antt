-- ===== src/Authenticate/Null.antt =====
-- authenticate/null/null.go
use credential_helper.Base.{[]}
use credential_helper.Text.{Text}
use credential_helper.Errors.{Result, ok}
use credential_helper.Api.{GetCredentialsRequest, GetCredentialsResponse, empty_response}

unfoldable pub cache_key : GetCredentialsRequest → Text
cache_key req = []

unfoldable pub get : GetCredentialsRequest → Result GetCredentialsResponse
get req = ok empty_response
