-- ===== src/Authenticate/Oci/Docker/RoundTrip.antt =====
-- The "auth" field of a Docker config is read back.
use credential_helper.Base.{◌≡◌, ◌∷◌, ◌++◌}
use credential_helper.Text.{Text}
use credential_helper.Text.Parts.Laws.{IsFree, split_first-append}
use credential_helper.Errors.{ok}
use credential_helper.Authenticate.Oci.Docker.{Base64, decode_auth_field, encode_auth_field}

module _ (base64 : Base64) (lossless : (t : Text) → base64.decode (base64.encode t) ≡ ok t) where
  -- A user name and password that are written to an "auth" field are read back from it, if base64
  -- loses nothing and the user name has no colon, whatever the password has.
  pub decode_auth_field-encode_auth_field :
      (username password : Text)
      → IsFree b':' username
      → decode_auth_field base64 (encode_auth_field base64 username password)
        ≡ ok (username, password)
  unfolding decode_auth_field encode_auth_field
  decode_auth_field-encode_auth_field username password free =
      rw (lossless (username ++ b':' ∷ password), split_first-append b':' username password free)
