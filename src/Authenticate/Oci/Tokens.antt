-- ===== src/Authenticate/Oci/Tokens.antt =====
-- `AuthConfig`, `WWWAuthenticate` and the token responses of authenticate/oci/oauth.go.
pub mod Expiry
use credential_helper.Base.{
  ℕ, zero, suc, ◌+◌, ◌-◌, ◌*◌, ◌/◌, ◌%◌, ltb, none, some, ◌&&◌, not, if◌then◌else◌,
}
use credential_helper.Base.Int.{ℤ, pos, negsuc}
use credential_helper.Text.{Text, lit, is_empty}
use credential_helper.Api.{Rfc3339}
use credential_helper.Authenticate.Token.{OauthToken}

pub record WwwAuthenticate : Type 0 where
  pub realm : Text
  pub service : Text

pub record AuthConfig : Type 0 where
  pub username : Text
  pub password : Text
  pub auth : Text
  pub identity_token : Text
  pub registry_token : Text
  pub token_exchange_method : Text

pub record BasicAuthToken : Type 0 where
  pub token : Text
  pub access_token : Text
  pub expires_in : ℤ
  pub issued_at : Text
  pub refresh_token : Text

pub record OAuth2Token : Type 0 where
  pub access_token : Text
  pub scope : Text
  pub expires_in : ℤ
  pub issued_at : Text
  pub refresh_token : Text

abbrev pub second : ℕ
second = 1000000000

-- 2 ^ 64
abbrev pub word : ℕ
word = 18446744073709551616

-- `time.Duration(i) * time.Second`: nanoseconds in an `int64`, which wraps, as its bit pattern
unfoldable pub nanoseconds : ℤ → ℕ
nanoseconds (pos n) = n * second % word
nanoseconds (negsuc n) = (word - suc n * second % word) % word

-- `t.Add` of a duration, in whole seconds, as they are printed; an instant does not fall below the
-- zero time
unfoldable pub add_duration : ℕ → ℕ → ℕ
add_duration t d =
    if ltb d 9223372036854775808 then t + d / second else t - (word - d + (second - 1)) / second

abbrev pub add_seconds : ℕ → ℤ → ℕ
add_seconds t i = add_duration t (nanoseconds i)

-- `if b.ExpiresIn == 0 { b.ExpiresIn = 60 }`
abbrev pub or_sixty : ℤ → ℤ
or_sixty (pos zero) = pos 60
or_sixty i = i

-- the instant that `IssuedAt` stands for
abbrev pub issued : Rfc3339 → ℕ → Text → ℕ
issued time now issued_at =
    let stamp = if is_empty issued_at then time.format now else issued_at in
    elim (time.parse stamp) [ none ↦ now | some t ↦ t ]

module _ (time : Rfc3339) (now : ℕ) where
  -- `BasicAuthToken.Convert`
  unfoldable pub convert_basic : BasicAuthToken → OauthToken
  convert_basic b = record {
    access_token =
        if is_empty b.token && not (is_empty b.access_token) then b.access_token else b.token;
    token_type = lit "Bearer";
    refresh_token = b.refresh_token;
    expiry = some (add_seconds (issued time now b.issued_at) (or_sixty b.expires_in));
    expires_in = or_sixty b.expires_in;
  }

  -- `OAuth2Token.Convert`
  unfoldable pub convert_oauth2 : OAuth2Token → OauthToken
  convert_oauth2 o = record {
    access_token = o.access_token;
    token_type = lit "Bearer";
    refresh_token = o.refresh_token;
    expiry = some (add_seconds (issued time now o.issued_at) (or_sixty o.expires_in));
    expires_in = or_sixty o.expires_in;
  }
