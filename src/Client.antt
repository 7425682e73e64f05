-- ===== src/Client.antt =====
-- `foreground` of cmd/root/root.go, which answers one request, and `URIProcess` of cmd/setup/uri.go.
pub mod Caching
pub mod Setup
pub mod Keyring
pub mod Installer
pub mod Command
pub mod Run
pub mod Served
use credential_helper.Base.{ℕ, String, Bool, true, false, Option, none, some, List, [], ◌∷◌}
use credential_helper.Text.{Text}
use credential_helper.Errors.{Error, Result, ok, err, failure, wrapped}
use credential_helper.Api.{
  GetCredentialsRequest, GetCredentialsResponse, CachableGetCredentialsResponse, Cache,
}

-- `api.Helper`: `Resolver` under a configuration gives `Get`.
pub record Helper (Raw : Type 0) : Type 0 where
  pub cache_key : GetCredentialsRequest → Text
  pub resolver : Option Raw → Result (GetCredentialsRequest → Result GetCredentialsResponse)

-- What a run of the process printed, and the error that ended it with exit status 1, if one did.
pub record Report : Type 0 where
  pub printed : List GetCredentialsResponse
  pub fatal : Option Error

abbrev pub died : Error → Report
died e = record { printed = []; fatal = some e }

module _ {S : Type 0} (cache : Cache S) (print : GetCredentialsResponse → Result (Unit {0})) where
  -- the end of `foreground`: print the response, then store it
  print_and_store : Text → GetCredentialsResponse → S → Report × S
  print_and_store key resp s = elim (print resp) [
    | err e ↦ (died (wrapped "printing response to stdout" e), s)
    | ok _ ↦
        let (stored, s') = cache.store (record { cache_key = key; response = resp }) s in
        elim stored [
          | err e ↦ (
            record { printed = resp ∷ []; fatal = some (wrapped "storing response in cache" e) },
            s',
          )
          | ok _ ↦ (record { printed = resp ∷ []; fatal = none }, s')
        ]
  ]

module _ {S Raw : Type 0} (cache : Cache S)
    (print : GetCredentialsResponse → Result (Unit {0})) where
  -- without a cached response
  resolve : Helper Raw → Option Raw → GetCredentialsRequest → S → Report × S
  unfolding print_and_store
  resolve helper config req s = elim (helper.resolver config) [
    | err e ↦ (died (wrapped "instantiating resolver" e), s)
    | ok get ↦ elim (get req) [
      | err e ↦ (died e, s)
      | ok resp ↦ print_and_store cache print (helper.cache_key req) resp s
    ]
  ]

  -- from the helper on
  respond : Helper Raw → Option Raw → GetCredentialsRequest → S → Report × S
  unfolding resolve
  respond helper config req s =
      let (cached, s') = cache.retrieve (helper.cache_key req) s in
      elim cached [
        | ok resp ↦ elim (print resp) [
          | err e ↦ (died (wrapped "printing cached response to stdout" e), s')
          | ok _ ↦ (record { printed = resp ∷ []; fatal = none }, s')
        ]
        | err e ↦ resolve helper config req s'
      ]

  -- `foreground`; `configure` is `Configure` with its readers, and a helper that is nil panics
  unfoldable pub foreground :
      (Text → Result (Option (Helper Raw) × Option Raw))
      → Result GetCredentialsRequest
      → S
      → Report × S
  unfolding respond
  foreground configure (err e) s = (died e, s)
  foreground configure (ok req) s = elim (configure req.uri) [
    | err e ↦ (died e, s)
    | ok (none, config) ↦ (died (failure "nil pointer dereference"), s)
    | ok (some helper, config) ↦ respond helper config req s
  ]
