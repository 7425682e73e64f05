-- ===== src/Client/Keyring.antt =====
-- `KeyringProcess` of cmd/setup/keyring.go, from its flags on. The flags are as the package `flag`
-- reads them; the keyring and its functions are those of the package `go-keyring`.
pub mod Stored
use credential_helper.Base.{
  Bool, true, false, ◌&&◌, Option, none, some, List, [], ◌∷◌, ◌++◌, if◌then◌else◌,
}
use credential_helper.Text.{Text, lit, is_empty}
use credential_helper.Dict.{Dict}
use credential_helper.Errors.{Error, Result, ok, err, failure, wrap, wrapped, ◌>>=◌}
use credential_helper.Agent.Locate.{Machine, remap_to_original_working_directory}
use credential_helper.Lookup.Source.{KeyringAnswer, secret, absent, broken}

pub record Flags : Type 0 where
  pub source_file_path : Text
  pub read : Bool
  pub clear : Bool
  pub args : List Text

-- `keyring.Get`, `Set` and `Delete` on the state of a keyring
pub record KeyringApi (K : Type 0) : Type 0 where
  pub get : Text → K → KeyringAnswer
  pub set : Text → Text → K → Result (Unit {0}) × K
  pub delete : Text → K → Result (Unit {0}) × K

-- What can be read: files, which may not open, and the standard input.
pub record Inputs : Type 0 where
  pub open_file : Text → Result (Result Text)
  pub stdin : Result Text

module _ (m : Machine) (inputs : Inputs) (env : Dict Text) where
  -- the secret from its source
  unfoldable pub read_secret : Text → Result Text
  read_secret path = if is_empty path then wrap "reading secret" inputs.stdin else (do
    file ←
        wrap "opening source file"
          (inputs.open_file (remap_to_original_working_directory m env path))
    wrap "reading secret" file)

module _ {K : Type 0} (m : Machine) (api : KeyringApi K) (inputs : Inputs) (env : Dict Text) where
  print_secret : KeyringAnswer → Result Text
  print_secret (secret value) = ok value
  print_secret absent = err (failure "reading secret from keyring")
  print_secret (broken e) = err (wrapped "reading secret from keyring" e)

  clear_secret : Text → K → Result Text × K
  clear_secret service k =
      let (cleared, k') = api.delete service k in
      elim cleared [
        | err e ↦ (err (wrapped "deleting secret from keyring" e), k')
        | ok _ ↦ (ok (lit "Cleared secret " ++ service ++ lit "\n"), k')
      ]

  store_secret : Text → Text → K → Result Text × K
  store_secret path service k = elim (read_secret m inputs env path) [
    | err e ↦ (err e, k)
    | ok value ↦
        let (stored, k') = api.set service value k in
        elim stored [
          | err e ↦ (err (wrapped "storing secret in keyring" e), k')
          | ok _ ↦ (ok (lit "Stored secret " ++ service ++ lit "\n"), k')
        ]
  ]

  -- what is printed, or the error that ends the process
  unfoldable pub keyring_process : Flags → K → Result Text × K
  unfolding print_secret clear_secret store_secret
  keyring_process flags k = elim flags.args [
    | [] ↦ (err (failure "usage"), k)
    | service ∷ more ∷ rest ↦ (err (failure "usage"), k)
    | service ∷ [] ↦
        if flags.read && flags.clear
        then (err (failure "cannot specify both --read and --clear"), k)
        else if flags.read
        then (print_secret (api.get service k), k)
        else if flags.clear
        then clear_secret service k
        else store_secret flags.source_file_path service k
  ]
