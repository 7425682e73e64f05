-- ===== src/Config/Read.antt =====
-- `OSReader.Read` of config/config.go.
use credential_helper.Base.{false, [], ◌∷◌}
use credential_helper.Text.{Text, lit}
use credential_helper.Text.Path.{join_path}
use credential_helper.Dict.{Dict}
use credential_helper.Errors.{Error, Result, err, config_not_found}
use credential_helper.Api.Names.{config_file_env}
use credential_helper.Agent.Locate.{Machine, lookup_path_env}
use credential_helper.Config.Find.{Config}

-- What `os.Open` gives: the content, an error of which `os.IsNotExist` holds, or another one.
pub data Opened : Type 0 where
  content : Text → Opened
  missing : Opened
  refused : Error → Opened

abbrev pub config_path : Machine → Dict Text → Text
config_path m env =
    lookup_path_env m env config_file_env
      (join_path (lit "%workspace%" ∷ lit ".tweag-credential-helper.json" ∷ [])) false

-- `Read`, with the JSON decoder, which refuses unknown fields
unfoldable pub read :
    {Raw : Type 0}
    → Machine
    → Dict Text
    → (Text → Opened)
    → (Text → Result (Config Raw))
    → Result (Config Raw)
read m env open_file decode = elim (open_file (config_path m env)) [
  | missing ↦ err config_not_found
  | refused e ↦ err e
  | content text ↦ decode text
]
