-- ===== src/Lookup/Chain.antt =====
-- `LookupChain`, its configuration and `Default`.
pub mod Laws
pub mod Defaults
use credential_helper.Base.{
  ℕ, ◌+◌, String, Bool, true, false, not, Option, none, some, List, [], ◌∷◌, ◌++◌, if◌then◌else◌,
}
use credential_helper.Text.{Text, lit, text_eq, is_empty}
use credential_helper.Text.Parts.{join}
use credential_helper.Errors.{
  Error, Errors, Result, ok, err, more, not_found, failure, wrapped, joined, is_not_found_err, wrap,
  guard, ◌>>=◌, ◌>>◌,
}
use credential_helper.Errors
use credential_helper.Api.{Codec}
use credential_helper.Lookup.Source.{
  Secrets, Env, Keyring, Static, Google, Source, env, keyring, static, google, source_env,
  source_keyring, source_static, source_google, source_name, canonicalize, source_lookup,
  source_instructions,
}

-- the decoders refuse unknown fields
pub record SourceJson (Raw : Type 0) : Type 0 where
  pub env : Codec Env Raw
  pub keyring : Codec Keyring Raw
  pub static : Codec Static Raw
  pub google : Codec Google Raw

pub record ConfigEntry (Raw : Type 0) : Type 0 where
  pub source : Text
  pub raw_message : Raw

abbrev pub Config : Type 0 → Type 0
Config Raw = List (ConfigEntry Raw)

-- the string that the "source" field decodes to, in `UnmarshalJSON` of an entry
unfoldable pub unmarshal_entry :
    {Raw : Type 0} → (Raw → Result Text) → Raw → Result (ConfigEntry Raw)
unmarshal_entry source_field raw = do
  source ← source_field raw
  guard (not (is_empty source)) (failure "source must be set")
  ok (record { source = source; raw_message = raw })

abbrev pub append_error : Errors → Error → Errors
append_error Errors.none e = more e Errors.none
append_error (more d es) e = more d (append_error es e)

-- after the loop of `Lookup`
pub exhausted : Errors → Error
exhausted Errors.none = not_found "no value found for binding after querying"
exhausted (more e es) = wrapped "no value found for binding after querying" (joined (more e es))

module _ {Raw : Type 0} (json : SourceJson Raw) where
  decode_source : ConfigEntry Raw → Result Source
  decode_source entry =
      if text_eq entry.source source_env
      then (do
        e ← wrap "unmarshalling env source" (json.env.unmarshal (some entry.raw_message))
        ok (env e))
      else if text_eq entry.source source_keyring
      then (do
        k ← wrap "unmarshalling keyring source" (json.keyring.unmarshal (some entry.raw_message))
        ok (keyring k))
      else if text_eq entry.source source_static
      then (do
        s ← wrap "unmarshalling static source" (json.static.unmarshal (some entry.raw_message))
        ok (static s))
      else if text_eq entry.source source_google
      then (do
        g ← wrap "unmarshalling google source" (json.google.unmarshal (some entry.raw_message))
        ok (google g))
      else err (failure "unknown source")

  unfoldable pub source_for : ConfigEntry Raw → Result Source
  unfolding decode_source
  source_for entry = do source ← decode_source entry; ok (canonicalize source)

  marshal_source : Source → Result Raw
  marshal_source (env e) = json.env.marshal e
  marshal_source (keyring k) = json.keyring.marshal k
  marshal_source (static s) = json.static.marshal s
  marshal_source (google g) = json.google.marshal g

  -- one round of `Default`
  default_entry : Source → Result (ConfigEntry Raw)
  unfolding marshal_source
  default_entry s = do
    let c = canonicalize s
    raw ← marshal_source c
    ok (record { source = source_name c; raw_message = raw })

  -- `Default`; an error stands for its panic
  unfoldable pub default_config : List Source → Result (Config Raw)
  unfolding default_entry
  default_config [] = ok []
  default_config (s ∷ ss) = do entry ← default_entry s; rest ← default_config ss; ok (entry ∷ rest)

  module _ (world : Secrets) where
    -- the loop of `Lookup`, with the errors so far
    unfoldable pub lookup_loop : Config Raw → Text → Errors → Result Text
    unfolding exhausted
    lookup_loop [] binding errs = err (exhausted errs)
    lookup_loop (entry ∷ rest) binding errs = elim (source_for entry) [
      | err e ↦ err (wrapped "looking up binding" e)
      | ok source ↦ elim (source_lookup world source binding) [
        | ok value ↦ ok value
        | err e ↦
            lookup_loop rest binding
              (if is_not_found_err e then errs else append_error errs (wrapped "source" e))
      ]
    ]

    unfoldable pub lookup : Config Raw → Text → Result Text
    lookup [] binding = err (failure "no sources configured to look up binding")
    lookup (entry ∷ rest) binding = lookup_loop (entry ∷ rest) binding Errors.none

    -- the parts that `fmt.Sprintf` fills in: `%q` of a text, and the line for a source that cannot
    -- be decoded
    module _ (quote : Text → Text) (google_instructions : Text)
        (failed_line : ℕ → Error → Text) where
      -- the loop of `SetupInstructions` from entry `i` on
      instruction_lines : ℕ → Config Raw → Text → List Text
      instruction_lines i [] binding = []
      instruction_lines i (entry ∷ rest) binding =
          let later = instruction_lines (i + 1) rest binding in
          elim (source_for entry) [
            | err e ↦ failed_line i e ∷ later
            | ok source ↦
                elim (source_instructions world quote google_instructions source binding) [
                  | none ↦ later
                  | some line ↦ line ∷ later
                ]
          ]

      unfoldable pub setup_instructions : Config Raw → Text → Text → Text
      unfolding instruction_lines
      setup_instructions config binding meaning =
          let named = quote binding ++ (lit " (" ++ (meaning ++ lit ")")) in
          elim (instruction_lines 0 config binding) [
            | [] ↦
                lit "No sources are available for setting up the secret with binding name "
                ++ (named
                    ++ lit
                        ". Refer to the documentation related to configuration files for more information.")
            | line ∷ lines ↦ join b'\n' (
                (lit "Instructions for setting up the secret with binding name "
                  ++ (named ++ lit ":"))
                ∷ line
                ∷ lines)
          ]
