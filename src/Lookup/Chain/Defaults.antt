-- ===== src/Lookup/Chain/Defaults.antt =====
-- A chain built by `Default` decodes to the sources that it was built from, made canonical.
use credential_helper.Base.{◌≡◌, refl, false, List, [], ◌∷◌, arith, map}
use credential_helper.Text.{lit, text_eq, text_eq_refl}
use credential_helper.Errors.{Result, ok, ◌>>=◌}
use credential_helper.Api.{IsLossless}
use credential_helper.Lookup.Source.{
  Source, env, keyring, static, google, canonicalize, source_env, source_keyring, source_static,
  source_google, source_name, or_default,
}
use credential_helper.Lookup.Chain.{
  SourceJson, ConfigEntry, Config, source_for, decode_source, marshal_source, default_entry,
  default_config,
}

pub record IsLosslessSources {Raw : Type 0} (json : SourceJson Raw) : Type 0 where
  pub env : IsLossless json.env
  pub keyring : IsLossless json.keyring
  pub static : IsLossless json.static
  pub google : IsLossless json.google

names_differ :
    (text_eq source_keyring source_env ≡ false)
    × (text_eq source_static source_env ≡ false)
    × (text_eq source_static source_keyring ≡ false)
    × (text_eq source_google source_env ≡ false)
    × (text_eq source_google source_keyring ≡ false)
    × (text_eq source_google source_static ≡ false)
unfolding text_eq lit
names_differ = (refl, refl, refl, refl, refl, refl)

canonicalize_idem : (s : Source) → canonicalize (canonicalize s) ≡ canonicalize s
unfolding canonicalize lit
canonicalize_idem (env e) = ground arith
canonicalize_idem (keyring e) = ground arith
canonicalize_idem (static e) = ground arith
canonicalize_idem (google e) = ground arith

-- The sources that the entries of a configuration decode to.
abbrev pub decoded : {Raw : Type 0} → SourceJson Raw → Config Raw → Result (List Source)
decoded json [] = ok []
decoded json (entry ∷ rest) = do s ← source_for json entry; ss ← decoded json rest; ok (s ∷ ss)

module _ {Raw : Type 0} (json : SourceJson Raw) (lossless : IsLosslessSources json) where
  -- A canonical source is read back from what is written for it.
  abbrev Restored : Source → Type 0
  Restored c =
      (raw : Raw) × (marshal_source json c ≡ ok raw)
      × (decode_source json (record { source = source_name c; raw_message = raw }) ≡ ok c)

  canonicalize-Restored : (s : Source) → Restored (canonicalize s)
  unfolding canonicalize marshal_source decode_source
  canonicalize-Restored (env e) =
      let c = record e { source = source_env; binding = or_default e.binding } in
      let (raw, written, read) = lossless.env c in
      (raw, written, ground (arith, read, text_eq_refl source_env))
  canonicalize-Restored (keyring e) =
      let c = record e { source = source_keyring; binding = or_default e.binding } in
      let (raw, written, read) = lossless.keyring c in
      (raw, written, ground (arith, read, text_eq_refl source_keyring, names_differ))
  canonicalize-Restored (static e) =
      let c = record e { source = source_static; binding = or_default e.binding } in
      let (raw, written, read) = lossless.static c in
      (raw, written, ground (arith, read, text_eq_refl source_static, names_differ))
  canonicalize-Restored (google e) =
      let c = record e { source = source_google; binding = or_default e.binding } in
      let (raw, written, read) = lossless.google c in
      (raw, written, ground (arith, read, text_eq_refl source_google, names_differ))

  -- `Default` does not panic, and its entries decode to the canonical form of the given sources,
  -- whatever their `Source` fields said, if the JSON codec of the sources loses nothing.
  pub decoded-default_config :
      (ss : List Source)
      → (config : Config Raw) × (default_config json ss ≡ ok config)
        × (decoded json config ≡ ok (map canonicalize ss))
  unfolding default_config default_entry source_for
  decoded-default_config [] = ([], refl, refl)
  decoded-default_config (s ∷ ss) =
      let (raw, written, read) = canonicalize-Restored s in
      let (config, made, back) = decoded-default_config ss in
      let entry : ConfigEntry Raw = record {
        source = source_name (canonicalize s);
        raw_message = raw;
      } in
      (entry ∷ config, ground arith, ground (arith, canonicalize_idem s))
