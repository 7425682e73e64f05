-- ===== src/Tests/Registries.antt =====
-- The registry tool.
use mathlib.Core.List.{Perm}
use credential_helper.Base.{◌≡◌, ◌≢◌, refl, List, [], ◌∷◌, ◌++◌, arith, some}
use credential_helper.Base.Int.{ℤ}
use credential_helper.Text.{Text, lit, text_eq}
use credential_helper.Text.Order.{IsSorted, sort, text_leb}
use credential_helper.Dict.{Dict, lookup, insert}
use credential_helper.Errors.{Result, ok}
use credential_helper.Build.Files.{Files, open_file}
use credential_helper.Build.Registry.{
  ModuleVersionSource, AddLocalModuleVersionReq, MetadataInfo, RegistryJson, add_modules,
  module_metadata, add_version,
}
use credential_helper.Build.Registry.Versions.{requested, IsTemplate, add_modules-IsSorted}
use credential_helper.Tests.Builds.{nothing_fails, one_file}

abbrev source : ModuleVersionSource
source = record {
  kind = [];
  url = [];
  path = [];
  integrity = [];
  strip_prefix = [];
  overlay = [];
  patches = [];
  patch_strip = ℤ.pos 0;
  archive_type = [];
}

abbrev asked : Text → AddLocalModuleVersionReq
asked version = record {
  module_name = lit "m";
  version = version;
  source_path = lit "s";
  override_source_basename = [];
  metadata_template_path = lit "t";
  source = source;
}

abbrev released : MetadataInfo
released = record {
  homepage = [];
  maintainers = [];
  repository = [];
  versions = lit "2" ∷ [];
  yanked_versions = [];
  deprecated = [];
}

abbrev registry_json : RegistryJson
registry_json = record {
  decode_request = λ t. ok (asked t);
  decode_metadata = λ t. ok released;
  marshal_source = λ s. ok [];
  encode_registry = λ r. [];
  encode_metadata = λ m. [];
}

abbrev placed : AddLocalModuleVersionReq → Files → Result (Unit {0}) × Files
placed request files = (ok tt, files)

abbrev both : List AddLocalModuleVersionReq
both = asked (lit "3") ∷ asked (lit "1") ∷ []

abbrev listed : Dict MetadataInfo
listed = (lit "m", record released { versions = lit "1" ∷ lit "2" ∷ lit "3" ∷ [] }) ∷ []

lists_both :
    (add_modules nothing_fails registry_json placed both [] (one_file (lit "t") (lit "x"))).0
    ≡ ok listed
unfolding add_modules module_metadata add_version open_file lookup insert sort text_leb text_eq lit
lists_both = refl

asks : requested (lit "m") both ≢ []
unfolding requested text_eq lit
asks = ground arith

add_modules-IsSorted_example :
    (origin : MetadataInfo) × IsTemplate nothing_fails registry_json placed
      (lit "m")
      both
      (one_file (lit "t") (lit "x"))
      origin
    × (metadata : MetadataInfo) × (lookup (lit "m") listed ≡ some metadata)
    × Perm metadata.versions (origin.versions ++ requested (lit "m") both)
    × IsSorted metadata.versions
add_modules-IsSorted_example =
    add_modules-IsSorted nothing_fails registry_json placed both (one_file (lit "t") (lit "x"))
      listed (lit "m") lists_both asks
