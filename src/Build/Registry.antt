-- ===== src/Build/Registry.antt =====
-- bzl/private/bcr/bcr.go, which puts modules into a local registry. What it tells on the standard
-- error is left out; an error ends the program with exit status 1, and a panic with 2.
pub mod Archive
pub mod Module
pub mod Versions
use credential_helper.Base.{Bool, Option, none, some, List, [], ◌∷◌, ◌++◌}
use credential_helper.Base.Int.{ℤ}
use credential_helper.Text.{Text, lit}
use credential_helper.Text.Order.{sort}
use credential_helper.Text.Path.{join_path}
use credential_helper.Dict.{Dict, lookup, insert}
use credential_helper.Errors.{Result, ok, err, failure, ◌>>=◌, ◌>>>◌}
use credential_helper.Build.Files.{Files, Calls, read_file, write_file, mkdir, mkdir_all}

-- `registry`
pub record Registry : Type 0 where
  pub mirrors : List Text
  pub module_base_path : Text

-- `maintainer`
pub record Maintainer : Type 0 where
  pub name : Text
  pub email : Text
  pub github : Text
  pub do_not_notify : Option Bool

-- `metadataInfo`
pub record MetadataInfo : Type 0 where
  pub homepage : Text
  pub maintainers : List Maintainer
  pub repository : List Text
  pub versions : List Text
  pub yanked_versions : Dict Text
  pub deprecated : Text

-- `moduleVersionSource`
pub record ModuleVersionSource : Type 0 where
  pub kind : Text
  pub url : Text
  pub path : Text
  pub integrity : Text
  pub strip_prefix : Text
  pub overlay : Dict Text
  pub patches : Dict Text
  pub patch_strip : ℤ
  pub archive_type : Text

-- `addLocalModuleVersionReq`
pub record AddLocalModuleVersionReq : Type 0 where
  pub module_name : Text
  pub version : Text
  pub source_path : Text
  pub override_source_basename : Text
  pub metadata_template_path : Text
  pub source : ModuleVersionSource

-- The package `encoding/json`. Of an encoder, what is in its buffer afterwards.
pub record RegistryJson : Type 0 where
  pub decode_request : Text → Result AddLocalModuleVersionReq
  pub decode_metadata : Text → Result MetadataInfo
  pub marshal_source : ModuleVersionSource → Result Text
  pub encode_registry : Registry → Text
  pub encode_metadata : MetadataInfo → Text

abbrev pub sources_base_path : Text
sources_base_path = lit "contents"

module _ (calls : Calls) (json : RegistryJson) where
  -- `Set`, the value of a flag `-add-local-module`
  unfoldable pub set :
      Text → Files → List AddLocalModuleVersionReq → Result (List AddLocalModuleVersionReq)
  set value files requests = do
    content ← read_file calls value files
    request ← json.decode_request content
    ok (requests ++ (request ∷ []))

  -- the metadata of the module so far, or its template
  unfoldable pub module_metadata :
      AddLocalModuleVersionReq → Dict MetadataInfo → Files → Result MetadataInfo
  module_metadata request modules files = elim (lookup request.module_name modules) [
    | some metadata ↦ ok metadata
    | none ↦ read_file calls request.metadata_template_path files >>= json.decode_metadata
  ]

  -- the end of the first loop of `main`
  unfoldable pub add_version :
      AddLocalModuleVersionReq → Dict MetadataInfo → MetadataInfo → Dict MetadataInfo
  add_version request modules metadata =
      insert request.module_name
        (record metadata { versions = sort (metadata.versions ++ (request.version ∷ [])) }) modules

  module _
      (create_module_version : AddLocalModuleVersionReq → Files → Result (Unit {0}) × Files) where
    -- the first loop of `main`
    unfoldable pub add_modules :
        List AddLocalModuleVersionReq
        → Dict MetadataInfo
        → Files
        → Result (Dict MetadataInfo) × Files
    unfolding module_metadata add_version
    add_modules [] modules files = (ok modules, files)
    add_modules (request ∷ requests) modules files =
        create_module_version request files >>> λ created files'.
        (module_metadata request modules files', files') >>> λ metadata files''.
        add_modules requests (add_version request modules metadata) files''

  -- the second loop, over the map in some order
  unfoldable pub write_metadata : Text → Dict MetadataInfo → Files → Result (Unit {0}) × Files
  write_metadata destination [] files = (ok tt, files)
  write_metadata destination ((name, metadata) ∷ modules) files =
      write_file calls (join_path (destination ∷ lit "modules" ∷ name ∷ lit "metadata.json" ∷ []))
        (json.encode_metadata metadata) files
      >>> λ written files'. write_metadata destination modules files'

  -- what is made before the modules, with errors that are only told
  abbrev pub prepare : Text → Files → Files
  prepare destination files =
      let made = (mkdir_all calls destination files).1 in
      let made' = (mkdir calls (join_path (destination ∷ sources_base_path ∷ [])) made).1 in
      (write_file calls (join_path (destination ∷ lit "bazel_registry.json" ∷ []))
        (json.encode_registry (record { mirrors = []; module_base_path = sources_base_path }))
        made').1
