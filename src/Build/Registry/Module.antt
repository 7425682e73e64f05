-- ===== src/Build/Registry/Module.antt =====
-- `createModuleVersion` and `main` of bzl/private/bcr/bcr.go.
use credential_helper.Base.{List, [], ◌∷◌, ◌++◌, if◌then◌else◌}
use credential_helper.Text.{Text, lit, is_empty}
use credential_helper.Text.Path.{join_path}
use credential_helper.Text.Path.Names.{base, dir}
use credential_helper.Dict.{Dict}
use credential_helper.Errors.{Result, ok, err, failure, ◌>>=◌, ◌>>>◌}
use credential_helper.Build.Files.{Files, Calls, open_file, write_file, link_or_copy, mkdir_all}
use credential_helper.Build.Registry.Archive.{Formats, extract_module_file, extract_source_archive}
use credential_helper.Build.Registry.{
  ModuleVersionSource, AddLocalModuleVersionReq, MetadataInfo, RegistryJson, sources_base_path,
  prepare, add_modules, write_metadata,
}

-- The paths of a module's version; the last element of the archive's can be overridden.
abbrev pub archive_basename : AddLocalModuleVersionReq → Text
archive_basename request =
    if is_empty request.override_source_basename
    then base (if is_empty request.source.path then request.source_path else request.source.path)
    else request.override_source_basename

abbrev pub version_dir : Text → AddLocalModuleVersionReq → Text
version_dir destination request =
    join_path
      (join_path (destination ∷ lit "modules" ∷ request.module_name ∷ []) ∷ request.version ∷ [])

abbrev pub source_archive_dir : AddLocalModuleVersionReq → Text
source_archive_dir request = join_path (request.module_name ∷ request.version ∷ [])

abbrev pub extracted_path : AddLocalModuleVersionReq → Text
extracted_path request = join_path (source_archive_dir request ∷ lit "src" ∷ [])

abbrev pub archive_filepath : Text → AddLocalModuleVersionReq → Text
archive_filepath destination request = join_path (
    destination
    ∷ sources_base_path
    ∷ join_path (source_archive_dir request ∷ archive_basename request ∷ [])
    ∷ [])

abbrev pub extracted_filepath : Text → AddLocalModuleVersionReq → Text
extracted_filepath destination request =
    join_path (destination ∷ sources_base_path ∷ extracted_path request ∷ [])

-- over `sha256`, with the error of reading a file, and the encoding of the standard base64
module _ (calls : Calls) (sha256 : Text → Result Text) (base64 : Text → Text) where
  -- `sourceArchiveIntegrity`
  unfoldable pub source_archive_integrity : Text → Files → Result Text
  source_archive_integrity archive files = do
    i ← open_file calls archive files
    sum ← sha256 (files.contents i)
    ok (lit "sha256-" ++ base64 sum)

  -- `copySourceArchive`
  abbrev pub copy_source_archive : Text → Text → Files → Result (Unit {0}) × Files
  copy_source_archive archive destination files = link_or_copy calls archive destination files

  module _ (formats : Formats) (json : RegistryJson) (destination : Text) where
    -- what is written to source.json
    abbrev pub version_source : Text → AddLocalModuleVersionReq → ModuleVersionSource
    version_source integrity request = record request.source {
      kind = lit "local_path";
      path = extracted_path request;
      integrity = integrity;
    }

    -- `createModuleVersion`
    unfoldable pub create_module_version :
        AddLocalModuleVersionReq → Files → Result (Unit {0}) × Files
    unfolding source_archive_integrity
    create_module_version request files =
        let archive = request.source_path in
        let strip_prefix = request.source.strip_prefix in
        (source_archive_integrity archive files, files) >>> λ integrity files1.
        mkdir_all calls (version_dir destination request) files1 >>> λ made files2.
        mkdir_all calls (dir (extracted_filepath destination request)) files2 >>> λ made' files3.
        (extract_module_file calls formats archive strip_prefix files3, files3) >>> λ found files4.
        write_file calls (join_path (version_dir destination request ∷ lit "MODULE.bazel" ∷ []))
          found files4
        >>> λ written files5.
            (json.marshal_source (version_source integrity request), files5) >>> λ source files6.
            write_file calls (join_path (version_dir destination request ∷ lit "source.json" ∷ []))
              source files6
            >>> λ written' files7.
                copy_source_archive archive (archive_filepath destination request) files7
                >>> λ copied files8.
                    extract_source_archive calls formats archive
                      (extracted_filepath destination request) strip_prefix files8

  -- `main`, with the order in which the last loop takes the map
  unfoldable pub main :
      Formats
      → RegistryJson
      → (Dict MetadataInfo → Dict MetadataInfo)
      → List AddLocalModuleVersionReq
      → List Text
      → Files
      → Result (Unit {0}) × Files
  unfolding create_module_version add_modules write_metadata
  main formats json order [] (destination ∷ []) files =
      (err (failure "Empty list of modules to add."), files)
  main formats json order (request ∷ requests) (destination ∷ []) files =
      add_modules calls json (create_module_version formats json destination) (request ∷ requests)
        [] (prepare calls json destination files)
      >>> λ modules files'. write_metadata calls json destination (order modules) files'
  main formats json order requests args files = (err (failure "expected destination dir"), files)
