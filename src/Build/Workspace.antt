-- ===== src/Build/Workspace.antt =====
-- The workspace of an integration test, of
-- bzl/private/integration_test_runner/integration_test_runner.go.
pub mod Copied
pub mod Patched
use credential_helper.Base.{
  String, Bool, true, false, Option, none, some, List, [], ◌∷◌, ◌++◌, if◌then◌else◌,
}
use credential_helper.Text.{Text, lit}
use credential_helper.Text.Affix.{cut_prefix}
use credential_helper.Text.Path.{join_path}
use credential_helper.Dict.{Dict, lookup, insert, removed}
use credential_helper.Errors.{Error, Result, ok, err, failure, restate, ◌>>>◌}

-- A file of the workspace, by its path as it is written: a folder behind a link is not followed.
pub data Node : Type 0 where
  folder : Node
  symlink file : Text → Node

-- What is found on a walk: an error, or a file, whose target or content may not be had.
pub data Found : Type 0 where
  broken : Error → Found
  found_folder found_special : Found
  found_symlink found_file : Result Text → Found

-- a file of a walk, with `filepath.Rel` of its path
pub record WalkItem : Type 0 where
  pub relative : Text
  pub found : Found

-- What the operating system refuses, besides a name that is taken, and what is behind a link.
pub record Disk : Type 0 where
  pub refuses : Text → Dict Node → Option Error
  -- an error of writing a content, with what it had written
  pub write_error : Text → Option (Error × Text)
  pub remove_fails : Bool
  pub read_link : Text → Result Text
  -- is a folder behind the link?
  pub links_folder : Text → Bool
  pub write_link : Text → Text → Result (Unit {0})

module _ (disk : Disk) where
  -- a call that makes a file where there must be none
  abbrev make : Text → Node → Dict Node → Result (Unit {0}) × Dict Node
  make path node tree = elim (disk.refuses path tree) [
    | some e ↦ (err e, tree)
    | none ↦ elim (lookup path tree) [
      | some there ↦ (err (failure "file exists"), tree)
      | none ↦ (ok tt, insert path node tree)
    ]
  ]

  -- `os.MkdirAll`
  abbrev make_folder : Text → Dict Node → Result (Unit {0}) × Dict Node
  make_folder path tree = elim (disk.refuses path tree) [
    | some e ↦ (err e, tree)
    | none ↦ elim (lookup path tree) [
      | some folder ↦ (ok tt, tree)
      | some (symlink target) ↦
          if disk.links_folder target
          then (ok tt, tree)
          else (err (failure "not a directory"), tree)
      | some (file content) ↦ (err (failure "not a directory"), tree)
      | none ↦ (ok tt, insert path folder tree)
    ]
  ]

  -- the end of the function that walks, for a regular file
  abbrev make_file : Text → Text → Dict Node → Result (Unit {0}) × Dict Node
  make_file path content tree = make path (file []) tree >>> λ made tree'.
      elim (disk.write_error content) [
        | some (e, written) ↦ (err e, insert path (file written) tree')
        | none ↦ (ok tt, insert path (file content) tree')
      ]

  -- the function that `copyFSWithSymlinks` gives to `filepath.Walk`
  unfoldable pub copy_item : Text → WalkItem → Dict Node → Result (Unit {0}) × Dict Node
  copy_item destination item tree =
      let path = join_path (destination ∷ item.relative ∷ []) in
      elim item.found [
        | broken e ↦ (err e, tree)
        | found_folder ↦ make_folder path tree
        | found_special ↦ (err (failure "CopyFS"), tree)
        | found_symlink (err e) ↦ (err e, tree)
        | found_symlink (ok target) ↦ make path (symlink target) tree
        | found_file (err e) ↦ (err e, tree)
        | found_file (ok content) ↦ make_file path content tree
      ]

  -- `copyFSWithSymlinks`: the first error ends the walk
  unfoldable pub copy_fs_with_symlinks :
      Text → List WalkItem → Dict Node → Result (Unit {0}) × Dict Node
  unfolding copy_item
  copy_fs_with_symlinks destination [] tree = (ok tt, tree)
  copy_fs_with_symlinks destination (item ∷ items) tree =
      copy_item destination item tree >>> λ copied tree'.
      copy_fs_with_symlinks destination items tree'

  -- `os.ReadFile`, `os.WriteFile`, `os.Remove`
  abbrev read_file : Text → Dict Node → Result Text
  read_file path tree = elim (lookup path tree) [
    | some (file content) ↦ ok content
    | some (symlink target) ↦ disk.read_link target
    | some folder ↦ err (failure "is a directory")
    | none ↦ err (failure "no such file or directory")
  ]

  abbrev write_file : Text → Text → Dict Node → Result (Unit {0}) × Dict Node
  write_file path content tree = elim (disk.refuses path tree) [
    | some e ↦ (err e, tree)
    | none ↦ elim (lookup path tree) [
      | some (symlink target) ↦ (disk.write_link target content, tree)
      | some folder ↦ (err (failure "is a directory"), tree)
      | _ ↦ elim (disk.write_error content) [
        | some (e, written) ↦ (err e, insert path (file written) tree)
        | none ↦ (ok tt, insert path (file content) tree)
      ]
    ]
  ]

  abbrev remove : Text → Dict Node → Dict Node
  remove path tree = if disk.remove_fails then tree else removed path tree

-- What is before the first place where the marker is, which is at `strings.Index`, and after it.
unfoldable pub cut : Text → Text → Option (Text × Text)
cut [] marker = elim (cut_prefix [] marker) [ none ↦ none | some after ↦ some ([], after) ]
cut (c ∷ s) marker =
    let rest = cut s marker in
    elim (cut_prefix (c ∷ s) marker) [
      | some after ↦ some ([], after)
      | none ↦ elim rest [ none ↦ none | some (before, after) ↦ some (c ∷ before, after) ]
    ]

abbrev pub start_marker : Text
start_marker = lit "# BEGIN BAZEL_DEP"

abbrev pub end_marker : Text
end_marker = lit "# END BAZEL_DEP"

-- the new content of MODULE.bazel
unfoldable pub patched_module : Text → Text → Result Text
patched_module module_data dep_data = elim (cut module_data start_marker) [
  | none ↦ err (failure "failed to find markers in module file")
  | some (before, _) ↦ elim (cut module_data end_marker) [
    | none ↦ err (failure "failed to find markers in module file")
    | some (_, after) ↦ ok (before ++ dep_data ++ after)
  ]
]

-- the content of .bazelrc.generated
abbrev pub bazelrc : Bool → Text → Text → Text
bazelrc windows local_bcr distdir =
    lit "common --registry="
    ++ (if windows then lit "file:///" else lit "file://")
    ++ local_bcr
    ++ lit " --registry=https://bcr.bazel.build/\ncommon --distdir="
    ++ distdir
    ++ lit "\n"

abbrev restated : String → Result (Unit {0}) × Dict Node → Result (Unit {0}) × Dict Node
restated what (result, tree) = (restate what result, tree)

-- `prepareWorkspace`, over the package `runfiles`, what is read of its files, and the walk
unfoldable pub prepare_workspace :
    (disk : Disk) (windows : Bool) (to_slash : Text → Text)
    (rlocation read_outside : Text → Result Text)
    → (workspace_dir : Text) (source : List WalkItem) → Dict Node
    → Result (Unit {0}) × Dict Node
unfolding copy_fs_with_symlinks patched_module
prepare_workspace disk windows to_slash rlocation read_outside workspace_dir source tree =
    let module_file = join_path (workspace_dir ∷ lit "MODULE.bazel" ∷ []) in
    (
      restate "failed to find local bcr" (rlocation (lit "_main/bzl/private/release/bcr.local")),
      tree,
    )
    >>> λ local_bcr t1.
        (
          restate "failed to find distdir"
              (rlocation (lit "_main/bzl/private/release/airgapped.distdir")),
          t1,
        )
        >>> λ distdir t2.
            (
              restate "failed to find bazel dep override" (
                  rlocation (
                    lit
                      "_main/bzl/private/release/bcr_local_module_tweag-credential-helper.bazel_dep")),
              t2,
            )
            >>> λ override t3.
                restated "failed to copy source dir"
                  (copy_fs_with_symlinks disk workspace_dir source t3)
                >>> λ copied t4.
                    (restate "failed to read module file" (read_file disk module_file t4), t4)
                    >>> λ module_data t5.
                        (restate "failed to read dep override file" (read_outside override), t5)
                        >>> λ dep_data t6.
                            (patched_module module_data dep_data, t6) >>> λ patched t7.
                            restated "failed to write patched module file"
                              (write_file disk module_file patched (remove disk module_file t7))
                            >>> λ written t8.
                                write_file disk
                                  (join_path (workspace_dir ∷ lit ".bazelrc.generated" ∷ []))
                                  (bazelrc windows (to_slash local_bcr) (to_slash distdir)) t8
