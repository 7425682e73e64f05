-- ===== src/Build/Registry/Archive.antt =====
-- What bzl/private/bcr/bcr.go reads of a source archive, and how it extracts one.
pub mod Confined
pub mod Found
pub mod Apart
pub mod Kept
pub mod Written
pub mod Extracted
use credential_helper.Base.{
  Bool, true, false, ◌||◌, Option, none, some, List, [], ◌∷◌, ◌==◌, if◌then◌else◌,
}
use credential_helper.Text.{Text, lit, text_eq, is_empty}
use credential_helper.Text.Affix.{has_prefix, cut_prefix}
use credential_helper.Text.Path.{join_path}
use credential_helper.Text.Path.Names.{ext}
use credential_helper.Errors.{Error, Result, ok, err, failure, wrap, ◌>>=◌}
use credential_helper.Build.Files.{Files, Calls, open_file, create, write, mkdir, set_contents}

pub data EntryKind : Type 0 where
  directory regular special : EntryKind

-- What the package `archive/tar` gives of an entry. Its content may break off with an error.
pub record TarEntry : Type 0 where
  pub name : Text
  pub kind : EntryKind
  pub content : Text
  pub content_error : Option Error

-- the entries, and the error that comes after them, if it is not `io.EOF`
pub record Tar : Type 0 where
  pub entries : List TarEntry
  pub ends : Option Error

-- the packages `archive/tar` and `compress/gzip`, which reads the first bytes at once
pub record Formats : Type 0 where
  pub tar : Text → Tar
  pub gzip : Text → Result Tar

-- the reader for the archive of that name
unfoldable pub open_tar : Formats → Text → Text → Result Tar
open_tar formats archive content =
    if text_eq (ext archive) (lit ".tar")
    then ok (formats.tar content)
    else if text_eq (ext archive) (lit ".gz")
    then formats.gzip content
    else err (failure "unsupported archive type")

-- the loop of `extractModuleFile`: what is in the buffer after it
unfoldable pub find_file : Text → List TarEntry → Option Error → Result Text
find_file path [] (some e) = err e
find_file path [] none = ok []
find_file path (entry ∷ entries) ends =
    let rest = find_file path entries ends in
    if text_eq entry.name path
    then elim entry.content_error [ some e ↦ err e | none ↦ ok entry.content ]
    else rest

abbrev pub module_file_path : Text → Text
module_file_path strip_prefix =
    if is_empty strip_prefix
    then lit "MODULE.bazel"
    else join_path (strip_prefix ∷ lit "MODULE.bazel" ∷ [])

-- What becomes of an entry by its name. Slicing behind the end of the name panics.
pub data Stripped : Type 0 where
  invalid passed_over out_of_range : Stripped
  renamed : Text → Stripped

unfoldable pub stripped : Text → Text → Stripped
stripped strip_prefix [] = invalid
stripped strip_prefix (c ∷ s) =
    if c == b'.' || c == b'/'
    then invalid
    else if is_empty strip_prefix
    then renamed (c ∷ s)
    else elim (cut_prefix (c ∷ s) strip_prefix) [
      | none ↦ passed_over
      | some [] ↦ out_of_range
      | some (_ ∷ rest) ↦ renamed rest
    ]

module _ (calls : Calls) where
  -- the end of the loop's body, for a regular file: the error that ends the loop
  unfoldable pub extract_file : Text → TarEntry → Files → Option Error × Files
  extract_file path entry files =
      let (created, files') = create calls path files in
      elim created [
        | err e ↦ (some (failure "failed to create file"), files')
        | ok i ↦ elim entry.content_error [
          | some e ↦ (some (failure "failed to extract file"), set_contents i entry.content files')
          | none ↦
              let (written, files'') = write calls i entry.content files' in
              elim written [
                | err e ↦ (some (failure "failed to extract file"), files'')
                | ok _ ↦ (none, files'')
              ]
        ]
      ]

  module _ (destination strip_prefix : Text) where
    -- the body of the loop of `extractSourceArchive`; an error of `os.Mkdir` is ignored
    unfoldable pub extract_entry : TarEntry → Files → Option Error × Files
    extract_entry entry files = elim (stripped strip_prefix entry.name) [
      | invalid ↦ (some (failure "invalid file path in archive"), files)
      | passed_over ↦ (none, files)
      | out_of_range ↦ (some (failure "slice bounds out of range"), files)
      | renamed name ↦ elim entry.kind [
        | directory ↦ (none, (mkdir calls (join_path (destination ∷ name ∷ [])) files).1)
        | special ↦ (some (failure "unsupported file type"), files)
        | regular ↦ extract_file (join_path (destination ∷ name ∷ [])) entry files
      ]
    ]

    unfoldable pub extract_entries :
        List TarEntry → Option Error → Files → Result (Unit {0}) × Files
    extract_entries [] (some e) files = (err (failure "failed to read tarball"), files)
    extract_entries [] none files = (ok tt, files)
    extract_entries (entry ∷ entries) ends files =
        let (stopped, files') = extract_entry entry files in
        let rest = extract_entries entries ends files' in
        elim stopped [ some e ↦ (err e, files') | none ↦ rest ]

module _ (calls : Calls) (formats : Formats) where
  -- the archive as both functions open it
  unfoldable pub open_archive : Text → Files → Result Tar
  open_archive archive files =
      open_file calls archive files >>= λ i. open_tar formats archive (files.contents i)

  -- `extractModuleFile`
  unfoldable pub extract_module_file : Text → Text → Files → Result Text
  extract_module_file archive strip_prefix files = do
    tar ← open_archive archive files
    found ← find_file (module_file_path strip_prefix) tar.entries tar.ends
    if is_empty found then err (failure "module file not found in archive") else ok found

  -- `extractSourceArchive`, whose archive is read before anything is extracted
  unfoldable pub extract_source_archive : Text → Text → Text → Files → Result (Unit {0}) × Files
  extract_source_archive archive destination strip_prefix files =
      elim (open_archive archive files) [
        | err e ↦ (err e, files)
        | ok tar ↦
            let (made, files') = mkdir calls destination files in
            elim made [
              | err e ↦ (err e, files')
              | ok _ ↦ extract_entries calls destination strip_prefix tar.entries tar.ends files'
            ]
      ]
