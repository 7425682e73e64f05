-- ===== src/Build/Registry/Archive/Found.antt =====
-- Which entry of an archive is taken for the module file.
use credential_helper.Base.{
  ◌≡◌, ◌≢◌, ◌↔◌, Option, none, some, List, [], ◌∷◌, arith, inl, inr, Bool-cases, Option-cases,
}
use credential_helper.Text.{Text, text_eq, text_eq_iff}
use credential_helper.Errors.{Error, ok, Result-cases}
use credential_helper.Build.Files.{Files, Calls}
use credential_helper.Build.Registry.Archive.{
  TarEntry, Tar, Formats, find_file, module_file_path, open_archive, extract_module_file,
}

-- The first entry with the name has that content, and it can be read.
pub data FirstNamed (path content : Text) : List TarEntry → Type 0 where
  here :
      {e : TarEntry} {es : List TarEntry}
      → e.name ≡ path
      → e.content_error ≡ none
      → e.content ≡ content
      → FirstNamed path content (e ∷ es)
  later :
      {e : TarEntry} {es : List TarEntry}
      → e.name ≢ path
      → FirstNamed path content es
      → FirstNamed path content (e ∷ es)

find_file_found :
    (path content : Text) (es : List TarEntry) (ends : Option Error)
    → content ≢ []
    → find_file path es ends ≡ ok content
    → FirstNamed path content es
unfolding find_file
find_file_found path content [] none some_content h = absurd (ground arith)
find_file_found path content [] (some e) some_content h = absurd (ground arith)
find_file_found path content (e ∷ es) ends some_content h =
    elim (Bool-cases (text_eq e.name path)) [
      | inl same ↦ elim (Option-cases e.content_error) [
        | inl reads ↦ here ((text_eq_iff e.name path).0 same) reads (ground (arith, same, reads))
        | inr (x, fails) ↦ absurd (ground (arith, same, fails))
      ]
      | inr differs ↦
          later (ground (arith, differs, text_eq_iff e.name path))
            (find_file_found path content es ends some_content (ground (arith, differs)))
    ]

FirstNamed-find_file :
    (path content : Text) (es : List TarEntry) (ends : Option Error)
    → FirstNamed path content es
    → find_file path es ends ≡ ok content
unfolding find_file
FirstNamed-find_file path content [] ends first = elim first [ ]
FirstNamed-find_file path content (e ∷ es) ends (here same reads is) =
    ground (arith, text_eq_iff e.name path)
FirstNamed-find_file path content (e ∷ es) ends (later differs first) =
    ground (arith, text_eq_iff e.name path, FirstNamed-find_file path content es ends first)

module _ (calls : Calls) (formats : Formats) (archive strip_prefix : Text) (files : Files) where
  -- The module file that is extracted from an archive that can be opened is, exactly, a content
  -- that is not empty, of the first entry with the name MODULE.bazel below the stripped prefix;
  -- what comes after that entry does not matter, nor an error there.
  pub extract_module_file-FirstNamed_iff :
      (tar : Tar) (content : Text)
      → open_archive calls formats archive files ≡ ok tar
      → (extract_module_file calls formats archive strip_prefix files ≡ ok content)
        ↔ ((content ≢ []) × FirstNamed (module_file_path strip_prefix) content tar.entries)
  unfolding extract_module_file
  extract_module_file-FirstNamed_iff tar content opens = (
    λ h. elim (Result-cases (find_file path tar.entries tar.ends)) [
      | inr (e, fails) ↦ absurd (ground (arith, opens, fails))
      | inl (found, finds) ↦
          let same : found ≡ content = ground (arith, opens, finds) in
          let filled : content ≢ [] = ground (arith, opens, finds, h) in
          (
            filled,
            find_file_found path content tar.entries tar.ends filled (ground (arith, finds, same)),
          )
    ],
    λ (filled, first).
        ground (arith, opens, FirstNamed-find_file path content tar.entries tar.ends first, filled),
  )
    where
      path : Text
      path = module_file_path strip_prefix
