-- ===== src/Build/Distdir.antt =====
-- bzl/private/distdir/distdir.go. What it tells on the standard error is left out; an error ends
-- the program with exit status 1.
pub mod Filled
use credential_helper.Base.{none, some, List, [], ◌∷◌, ◌++◌}
use credential_helper.Text.{Text}
use credential_helper.Text.Parts.{split_first}
use credential_helper.Text.Path.{join_path}
use credential_helper.Errors.{Result, ok, err, failure, wrapped}
use credential_helper.Build.Files.{Files, Calls, mkdir_all, link_or_copy}

pub record DistdirEntry : Type 0 where
  pub basename : Text
  pub source_path : Text

-- `Set`, the value of a flag `-file`
unfoldable pub set : Text → List DistdirEntry → Result (List DistdirEntry)
set value contents = elim (split_first b'=' value) [
  | none ↦ err (failure "invalid value: expected key value pair separated by =")
  | some (basename, path) ↦
      ok (contents ++ (record { basename = basename; source_path = path } ∷ []))
]

abbrev pub entry_path : Text → DistdirEntry → Text
entry_path distdir entry = join_path (distdir ∷ entry.basename ∷ [])

module _ (calls : Calls) (distdir : Text) where
  abbrev pub copy_entry : DistdirEntry → Files → Result (Unit {0}) × Files
  copy_entry entry files = link_or_copy calls entry.source_path (entry_path distdir entry) files

  -- the loop of `main`, which the first error ends
  unfoldable pub copy_entries : List DistdirEntry → Files → Result (Unit {0}) × Files
  copy_entries [] files = (ok tt, files)
  copy_entries (entry ∷ entries) files =
      let (copied, files') = copy_entry entry files in
      let rest = copy_entries entries files' in
      elim copied [ err e ↦ (err (wrapped "Copying" e), files') | ok _ ↦ rest ]

-- `main`; an error of `os.MkdirAll` is told and otherwise ignored
unfoldable pub main : Calls → List DistdirEntry → List Text → Files → Result (Unit {0}) × Files
unfolding copy_entries
main calls contents (distdir ∷ []) files = elim contents [
  | [] ↦ (err (failure "Empty list of contents"), files)
  | entry ∷ entries ↦ copy_entries calls distdir (entry ∷ entries) (mkdir_all calls distdir files).1
]
main calls contents args files = (err (failure "expected destination dir"), files)
