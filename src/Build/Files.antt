-- ===== src/Build/Files.antt =====
-- Files under several names, as hard links make them, and how the programs of bzl/private put one
-- in place: bzl/private/distdir/distdir.go and bzl/private/bcr/bcr.go have the same code for that.
pub mod Placed
use credential_helper.Base.{
  ℕ, ◌+◌, ◌≡◌, ◌<◌, Bool, Option, none, some, is_some, List, [], ◌∷◌, ◌==◌, ◌||◌, if◌then◌else◌,
  map,
}
use credential_helper.Text.{Text}
use credential_helper.Dict.{Dict, lookup, insert}
use credential_helper.Errors.{Error, Result, ok, err, failure, ◌>>=◌}

-- Names stand for files by number; `next` is a number that no file has.
pub record Files : Type 0 where
  pub names : Dict ℕ
  pub contents : ℕ → Text
  pub next : ℕ
  pub dirs : List Text

-- What the operating system refuses, besides a source that is missing and a new name that is taken.
pub record Calls : Type 0 where
  pub link_refused : Text → Text → Files → Bool
  pub open_error : Text → Option Error
  pub create_error : Text → Files → Option Error
  -- an error of writing a content, with what it had written
  pub write_error : Text → Option (Error × Text)
  pub mkdir_error : Text → Files → Option Error
  pub mkdir_all_error : Text → Files → Option Error

-- what is read of a path
abbrev pub read : Text → Files → Option Text
read path files = elim (lookup path files.names) [ none ↦ none | some i ↦ some (files.contents i) ]

-- the contents after a write to a file
abbrev pub update : ℕ → Text → (ℕ → Text) → ℕ → Text
update i content contents j = if j == i then content else contents j

abbrev pub set_contents : ℕ → Text → Files → Files
set_contents i content files = record files { contents = update i content files.contents }

-- every name stands for a file that there is
abbrev pub IsSound : Files → Type 0
IsSound files = (path : Text) (i : ℕ) → lookup path files.names ≡ some i → i < files.next

module _ (calls : Calls) where
  -- `os.Link`; `none` is an error
  unfoldable pub link : Text → Text → Files → Option Files
  link src dst files = elim (lookup src files.names) [
    | none ↦ none
    | some i ↦
        if calls.link_refused src dst files || is_some (lookup dst files.names)
        then none
        else some (record files { names = insert dst i files.names })
  ]

  -- `os.Open`
  unfoldable pub open_file : Text → Files → Result ℕ
  open_file path files = elim (lookup path files.names) [
    | none ↦ err (failure "no such file or directory")
    | some i ↦ elim (calls.open_error path) [ some e ↦ err e | none ↦ ok i ]
  ]

  -- `os.ReadFile`
  abbrev pub read_file : Text → Files → Result Text
  read_file path files = open_file path files >>= λ i. ok (files.contents i)

  -- `os.Create`: a file that is there is emptied, under all its names
  unfoldable pub create : Text → Files → Result ℕ × Files
  create path files = elim (calls.create_error path files) [
    | some e ↦ (err e, files)
    | none ↦ elim (lookup path files.names) [
      | some i ↦ (ok i, set_contents i [] files)
      | none ↦ (
        ok files.next,
        record files {
          names = insert path files.next files.names;
          contents = update files.next [] files.contents;
          next = files.next + 1;
        },
      )
    ]
  ]

  -- the bytes that go to a file that was just created
  unfoldable pub write : ℕ → Text → Files → Result (Unit {0}) × Files
  write i content files = elim (calls.write_error content) [
    | some (e, written) ↦ (err e, set_contents i written files)
    | none ↦ (ok tt, set_contents i content files)
  ]

  -- `os.Create` and what is written then, which is read after the file is emptied
  unfoldable pub create_from : Text → (Files → Text) → Files → Result (Unit {0}) × Files
  unfolding create write
  create_from path content files =
      let (created, files') = create path files in
      elim created [ err e ↦ (err e, files') | ok i ↦ write i (content files') files' ]

  -- `os.WriteFile`
  abbrev pub write_file : Text → Text → Files → Result (Unit {0}) × Files
  write_file path content files = create_from path (λ _. content) files

  -- `os.Link`, or else a copy
  unfoldable pub link_or_copy : Text → Text → Files → Result (Unit {0}) × Files
  unfolding link open_file create_from
  link_or_copy src dst files = elim (link src dst files) [
    | some files' ↦ (ok tt, files')
    | none ↦ elim (open_file src files) [
      | err e ↦ (err e, files)
      | ok i ↦ create_from dst (λ now. now.contents i) files
    ]
  ]

  -- `os.Mkdir`, `os.MkdirAll`
  abbrev pub mkdir : Text → Files → Result (Unit {0}) × Files
  mkdir path files = elim (calls.mkdir_error path files) [
    | some e ↦ (err e, files)
    | none ↦ (ok tt, record files { dirs = path ∷ files.dirs })
  ]

  abbrev pub mkdir_all : Text → Files → Result (Unit {0}) × Files
  mkdir_all path files = elim (calls.mkdir_all_error path files) [
    | some e ↦ (err e, files)
    | none ↦ (ok tt, record files { dirs = path ∷ files.dirs })
  ]
