-- ===== src/Build/Platforms.antt =====
-- bzl/private/lockfile/lockfile.go, which lists the prebuilt binaries of a release. What it tells
-- on the standard error is left out; an error ends the program with exit status 1.
pub mod Flags
use credential_helper.Base.{none, some, List, [], ◌∷◌, ◌++◌}
use credential_helper.Text.{Text, lit}
use credential_helper.Text.Parts.{split_first}
use credential_helper.Errors.{Result, ok, err, failure, wrapped, wrap, ◌>>=◌}
use credential_helper.Build.Files.{Files, Calls, open_file, write_file}

pub record PlatformBinary : Type 0 where
  pub os : Text
  pub cpu : Text
  pub path : Text

pub record LockfileItem : Type 0 where
  pub version : Text
  pub integrity : Text
  pub os : Text
  pub cpu : Text

-- `Set`, the value of a flag `-helper`
unfoldable pub set : Text → List PlatformBinary → Result (List PlatformBinary)
set value binaries = elim (split_first b'=' value) [
  | none ↦ err (failure "invalid value: expected key value pair separated by =")
  | some (os_cpu, path) ↦ elim (split_first b'_' os_cpu) [
    | none ↦ err (failure "invalid value: expected os and cpu separated by _")
    | some (os, cpu) ↦ ok (binaries ++ (record { os = os; cpu = cpu; path = path } ∷ []))
  ]
]

-- over `sha256`, with the error of reading a file, and the encoding of the standard base64
module _ (calls : Calls) (sha256 : Text → Result Text) (base64 : Text → Text) where
  -- `fileSRI`
  unfoldable pub file_sri : Text → Files → Result Text
  file_sri source files = do
    i ← open_file calls source files
    sum ← sha256 (files.contents i)
    ok (lit "sha256-" ++ base64 sum)

  -- the loop of `main`
  unfoldable pub lockfile_items : Text → List PlatformBinary → Files → Result (List LockfileItem)
  unfolding file_sri
  lockfile_items version [] files = ok []
  lockfile_items version (bin ∷ binaries) files =
      let rest = lockfile_items version binaries files in
      wrap "calculating sri" (file_sri bin.path files) >>= λ sri. rest >>= λ items.
      ok (
        record { version = lit "v" ++ version; integrity = sri; os = bin.os; cpu = bin.cpu }
        ∷ items)

  -- `main`, with the flags' values and `json.Marshal`
  unfoldable pub main :
      (List LockfileItem → Result Text)
      → Text
      → List PlatformBinary
      → List Text
      → Files
      → Result (Unit {0}) × Files
  unfolding lockfile_items
  main marshal version binaries (output ∷ []) files =
      elim (lockfile_items version binaries files >>= λ items.
      wrap "marshaling lockfile" (marshal items)) [
        | err e ↦ (err e, files)
        | ok lockfile ↦
            let (written, files') = write_file calls output lockfile files in
            (wrap "writing lockfile" written, files')
      ]
  main marshal version binaries args files = (err (failure "expected lockfile output"), files)
