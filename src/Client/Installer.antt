-- ===== src/Client/Installer.antt =====
-- cmd/installer/installer.go, over files with several names, as hard links make them. What it tells on
-- the standard error is left out.
pub mod Placed
use credential_helper.Base.{Bool, false, Option, none, some, List, [], if◌then◌else◌}
use credential_helper.Text.{Text, lit, text_eq}
use credential_helper.Dict.{Dict, lookup, removed}
use credential_helper.Errors.{Error, Result, ok, err, wrap, wrapped, ◌>>=◌, ◌>>◌}
use credential_helper.Build.Files.{Files, Calls, link, open_file, create, write}
use credential_helper.Agent.Locate.{
  Machine, Process, getenv, credential_helper_path, lookup_path_env, setup_environment,
}

-- What the operating system gives, and the calls that fail.
pub record System : Type 0 where
  -- `os.Executable`, `filepath.EvalSymlinks`, `os.Stat`, `filepath.Abs`, `filepath.Dir`
  pub executable : Result Text
  pub eval_symlinks : Text → Result Text
  pub stat : Text → Result (Unit {0})
  pub abs : Text → Result Text
  pub dir : Text → Text
  -- `os.Link`, `os.Open`, `os.Create` and the copy, besides what `os.Remove` refuses
  pub calls : Calls
  pub remove_fails : Bool

-- `os.Remove`, whose error is told and otherwise ignored: the name goes, and the file stays under
-- its others
abbrev pub remove : System → Text → Files → Files
remove system path files =
    if system.remove_fails then files else record files { names = removed path files.names }

module _ (system : System) where
  -- the copy, where there is no hard link; creating the file empties it, under all its names, before
  -- the source is read
  copy : Text → Text → Files → Result (Unit {0}) × Files
  copy src dst files = elim (open_file system.calls src files) [
    | err e ↦ (err (wrapped "opening source file for copying" e), files)
    | ok i ↦
        let (created, files') = create system.calls dst files in
        elim created [
          | err e ↦ (err (wrapped "opening destination file for copying" e), files')
          | ok j ↦ write system.calls j (files'.contents i) files'
        ]
  ]

  -- `hardlinkOrCopy`
  unfoldable pub hardlink_or_copy : Text → Text → Files → Result (Unit {0}) × Files
  unfolding copy link open_file create write
  hardlink_or_copy src dst files = elim (link system.calls src dst files) [
    | some files' ↦ (ok tt, files')
    | none ↦ copy src dst files
  ]

abbrev pub destination : Machine → Dict Text → Text
destination m env =
    lookup_path_env m env (lit "CREDENTIAL_HELPER_INSTALLER_DESTINATION")
      (credential_helper_path m env) false

module _ (m : Machine) (system : System) where
  -- `install`; the agent that the old program stops is another process
  unfoldable pub install : Dict Text → Text → Files → Result Text × Files
  install env credential_helper_bin files =
      elim (m.mkdir_all (system.dir (credential_helper_path m env))) [
        | err e ↦ (err (wrapped "making install destination directory" e), files)
        | ok _ ↦
            let dst = destination m env in
            let (placed, files') =
              hardlink_or_copy system credential_helper_bin dst (remove system dst files) in
            elim placed [ err e ↦ (err e, files') | ok _ ↦ (ok dst, files') ]
      ]

  -- the path of the program to install
  source_path : Dict Text → Result Text
  source_path env = do
    path ← elim (lookup (lit "CREDENTIAL_HELPER_INSTALLER_SOURCE") env) [
      | some path ↦ ok path
      | none ↦ wrap "finding path to own executable" system.executable
    ]
    path' ← wrap "following source path symlink" (system.eval_symlinks path)
    wrap "checking if install source exists" (system.stat path')
    wrap "getting absolute path" (system.abs path')

  -- `InstallerProcess`: what it prints, or the error that ends it
  unfoldable pub installer_process : Process → Files → Result Text × Files
  unfolding source_path
  installer_process p files = elim (source_path p.env) [
    | err e ↦ (err e, files)
    | ok path ↦ elim (wrap "setting up environment" (setup_environment m p)) [
      | err e ↦ (err e, files)
      | ok p' ↦ install p'.env path files
    ]
  ]

-- `WantInstallerRun`, which unsets the variable
abbrev pub want_installer_run : Process → Bool × Process
want_installer_run p = (
  text_eq (getenv p.env (lit "CREDENTIAL_HELPER_INSTALLER_RUN")) (lit "1"),
  record p { env = removed (lit "CREDENTIAL_HELPER_INSTALLER_RUN") p.env },
)
