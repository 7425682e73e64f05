-- ===== src/Agent/Locate.antt =====
-- agent/locate/locate.go, with the paths of Unix.
pub mod Short
pub mod Environment
pub mod Inherited
use credential_helper.Base.{Bool, Option, none, some, [], ◌∷◌, ◌++◌, if◌then◌else◌}
use credential_helper.Text.{Text, lit, to_lower}
use credential_helper.Text.Affix.{has_prefix, trim_prefix}
use credential_helper.Text.Path.{join_path, is_abs}
use credential_helper.Dict.{Dict, lookup, insert}
use credential_helper.Errors.{Error, Result, ok, err, ◌>>=◌, ◌>>◌}
use credential_helper.Api.Names.{
  credential_helper_bin, agent_socket_path, agent_pid_path, workdir_env, workspace_env,
  original_working_directory_env, placeholder_workdir, placeholder_workspace_dir,
  placeholder_tmpdir, placeholder_cachedir, placeholder_homedir,
}

-- The machine that a process runs on.
pub record Machine : Type 0 where
  -- `runtime.GOOS == "windows"`
  pub windows : Bool
  -- `os.TempDir`, `os.UserCacheDir`, `os.UserHomeDir`
  pub temp_dir : Text
  pub user_cache_dir : Result Text
  pub user_home_dir : Result Text
  -- `md5.Sum` in hexadecimal
  pub md5_hex : Text → Text
  -- `filepath.FromSlash`
  pub from_slash : Text → Text
  -- the error of `os.Setenv`, if it fails
  pub setenv_error : Text → Text → Option Error
  pub mkdir_all : Text → Result (Unit {0})
  -- `os.Chdir` from a working directory: what `os.Getwd` gives afterwards
  pub chdir : Result Text → Text → Result (Result Text)

pub record Process : Type 0 where
  pub env : Dict Text
  pub cwd : Result Text

-- `os.Getenv`
abbrev pub getenv : Dict Text → Text → Text
getenv env key = elim (lookup key env) [ none ↦ [] | some value ↦ value ]

-- `Workdir`, `Bin`, `Run`
abbrev pub workdir : Dict Text → Text
workdir env = getenv env workdir_env

abbrev pub bin : Dict Text → Text
bin env = join_path (workdir env ∷ lit "bin" ∷ [])

abbrev pub run : Dict Text → Text
run env = join_path (workdir env ∷ lit "run" ∷ [])

module _ (m : Machine) where
  abbrev setenv : Text → Text → Process → Result Process
  setenv key value p = elim (m.setenv_error key value) [
    | some e ↦ err e
    | none ↦ ok (record p { env = insert key value p.env })
  ]

  module _ (env : Dict Text) where
    unfoldable pub tmp_dir : Text
    tmp_dir = elim (lookup (lit "TEST_TMPDIR") env) [ some dir ↦ dir | none ↦ m.temp_dir ]

    unfoldable pub cache_dir : Text
    cache_dir = elim (lookup (lit "TEST_TMPDIR") env) [
      | some dir ↦ dir
      | none ↦ elim m.user_cache_dir [ ok dir ↦ dir | err e ↦ tmp_dir ]
    ]

    unfoldable pub home_dir : Text
    home_dir = elim m.user_home_dir [ ok dir ↦ dir | err e ↦ tmp_dir ]

    -- `expandPath`
    unfoldable pub expand_path : Text → Bool → Text
    expand_path input short =
        if has_prefix input placeholder_workdir
        then (if short
            then join_path (lit "." ∷ trim_prefix input placeholder_workdir ∷ [])
            else join_path (getenv env workdir_env ∷ trim_prefix input placeholder_workdir ∷ []))
        else if has_prefix input placeholder_workspace_dir
        then join_path (getenv env workspace_env ∷ trim_prefix input placeholder_workspace_dir ∷ [])
        else if has_prefix input placeholder_tmpdir
        then join_path (tmp_dir ∷ trim_prefix input placeholder_tmpdir ∷ [])
        else if has_prefix input placeholder_cachedir
        then join_path (cache_dir ∷ trim_prefix input placeholder_cachedir ∷ [])
        else if has_prefix input placeholder_homedir
        then join_path (home_dir ∷ trim_prefix input placeholder_homedir ∷ [])
        else input

    unfoldable pub lookup_path_env : Text → Text → Bool → Text
    lookup_path_env key fallback short = elim (lookup key env) [
      | some value ↦ expand_path value short
      | none ↦ expand_path fallback short
    ]

    -- `CredentialHelper`
    unfoldable pub credential_helper_path : Text
    credential_helper_path =
        let filename = lit "credential-helper" in
        let filename' = if m.windows then filename ++ lit ".exe" else filename in
        lookup_path_env credential_helper_bin
          (join_path (placeholder_workdir ∷ lit "bin" ∷ filename' ∷ [])) Bool.false

    -- `AgentPaths`: the socket and the file with the lock
    unfoldable pub agent_paths : Text × Text
    agent_paths = (
      lookup_path_env agent_socket_path
          (join_path (placeholder_workdir ∷ lit "run" ∷ lit "agent.sock" ∷ [])) Bool.true,
      lookup_path_env agent_pid_path
          (join_path (placeholder_workdir ∷ lit "run" ∷ lit "agent.pid" ∷ [])) Bool.false,
    )

    -- `RemapToOriginalWorkingDirectory`
    unfoldable pub remap_to_original_working_directory : Text → Text
    remap_to_original_working_directory p =
        if is_abs p then p else join_path (getenv env original_working_directory_env ∷ p ∷ [])

  unfoldable pub workdir_hash : Text → Text
  workdir_hash workspace = m.md5_hex (if m.windows then to_lower workspace else workspace)

  -- the workspace when only the working directory is left
  found_workspace : Process → Result Text
  found_workspace p = elim (lookup (lit "BUILD_WORKSPACE_DIRECTORY") p.env) [
    | some path ↦ ok path
    | none ↦ p.cwd
  ]

  unfoldable pub setup_workspace_directory : Process → Result (Text × Process)
  unfolding found_workspace
  setup_workspace_directory p = elim (lookup workspace_env p.env) [
    | some path ↦ ok (path, p)
    | none ↦ do
      found ← found_workspace p
      let path = m.from_slash found
      p' ← setenv workspace_env path p
      ok (path, p')
  ]

  unfoldable pub setup_workdir : Text → Process → Result (Text × Process)
  setup_workdir workspace p = elim (lookup workdir_env p.env) [
    | some path ↦ ok (path, p)
    | none ↦ do
      let path = m.from_slash (
          join_path (cache_dir p.env ∷ lit "tweag-credential-helper" ∷ workdir_hash workspace ∷ []))
      p' ← setenv workdir_env path p
      ok (path, p')
  ]

  -- `SetupEnvironment`; after an error the process ends
  unfoldable pub setup_environment : Process → Result Process
  setup_environment p = do
    original ← p.cwd
    p1 ← setenv original_working_directory_env original p
    (workspace, p2) ← setup_workspace_directory p1
    (path, p3) ← setup_workdir workspace p2
    _ ← m.mkdir_all path
    cwd ← m.chdir p3.cwd path
    ok (record p3 { cwd = cwd })
