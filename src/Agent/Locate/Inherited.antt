-- ===== src/Agent/Locate/Inherited.antt =====
-- The client and the agent that it launches look at the same paths.
use credential_helper.Base.{
  ◌≡◌, refl, ap, ◌∙◌, Bool, true, false, [], ◌∷◌, arith, Option-cases, inl, inr, Bool-cases,
}
use credential_helper.Text.{Text, lit, text_eq, text_eq_iff}
use credential_helper.Text.Path.{join_path, is_abs}
use credential_helper.Dict.{Dict, lookup}
use credential_helper.Errors.{Result, ok}
use credential_helper.Api.Names.{
  agent_socket_path, agent_pid_path, workdir_env, workspace_env, original_working_directory_env,
  placeholder_workdir,
}
use credential_helper.Agent.Locate.{
  Machine, Process, tmp_dir, cache_dir, home_dir, expand_path, lookup_path_env, agent_paths,
  workdir, setup_environment,
}
use credential_helper.Agent.Locate.Environment.{names_differ, IsSetUp, setup_environment-IsSetUp}

-- Two environments agree but for the variable with the original working directory.
IsInherited : Dict Text → Dict Text → Type 0
IsInherited e e' =
    (k : Text) → text_eq original_working_directory_env k ≡ false → lookup k e' ≡ lookup k e

module _ (m : Machine) where
  -- `os.Chdir` to an absolute path leads to the same directory from everywhere.
  abbrev pub IsRooted : Type 0
  IsRooted =
      (cwd cwd' : Result Text) (path : Text)
      → is_abs path ≡ true
      → m.chdir cwd path ≡ m.chdir cwd' path

  -- For a process that inherited an environment that was set up with an absolute working directory,
  -- nothing changes but the variable with the original working directory.
  inherited :
      (p p' c c' : Process)
      → IsSetUp m p p'
      → c.env ≡ p'.env
      → IsSetUp m c c'
      → IsRooted
      → is_abs (workdir p'.env) ≡ true
      → (c'.cwd ≡ p'.cwd) × IsInherited p'.env c'.env
  unfolding IsInherited
  inherited p p' c c' h same k rooted absolute =
      let dirs : k.dir ≡ h.dir = k.keeps_workdir h.dir (rw same h.has_workdir) in
      let spaces : k.workspace ≡ h.workspace =
        k.keeps_workspace h.workspace (rw same h.has_workspace) in
      (
        ground (arith, k.inside, h.inside, dirs, h.has_workdir, rooted c.cwd p.cwd h.dir),
        λ key other. elim (Bool-cases (text_eq workspace_env key)) [
          | inl is_workspace ↦
              ground
                (arith, text_eq_iff workspace_env key, k.has_workspace, h.has_workspace, spaces)
          | inr no_workspace ↦ elim (Bool-cases (text_eq workdir_env key)) [
            | inl is_workdir ↦
                ground (arith, text_eq_iff workdir_env key, k.has_workdir, h.has_workdir, dirs)
            | inr no_workdir ↦ k.others key other no_workspace no_workdir ∙ ap (lookup key) same
          ]
        ],
      )

  others_differ :
      (text_eq original_working_directory_env (lit "TEST_TMPDIR") ≡ false)
      × (text_eq original_working_directory_env agent_socket_path ≡ false)
      × (text_eq original_working_directory_env agent_pid_path ≡ false)
  unfolding text_eq lit
  others_differ = (refl, refl, refl)

  module _ (e e' : Dict Text) (h : IsInherited e e') where
    tmp_dir-IsInherited : tmp_dir m e' ≡ tmp_dir m e
    unfolding tmp_dir IsInherited
    tmp_dir-IsInherited = ground (arith, h (lit "TEST_TMPDIR") others_differ.0)

    cache_dir-IsInherited : cache_dir m e' ≡ cache_dir m e
    unfolding cache_dir IsInherited
    cache_dir-IsInherited =
        ground (arith, h (lit "TEST_TMPDIR") others_differ.0, tmp_dir-IsInherited)

    home_dir-IsInherited : home_dir m e' ≡ home_dir m e
    unfolding home_dir
    home_dir-IsInherited = ground (arith, tmp_dir-IsInherited)

    expand_path-IsInherited :
        (input : Text) (short : Bool) → expand_path m e' input short ≡ expand_path m e input short
    unfolding expand_path IsInherited
    expand_path-IsInherited input short = ground (
      arith,
      h workdir_env names_differ.3,
      h workspace_env names_differ.2,
      tmp_dir-IsInherited,
      cache_dir-IsInherited,
      home_dir-IsInherited,
    )

    lookup_path_env-IsInherited :
        (key fallback : Text) (short : Bool)
        → text_eq original_working_directory_env key ≡ false
        → lookup_path_env m e' key fallback short ≡ lookup_path_env m e key fallback short
    unfolding lookup_path_env IsInherited
    lookup_path_env-IsInherited key fallback short other = elim (Option-cases (lookup key e)) [
      | inl missing ↦ ground (arith, h key other, expand_path-IsInherited fallback short)
      | inr (value, there) ↦ ground (arith, h key other, expand_path-IsInherited value short)
    ]

    agent_paths-IsInherited : agent_paths m e' ≡ agent_paths m e
    unfolding agent_paths
    agent_paths-IsInherited = cc (
      lookup_path_env-IsInherited agent_socket_path
          (join_path (placeholder_workdir ∷ lit "run" ∷ lit "agent.sock" ∷ [])) true
          others_differ.1,
      lookup_path_env-IsInherited agent_pid_path
          (join_path (placeholder_workdir ∷ lit "run" ∷ lit "agent.pid" ∷ [])) false
          others_differ.2,
    )

  -- If changing to an absolute path leads to the same directory from everywhere, a process that
  -- inherits the environment of one that ran `SetupEnvironment` with an absolute working directory,
  -- and runs it too, has the same working directory, and the same paths for the agent's socket and
  -- lock, wherever it was started.
  pub setup_environment-inherited :
      (p p' c c' : Process)
      → setup_environment m p ≡ ok p'
      → c.env ≡ p'.env
      → setup_environment m c ≡ ok c'
      → IsRooted
      → is_abs (workdir p'.env) ≡ true
      → (c'.cwd ≡ p'.cwd) × (agent_paths m c'.env ≡ agent_paths m p'.env)
  setup_environment-inherited p p' c c' a same b rooted absolute =
      let (cwd, env) =
        inherited p p' c c' (setup_environment-IsSetUp m p p' a) same
          (setup_environment-IsSetUp m c c' b) rooted absolute in
      (cwd, agent_paths-IsInherited p'.env c'.env env)
