-- ===== src/Agent/Locate/Environment.antt =====
-- What `SetupEnvironment` does to the environment.
use credential_helper.Base.{
  ◌≡◌, refl, sym, ap, subst, ◌∙◌, false, some, [], ◌∷◌, arith, Option-cases, inl, inr,
}
use credential_helper.Text.{Text, lit, text_eq, text_eq_refl}
use credential_helper.Text.Path.{join_path}
use credential_helper.Dict.{lookup, lookup-insert}
use credential_helper.Errors.{Result, ok, >>=-ok, ◌>>=◌}
use credential_helper.Api.Names.{workdir_env, workspace_env, original_working_directory_env}
use credential_helper.Agent.Locate.{
  Machine, Process, setenv, cache_dir, found_workspace, setup_workspace_directory, setup_workdir,
  setup_environment, workdir_hash,
}

pub names_differ :
    (text_eq workspace_env workdir_env ≡ false)
    × (text_eq workdir_env workspace_env ≡ false)
    × (text_eq original_working_directory_env workspace_env ≡ false)
    × (text_eq original_working_directory_env workdir_env ≡ false)
unfolding text_eq lit
names_differ = (refl, refl, refl, refl)

module _ (m : Machine) where
  -- The variable is set to the value, and the others are as they were.
  record Sets (key value : Text) (p p' : Process) : Type 0 where
    has : lookup key p'.env ≡ some value
    others : (k : Text) → text_eq key k ≡ false → lookup k p'.env ≡ lookup k p.env
    stays : p'.cwd ≡ p.cwd

  setenv-Sets :
      (key value : Text) (p p' : Process) → setenv m key value p ≡ ok p' → Sets key value p p'
  setenv-Sets key value p p' h = record {
    has = ground (arith, lookup-insert key key value p.env, text_eq_refl key);
    others = λ k differs. ground (arith, lookup-insert key k value p.env);
    stays = ground arith;
  }

  -- what `setupWorkspaceDirectory` and `setupWorkdir` end with
  give : Text → Text → Process → Result (Text × Process)
  give key path p = do p' ← setenv m key path p; ok (path, p')

  give-Sets :
      (key path : Text) (p p' : Process) (w : Text) → give key path p ≡ ok (w, p') → Sets key w p p'
  unfolding give
  give-Sets key path p p' w h =
      let (q, set, done) = >>=-ok (setenv m key path p) (λ q. ok (path, q)) h in
      let same : path ≡ w = ground arith in
      let last : q ≡ p' = ground arith in
      subst (λ t. Sets key t p p') same
        (subst (Sets key path p) last (setenv-Sets key path p q set))

  kept-Sets : (key w : Text) (p : Process) → lookup key p.env ≡ some w → Sets key w p p
  kept-Sets key w p known = record { has = known; others = λ k d. refl; stays = refl }

  setup_workspace_directory-Sets :
      (p p' : Process) (w : Text)
      → setup_workspace_directory m p ≡ ok (w, p')
      → Sets workspace_env w p p'
  unfolding setup_workspace_directory give
  setup_workspace_directory-Sets p p' w h = elim (Option-cases (lookup workspace_env p.env)) [
    | inr (path, known) ↦
        let same : p ≡ p' = ground arith in
        subst (Sets workspace_env w p) same (kept-Sets workspace_env w p (ground arith))
    | inl unknown ↦
        let (found, is_found, rest) =
          >>=-ok (found_workspace m p) (λ t. give workspace_env (m.from_slash t) p)
            (ground arith) in
        give-Sets workspace_env (m.from_slash found) p p' w rest
  ]

  setup_workdir-Sets :
      (w : Text) (p p' : Process) (d : Text)
      → setup_workdir m w p ≡ ok (d, p')
      → Sets workdir_env d p p'
  unfolding setup_workdir give
  setup_workdir-Sets w p p' d h = elim (Option-cases (lookup workdir_env p.env)) [
    | inr (path, known) ↦
        let same : p ≡ p' = ground arith in
        subst (Sets workdir_env d p) same (kept-Sets workdir_env d p (ground arith))
    | inl unknown ↦
        let path =
          m.from_slash (
            join_path
              (cache_dir m p.env ∷ lit "tweag-credential-helper" ∷ workdir_hash m w ∷ [])) in
        give-Sets workdir_env path p p' d (ground arith)
  ]

  setup_workspace_directory_keeps :
      (p p' : Process) (w v : Text)
      → setup_workspace_directory m p ≡ ok (w, p')
      → lookup workspace_env p.env ≡ some v
      → w ≡ v
  unfolding setup_workspace_directory
  setup_workspace_directory_keeps p p' w v h known = ground arith

  setup_workdir_keeps :
      (w : Text) (p p' : Process) (d v : Text)
      → setup_workdir m w p ≡ ok (d, p')
      → lookup workdir_env p.env ≡ some v
      → d ≡ v
  unfolding setup_workdir
  setup_workdir_keeps w p p' d v h known = ground arith

  -- What `SetupEnvironment` leaves behind: the working directory is the one that the environment
  -- names, and a variable that was set before has its value, but for the one that is always set.
  pub record IsSetUp (p p' : Process) : Type 0 where
    pub workspace : Text
    pub dir : Text
    pub has_workspace : lookup workspace_env p'.env ≡ some workspace
    pub has_workdir : lookup workdir_env p'.env ≡ some dir
    pub inside : m.chdir p.cwd dir ≡ ok p'.cwd
    pub keeps_workspace : (v : Text) → lookup workspace_env p.env ≡ some v → workspace ≡ v
    pub keeps_workdir : (v : Text) → lookup workdir_env p.env ≡ some v → dir ≡ v
    pub others :
        (k : Text)
        → text_eq original_working_directory_env k ≡ false
        → text_eq workspace_env k ≡ false
        → text_eq workdir_env k ≡ false
        → lookup k p'.env ≡ lookup k p.env

  pub setup_environment-IsSetUp : (p p' : Process) → setup_environment m p ≡ ok p' → IsSetUp p p'
  unfolding setup_environment
  setup_environment-IsSetUp p p' h =
      let (original, _, h1) = >>=-ok p.cwd _ h in
      let (p1, set1, h2) = >>=-ok (setenv m original_working_directory_env original p) _ h1 in
      let ((w, p2), set2, h3) = >>=-ok (setup_workspace_directory m p1) _ h2 in
      let ((d, p3), set3, h4) = >>=-ok (setup_workdir m w p2) _ h3 in
      let (_, _, h5) = >>=-ok (m.mkdir_all d) _ h4 in
      let (cwd, inside, h6) = >>=-ok (m.chdir p3.cwd d) _ h5 in
      let s1 = setenv-Sets original_working_directory_env original p p1 set1 in
      let s2 = setup_workspace_directory-Sets p1 p2 w set2 in
      let s3 = setup_workdir-Sets w p2 p3 d set3 in
      let last : record p3 { cwd = cwd } ≡ p' = ground arith in
      subst (IsSetUp p) last (record {
        workspace = w;
        dir = d;
        has_workspace = s3.others workspace_env names_differ.1 ∙ s2.has;
        has_workdir = s3.has;
        inside = ap (λ cwd. m.chdir cwd d) (sym (s3.stays ∙ (s2.stays ∙ s1.stays))) ∙ inside;
        keeps_workspace = λ v known.
            setup_workspace_directory_keeps p1 p2 w v set2
              (s1.others workspace_env names_differ.2 ∙ known);
        keeps_workdir = λ v known.
            setup_workdir_keeps w p2 p3 d v set3 (
              s2.others workdir_env names_differ.0
              ∙ (s1.others workdir_env names_differ.3 ∙ known));
        others = λ k a b c. s3.others k c ∙ (s2.others k b ∙ s1.others k a);
      })
