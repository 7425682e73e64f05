-- ===== src/Agent/Locate/Short.antt =====
-- What a shortened path stands for.
use credential_helper.Base.{◌≡◌, ◌≢◌, true, false, [], ◌∷◌}
use credential_helper.Text.{Text, lit}
use credential_helper.Text.Affix.{has_prefix, trim_prefix}
use credential_helper.Text.Path.{join_path}
use credential_helper.Text.Path.Laws.{join_path-join_path}
use credential_helper.Dict.{Dict}
use credential_helper.Api.Names.{placeholder_workdir}
use credential_helper.Agent.Locate.{Machine, expand_path, workdir}

-- A path below `%workdir%` that is shortened stands, in the working directory, for the path that is
-- not shortened, if the working directory is set.
pub expand_path-short :
    (m : Machine) (env : Dict Text) (input : Text)
    → has_prefix input placeholder_workdir ≡ true
    → workdir env ≢ []
    → join_path (workdir env ∷ expand_path m env input true ∷ []) ≡ expand_path m env input false
unfolding expand_path lit
expand_path-short m env input h set =
    rw h (join_path-join_path (workdir env) (trim_prefix input placeholder_workdir) set)
