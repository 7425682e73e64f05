-- ===== src/Factory/Choice.antt =====
-- The helper that the factory chooses, against what that helper accepts, and the registry.
use credential_helper.Base.{◌≡◌, Bool, true, some, arith, if◌then◌else◌}
use credential_helper.Text.{Text, text_eq}
use credential_helper.Dict.{Dict, lookup-insert}
use credential_helper.Url.{Url, hostname}
use credential_helper.Authenticate.GitHub.{is_github_host}
use credential_helper.Factory.{choose, is_github, github, helper_from_string, register}

-- Where the host has no port and no brackets, a URL for which the factory chooses the GitHub helper
-- passes that helper's own test of the host.
pub choose-is_github_host :
    (guess : Bool) (u : Url)
    → choose guess u ≡ github
    → hostname u ≡ u.host
    → is_github_host u.host ≡ true
unfolding choose is_github is_github_host
choose-is_github_host guess u h same = ground arith

module _ {H : Type 0} where
  -- After `Register` its name stands for its helper, and every other name for what it stood for.
  pub helper_from_string-register :
      (helpers : Dict H) (name other : Text) (helper : H)
      → helper_from_string (register helpers name helper) other
        ≡ (if text_eq name other then some helper else helper_from_string helpers other)
  unfolding helper_from_string register
  helper_from_string-register helpers name other helper = lookup-insert name other helper helpers
