-- ===== src/Tests/Choosing.antt =====
-- The factory.
use credential_helper.Base.{◌≡◌, refl, false}
use credential_helper.Text.{lit, equal_fold}
use credential_helper.Text.Affix.{has_suffix, has_prefix}
use credential_helper.Url.{Url, hostname}
use credential_helper.Factory.{github, choose, is_github}

abbrev url : Url
url = record {
  scheme = lit "https";
  host = lit "api.github.com";
  path = lit "/a";
  query_has = λ name. false;
}

chooses : (choose false url ≡ github) × (hostname url ≡ url.host)
unfolding choose hostname lit has_suffix has_prefix equal_fold is_github
chooses = (refl, refl)
