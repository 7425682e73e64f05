-- ===== src/Config/Glob.antt =====
-- `globMatch` of config/config.go, with its four indices. The loop runs on fuel; the `none` of a
-- loop that runs out belongs to the model only.
pub mod Matches
mod Suffixes
pub mod Decides
use credential_helper.Base.{
  ℕ, zero, suc, ◌+◌, ◌*◌, Bool, true, false, ◌&&◌, ◌||◌, Option, none, some, length, get_elem?,
  if◌then◌else◌, ltb, leb, ◌==◌,
}
use credential_helper.Text.{Text}

abbrev pub star : ℕ
star = b'*'

-- `candidateIDX < len(candidate) && candidate[candidateIDX] == c`
abbrev pub reads : Option ℕ → ℕ → Bool
reads none c = false
reads (some d) c = d == c

module _ (pattern_ candidate : Text) where
  pub glob_loop : ℕ → ℕ → ℕ → ℕ → ℕ → Option Bool
  glob_loop zero pi ci next_pi next_ci = none
  glob_loop (suc f) pi ci next_pi next_ci =
      let byte = glob_loop f (pi + 1) (ci + 1) next_pi next_ci in
      let wildcard = glob_loop f (pi + 1) ci pi (ci + 1) in
      let again = glob_loop f next_pi next_ci next_pi next_ci in
      let retry = if ltb 0 next_ci && leb next_ci (length candidate) then again else some false in
      if ltb pi (length pattern_) || ltb ci (length candidate)
      then elim (get_elem? pattern_ pi) [
        | none ↦ retry
        | some c ↦
            if c == star then wildcard else if reads (get_elem? candidate ci) c then byte else retry
      ]
      else some true

  -- enough rounds: every retry takes one more byte, and walks the pattern at most once
  abbrev glob_fuel : ℕ
  glob_fuel = (length candidate + 1) * (length pattern_ + 3)

  unfoldable pub glob_match : Option Bool
  unfolding glob_loop
  glob_match = glob_loop glob_fuel 0 0 0 0
