-- ===== src/Url.antt =====
-- What the program uses of the package `net/url`. Parsing and printing a URL are parameters of the
-- modules that call them; `Hostname` and `Port` read the host as the library does.
use credential_helper.Base.{
  ℕ, ◌≡◌, refl, Bool, true, false, ◌&&◌, Option, none, some, [], ◌∷◌, if◌then◌else◌, leb, ◌==◌,
}
use credential_helper.Text.{Text, lit}
use credential_helper.Text.Affix.{has_prefix, has_suffix, trim_prefix, trim_suffix}
use credential_helper.Errors.{Result}

pub record Url : Type 0 where
  pub scheme : Text
  pub host : Text
  pub path : Text
  -- `u.Query().Has(name)`
  pub query_has : Text → Bool

-- `url.Parse`
abbrev pub ParseUrl : Type 0
ParseUrl = Text → Result Url

-- the text before and after the last `sep`
split_last : ℕ → Text → Option (Text × Text)
split_last sep [] = none
split_last sep (c ∷ s) = elim (split_last sep s) [
  | some (before, after) ↦ some (c ∷ before, after)
  | none ↦ if c == sep then some ([], s) else none
]

all_digits : Text → Bool
all_digits [] = true
all_digits (c ∷ s) = leb b'0' c && leb c b'9' && all_digits s

split_host_port : Text → Text × Text
unfolding split_last all_digits
split_host_port host = elim (split_last b':' host) [
  | none ↦ (host, [])
  | some (before, after) ↦ if all_digits after then (before, after) else (host, [])
]

abbrev strip_brackets : Text → Text
strip_brackets host =
    if has_prefix host (b'[' ∷ []) && has_suffix host (b']' ∷ [])
    then trim_suffix (trim_prefix host (b'[' ∷ [])) (b']' ∷ [])
    else host

-- `u.Hostname()`
unfoldable pub hostname : Url → Text
unfolding split_host_port
hostname u = strip_brackets (split_host_port u.host).0

-- `u.Port()`
unfoldable pub port : Url → Text
unfolding split_host_port
port u = (split_host_port u.host).1

abbrev at_host : Text → Url
at_host host = record { scheme = []; host = host; path = []; query_has = λ _. false }

hostname_tests :
    (hostname (at_host (lit "a.b:443")) ≡ lit "a.b")
    × (port (at_host (lit "a.b:443")) ≡ lit "443")
    × (hostname (at_host (lit "[::1]:8")) ≡ lit "::1")
    × (hostname (at_host (lit "[::1]")) ≡ lit "::1")
unfolding hostname port lit has_prefix has_suffix trim_prefix trim_suffix
hostname_tests = (refl, refl, refl, refl)
