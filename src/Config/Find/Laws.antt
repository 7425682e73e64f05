-- ===== src/Config/Find/Laws.antt =====
-- Which entry of the configuration file is chosen.
use credential_helper.Base.{
  ◌≡◌, ◌≢◌, ◌↔◌, refl, Bool, true, false, ◌||◌, [], ◌∷◌, arith, ◌⊎◌, inl, inr, Bool-cases,
}
use credential_helper.Text.{Text, text_eq_iff, is_empty}
use credential_helper.Dict.{Dict}
use credential_helper.Url.{Url}
use credential_helper.Config.Glob.{glob_match}
use credential_helper.Config.Glob.Matches.{Matches}
use credential_helper.Config.Glob.Decides.{glob_match_iff}
use credential_helper.Config.Find.{UrlConfig, Config, entry_matches, answer, chosen, find_loop}

-- Each field of the entry that is set fits the URL.
pub record Fits {Raw : Type 0} (c : UrlConfig Raw) (u : Url) : Type 0 where
  pub scheme : (c.scheme ≡ []) ⊎ (c.scheme ≡ u.scheme)
  pub host : (c.host ≡ []) ⊎ Matches c.host u.host
  pub path : (c.path ≡ []) ⊎ Matches c.path u.path

glob_iff : (p s : Text) → (answer (glob_match p s) ≡ true) ↔ Matches p s
glob_iff p s = let (b, ends, right) = glob_match_iff p s in rw ends right

empty_or : (p : Text) (b : Bool) → (is_empty p || b) ≡ true → (p ≡ []) ⊎ (b ≡ true)
empty_or [] b h = inl refl
empty_or (c ∷ p) b h = inr h

empty_or_back : (p : Text) (b : Bool) → (p ≡ []) ⊎ (b ≡ true) → (is_empty p || b) ≡ true
empty_or_back [] b h = refl
empty_or_back (c ∷ p) b h = ground arith

map_right : {A B C : Type 0} → (B → C) → A ⊎ B → A ⊎ C
map_right f (inl a) = inl a
map_right f (inr b) = inr (f b)

-- An entry applies to a URL exactly if its scheme, where set, is that of the URL, and the patterns
-- for host and path, where set, match.
pub entry_matches_iff :
    {Raw : Type 0} (c : UrlConfig Raw) (u : Url) → (entry_matches c u ≡ true) ↔ Fits c u
unfolding entry_matches
entry_matches_iff c u = (
  λ h. record {
    scheme = map_right (text_eq_iff _ _).0 (empty_or c.scheme _ (ground arith));
    host = map_right (glob_iff _ _).0 (empty_or c.host _ (ground arith));
    path = map_right (glob_iff _ _).0 (empty_or c.path _ (ground arith));
  },
  λ f.
      let a = empty_or_back c.scheme _ (map_right (text_eq_iff _ _).1 f.scheme) in
      let b = empty_or_back c.host _ (map_right (glob_iff _ _).1 f.host) in
      let d = empty_or_back c.path _ (map_right (glob_iff _ _).1 f.path) in ground (arith, a, b, d),
)

not-is_empty : (p : Text) → p ≢ [] → is_empty p ≡ false
not-is_empty [] h = absurd (h refl)
not-is_empty (c ∷ p) h = refl

module _ {H Raw : Type 0} (helpers : Dict H) (u : Url) where
  -- The first entry that fits is `c`; those before it name a helper and do not fit.
  pub data FirstFit (c : UrlConfig Raw) : Config Raw → Type 0 where
    here : {rest : Config Raw} → Fits c u → FirstFit c (c ∷ rest)
    later :
        {d : UrlConfig Raw} {rest : Config Raw}
        → d.helper ≢ []
        → ¬ Fits d u
        → FirstFit c rest
        → FirstFit c (d ∷ rest)

  -- If the first entry that fits and those before it name a helper, that entry decides: its helper
  -- is returned with its configuration, or it is an error that the helper is unknown. Entries
  -- behind it are not looked at.
  pub find_loop-FirstFit :
      {c : UrlConfig Raw} {config : Config Raw}
      → c.helper ≢ []
      → FirstFit c config
      → find_loop helpers config u ≡ chosen helpers c
  unfolding find_loop
  find_loop-FirstFit {c} named (here f) =
      rw (not-is_empty c.helper named, (entry_matches_iff c u).1 f)
  find_loop-FirstFit {c} named (later {d} n no_fit r) = elim (Bool-cases (entry_matches d u)) [
    | inl yes_ ↦ absurd (no_fit ((entry_matches_iff d u).0 yes_))
    | inr no_ ↦ rw (not-is_empty d.helper n, no_) (find_loop-FirstFit named r)
  ]
