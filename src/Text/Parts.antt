-- ===== src/Text/Parts.antt =====
-- Splitting and joining: `Split`, `SplitN(s, sep, 2)` and `Join`, at a separator of one byte.
pub mod Laws
use credential_helper.Base.{
  ℕ, ◌≡◌, ◌≢◌, refl, Option, none, some, List, [], ◌∷◌, ◌++◌, arith, ◌==◌, if◌then◌else◌,
}
use credential_helper.Text.{Text}

abbrev pub push_head : ℕ → List Text → List Text
push_head c [] = (c ∷ []) ∷ []
push_head c (part ∷ parts) = (c ∷ part) ∷ parts

unfoldable pub split : ℕ → Text → List Text
split sep [] = [] ∷ []
split sep (c ∷ s) = let rest = split sep s in if c == sep then [] ∷ rest else push_head c rest

unfoldable pub join : ℕ → List Text → Text
join sep [] = []
join sep (part ∷ []) = part
join sep (part ∷ next ∷ parts) = part ++ sep ∷ join sep (next ∷ parts)

-- `SplitN` at the first separator; `none` where there is none
unfoldable pub split_first : ℕ → Text → Option (Text × Text)
split_first sep [] = none
split_first sep (c ∷ s) =
    let rest = split_first sep s in
    if c == sep then some ([], s) else elim rest [ none ↦ none | some (a, b) ↦ some (c ∷ a, b) ]

join-push_head : (sep c : ℕ) (parts : List Text) → join sep (push_head c parts) ≡ c ∷ join sep parts
unfolding join
join-push_head sep c [] = refl
join-push_head sep c (part ∷ []) = refl
join-push_head sep c (part ∷ next ∷ parts) = refl

join-nil-cons :
    (sep : ℕ) (parts : List Text) → parts ≢ [] → join sep ([] ∷ parts) ≡ sep ∷ join sep parts
unfolding join
join-nil-cons sep [] h = absurd (h refl)
join-nil-cons sep (part ∷ parts) h = refl

push_head-ne-nil : (c : ℕ) (parts : List Text) → push_head c parts ≢ []
push_head-ne-nil c [] = ground arith
push_head-ne-nil c (part ∷ parts) = ground arith

pub split-ne-nil : (sep : ℕ) (s : Text) → split sep s ≢ []
unfolding split
split-ne-nil sep [] = ground arith
split-ne-nil sep (c ∷ s) = ground (arith, push_head-ne-nil c (split sep s))

-- Joining the parts of a text gives the text.
pub join-split : (sep : ℕ) (s : Text) → join sep (split sep s) ≡ s
unfolding split
join-split sep [] = unfold join in refl
join-split sep (c ∷ s) = ground (
  arith,
  join-split sep s,
  join-nil-cons sep (split sep s) (split-ne-nil sep s),
  join-push_head sep c (split sep s),
)

-- the lines of a text
abbrev pub newlines : List Text → Text
newlines lines = join b'\n' lines
