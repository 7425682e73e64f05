-- ===== src/Text/Path.antt =====
-- Paths as `path/filepath` has them on Unix: `Clean`, `Join` and `IsAbs`.
pub mod Walk
pub mod Names
pub mod Laws
use credential_helper.Base.{◌≡◌, refl, Bool, true, false, ◌||◌, List, [], ◌∷◌, ◌++◌, if◌then◌else◌}
use credential_helper.Text.{Text, lit, text_eq, is_empty}
use credential_helper.Text.Affix.{has_prefix}
use credential_helper.Text.Parts.{split, join}

-- What an element of a path does: nothing, a step up, or a step down.
pub data Element : Type 0 where
  skip up down : Element

unfoldable pub element : Text → Element
element c =
    if is_empty c || text_eq c (b'.' ∷ [])
    then skip
    else if text_eq c (b'.' ∷ b'.' ∷ [])
    then up
    else down

-- The elements so far, the last one first. A step up from the root stays there; a path that is not
-- rooted keeps the steps up that it begins with.
abbrev pub push_up : Bool → List Text → List Text
push_up rooted [] = if rooted then [] else (b'.' ∷ b'.' ∷ []) ∷ []
push_up rooted (top ∷ rest) = elim (element top) [ up ↦ (b'.' ∷ b'.' ∷ []) ∷ top ∷ rest | _ ↦ rest ]

abbrev pub push : Bool → List Text → Text → List Text
push rooted stack c = elim (element c) [
  | skip ↦ stack
  | up ↦ push_up rooted stack
  | down ↦ c ∷ stack
]

unfoldable pub walk : Bool → List Text → List Text → List Text
walk rooted stack [] = stack
walk rooted stack (c ∷ cs) = walk rooted (push rooted stack c) cs

unfoldable pub reversed : List Text → List Text
reversed [] = []
reversed (c ∷ cs) = reversed cs ++ (c ∷ [])

abbrev pub shown : Bool → List Text → Text
shown true stack = b'/' ∷ join b'/' (reversed stack)
shown false [] = b'.' ∷ []
shown false (c ∷ stack) = join b'/' (reversed (c ∷ stack))

-- `filepath.IsAbs`
abbrev pub is_abs : Text → Bool
is_abs p = has_prefix p (b'/' ∷ [])

-- `filepath.Clean`
unfoldable pub clean : Text → Text
clean [] = b'.' ∷ []
clean (c ∷ p) = let rooted = is_abs (c ∷ p) in shown rooted (walk rooted [] (split b'/' (c ∷ p)))

-- `filepath.Join`
unfoldable pub join_path : List Text → Text
join_path [] = []
join_path (e ∷ es) =
    let rest = join_path es in if is_empty e then rest else clean (join b'/' (e ∷ es))

path_tests :
    (clean (lit "a//b/./../c/") ≡ lit "a/c")
    × (clean (lit "/../a") ≡ lit "/a")
    × (clean (lit "../../a/..") ≡ lit "../..")
    × (clean (lit "/") ≡ lit "/")
    × (join_path (lit "" ∷ lit "a" ∷ lit "" ∷ lit "b" ∷ []) ≡ lit "a/b")
    × (join_path (lit "." ∷ lit "/run/agent.sock" ∷ []) ≡ lit "run/agent.sock")
unfolding clean join_path walk reversed element lit split join has_prefix text_eq
path_tests = (refl, refl, refl, refl, refl, refl)
