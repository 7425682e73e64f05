-- ===== src/Text/Path/Names.antt =====
-- The parts of a path: `filepath.Ext`, `filepath.Base` and `filepath.Dir`, as Unix has them.
use credential_helper.Base.{
  ◌≡◌, refl, Bool, true, false, not, ◌&&◌, List, [], ◌∷◌, ◌==◌, if◌then◌else◌,
}
use credential_helper.Text.{Text, lit, is_empty, text_eq}
use credential_helper.Text.Affix.{has_prefix}
use credential_helper.Text.Parts.{split, join}
use credential_helper.Text.Path.{clean, walk, reversed, element}

abbrev has_slash : Text → Bool
has_slash [] = false
has_slash (c ∷ s) = if c == b'/' then true else has_slash s

-- from the last dot of the last element on
unfoldable pub ext : Text → Text
ext [] = []
ext (c ∷ s) =
    let rest = ext s in if is_empty rest && (c == b'.' && not (has_slash s)) then c ∷ s else rest

trim_slashes : Text → Text
trim_slashes [] = []
trim_slashes (c ∷ s) =
    let rest = trim_slashes s in if is_empty rest && c == b'/' then [] else c ∷ rest

abbrev last_part : List Text → Text
last_part [] = []
last_part (part ∷ []) = part
last_part (part ∷ next ∷ parts) = last_part (next ∷ parts)

-- the last element, without the slashes after it
unfoldable pub base : Text → Text
unfolding trim_slashes
base [] = lit "."
base (c ∷ s) =
    let part = last_part (split b'/' (trim_slashes (c ∷ s))) in
    if is_empty part then lit "/" else part

through_slash : Text → Text
through_slash [] = []
through_slash (c ∷ s) =
    let rest = through_slash s in if is_empty rest && not (c == b'/') then [] else c ∷ rest

-- what is before the last element
unfoldable pub dir : Text → Text
unfolding through_slash
dir path = clean (through_slash path)

names_tests :
    (ext (lit "a.b/c.tar.gz") ≡ lit ".gz")
    × (ext (lit "a.b/c") ≡ [])
    × (base (lit "a/b.tar//") ≡ lit "b.tar")
    × (base (lit "//") ≡ lit "/")
    × (base [] ≡ lit ".")
    × (dir (lit "a/b//c") ≡ lit "a/b")
    × (dir (lit "c") ≡ lit ".")
    × (dir (lit "/c") ≡ lit "/")
unfolding ext base dir clean lit split text_eq has_prefix join walk reversed element
names_tests = (refl, refl, refl, refl, refl, refl, refl, refl)
