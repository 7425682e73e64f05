-- ===== src/Text.antt =====
-- Go strings as lists of bytes, with the functions of the package `strings` that the program calls.
-- Case folding is that of ASCII: the program folds host names and fixed keywords only.
pub mod Affix
pub mod Parts
pub mod Order
pub mod Path
use Prim.Native.Char.{code}
use credential_helper.Base.{
  ℕ, ◌+◌, String, ◌≡◌, refl, ◌↔◌, Bool, true, false, ◌&&◌, ◌||◌, List, [], ◌∷◌, arith, leb, ◌==◌,
  if◌then◌else◌, map,
}

abbrev pub Text : Type 0
Text = List ℕ

codes : String → Text
codes String.[] = []
codes (String.◌∷◌ c s) = code c ∷ codes s

-- A string literal of the source. It stays shut in proofs, where only its name matters.
unfoldable pub lit : String → Text
unfolding codes
lit s = codes s

-- `s == t`
unfoldable pub text_eq : Text → Text → Bool
text_eq [] [] = true
text_eq (x ∷ s) (y ∷ t) = x == y && text_eq s t
text_eq _ _ = false

pub text_eq_iff : (s t : Text) → (text_eq s t ≡ true) ↔ (s ≡ t)
unfolding text_eq
text_eq_iff (x ∷ s) (y ∷ t) = ground (arith, text_eq_iff s t)
text_eq_iff _ _ = ground arith

pub text_eq_refl : (s : Text) → text_eq s s ≡ true
text_eq_refl s = (text_eq_iff s s).1 refl

-- `len(s) == 0`, `s == ""`
abbrev pub is_empty : Text → Bool
is_empty [] = true
is_empty (_ ∷ _) = false

lower_byte : ℕ → ℕ
lower_byte c = if leb b'A' c && leb c b'Z' then c + 32 else c

-- `strings.ToLower`
unfoldable pub to_lower : Text → Text
unfolding lower_byte
to_lower s = map lower_byte s

-- `strings.EqualFold`
unfoldable pub equal_fold : Text → Text → Bool
unfolding to_lower text_eq
equal_fold s t = text_eq (to_lower s) (to_lower t)

abbrev pub is_space : ℕ → Bool
is_space c = c == b' ' || (leb 9 c && leb c 13)

drop_spaces : Text → Text
drop_spaces [] = []
drop_spaces (c ∷ s) = if is_space c then drop_spaces s else c ∷ s

-- what is left without the spaces at the end
drop_trailing : Text → Text
drop_trailing [] = []
drop_trailing (c ∷ s) =
    let rest = drop_trailing s in if is_empty rest && is_space c then [] else c ∷ rest

-- `strings.TrimSpace`
unfoldable pub trim_space : Text → Text
unfolding drop_spaces drop_trailing
trim_space s = drop_trailing (drop_spaces s)

fold_example : equal_fold (lit "GitHub.com") (lit "github.com") ≡ true
unfolding equal_fold lit
fold_example = refl

trim_example : trim_space (lit " \t a b \n") ≡ lit "a b"
unfolding trim_space lit
trim_example = refl
