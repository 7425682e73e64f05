-- ===== src/Text/Affix.antt =====
-- Prefixes and suffixes: `HasPrefix`, `HasSuffix`, `TrimPrefix`, `TrimSuffix`, `CutPrefix`.
use credential_helper.Base.{
  ℕ, ◌≡◌, refl, ap, Bool, true, false, Option, none, some, [], ◌∷◌, ◌++◌, arith, ◌==◌,
  if◌then◌else◌, Bool-cases, Option-cases, inl, inr, length, length-append,
}
use credential_helper.Text.{Text, text_eq, text_eq_iff, text_eq_refl}

-- `strings.CutPrefix`; `none` is the `false` of its second result
unfoldable pub cut_prefix : Text → Text → Option Text
cut_prefix s [] = some s
cut_prefix [] (p ∷ ps) = none
cut_prefix (c ∷ s) (p ∷ ps) = let rest = cut_prefix s ps in if c == p then rest else none

unfoldable pub has_prefix : Text → Text → Bool
unfolding cut_prefix
has_prefix s p = elim (cut_prefix s p) [ none ↦ false | some _ ↦ true ]

unfoldable pub trim_prefix : Text → Text → Text
unfolding cut_prefix
trim_prefix s p = elim (cut_prefix s p) [ none ↦ s | some rest ↦ rest ]

-- The text before a suffix, if `s` ends so.
unfoldable pub cut_suffix : Text → Text → Option Text
unfolding text_eq
cut_suffix [] t = if text_eq [] t then some [] else none
cut_suffix (c ∷ s) t =
    let rest = cut_suffix s t in
    if text_eq (c ∷ s) t then some [] else elim rest [ none ↦ none | some r ↦ some (c ∷ r) ]

unfoldable pub has_suffix : Text → Text → Bool
unfolding cut_suffix
has_suffix s t = elim (cut_suffix s t) [ none ↦ false | some _ ↦ true ]

unfoldable pub trim_suffix : Text → Text → Text
unfolding cut_suffix
trim_suffix s t = elim (cut_suffix s t) [ none ↦ s | some rest ↦ rest ]

pub cut_prefix_sound : (s p : Text) {r : Text} → cut_prefix s p ≡ some r → s ≡ p ++ r
unfolding cut_prefix
cut_prefix_sound s [] h = ground arith
cut_prefix_sound [] (p ∷ ps) h = ground arith
cut_prefix_sound (c ∷ s) (p ∷ ps) {r} h = ground (arith, cut_prefix_sound s ps {r = r})

pub cut_prefix-append : (p r : Text) → cut_prefix (p ++ r) p ≡ some r
unfolding cut_prefix
cut_prefix-append [] r = refl
cut_prefix-append (p ∷ ps) r = ground (arith, cut_prefix-append ps r)

pub has_prefix-append : (p r : Text) → has_prefix (p ++ r) p ≡ true
unfolding has_prefix
has_prefix-append p r = rw (cut_prefix-append p r, has_prefix)

pub trim_prefix-append : (p r : Text) → trim_prefix (p ++ r) p ≡ r
unfolding trim_prefix
trim_prefix-append p r = rw (cut_prefix-append p r, trim_prefix)

-- A text that has the prefix is the prefix and what trimming leaves.
pub trim_prefix_split : (s p : Text) → has_prefix s p ≡ true → s ≡ p ++ trim_prefix s p
unfolding has_prefix trim_prefix
trim_prefix_split s p h = elim (Option-cases (cut_prefix s p)) [
  | inl missing ↦ ground arith
  | inr (r, found) ↦ rw (found, trim_prefix) (cut_prefix_sound s p found)
]

pub cut_suffix_sound : (s t : Text) {r : Text} → cut_suffix s t ≡ some r → s ≡ r ++ t
unfolding cut_suffix
cut_suffix_sound [] t {r} h = ground (arith, text_eq_iff [] t)
cut_suffix_sound (c ∷ s) t {r} h = elim (Option-cases (cut_suffix s t)) [
  | inl missing ↦ ground (arith, text_eq_iff (c ∷ s) t)
  | inr (q, found) ↦ ground (arith, text_eq_iff (c ∷ s) t, cut_suffix_sound s t found)
]

not-text_eq_longer : (c : ℕ) (r t : Text) → text_eq (c ∷ (r ++ t)) t ≡ false
not-text_eq_longer c r t = elim (Bool-cases (text_eq (c ∷ (r ++ t)) t)) [
  | inl same ↦
      absurd
        (omega (arith, ap length ((text_eq_iff (c ∷ (r ++ t)) t).0 same), length-append {0} r t))
  | inr differs ↦ differs
]

cut_suffix_self : (t : Text) → cut_suffix t t ≡ some []
unfolding cut_suffix
cut_suffix_self [] = refl
cut_suffix_self (c ∷ t) = ground (arith, text_eq_refl (c ∷ t))

pub cut_suffix-append : (r t : Text) → cut_suffix (r ++ t) t ≡ some r
unfolding cut_suffix
cut_suffix-append [] t = cut_suffix_self t
cut_suffix-append (c ∷ r) t = ground (arith, not-text_eq_longer c r t, cut_suffix-append r t)

pub has_suffix-append : (r t : Text) → has_suffix (r ++ t) t ≡ true
unfolding has_suffix
has_suffix-append r t = rw (cut_suffix-append r t, has_suffix)

pub trim_suffix-append : (r t : Text) → trim_suffix (r ++ t) t ≡ r
unfolding trim_suffix
trim_suffix-append r t = rw (cut_suffix-append r t, trim_suffix)

-- A text that has the suffix is what trimming leaves and the suffix.
pub trim_suffix_split : (s t : Text) → has_suffix s t ≡ true → s ≡ trim_suffix s t ++ t
unfolding has_suffix trim_suffix
trim_suffix_split s t h = elim (Option-cases (cut_suffix s t)) [
  | inl missing ↦ ground arith
  | inr (r, found) ↦ rw (found, trim_suffix) (cut_suffix_sound s t found)
]

-- `strings.Contains`
unfoldable pub contains : Text → Text → Bool
contains [] t = has_prefix [] t
contains (c ∷ s) t = let rest = contains s t in if has_prefix (c ∷ s) t then true else rest
