-- ===== src/Build/Workspace/Patched.antt =====
-- What the module file of the workspace becomes.
use credential_helper.Base.{
  ◌≡◌, ◌↔◌, ap, ◌∙◌, subst, none, some, [], ◌∷◌, ◌++◌, arith, inl, inr, Option-cases,
}
use credential_helper.Text.{Text}
use credential_helper.Text.Affix.{cut_prefix, cut_prefix_sound, cut_prefix-append}
use credential_helper.Errors.{ok}
use credential_helper.Build.Workspace.{cut, patched_module, start_marker, end_marker}

-- The marker is nowhere in `s ++ t` before `t`.
unfoldable pub IsFirst : Text → Text → Text → Type 0
IsFirst marker [] t = Unit
IsFirst marker (c ∷ s) t = (cut_prefix (c ∷ (s ++ t)) marker ≡ none) × IsFirst marker s t

cut_sound :
    (m marker before after : Text)
    → cut m marker ≡ some (before, after)
    → (m ≡ before ++ (marker ++ after)) × IsFirst marker before (marker ++ after)
unfolding cut IsFirst
cut_sound [] marker before after h = elim (Option-cases (cut_prefix [] marker)) [
  | inl missing ↦ absurd (ground (arith, missing))
  | inr (rest, found) ↦
      let none_before : [] ≡ before = ground (arith, found) in
      (
        ground (arith, found, cut_prefix_sound [] marker found),
        subst (λ b. IsFirst marker b (marker ++ after)) none_before tt,
      )
]
cut_sound (c ∷ s) marker before after h = elim (Option-cases (cut_prefix (c ∷ s) marker)) [
  | inr (rest, found) ↦
      let none_before : [] ≡ before = ground (arith, found) in
      (
        ground (arith, found, cut_prefix_sound (c ∷ s) marker found),
        subst (λ b. IsFirst marker b (marker ++ after)) none_before tt,
      )
  | inl later ↦ elim (Option-cases (cut s marker)) [
    | inl missing ↦ absurd (ground (arith, later, missing))
    | inr ((before', after'), found) ↦
        let (whole, first) = cut_sound s marker before' after' found in
        let heads : c ∷ before' ≡ before = ground (arith, later, found) in
        let ends : after' ≡ after = ground (arith, later, found) in
        (
          ground (arith, heads, ends, whole),
          subst (λ b. IsFirst marker b (marker ++ after)) heads
              (
                subst (λ t. cut_prefix (c ∷ t) marker ≡ none)
                    (whole ∙ ap (λ a. before' ++ (marker ++ a)) ends) later,
                subst (λ a. IsFirst marker before' (marker ++ a)) ends first,
              ),
        )
  ]
]

cut_complete :
    (marker before after : Text)
    → IsFirst marker before (marker ++ after)
    → cut (before ++ (marker ++ after)) marker ≡ some (before, after)
unfolding cut IsFirst
cut_complete marker [] after h = go (marker ++ after) (cut_prefix-append marker after)
  where
    go : (m : Text) → cut_prefix m marker ≡ some after → cut m marker ≡ some ([], after)
    go [] found = ground (arith, found)
    go (c ∷ s) found = ground (arith, found)
cut_complete marker (c ∷ before) after (h, hs) =
    ground (arith, h, cut_complete marker before after hs)

-- The module file is patched exactly if both markers are in it: what is before the first start
-- marker stays, then comes the dependency, and then what is after the first end marker.
pub patched_module_iff :
    (module_data dep_data patched : Text)
    → (patched_module module_data dep_data ≡ ok patched) ↔ (
        (before : Text) × (rest : Text) × (head : Text) × (after : Text) × (module_data
          ≡ before ++ (start_marker ++ rest))
        × IsFirst start_marker before (start_marker ++ rest)
        × (module_data ≡ head ++ (end_marker ++ after))
        × IsFirst end_marker head (end_marker ++ after)
        × (patched ≡ before ++ dep_data ++ after))
unfolding patched_module
patched_module_iff module_data dep_data patched = (
  λ h. elim (Option-cases (cut module_data start_marker)) [
    | inl missing ↦ absurd (ground (arith, missing))
    | inr ((before, rest), found) ↦ elim (Option-cases (cut module_data end_marker)) [
      | inl missing ↦ absurd (ground (arith, found, missing))
      | inr ((head, after), found') ↦
          let (starts, first) = cut_sound module_data start_marker before rest found in
          let (ends, first') = cut_sound module_data end_marker head after found' in
          (before, rest, head, after, starts, first, ends, first', ground (arith, found, found'))
    ]
  ],
  λ (before, rest, head, after, starts, first, ends, first', is). ground (
    arith,
    ap (λ m. cut m start_marker) starts ∙ cut_complete start_marker before rest first,
    ap (λ m. cut m end_marker) ends ∙ cut_complete end_marker head after first',
    is,
  ),
)
