-- ===== src/Text/Parts/Laws.antt =====
-- Splitting a text that was put together from parts.
use credential_helper.Base.{
  ℕ, ◌≡◌, ◌≢◌, refl, ap, ◌∙◌, false, some, List, [], ◌∷◌, ◌++◌, arith, ◌==◌, All, Bool-cases, inl,
  inr, sym, subst, Option-cases,
}
use credential_helper.Text.{Text}
use credential_helper.Text.Parts.{split, join, split_first, push_head, split-ne-nil}

-- The byte does not occur in the text.
abbrev pub IsFree : ℕ → Text → Type 0
IsFree sep s = All (λ c. (c == sep) ≡ false) s

pub split_first-append :
    (sep : ℕ) (a b : Text) → IsFree sep a → split_first sep (a ++ sep ∷ b) ≡ some (a, b)
unfolding split_first
split_first-append sep [] b h = ground arith
split_first-append sep (c ∷ a) b (h, hs) = ground (arith, h, split_first-append sep a b hs)

pub split_first_sound :
    (sep : ℕ) (s a b : Text) → split_first sep s ≡ some (a, b) → (s ≡ a ++ sep ∷ b) × IsFree sep a
unfolding split_first
split_first_sound sep [] a b h = absurd (ground arith)
split_first_sound sep (c ∷ s) a b h = elim (Bool-cases (c == sep)) [
  | inl ends ↦ (ground (arith, ends), nil_free (ground (arith, ends)))
  | inr stays ↦ elim (Option-cases (split_first sep s)) [
    | inl missing ↦ absurd (ground (arith, stays, missing))
    | inr ((a', b'), found) ↦
        let (joined, free) = split_first_sound sep s a' b' found in
        let heads : a ≡ c ∷ a' = ground (arith, stays, found) in
        (ground (arith, stays, found, joined), subst (IsFree sep) (sym heads) (stays, free))
  ]
]
  where
    nil_free : a ≡ [] → IsFree sep a
    nil_free h = subst (IsFree sep) (sym h) tt

push_head-append :
    (c : ℕ) (parts more : List Text)
    → parts ≢ []
    → push_head c (parts ++ more) ≡ push_head c parts ++ more
push_head-append c [] more h = absurd (h refl)
push_head-append c (part ∷ parts) more h = refl

pub split-append : (sep : ℕ) (a b : Text) → split sep (a ++ sep ∷ b) ≡ split sep a ++ split sep b
unfolding split
split-append sep [] b = ground arith
split-append sep (c ∷ a) b = ground (
  arith,
  split-append sep a b,
  push_head-append c (split sep a) (split sep b) (split-ne-nil sep a),
)

push_head-IsFree :
    (sep c : ℕ) (parts : List Text)
    → (c == sep) ≡ false
    → All (IsFree sep) parts
    → All (IsFree sep) (push_head c parts)
push_head-IsFree sep c [] h hs = ((h, tt), tt)
push_head-IsFree sep c (part ∷ parts) h (k, ks) = ((h, k), ks)

pub split-IsFree : (sep : ℕ) (s : Text) → All (IsFree sep) (split sep s)
unfolding split
split-IsFree sep [] = (tt, tt)
split-IsFree sep (c ∷ s) = elim (Bool-cases (c == sep)) [
  | inl ends ↦ rw ends (tt, split-IsFree sep s)
  | inr stays ↦ rw stays (push_head-IsFree sep c (split sep s) stays (split-IsFree sep s))
]

pub split-free : (sep : ℕ) (s : Text) → IsFree sep s → split sep s ≡ s ∷ []
unfolding split
split-free sep [] h = refl
split-free sep (c ∷ s) (h, hs) = ground (arith, h, split-free sep s hs)

-- Splitting what was joined of parts without the separator gives the parts.
pub split-join :
    (sep : ℕ) (p : Text) (ps : List Text)
    → All (IsFree sep) (p ∷ ps)
    → split sep (join sep (p ∷ ps)) ≡ p ∷ ps
unfolding join
split-join sep p [] (h, hs) = split-free sep p h
split-join sep p (q ∷ ps) (h, hs) =
    split-append sep p (join sep (q ∷ ps))
    ∙ (ap (λ t. t ++ split sep (join sep (q ∷ ps))) (split-free sep p h)
        ∙ ap (λ t. p ∷ t) (split-join sep q ps hs))
