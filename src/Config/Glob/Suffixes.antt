-- ===== src/Config/Glob/Suffixes.antt =====
-- The loop of `globMatch` on what is left of the pattern and of the text, in place of indices.
use native.Mathlib.Numerals.{add-one}
use credential_helper.Base.{
  ℕ, zero, suc, ◌+◌, ◌≤◌, ◌<◌, ◌≡◌, refl, ap, ◌∙◌, ◌&&◌, ltb, leb, Bool, true, false, Option, none,
  some, [], ◌∷◌, arith, ◌⊎◌, inl, inr, length, get_elem?, drop, if◌then◌else◌, ◌==◌,
}
use credential_helper.Text.{Text}
use credential_helper.Config.Glob.{star, glob_loop}

-- the pattern from the last wildcard on, and the text that it was tried at
abbrev pub Back : Type 0
Back = Option (Text × Text)

unfoldable pub retry : Back → (Text → Text → Option Bool) → Option Bool
retry none next = some false
retry (some (p, [])) next = some false
retry (some (p, x ∷ s)) next = next p s

unfoldable pub read_byte : ℕ → Text → Option Bool → (Text → Option Bool) → Option Bool
read_byte c [] failed next = failed
read_byte c (d ∷ s) failed next = if d == c then next s else failed

unfoldable pub suffix_loop : ℕ → Text → Text → Back → Option Bool
suffix_loop zero p s back = none
suffix_loop (suc f) [] [] back = some true
suffix_loop (suc f) [] (d ∷ s) back = retry back (λ p' s'. suffix_loop f p' s' back)
suffix_loop (suc f) (c ∷ p) s back =
    let wildcard = suffix_loop f p s (some (c ∷ p, s)) in
    let failed = retry back (λ p' s'. suffix_loop f p' s' back) in
    if c == star then wildcard else read_byte c s failed (λ s'. suffix_loop f p s' back)

-- Either the index is past the end, or an element stands there.
abbrev Cut : Text → ℕ → Type 0
Cut xs i =
    ((get_elem? xs i ≡ none) × (drop i xs ≡ []) × (length xs ≤ i))
    ⊎ ((x : ℕ) × (get_elem? xs i ≡ some x) × (drop i xs ≡ x ∷ drop (i + 1) xs) × (i < length xs))

cut : (xs : Text) (i : ℕ) → Cut xs i
cut [] zero = inl (refl, refl, omega arith)
cut [] (suc i) = inl (refl, refl, omega arith)
cut (x ∷ xs) zero = inr (x, refl, refl, omega arith)
cut (x ∷ xs) (suc i) = elim (cut xs i) [
  | inl (missing, ended, past) ↦ inl (missing, ended, omega arith)
  | inr (y, there, shape, inside) ↦ inr (y, there, rw add-one (rw add-one at shape), omega arith)
]

module _ (pat cand : Text) where
  abbrev pub saved : ℕ → ℕ → Back
  saved next_pi zero = none
  saved next_pi (suc n) = some (drop next_pi pat, drop n cand)

  saved-add-one : (i n : ℕ) → saved i (n + 1) ≡ some (drop i pat, drop n cand)
  saved-add-one i n = rw add-one

  -- the `if` at the end of the loop, given what the loop does with the saved indices
  saved_again :
      (f i n : ℕ)
      → glob_loop pat cand f i n i n ≡ suffix_loop f (drop i pat) (drop n cand) (saved i n)
      → (if ltb 0 n && leb n (length cand) then glob_loop pat cand f i n i n else some false)
        ≡ retry (saved i n) (λ p' s'. suffix_loop f p' s' (saved i n))
  unfolding retry
  saved_again f i zero h = ground arith
  saved_again f i (suc n) h = elim (cut cand n) [
    | inl (missing, ended, past) ↦ rw (ended, saved) (ground arith)
    | inr (x, there, shape, inside) ↦
        let shape' : drop n cand ≡ x ∷ drop (suc n) cand = shape ∙ rw add-one in
        let now : leb (suc n) (length cand) ≡ true = ground arith in
        rw (now, shape', retry) (ground arith)
  ]

  pub glob_loop-suffix_loop :
      (f pi ci i n : ℕ)
      → glob_loop pat cand f pi ci i n ≡ suffix_loop f (drop pi pat) (drop ci cand) (saved i n)
  unfolding glob_loop suffix_loop read_byte
  glob_loop-suffix_loop zero pi ci i n = refl
  glob_loop-suffix_loop (suc f) pi ci i n =
      let failed = saved_again f i n (glob_loop-suffix_loop f i n i n) in
      let wildcard : glob_loop pat cand f (pi + 1) ci pi (ci + 1)
          ≡ suffix_loop f (drop (pi + 1) pat) (drop ci cand) (some (drop pi pat, drop ci cand)) =
        glob_loop-suffix_loop f (pi + 1) ci pi (ci + 1)
        ∙ ap (suffix_loop f (drop (pi + 1) pat) (drop ci cand)) (saved-add-one pi ci) in
      let byte = glob_loop-suffix_loop f (pi + 1) (ci + 1) i n in
      elim (cut pat pi) [
        | inl (no_c, ended, past) ↦ elim (cut cand ci) [
          | inl (no_d, ended', past') ↦ rw (ended, ended') (ground arith)
          | inr (d, there, shape, inside) ↦ rw (ended, shape) (ground arith)
        ]
        | inr (c, at_c, shape, inside) ↦ elim (cut cand ci) [
          | inl (no_d, ended', past') ↦
              let here = rw (shape, ended') at wildcard in rw (shape, ended') (ground (arith, here))
          | inr (d, at_d, shape', inside') ↦
              let here = rw (shape, shape') at wildcard in
              rw (shape, shape') (ground (arith, here, byte))
        ]
      ]
