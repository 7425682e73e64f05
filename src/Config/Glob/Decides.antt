-- ===== src/Config/Glob/Decides.antt =====
-- `globMatch` stops within its fuel, and answers whether the text matches the pattern.
use credential_helper.Base.{
  ℕ, zero, suc, ◌+◌, ◌*◌, ◌≤◌, ◌<◌, ◌≡◌, ◌↔◌, refl, subst, sym, ◌≢◌, Bool, true, false, Option,
  none, some, [], ◌∷◌, arith, length, if◌then◌else◌, ◌==◌,
}
use credential_helper.Text.{Text}
use credential_helper.Config.Glob.{star, glob_match}
use credential_helper.Config.Glob.Matches.{
  Matches, done, byte, leave, take, must_take, star_at_end, byte_inv, not-nil, two_stars, drop_byte,
}
use credential_helper.Config.Glob.Suffixes.{
  Back, retry, read_byte, suffix_loop, glob_loop-suffix_loop,
}

-- The run ended with an answer, and the answer is right about `G`.
abbrev Decides : Type 0 → Option Bool → Type 0
Decides G (some true) = G
Decides G (some false) = ¬ G
Decides G none = ⊥

if_Decides :
    (G : Type 0) (b : Bool) (x y : Option Bool)
    → (b ≡ true → Decides G x)
    → (b ≡ false → Decides G y)
    → Decides G (if b then x else y)
if_Decides G true x y f g = f refl
if_Decides G false x y f g = g refl

-- `G` is the question that was asked; every pattern in play is shorter than `k`.
module _ (G : Type 0) (k : ℕ) where
  -- what is known of the saved wildcard: the question is whether it matches there
  abbrev Saved : ℕ → Text → Text → Back → Type 0
  Saved m p s none = G → Matches p s
  Saved m p s (some ([], s0)) = ⊥
  Saved m p s (some (w ∷ p0, s0)) =
      (w ≡ star)
      × (G → Matches (w ∷ p0) s0)
      × (Matches (w ∷ p0) s0 → G)
      × (Matches p0 s0 → Matches p s)
      × (length s0 ≤ m)
      × (length p0 < k)

  record Inv (f m : ℕ) (p s : Text) (back : Back) : Type 0 where
    now : Matches p s → G
    later : G → Matches (star ∷ p) s
    saved : Saved m p s back
    shorter : length p < k
    in_text : length s ≤ m
    fuel : m * (k + 1) + length p < f

  -- at a wildcard the question becomes whether it matches here
  at_wildcard :
      {f m w : ℕ} {p s : Text}
      → w ≡ star
      → (G → Matches (w ∷ p) s)
      → (Matches (w ∷ p) s → G)
      → length s ≤ m
      → length p < k
      → m * (k + 1) + length p < f
      → Inv f m p s (some (w ∷ p, s))
  at_wildcard {w = w} {p = p} {s = s} e g h fits short fuel = record {
    now = λ d. h (leave e d);
    later = λ x. subst (λ v. Matches (v ∷ p) s) e (g x);
    saved = (e, g, h, λ d. d, fits, short);
    shorter = short;
    in_text = fits;
    fuel = fuel;
  }

  Saved-byte :
      (m c d : ℕ) (p s : Text) (back : Back)
      → c ≢ star
      → Saved m (c ∷ p) (d ∷ s) back
      → Saved m p s back
  Saved-byte m c d p s none ne h = λ g. (byte_inv ne (h g)).1
  Saved-byte m c d p s (some ([], s0)) ne h = h
  Saved-byte m c d p s (some (w ∷ p0, s0)) ne (e, g, h, down, fits, short) =
      (e, g, h, λ x. (byte_inv ne (down x)).1, fits, short)

  Inv-byte :
      {f m c d : ℕ} {p s : Text} {back : Back}
      → c ≢ star
      → d ≡ c
      → Inv (suc f) m (c ∷ p) (d ∷ s) back
      → Inv f m p s back
  Inv-byte {f} {m} {c} {d} {p} {s} {back} ne e i = record {
    now = λ x. i.now (subst (λ v. Matches (c ∷ p) (v ∷ s)) (sym e) (byte ne x));
    later = λ g. drop_byte refl ne (i.later g);
    saved = Saved-byte m c d p s back ne i.saved;
    shorter = omega arith;
    in_text = omega arith;
    fuel = omega arith;
  }

  abbrev Answers : ℕ → Type 0
  Answers f =
      (m : ℕ) (p s : Text) (back : Back) → Inv f m p s back → Decides G (suffix_loop f p s back)

  -- After a mismatch the saved wildcard takes one more byte, and is met again in the next round.
  failed-Decides :
      (f m : ℕ) (p s : Text) (back : Back)
      → ((g : ℕ) → f ≡ suc g → Answers g)
      → Inv (suc f) m p s back
      → ¬ Matches p s
      → Decides G (retry back (λ p' s'. suffix_loop f p' s' back))
  unfolding retry suffix_loop
  failed-Decides f m p s none ih i no_match = λ g. no_match (i.saved g)
  failed-Decides f m p s (some ([], s0)) ih i no_match = absurd i.saved
  failed-Decides f m p s (some (w ∷ p0, [])) ih i no_match =
      let (e, g, h, down, fits, short) = i.saved in λ x. no_match (down (star_at_end (g x)))
  failed-Decides f zero p s (some (w ∷ p0, x ∷ s0)) ih i no_match = absurd (omega arith)
  failed-Decides zero (suc m) p s (some (w ∷ p0, x ∷ s0)) ih i no_match = absurd (omega arith)
  failed-Decides (suc f) (suc m) p s (some (w ∷ p0, x ∷ s0)) ih i no_match =
      let (e, g, h, down, fits, short) = i.saved in
      let wild : (w == star) ≡ true = ground arith in
      rw wild (
        ih f refl m p0 s0 (some (w ∷ p0, s0)) (
          at_wildcard e (λ y. must_take e (g y) (λ d. no_match (down d))) (λ d. h (take e d))
            (omega arith) short (omega arith)))

  mismatch-Decides :
      (f m c d : ℕ) (p s : Text) (back : Back)
      → c ≢ star
      → Answers f
      → ((g : ℕ) → f ≡ suc g → Answers g)
      → Inv (suc f) m (c ∷ p) (d ∷ s) back
      → Decides G (
          if d == c then suffix_loop f p s back else retry back (λ p' s'. suffix_loop f p' s' back))
  mismatch-Decides f m c d p s back ne ih ih' i =
      if_Decides G (d == c) _ _ (λ h. ih m p s back (Inv-byte ne (ground arith) i))
        (λ h.
          failed-Decides f m (c ∷ p) (d ∷ s) back ih' i (λ x. ground (arith, (byte_inv ne x).0)))

  step-Decides : (f : ℕ) → Answers f → ((g : ℕ) → f ≡ suc g → Answers g) → Answers (suc f)
  unfolding suffix_loop read_byte
  step-Decides f ih ih' m [] [] back i = i.now done
  step-Decides f ih ih' m [] (d ∷ s) back i =
      failed-Decides f m [] (d ∷ s) back ih' i (λ x. elim x [ ])
  step-Decides f ih ih' m (c ∷ p) [] back i =
      if_Decides G (c == star) _ _
        (λ h.
          let e : c ≡ star = ground arith in
          ih m p [] (some (c ∷ p, [])) (
            at_wildcard e (λ g. two_stars refl e (i.later g)) i.now i.in_text (omega arith)
              (omega arith)))
        (λ h. failed-Decides f m (c ∷ p) [] back ih' i (not-nil (ground arith)))
  step-Decides f ih ih' m (c ∷ p) (d ∷ s) back i =
      if_Decides G (c == star) _ _
        (λ h.
          let e : c ≡ star = ground arith in
          ih m p (d ∷ s) (some (c ∷ p, d ∷ s)) (
            at_wildcard e (λ g. two_stars refl e (i.later g)) i.now i.in_text (omega arith)
              (omega arith)))
        (λ h. mismatch-Decides f m c d p s back (ground arith) ih ih' i)

  suffix_loop-Decides : (f : ℕ) → Answers f × ((g : ℕ) → f ≡ suc g → Answers g)
  suffix_loop-Decides zero = (λ m p s back i. absurd (omega arith), λ g e. absurd (omega arith))
  suffix_loop-Decides (suc f) =
      let (here, below) = suffix_loop-Decides f in
      (step-Decides f here below, λ g e. subst Answers (omega arith) here)

glob_match-Decides : (p s : Text) → Decides (Matches p s) (glob_match p s)
unfolding glob_match
glob_match-Decides p s = rw (glob_loop-suffix_loop p s) (
    (suffix_loop-Decides (Matches p s) (length p + 1) _).0 (length s) p s none (record {
      now = λ d. d;
      later = leave refl;
      saved = λ d. d;
      shorter = omega arith;
      in_text = omega arith;
      fuel = omega arith;
    }))

-- `globMatch` returns for every pattern and text, and returns true exactly if the text matches the
-- pattern, where `*` stands for any bytes and every other byte for itself.
pub glob_match_iff :
    (p s : Text) → (b : Bool) × (glob_match p s ≡ some b) × ((b ≡ true) ↔ Matches p s)
glob_match_iff p s = answer (glob_match p s) (glob_match-Decides p s)
  where
    answer :
        (r : Option Bool)
        → Decides (Matches p s) r
        → (b : Bool) × (r ≡ some b) × ((b ≡ true) ↔ Matches p s)
    answer (some true) d = (true, refl, (λ _. d, λ _. refl))
    answer (some false) d = (false, refl, (λ e. cc, λ m. absurd (d m)))
    answer none d = absurd d
