-- ===== src/Config/Glob/Matches.antt =====
-- What it means for a text to match a pattern: `*` stands for any bytes, the others for themselves.
use credential_helper.Base.{ℕ, ◌≡◌, ◌≢◌, refl, [], ◌∷◌}
use credential_helper.Text.{Text}

pub data Matches : Text → Text → Type 0 where
  done : Matches [] []
  byte : {c : ℕ} {p s : Text} → c ≢ b'*' → Matches p s → Matches (c ∷ p) (c ∷ s)
  leave : {w : ℕ} {p s : Text} → w ≡ b'*' → Matches p s → Matches (w ∷ p) s
  take : {w c : ℕ} {p s : Text} → w ≡ b'*' → Matches (w ∷ p) s → Matches (w ∷ p) (c ∷ s)

module _ {p : Text} where
  pub must_take :
      {w c : ℕ} {s : Text}
      → w ≡ b'*'
      → Matches (w ∷ p) (c ∷ s)
      → ¬ Matches p (c ∷ s)
      → Matches (w ∷ p) s
  must_take e (byte h d) no_match = absurd (h e)
  must_take e (leave _ d) no_match = absurd (no_match d)
  must_take e (take _ d) no_match = d

  pub star_at_end : {w : ℕ} → Matches (w ∷ p) [] → Matches p []
  star_at_end (leave _ d) = d

  pub byte_inv : {c d : ℕ} {s : Text} → c ≢ b'*' → Matches (c ∷ p) (d ∷ s) → (d ≡ c) × Matches p s
  byte_inv h (byte _ m) = (refl, m)
  byte_inv h (leave e m) = absurd (h e)
  byte_inv h (take e m) = absurd (h e)

  pub not-nil : {c : ℕ} → c ≢ b'*' → ¬ Matches (c ∷ p) []
  not-nil h (leave e m) = h e

  pub two_stars :
      {v w : ℕ} {s : Text} → v ≡ b'*' → w ≡ b'*' → Matches (v ∷ w ∷ p) s → Matches (w ∷ p) s
  two_stars f e (byte h d) = absurd (h f)
  two_stars f e (leave _ d) = d
  two_stars f e (take _ d) = take e (two_stars f e d)

  -- Where a byte pattern occurs somewhere, what follows it occurs after the first byte.
  pub drop_byte :
      {w c d : ℕ} {s : Text} → w ≡ b'*' → c ≢ b'*' → Matches (w ∷ c ∷ p) (d ∷ s) → Matches (w ∷ p) s
  drop_byte {s = s} e h (byte k m) = absurd (k e)
  drop_byte {s = s} e h (leave _ m) = leave e (byte_inv h m).1
  drop_byte {s = []} e h (take _ (leave _ m)) = absurd (not-nil h m)
  drop_byte {s = x ∷ s} e h (take _ m) = take e (drop_byte e h m)
