-- ===== src/Dict.antt =====
-- Go's `map[string]V`, as an association list with one pair for each key. A missing key reads as
-- `none`; the program's loops over maps do not depend on the order.
use credential_helper.Base.{
  ◌≡◌, refl, Bool, not, Option, none, some, List, [], ◌∷◌, arith, if◌then◌else◌,
}
use credential_helper.Text.{Text, text_eq, text_eq_iff}

abbrev pub Dict {ℓ} : Type ℓ → Type ℓ
Dict V = List (Text × V)

module _ {ℓ} {V : Type ℓ} where
  -- `m[k]`, with its `ok`
  unfoldable pub lookup : Text → Dict V → Option V
  lookup k [] = none
  lookup k ((j, v) ∷ m) = if text_eq j k then some v else lookup k m

  -- `m[k] = v`
  unfoldable pub insert : Text → V → Dict V → Dict V
  insert k v [] = (k, v) ∷ []
  insert k v ((j, w) ∷ m) = if text_eq j k then (j, v) ∷ m else (j, w) ∷ insert k v m

  -- the pairs that a loop with `delete` leaves
  unfoldable pub keep : (Text → V → Bool) → Dict V → Dict V
  keep p [] = []
  keep p ((j, v) ∷ m) = let rest = keep p m in if p j v then (j, v) ∷ rest else rest

  pub lookup-insert :
      (k j : Text) (v : V) (m : Dict V)
      → lookup j (insert k v m) ≡ (if text_eq k j then some v else lookup j m)
  unfolding lookup insert
  lookup-insert k j v [] = refl
  lookup-insert k j v ((i, w) ∷ m) =
      ground (arith, text_eq_iff k j, text_eq_iff i k, text_eq_iff i j, lookup-insert k j v m)

  -- one pair for each key
  abbrev pub IsMap : Dict V → Type ℓ
  IsMap [] = Unit
  IsMap ((j, v) ∷ m) = (lookup j m ≡ none) × IsMap m

  pub insert-IsMap : (k : Text) (v : V) (m : Dict V) → IsMap m → IsMap (insert k v m)
  unfolding insert lookup
  insert-IsMap k v [] h = (refl, tt)
  insert-IsMap k v ((j, w) ∷ m) (fresh, h) =
      ground (arith, insert-IsMap k v m h, lookup-insert k j v m, text_eq_iff j k, text_eq_iff k j)

  -- what is read of a key after a loop that deletes the pairs that fail a test
  abbrev pub kept : (Text → V → Bool) → Text → Option V → Option V
  kept p k none = none
  kept p k (some v) = if p k v then some v else none

  pub lookup-keep :
      (p : Text → V → Bool) (k : Text) (m : Dict V)
      → IsMap m
      → lookup k (keep p m) ≡ kept p k (lookup k m)
  unfolding lookup keep
  lookup-keep p k [] h = refl
  lookup-keep p k ((j, v) ∷ m) (fresh, h) = ground (arith, lookup-keep p k m h, text_eq_iff j k)

  pub keep-IsMap : (p : Text → V → Bool) (m : Dict V) → IsMap m → IsMap (keep p m)
  unfolding keep
  keep-IsMap p [] h = tt
  keep-IsMap p ((j, v) ∷ m) (fresh, h) = ground (arith, keep-IsMap p m h, lookup-keep p j m h)

  -- `delete(m, k)`
  abbrev pub removed : Text → Dict V → Dict V
  removed k m = keep (λ j v. not (text_eq j k)) m

  pub lookup-removed :
      (k j : Text) (m : Dict V)
      → lookup j (removed k m) ≡ (if text_eq j k then none else lookup j m)
  unfolding lookup keep
  lookup-removed k j [] = ground arith
  lookup-removed k j ((i, v) ∷ m) =
      ground (arith, lookup-removed k j m, text_eq_iff i k, text_eq_iff i j, text_eq_iff j k)
