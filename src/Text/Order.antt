-- ===== src/Text/Order.antt =====
-- `slices.Sort` on strings, as an insertion sort: equal strings are the same, so every sort gives
-- the same list.
use mathlib.Core.List.{Mem, Perm, Pairwise, Pairwise-singleton, forall_mem-cons}
use mathlib.Core.List.Perm
use mathlib.Core.Bool.{Bool-set}
use credential_helper.Base.{
  ◌≡◌, refl, Bool, true, false, List, [], ◌∷◌, arith, ltb, ◌==◌, ◌||◌, ◌&&◌, if◌then◌else◌,
  Bool-cases, inl, inr,
}
use credential_helper.Text.{Text}

-- `s <= t`, which compares bytes
unfoldable pub text_leb : Text → Text → Bool
text_leb [] t = true
text_leb (x ∷ s) [] = false
text_leb (x ∷ s) (y ∷ t) = let rest = text_leb s t in ltb x y || (x == y && rest)

abbrev pub IsSorted : List Text → Type 0
IsSorted = Pairwise (λ s t. text_leb s t ≡ true)

text_leb_trans : (s t u : Text) → text_leb s t ≡ true → text_leb t u ≡ true → text_leb s u ≡ true
unfolding text_leb
text_leb_trans [] t u h k = refl
text_leb_trans (x ∷ s) [] u h k = absurd (ground arith)
text_leb_trans (x ∷ s) (y ∷ t) [] h k = absurd (ground arith)
text_leb_trans (x ∷ s) (y ∷ t) (z ∷ u) h k = ground (arith, text_leb_trans s t u)

text_leb_total : (s t : Text) → text_leb s t ≡ false → text_leb t s ≡ true
unfolding text_leb
text_leb_total [] t h = absurd (ground arith)
text_leb_total (x ∷ s) [] h = refl
text_leb_total (x ∷ s) (y ∷ t) h = ground (arith, text_leb_total s t)

inserted : Text → List Text → List Text
inserted s [] = s ∷ []
inserted s (t ∷ ts) = let rest = inserted s ts in if text_leb s t then s ∷ t ∷ ts else t ∷ rest

unfoldable pub sort : List Text → List Text
unfolding inserted
sort [] = []
sort (s ∷ ss) = inserted s (sort ss)

inserted-perm : (s : Text) (ts : List Text) → Perm (inserted s ts) (s ∷ ts)
unfolding inserted
inserted-perm s [] = Perm.rfl
inserted-perm s (t ∷ ts) = elim (Bool-cases (text_leb s t)) [
  | inl before ↦ rw (before, inserted) Perm.rfl
  | inr after ↦
      rw (after, inserted) (Perm.trans (Perm.cons t (inserted-perm s ts)) (Perm.swap s t ts))
]

-- The sorted list has the same items.
pub sort-perm : (ss : List Text) → Perm (sort ss) ss
unfolding sort
sort-perm [] = Perm.rfl
sort-perm (s ∷ ss) = Perm.trans (inserted-perm s (sort ss)) (Perm.cons s (sort-perm ss))

abbrev IsBelow : Text → List Text → Type 0
IsBelow s ts = (t : Text) → Mem t ts → text_leb s t ≡ true

IsBelow-cons :
    (s t : Text) (ts : List Text) → text_leb s t ≡ true → IsBelow s ts → IsBelow s (t ∷ ts)
IsBelow-cons s t ts h hs = (forall_mem-cons (λ x. Bool-set _ _)).1 (h, hs)

IsBelow-perm : (s : Text) {ts us : List Text} → Perm ts us → IsBelow s us → IsBelow s ts
IsBelow-perm s p h t m = h t ((Perm.mem_iff p).0 m)

-- below the head of a sorted list is below all of it
IsBelow-head :
    (s t : Text) (ts : List Text) → text_leb s t ≡ true → IsSorted (t ∷ ts) → IsBelow s (t ∷ ts)
IsBelow-head s t ts h (Pairwise.cons below _) =
    IsBelow-cons s t ts h λ u m. text_leb_trans s t u h (below u m)

inserted-IsSorted : (s : Text) {ts : List Text} → IsSorted ts → IsSorted (inserted s ts)
unfolding inserted
inserted-IsSorted s Pairwise.nil = Pairwise-singleton _ s
inserted-IsSorted s (Pairwise.cons {a = t} {l = ts} below sorted) =
    elim (Bool-cases (text_leb s t)) [
      | inl before ↦
          let whole = Pairwise.cons below sorted in
          rw (before, inserted) (Pairwise.cons (IsBelow-head s t ts before whole) whole)
      | inr after ↦
          rw (after, inserted)
            (Pairwise.cons
              (IsBelow-perm t (inserted-perm s ts)
                (IsBelow-cons t s ts (text_leb_total s t after) below))
              (inserted-IsSorted s sorted))
    ]

pub sort-IsSorted : (ss : List Text) → IsSorted (sort ss)
unfolding sort
sort-IsSorted [] = Pairwise.nil
sort-IsSorted (s ∷ ss) = inserted-IsSorted s (sort-IsSorted ss)
