-- ===== src/Text/Path/Walk.antt =====
-- Walking the elements of a path that is not rooted, from any place.
use credential_helper.Base.{
  ◌≡◌, ◌≢◌, refl, ap, sym, subst, ◌∙◌, Bool, false, List, [], ◌∷◌, ◌++◌, arith, All,
}
use credential_helper.Text.{Text, text_eq}
use credential_helper.Text.Path.{Element, skip, up, down, element, push, push_up, walk, reversed}

pub walk-append :
    (r : Bool) (stack cs ds : List Text) → walk r stack (cs ++ ds) ≡ walk r (walk r stack cs) ds
unfolding walk
walk-append r stack [] ds = refl
walk-append r stack (c ∷ cs) ds = walk-append r (push r stack c) cs ds

walk-reversed-cons :
    (r : Bool) (stack m : List Text) (c : Text)
    → walk r stack (reversed (c ∷ m)) ≡ push r (walk r stack (reversed m)) c
unfolding reversed walk
walk-reversed-cons r stack m c = walk-append r stack (reversed m) (c ∷ [])

dot_dot : element (b'.' ∷ b'.' ∷ []) ≡ up
unfolding element text_eq
dot_dot = refl

pub data Seen (c : Text) : Type 0 where
  skips : element c ≡ skip → Seen c
  ups : element c ≡ up → Seen c
  downs : element c ≡ down → Seen c

pub seen : (c : Text) → Seen c
seen c = go (element c) refl
  where
    go : (e : Element) → element c ≡ e → Seen c
    go skip h = skips h
    go up h = ups h
    go down h = downs h

pub push-skip :
    (r : Bool) (stack : List Text) (c : Text) → element c ≡ skip → push r stack c ≡ stack
push-skip r stack c e = ground (arith, e)

pub push-up :
    (r : Bool) (stack : List Text) (c : Text) → element c ≡ up → push r stack c ≡ push_up r stack
push-up r stack c e = ground (arith, e)

pub push-down :
    (r : Bool) (stack : List Text) (c : Text) → element c ≡ down → push r stack c ≡ c ∷ stack
push-down r stack c e = ground (arith, e)

pub push_up-up :
    (r : Bool) (stack : List Text) (c : Text)
    → element c ≡ up
    → push_up r (c ∷ stack) ≡ (b'.' ∷ b'.' ∷ []) ∷ c ∷ stack
push_up-up r stack c e = ground (arith, e)

push_up-down :
    (r : Bool) (stack : List Text) (c : Text) → element c ≡ down → push_up r (c ∷ stack) ≡ stack
push_up-down r stack c e = ground (arith, e)

-- `walk` stacks no element that does nothing.
unfoldable pub IsSolid : List Text → Type 0
IsSolid = All (λ c. element c ≢ skip)

module _ (r : Bool) (stack : List Text) where
  placed : List Text → List Text
  placed m = walk r stack (reversed m)

  step_up : (m : List Text) → placed ((b'.' ∷ b'.' ∷ []) ∷ m) ≡ push_up r (placed m)
  unfolding placed
  step_up m = walk-reversed-cons r stack m (b'.' ∷ b'.' ∷ []) ∙ push-up r (placed m) _ dot_dot

  placed-push_up : (m : List Text) → IsSolid m → placed (push_up false m) ≡ push_up r (placed m)
  unfolding IsSolid placed
  placed-push_up [] h = step_up []
  placed-push_up (top ∷ m) (h, hs) = elim (seen top) [
    | skips e ↦ absurd (h e)
    | ups e ↦ ap placed (push_up-up false m _ e) ∙ step_up (top ∷ m)
    | downs e ↦
        ap placed (push_up-down false m _ e)
        ∙ sym (ap (push_up r) (top_of e) ∙ push_up-down r (placed m) _ e)
  ]
    where
      top_of : element top ≡ down → placed (top ∷ m) ≡ top ∷ placed m
      top_of e = walk-reversed-cons r stack m top ∙ push-down r (placed m) _ e

  placed-push :
      (m : List Text) (c : Text) → IsSolid m → placed (push false m c) ≡ push r (placed m) c
  unfolding placed
  placed-push m c h = elim (seen c) [
    | skips e ↦ ap placed (push-skip false m _ e) ∙ sym (push-skip r (placed m) _ e)
    | ups e ↦
        ap placed (push-up false m _ e) ∙ (placed-push_up m h ∙ sym (push-up r (placed m) _ e))
    | downs e ↦ ap placed (push-down false m _ e) ∙ walk-reversed-cons r stack m c
  ]

push_up-IsSolid : (m : List Text) → IsSolid m → IsSolid (push_up false m)
unfolding IsSolid
push_up-IsSolid [] h = (ground (arith, dot_dot), tt)
push_up-IsSolid (top ∷ m) (h, hs) = elim (seen top) [
  | skips e ↦ absurd (h e)
  | ups e ↦ subst IsSolid (sym (push_up-up false m _ e)) (ground (arith, dot_dot), (h, hs))
  | downs e ↦ subst IsSolid (sym (push_up-down false m _ e)) hs
]

push-IsSolid : (m : List Text) (c : Text) → IsSolid m → IsSolid (push false m c)
unfolding IsSolid
push-IsSolid m c h = elim (seen c) [
  | skips e ↦ subst IsSolid (sym (push-skip false m _ e)) h
  | ups e ↦ subst IsSolid (sym (push-up false m _ e)) (push_up-IsSolid m h)
  | downs e ↦ subst IsSolid (sym (push-down false m _ e)) (ground (arith, e), h)
]

-- Walking the elements of a cleaned path leads where walking the path leads.
pub walk-walk :
    (r : Bool) (stack m cs : List Text)
    → IsSolid m
    → walk r stack (reversed (walk false m cs)) ≡ walk r (walk r stack (reversed m)) cs
unfolding walk placed
walk-walk r stack m [] h = refl
walk-walk r stack m (c ∷ cs) h =
    walk-walk r stack (push false m c) cs (push-IsSolid m c h)
    ∙ ap (λ t. walk r t cs) (placed-push r stack m c h)
