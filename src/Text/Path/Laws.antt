-- ===== src/Text/Path/Laws.antt =====
-- A path that was cleaned by itself stands for the same place below another one.
use credential_helper.Base.{
  ◌≡◌, ◌≢◌, refl, ap, sym, subst, ◌∙◌, Bool, false, List, [], ◌∷◌, ◌++◌, arith, All,
}
use credential_helper.Text.{Text, text_eq}
use credential_helper.Text.Affix.{has_prefix, cut_prefix}
use credential_helper.Text.Parts.{split, join}
use credential_helper.Text.Parts.Laws.{IsFree, split-append, split-IsFree, split-join}
use credential_helper.Text.Path.{
  Element, skip, up, down, element, push, push_up, walk, reversed, shown, is_abs, clean, join_path,
}
use credential_helper.Text.Path.Walk.{
  walk-append, skips, ups, downs, seen, push-skip, push-up, push-down, IsSolid, walk-walk,
}

IsFlat : List Text → Type 0
IsFlat = All (IsFree b'/')

push_up-IsFlat : (m : List Text) → IsFlat m → IsFlat (push_up false m)
unfolding IsFlat
push_up-IsFlat [] h = ((refl, (refl, tt)), tt)
push_up-IsFlat (top ∷ m) (h, hs) = go (element top)
  where
    go :
        (e : Element)
        → IsFlat (elim e as (λ _. List Text) [ up ↦ (b'.' ∷ b'.' ∷ []) ∷ top ∷ m | _ ↦ m ])
    go skip = hs
    go up = ((refl, (refl, tt)), (h, hs))
    go down = hs

push-IsFlat : (m : List Text) (c : Text) → IsFree b'/' c → IsFlat m → IsFlat (push false m c)
unfolding IsFlat
push-IsFlat m c free h = elim (seen c) [
  | skips e ↦ subst IsFlat (sym (push-skip false m _ e)) h
  | ups e ↦ subst IsFlat (sym (push-up false m _ e)) (push_up-IsFlat m h)
  | downs e ↦ subst IsFlat (sym (push-down false m _ e)) (free, h)
]

walk-IsFlat : (m cs : List Text) → IsFlat cs → IsFlat m → IsFlat (walk false m cs)
unfolding walk IsFlat
walk-IsFlat m [] free h = h
walk-IsFlat m (c ∷ cs) (free, frees) h =
    walk-IsFlat (push false m c) cs frees (push-IsFlat m c free h)

append-IsFlat : (cs ds : List Text) → IsFlat cs → IsFlat ds → IsFlat (cs ++ ds)
unfolding IsFlat
append-IsFlat [] ds h k = k
append-IsFlat (c ∷ cs) ds (h, hs) k = (h, append-IsFlat cs ds hs k)

reversed-IsFlat : (m : List Text) → IsFlat m → IsFlat (reversed m)
unfolding reversed IsFlat
reversed-IsFlat [] h = tt
reversed-IsFlat (c ∷ m) (h, hs) = append-IsFlat (reversed m) (c ∷ []) (reversed-IsFlat m hs) (h, tt)

split-join-append :
    (cs : List Text) (c : Text)
    → IsFlat (cs ++ (c ∷ []))
    → split b'/' (join b'/' (cs ++ (c ∷ []))) ≡ cs ++ (c ∷ [])
unfolding IsFlat
split-join-append [] c h = split-join b'/' c [] h
split-join-append (b ∷ cs) c h = split-join b'/' b (cs ++ (c ∷ [])) h

-- The elements of a relative path that was shown are those on its stack.
walk-shown :
    (r : Bool) (stack m : List Text)
    → IsFlat m
    → walk r stack (split b'/' (shown false m)) ≡ walk r stack (reversed m)
walk-shown r stack [] h =
    unfold walk in unfold reversed in unfold split in unfold element in unfold text_eq in refl
walk-shown r stack (c ∷ m) h = ap (walk r stack) (
    unfold reversed in
    split-join-append (reversed m) c (unfold reversed in reversed-IsFlat (c ∷ m) h))

is_abs-append : (c d : Text) → c ≢ [] → is_abs (c ++ d) ≡ is_abs c
unfolding has_prefix cut_prefix
is_abs-append [] d h = absurd (h refl)
is_abs-append (x ∷ c) d h = ground arith

pub join_path-two :
    (a b : Text)
    → a ≢ []
    → join_path (a ∷ b ∷ []) ≡ shown (is_abs a) (walk (is_abs a) [] (split b'/' a ++ split b'/' b))
unfolding join_path clean join
join_path-two [] b h = absurd (h refl)
join_path-two (x ∷ a) b h = cc (is_abs-append (x ∷ a) (b'/' ∷ b) h, split-append b'/' (x ∷ a) b)

-- A path below a directory may be cleaned before the directory is put in front.
pub join_path-join_path :
    (a s : Text)
    → a ≢ []
    → join_path (a ∷ join_path ((b'.' ∷ []) ∷ s ∷ []) ∷ []) ≡ join_path (a ∷ s ∷ [])
unfolding IsFlat IsSolid reversed walk
join_path-join_path a s h =
    ap (λ t. join_path (a ∷ t ∷ [])) relative
    ∙ (join_path-two a (shown false stack) h
        ∙ (ap (shown (is_abs a)) walked ∙ sym (join_path-two a s h)))
  where
    r : Bool
    r = is_abs a

    stack : List Text
    stack = walk false [] (split b'/' s)

    relative : join_path ((b'.' ∷ []) ∷ s ∷ []) ≡ shown false stack
    relative =
        join_path-two (b'.' ∷ []) s (ground arith)
        ∙ unfold has_prefix in
          unfold cut_prefix in
          unfold split in unfold walk in unfold element in unfold text_eq in refl

    walked :
        walk r [] (split b'/' a ++ split b'/' (shown false stack))
        ≡ walk r [] (split b'/' a ++ split b'/' s)
    walked =
        walk-append r [] (split b'/' a) (split b'/' (shown false stack))
        ∙ (walk-shown r _ stack (walk-IsFlat [] (split b'/' s) (split-IsFree b'/' s) tt)
            ∙ (walk-walk r _ [] (split b'/' s) tt
                ∙ sym (walk-append r [] (split b'/' a) (split b'/' s))))
