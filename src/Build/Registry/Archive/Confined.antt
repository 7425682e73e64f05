-- ===== src/Build/Registry/Archive/Confined.antt =====
-- Where the extraction of an archive can write.
use credential_helper.Base.{
  ℕ, ◌≡◌, ◌≢◌, ◌≤◌, ◌<◌, refl, sym, ap, subst, ◌∙◌, Bool, none, some, List, [], ◌∷◌, ◌++◌,
  append_assoc, arith, All, inl, inr, Option-cases,
}
use credential_helper.Text.{Text, text_eq_iff}
use credential_helper.Text.Parts.{split}
use credential_helper.Text.Path.{up, element, walk, shown, is_abs, join_path}
use credential_helper.Text.Path.Walk.{walk-append, skips, ups, downs, seen, push-skip, push-down}
use credential_helper.Text.Path.Laws.{join_path-two}
use credential_helper.Dict.{lookup, lookup-insert}
use credential_helper.Errors.{Result, ok, err, Result-cases}
use credential_helper.Build.Files.{Files, Calls, mkdir, create, write, set_contents}
use credential_helper.Build.Registry.Archive.{TarEntry, extract_file}

-- The path has the elements of the directory first, and no `..` after them.
abbrev pub IsBelow : Text → Text → Type 0
IsBelow dst path =
    (more : List Text) × (path ≡ shown (is_abs dst) (more ++ walk (is_abs dst) [] (split b'/' dst)))

-- no element of the name is `..`
abbrev pub HasNoUps : Text → Type 0
HasNoUps name = All (λ c. element c ≢ up) (split b'/' name)

walk_down :
    (rooted : Bool) (stack cs : List Text)
    → All (λ c. element c ≢ up) cs
    → (more : List Text) × (walk rooted stack cs ≡ more ++ stack)
unfolding walk
walk_down rooted stack [] h = ([], refl)
walk_down rooted stack (c ∷ cs) (h, hs) = elim (seen c) [
  | skips e ↦
      let (more, deeper) = walk_down rooted stack cs hs in
      (more, ap (λ s. walk rooted s cs) (push-skip rooted stack c e) ∙ deeper)
  | ups e ↦ absurd (h e)
  | downs e ↦
      let (more, deeper) = walk_down rooted (c ∷ stack) cs hs in
      (
        more ++ (c ∷ []),
        ap (λ s. walk rooted s cs) (push-down rooted stack c e)
            ∙ (deeper ∙ sym (append_assoc more (c ∷ []) stack)),
      )
]

pub join_path-IsBelow :
    (dst name : Text) → dst ≢ [] → HasNoUps name → IsBelow dst (join_path (dst ∷ name ∷ []))
join_path-IsBelow dst name filled h =
    let rooted = is_abs dst in
    let (more, deeper) = walk_down rooted (walk rooted [] (split b'/' dst)) (split b'/' name) h in
    (
      more,
      join_path-two dst name filled
          ∙ ap (shown rooted) (walk-append rooted [] (split b'/' dst) (split b'/' name) ∙ deeper),
    )

-- Only new files below the directory are written: the files that were there, and the names
-- outside, are as before.
pub record IsConfined (dst : Text) (before after : Files) : Type 0 where
  pub grows : before.next ≤ after.next
  pub outside :
      (path : Text) → ¬ IsBelow dst path → lookup path after.names ≡ lookup path before.names
  pub inside :
      (path : Text) (i : ℕ) → IsBelow dst path → lookup path after.names ≡ some i → before.next ≤ i
  pub contents : (i : ℕ) → i < before.next → after.contents i ≡ before.contents i

module _ (calls : Calls) (dst : Text) (before files : Files) where
  create-IsConfined :
      (path : Text)
      → IsBelow dst path
      → IsConfined dst before files
      → IsConfined dst before (create calls path files).1
  unfolding create
  create-IsConfined path below h = record {
    grows = ground (arith, h.grows);
    outside = λ other out. ground (
      arith,
      h.outside other out,
      lookup-insert path other files.next files.names,
      text_eq_iff path other,
      out_ne other out,
    );
    inside = λ other i below' there. ground (
      arith,
      h.grows,
      there,
      h.inside other i below',
      lookup-insert path other files.next files.names,
    );
    contents = λ i old. elim (Option-cases (lookup path files.names)) [
      | inl new ↦ ground (arith, old, new, h.grows, h.contents i old)
      | inr (j, there) ↦ ground (arith, old, there, h.inside path j below there, h.contents i old)
    ];
  }
    where
      out_ne : (other : Text) → ¬ IsBelow dst other → path ≢ other
      out_ne other out same = out (subst (IsBelow dst) same below)

  pub create-above :
      (path : Text) {i : ℕ}
      → IsBelow dst path
      → IsConfined dst before files
      → (create calls path files).0 ≡ ok i
      → before.next ≤ i
  unfolding create
  create-above path {i} below h made = elim (Option-cases (lookup path files.names)) [
    | inl new ↦ ground (arith, new, h.grows)
    | inr (j, there) ↦ ground (arith, there, h.inside path j below there)
  ]

set_contents-IsConfined :
    (dst : Text) (before files : Files) (i : ℕ) (content : Text)
    → before.next ≤ i
    → IsConfined dst before files
    → IsConfined dst before (set_contents i content files)
set_contents-IsConfined dst before files i content above h = record {
  grows = h.grows;
  outside = h.outside;
  inside = h.inside;
  contents = λ j old. ground (arith, above, old, h.contents j old);
}

module _ (calls : Calls) (dst : Text) (before : Files) where
  write-IsConfined :
      (i : ℕ) (content : Text) (files : Files)
      → before.next ≤ i
      → IsConfined dst before files
      → IsConfined dst before (write calls i content files).1
  unfolding write
  write-IsConfined i content files above h =
      elim (calls.write_error content)
        as (λ w.
          IsConfined dst before
            (elim w as (λ _. Result (Unit {0}) × Files) [
              | some (e, written) ↦ (err e, set_contents i written files)
              | none ↦ (ok tt, set_contents i content files)
            ]).1) [
              | some (e, written) ↦ set_contents-IsConfined dst before files i written above h
              | none ↦ set_contents-IsConfined dst before files i content above h
            ]

  pub extract_file-IsConfined :
      (path : Text) (entry : TarEntry) (files : Files)
      → IsBelow dst path
      → IsConfined dst before files
      → IsConfined dst before (extract_file calls path entry files).1
  unfolding extract_file
  extract_file-IsConfined path entry files below h =
      let h' = create-IsConfined calls dst before files path below h in
      let files' = (create calls path files).1 in
      elim (Result-cases (create calls path files).0) [
        | inr (e, failed) ↦ move (ground (arith, failed)) h'
        | inl (i, made) ↦
            let above = create-above calls dst before files path below h made in
            elim (Option-cases entry.content_error) [
              | inr (e, breaks) ↦
                  move (ground (arith, made, breaks))
                    (set_contents-IsConfined dst before files' i entry.content above h')
              | inl reads ↦
                  let h'' = write-IsConfined i entry.content files' above h' in
                  elim (Result-cases (write calls i entry.content files').0) [
                    | inr (e, failed) ↦ move (ground (arith, made, reads, failed)) h''
                    | inl (done, wrote) ↦ move (ground (arith, made, reads, wrote)) h''
                  ]
            ]
      ]
    where
      move :
          {last : Files}
          → (extract_file calls path entry files).1 ≡ last
          → IsConfined dst before last
          → IsConfined dst before (extract_file calls path entry files).1
      move same confined = subst (IsConfined dst before) (sym same) confined

  pub mkdir-IsConfined :
      (path : Text) (files : Files)
      → IsConfined dst before files
      → IsConfined dst before (mkdir calls path files).1
  mkdir-IsConfined path files h = record {
    grows = ground (arith, h.grows);
    outside = λ p out. ground (arith, h.outside p out);
    inside = λ p i below there. ground (arith, h.inside p i below, there);
    contents = λ i old. ground (arith, h.contents i old);
  }
