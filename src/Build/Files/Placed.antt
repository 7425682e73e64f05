-- ===== src/Build/Files/Placed.antt =====
-- What is read after a file was put in place, under its name and under the others.
use credential_helper.Base.{ℕ, ◌≡◌, ◌≢◌, none, some, [], arith, Option-cases, inl, inr}
use credential_helper.Text.{Text, text_eq_iff, text_eq_refl}
use credential_helper.Dict.{lookup, lookup-insert}
use credential_helper.Errors.{ok, Result-cases}
use credential_helper.Build.Files.{
  Files, Calls, read, IsSound, link, open_file, create, write, create_from, link_or_copy,
}

-- The name does not stand for the file of that number yet.
IsSound-not :
    (files : Files) (path : Text) (i : ℕ)
    → IsSound files
    → lookup path files.names ≡ some i
    → i ≢ files.next
IsSound-not files path i sound there = omega (arith, sound path i there)

module _ (calls : Calls) (files : Files) where
  pub create_from-kept :
      (dst : Text) (content : Files → Text) (other : Text)
      → IsSound files
      → lookup dst files.names ≡ none
      → other ≢ dst
      → read other (create_from calls dst content files).1 ≡ read other files
  unfolding create_from create write
  create_from-kept dst content other sound fresh apart =
      elim (Option-cases (lookup other files.names)) [
        | inl missing ↦ ground (
          arith,
          fresh,
          missing,
          lookup-insert dst other files.next files.names,
          text_eq_iff dst other,
        )
        | inr (i, there) ↦ ground (
          arith,
          fresh,
          there,
          lookup-insert dst other files.next files.names,
          text_eq_iff dst other,
          IsSound-not files other i sound there,
        )
      ]

  pub create_from-IsSound :
      (dst : Text) (content : Files → Text)
      → IsSound files
      → IsSound (create_from calls dst content files).1
  unfolding create_from create write
  create_from-IsSound dst content sound path i there =
      ground (arith, there, lookup-insert dst path files.next files.names, sound path i)

  link-kept :
      (src dst other : Text) {files' : Files}
      → lookup dst files.names ≡ none
      → other ≢ dst
      → link calls src dst files ≡ some files'
      → read other files' ≡ read other files
  unfolding link
  link-kept src dst other {files'} fresh apart linked =
      elim (Option-cases (lookup src files.names)) [
        | inl missing ↦ ground (arith, missing)
        | inr (i, there) ↦
            ground
              (arith, there, fresh, lookup-insert dst other i files.names, text_eq_iff dst other)
      ]

  link-placed :
      (src dst : Text) {files' : Files}
      → link calls src dst files ≡ some files'
      → (content : Text) × (read dst files' ≡ some content) × (read src files' ≡ some content)
  unfolding link
  link-placed src dst {files'} linked = elim (Option-cases (lookup src files.names)) [
    | inl missing ↦ absurd (ground (arith, missing))
    | inr (i, there) ↦ (
      files.contents i,
      ground (arith, there, lookup-insert dst dst i files.names, text_eq_refl dst),
      ground (arith, there, lookup-insert dst src i files.names),
    )
  ]

  link-IsSound :
      (src dst : Text) {files' : Files}
      → IsSound files
      → link calls src dst files ≡ some files'
      → IsSound files'
  unfolding link
  link-IsSound src dst {files'} sound linked path j there =
      elim (Option-cases (lookup src files.names)) [
        | inl missing ↦ absurd (ground (arith, missing))
        | inr (i, at) ↦
            ground
              (arith, there, at, lookup-insert dst path i files.names, sound path j, sound src i)
      ]

  copy-placed :
      (src dst : Text) (i : ℕ)
      → IsSound files
      → lookup src files.names ≡ some i
      → lookup dst files.names ≡ none
      → (create_from calls dst (λ now. now.contents i) files).0 ≡ ok tt
      → (read dst (create_from calls dst (λ now. now.contents i) files).1 ≡ some (files.contents i))
  unfolding create_from create write
  copy-placed src dst i sound there fresh good = ground (
    arith,
    fresh,
    there,
    lookup-insert dst dst files.next files.names,
    text_eq_refl dst,
    IsSound-not files src i sound there,
  )

  -- A file that is put under a new name reads there as its source reads.
  pub link_or_copy-placed :
      (src dst : Text)
      → IsSound files
      → lookup dst files.names ≡ none
      → (link_or_copy calls src dst files).0 ≡ ok tt
      → (content : Text) × (read dst (link_or_copy calls src dst files).1 ≡ some content)
        × (read src (link_or_copy calls src dst files).1 ≡ some content)
  unfolding link_or_copy open_file
  link_or_copy-placed src dst sound fresh good = elim (Option-cases (link calls src dst files)) [
    | inr (files', linked) ↦
        let (content, at_dst, at_src) = link-placed src dst linked in
        (content, ground (arith, linked, at_dst), ground (arith, linked, at_src))
    | inl refused ↦ elim (Option-cases (lookup src files.names)) [
      | inl missing ↦ absurd (ground (arith, refused, missing))
      | inr (i, there) ↦ elim (Option-cases (calls.open_error src)) [
        | inr (e, failed) ↦ absurd (ground (arith, refused, there, failed))
        | inl opens ↦
            let apart : src ≢ dst = ground (arith, there, fresh) in
            (
              files.contents i,
              ground (arith, refused, there, opens, copy-placed src dst i sound there fresh),
              ground (
                arith,
                refused,
                there,
                opens,
                create_from-kept dst (λ now. now.contents i) src sound fresh apart,
              ),
            )
      ]
    ]
  ]

  -- Whether it is put there or not, what is under another name stays.
  pub link_or_copy-kept :
      (src dst other : Text)
      → IsSound files
      → lookup dst files.names ≡ none
      → other ≢ dst
      → read other (link_or_copy calls src dst files).1 ≡ read other files
  unfolding link_or_copy
  link_or_copy-kept src dst other sound fresh apart =
      elim (Option-cases (link calls src dst files)) [
        | inr (files', linked) ↦ ground (arith, linked, link-kept src dst other fresh apart linked)
        | inl refused ↦ elim (Result-cases (open_file calls src files)) [
          | inr (e, failed) ↦ ground (arith, refused, failed)
          | inl (i, opens) ↦ ground (
            arith,
            refused,
            opens,
            create_from-kept dst (λ now. now.contents i) other sound fresh apart,
          )
        ]
      ]

  pub link_or_copy-IsSound :
      (src dst : Text) → IsSound files → IsSound (link_or_copy calls src dst files).1
  unfolding link_or_copy
  link_or_copy-IsSound src dst sound path j there = elim (Option-cases (link calls src dst files)) [
    | inr (files', linked) ↦ ground (arith, there, linked, link-IsSound src dst sound linked path j)
    | inl refused ↦ elim (Result-cases (open_file calls src files)) [
      | inr (e, failed) ↦ ground (arith, there, refused, failed, sound path j)
      | inl (i, opens) ↦ ground (
        arith,
        there,
        refused,
        opens,
        create_from-IsSound dst (λ now. now.contents i) sound path j,
      )
    ]
  ]

  -- Where the new name already stands for the source's file, the file is emptied, under both names.
  pub link_or_copy_again :
      (src dst : Text) (i : ℕ)
      → lookup src files.names ≡ some i
      → lookup dst files.names ≡ some i
      → calls.open_error src ≡ none
      → calls.create_error dst files ≡ none
      → calls.write_error [] ≡ none
      → ((link_or_copy calls src dst files).0 ≡ ok tt)
        × (read src (link_or_copy calls src dst files).1 ≡ some [])
        × (read dst (link_or_copy calls src dst files).1 ≡ some [])
  unfolding link_or_copy link open_file create_from create write
  link_or_copy_again src dst i at_src at_dst opens creates writes =
      (ground arith, ground arith, ground arith)
