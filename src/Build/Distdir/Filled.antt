-- ===== src/Build/Distdir/Filled.antt =====
-- What the directory holds after a run.
use credential_helper.Base.{
  ◌≡◌, ◌≢◌, none, some, List, [], ◌∷◌, arith, All, inl, inr, false, ap, sym, subst, ℕ, ◌∙◌,
  Option-cases,
}
use credential_helper.Text.{Text, text_eq_refl}
use credential_helper.Dict.{lookup, insert, lookup-insert}
use credential_helper.Errors.{ok, Result-cases}
use credential_helper.Build.Files.{Files, Calls, read, IsSound, mkdir_all, link, link_or_copy}
use credential_helper.Build.Files.Placed.{
  link_or_copy-placed, link_or_copy-kept, link_or_copy-IsSound, link_or_copy_again,
}
use credential_helper.Build.Distdir.{DistdirEntry, entry_path, copy_entry, copy_entries, main}

module _ (distdir : Text) where
  -- The entries have different names, which nothing has yet.
  abbrev pub IsFresh : List DistdirEntry → Files → Type 0
  IsFresh [] files = Unit
  IsFresh (entry ∷ entries) files =
      (read (entry_path distdir entry) files ≡ none)
      × All (λ other. entry_path distdir other ≢ entry_path distdir entry) entries
      × IsFresh entries files

  -- The entry reads as its source.
  abbrev pub IsCopied : Files → DistdirEntry → Type 0
  IsCopied files entry =
      (content : Text) × (read (entry_path distdir entry) files ≡ some content)
      × (read entry.source_path files ≡ some content)

read-none : (path : Text) (files : Files) → read path files ≡ none → lookup path files.names ≡ none
read-none path files h = ground arith

module _ (calls : Calls) (distdir : Text) where
  IsFresh-copy_entry :
      (entry : DistdirEntry) (entries : List DistdirEntry) (files : Files)
      → IsSound files
      → read (entry_path distdir entry) files ≡ none
      → All (λ other. entry_path distdir other ≢ entry_path distdir entry) entries
      → IsFresh distdir entries files
      → IsFresh distdir entries (copy_entry calls distdir entry files).1
  IsFresh-copy_entry entry [] files sound fresh apart free = tt
  IsFresh-copy_entry entry (next ∷ entries) files sound fresh (apart, aparts)
        (free, others, frees) =
      (
        link_or_copy-kept calls files entry.source_path (entry_path distdir entry)
              (entry_path distdir next) sound (read-none _ files fresh) apart
            ∙ free,
        others,
        IsFresh-copy_entry entry entries files sound fresh aparts frees,
      )

  -- A file that is there reads the same after the loop.
  copy_entries-kept :
      (entries : List DistdirEntry) (files : Files) (path content : Text)
      → IsSound files
      → IsFresh distdir entries files
      → read path files ≡ some content
      → read path (copy_entries calls distdir entries files).1 ≡ some content
  unfolding copy_entries
  copy_entries-kept [] files path content sound fresh there = there
  copy_entries-kept (entry ∷ entries) files path content sound (fresh, apart, frees) there =
      let dst = entry_path distdir entry in
      let files' = (copy_entry calls distdir entry files).1 in
      let other : path ≢ dst = ground (arith, there, fresh) in
      let kept : read path files' ≡ some content =
        link_or_copy-kept calls files entry.source_path dst path sound (read-none _ files fresh)
          other
        ∙ there in
      elim (Result-cases (copy_entry calls distdir entry files).0) [
        | inr (e, failed) ↦ ground (arith, failed, kept)
        | inl (done, copied) ↦ ground (
          arith,
          copied,
          copy_entries-kept entries files' path content
              (link_or_copy-IsSound calls files entry.source_path dst sound)
              (IsFresh-copy_entry entry entries files sound fresh apart frees) kept,
        )
      ]

  copy_entries-IsCopied :
      (entries : List DistdirEntry) (files : Files)
      → IsSound files
      → IsFresh distdir entries files
      → (copy_entries calls distdir entries files).0 ≡ ok tt
      → All (IsCopied distdir (copy_entries calls distdir entries files).1) entries
  unfolding copy_entries
  copy_entries-IsCopied [] files sound fresh good = tt
  copy_entries-IsCopied (entry ∷ entries) files sound (fresh, apart, frees) good =
      let dst = entry_path distdir entry in
      let files' = (copy_entry calls distdir entry files).1 in
      let sound' = link_or_copy-IsSound calls files entry.source_path dst sound in
      let frees' = IsFresh-copy_entry entry entries files sound fresh apart frees in
      elim (Result-cases (copy_entry calls distdir entry files).0) [
        | inr (e, failed) ↦ absurd (ground (arith, failed))
        | inl (done, copied) ↦
            let (content, at_dst, at_src) =
              link_or_copy-placed calls files entry.source_path dst sound (read-none _ files fresh)
                copied in
            let last : (copy_entries calls distdir (entry ∷ entries) files).1
                ≡ (copy_entries calls distdir entries files').1 =
              ground (arith, copied) in
            let good' : (copy_entries calls distdir entries files').0 ≡ ok tt =
              ground (arith, copied) in
            subst (λ fs. All (IsCopied distdir fs) (entry ∷ entries)) (sym last)
              (
                (
                  content,
                  copy_entries-kept entries files' dst content sound' frees' at_dst,
                  copy_entries-kept entries files' entry.source_path content sound' frees' at_src,
                ),
                copy_entries-IsCopied entries files' sound' frees' good',
              )
      ]

IsFresh-mkdir_all :
    (calls : Calls) (distdir : Text) (entries : List DistdirEntry) (files : Files)
    → IsFresh distdir entries files
    → IsFresh distdir entries (mkdir_all calls distdir files).1
IsFresh-mkdir_all calls distdir [] files h = tt
IsFresh-mkdir_all calls distdir (entry ∷ entries) files (h, apart, hs) =
    (ground (arith, h), apart, IsFresh-mkdir_all calls distdir entries files hs)

-- After a run that ends well, each entry of the directory reads as its source does then, if no
-- two entries have the same path, nothing was at those paths before, and each name stood for a file.
pub main-IsCopied :
    (calls : Calls) (contents : List DistdirEntry) (distdir : Text) (files : Files)
    → IsSound files
    → IsFresh distdir contents files
    → (main calls contents (distdir ∷ []) files).0 ≡ ok tt
    → All (IsCopied distdir (main calls contents (distdir ∷ []) files).1) contents
unfolding main
main-IsCopied calls [] distdir files sound fresh good = tt
main-IsCopied calls (entry ∷ entries) distdir files sound fresh good =
    copy_entries-IsCopied calls distdir (entry ∷ entries) (mkdir_all calls distdir files).1
      (λ path i there. ground (arith, there, sound path i))
      (IsFresh-mkdir_all calls distdir (entry ∷ entries) files fresh) good

-- A run for one entry that is a hard link to its source already empties both.
main_again :
    (calls : Calls) (entry : DistdirEntry) (distdir : Text) (files : Files) (i : ℕ)
    → lookup entry.source_path files.names ≡ some i
    → lookup (entry_path distdir entry) files.names ≡ some i
    → calls.open_error entry.source_path ≡ none
    → ((now : Files) → calls.create_error (entry_path distdir entry) now ≡ none)
    → calls.write_error [] ≡ none
    → let (result, files') = main calls (entry ∷ []) (distdir ∷ []) files in
      (result ≡ ok tt)
      × (read entry.source_path files' ≡ some [])
      × (read (entry_path distdir entry) files' ≡ some [])
unfolding main copy_entries
main_again calls entry distdir files i at_src at_dst opens creates writes =
    let files' = (mkdir_all calls distdir files).1 in
    let (good, src, dst) =
      link_or_copy_again calls files' entry.source_path (entry_path distdir entry) i
        (ground (arith, at_src)) (ground (arith, at_dst)) opens (creates files') writes in
    (ground (arith, good), ground (arith, good, src), ground (arith, good, dst))

module _ (calls : Calls) (entry : DistdirEntry) (distdir : Text) (files : Files) where
  linked_names :
      (i : ℕ)
      → lookup entry.source_path files.names ≡ some i
      → lookup (entry_path distdir entry) files.names ≡ none
      → ((now : Files)
          → calls.link_refused entry.source_path (entry_path distdir entry) now ≡ false)
      → let files' = (main calls (entry ∷ []) (distdir ∷ []) files).1 in
        (files'.names ≡ insert (entry_path distdir entry) i files.names)
        × (files'.contents ≡ files.contents)
  unfolding main copy_entries link_or_copy link
  linked_names i at_src fresh links = elim (Option-cases (calls.mkdir_all_error distdir files)) [
    | inl made ↦ (
      ground (arith, at_src, fresh, made, links (mkdir_all calls distdir files).1),
      ground (arith, at_src, fresh, made, links (mkdir_all calls distdir files).1),
    )
    | inr (e, failed) ↦ (
      ground (arith, at_src, fresh, failed, links files),
      ground (arith, at_src, fresh, failed, links files),
    )
  ]

  -- The first of two runs for one entry keeps what is in the source, and the second ends well too
  -- and empties it, with the entry, if the entry's path is new and the calls for the two files do
  -- not fail.
  pub main_twice :
      (content : Text)
      → read entry.source_path files ≡ some content
      → lookup (entry_path distdir entry) files.names ≡ none
      → ((now : Files)
          → calls.link_refused entry.source_path (entry_path distdir entry) now ≡ false)
      → calls.open_error entry.source_path ≡ none
      → ((now : Files) → calls.create_error (entry_path distdir entry) now ≡ none)
      → calls.write_error [] ≡ none
      → let first = (main calls (entry ∷ []) (distdir ∷ []) files).1 in
        let (result, second) = main calls (entry ∷ []) (distdir ∷ []) first in
        (read entry.source_path first ≡ some content)
        × (result ≡ ok tt)
        × (read entry.source_path second ≡ some [])
        × (read (entry_path distdir entry) second ≡ some [])
  main_twice content there fresh links opens creates writes =
      let dst = entry_path distdir entry in
      elim (Option-cases (lookup entry.source_path files.names)) [
        | inl missing ↦ absurd (ground (arith, missing))
        | inr (i, at_src) ↦
            let (names, contents) = linked_names i at_src fresh links in
            let first = (main calls (entry ∷ []) (distdir ∷ []) files).1 in
            let at_src' : lookup entry.source_path first.names ≡ some i =
              ap (lookup entry.source_path) names
              ∙ ground (arith, at_src, lookup-insert dst entry.source_path i files.names) in
            let at_dst' : lookup dst first.names ≡ some i =
              ap (lookup dst) names
              ∙ ground (arith, lookup-insert dst dst i files.names, text_eq_refl dst) in
            let (good, src, dst') =
              main_again calls entry distdir first i at_src' at_dst' opens creates writes in
            (ground (arith, at_src, at_src', contents), good, src, dst')
      ]
