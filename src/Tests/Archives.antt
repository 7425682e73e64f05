-- ===== src/Tests/Archives.antt =====
-- The extraction of an archive.
use credential_helper.Base.{
  ◌≡◌, ◌≢◌, refl, sym, ap, subst, ◌∙◌, false, none, some, List, [], ◌∷◌, ◌++◌, arith,
}
use credential_helper.Text.{Text, lit, text_eq, text_eq_iff}
use credential_helper.Text.Affix.{cut_prefix, has_prefix}
use credential_helper.Text.Parts.{split, join}
use credential_helper.Text.Path.{element, walk, reversed, shown, is_abs, clean, join_path}
use credential_helper.Text.Path.Names.{ext}
use credential_helper.Dict.{lookup}
use credential_helper.Errors.{ok}
use credential_helper.Build.Files.{Files, read, open_file, create, write}
use credential_helper.Build.Registry.Archive.{
  TarEntry, regular, Tar, Formats, open_tar, open_archive, stripped, renamed,
  extract_source_archive, extract_entries, extract_entry, extract_file,
}
use credential_helper.Build.Registry.Archive.Confined.{IsBelow, HasNoUps}
use credential_helper.Build.Registry.Archive.Extracted.{extract_source_archive-there}
use credential_helper.Build.Registry.Archive.Kept.{AreSafe, extract_source_archive-read}
use credential_helper.Tests.Builds.{nothing_fails, one_file}

abbrev archived : Text → TarEntry
archived name = record { name = name; kind = regular; content = lit "x"; content_error = none }

abbrev tar_of : Text → Tar
tar_of name = record { entries = archived name ∷ []; ends = none }

abbrev formats : Text → Formats
formats name = record { tar = λ content. tar_of name; gzip = λ content. ok (tar_of name) }

abbrev files : Files
files = one_file (lit "s.tar") (lit "archive")

opens :
    (name : Text) → open_archive nothing_fails (formats name) (lit "s.tar") files ≡ ok (tar_of name)
unfolding open_archive open_file open_tar lookup text_eq ext lit
opens name = refl

-- An entry below `..` is written outside of the destination, over the archive itself.
escapes :
    read
      (lit "s.tar")
      (extract_source_archive nothing_fails
        (formats (lit "a/../../s.tar"))
        (lit "s.tar")
        (lit "src")
        []
        files).1
    ≡ some (lit "x")
unfolding extract_source_archive extract_entries extract_entry extract_file create write stripped
    open_archive open_file open_tar lookup text_eq ext lit join_path clean walk reversed element
    has_prefix cut_prefix split join
escapes = refl

reversed-append : (cs : List Text) (c : Text) → reversed (cs ++ (c ∷ [])) ≡ c ∷ reversed cs
unfolding reversed
reversed-append [] c = refl
reversed-append (d ∷ cs) c = ap (λ l. l ++ (d ∷ [])) (reversed-append cs c)

src_first : (cs : List Text) → join b'/' (lit "src" ∷ cs) ≢ lit "s.tar"
unfolding join lit
src_first [] = ground arith
src_first (c ∷ cs) = ground arith

below-src : (path : Text) → IsBelow (lit "src") path → path ≢ lit "s.tar"
below-src path (more, is) same = src_first (reversed more) (go more (sym is ∙ same))
  where
    stack : walk (is_abs (lit "src")) [] (split b'/' (lit "src")) ≡ lit "src" ∷ []
    stack = unfold walk in unfold split in unfold element in unfold text_eq in unfold lit in refl

    not_rooted : is_abs (lit "src") ≡ false
    not_rooted = unfold has_prefix in unfold cut_prefix in unfold lit in refl

    go :
        (cs : List Text)
        → shown (is_abs (lit "src")) (cs ++ walk (is_abs (lit "src")) [] (split b'/' (lit "src")))
          ≡ lit "s.tar"
        → join b'/' (lit "src" ∷ reversed cs) ≡ lit "s.tar"
    go cs h =
        ap (join b'/') (sym (reversed-append cs (lit "src")))
        ∙ (shown_join cs
            ∙ (sym (
                  ap (λ s. shown (is_abs (lit "src")) (cs ++ s)) stack
                  ∙ ap (λ r. shown r (cs ++ (lit "src" ∷ []))) not_rooted)
                ∙ h))
      where
        shown_join :
            (cs : List Text)
            → join b'/' (reversed (cs ++ (lit "src" ∷ []))) ≡ shown false (cs ++ (lit "src" ∷ []))
        shown_join [] = refl
        shown_join (c ∷ cs) = refl

nothing_below : (path : Text) → IsBelow (lit "src") path → lookup path files.names ≡ none
unfolding lookup
nothing_below path below = ground (arith, below-src path below, text_eq_iff (lit "s.tar") path)

safe : AreSafe (lit "pkg") (archived (lit "pkg/a/b") ∷ [])
safe = (λ name h. subst HasNoUps (is_name name h) no_ups, tt)
  where
    is_name : (name : Text) → stripped (lit "pkg") (lit "pkg/a/b") ≡ renamed name → lit "a/b" ≡ name
    is_name name h = unfold stripped in unfold cut_prefix in unfold lit in ground arith

    no_ups : HasNoUps (lit "a/b")
    no_ups =
        unfold split in
        unfold element in unfold text_eq in unfold lit in (ground arith, (ground arith, tt))

extract_source_archive-read_example :
    read
      (lit "s.tar")
      (extract_source_archive nothing_fails
        (formats (lit "pkg/a/b"))
        (lit "s.tar")
        (lit "src")
        (lit "pkg")
        files).1
    ≡ read (lit "s.tar") files
extract_source_archive-read_example =
    extract_source_archive-read nothing_fails (formats (lit "pkg/a/b")) (lit "s.tar") (lit "src")
      (lit "pkg") files (tar_of (lit "pkg/a/b")) (unfold lit in ground arith)
      (λ path i there. unfold lookup in ground arith) nothing_below (opens (lit "pkg/a/b")) safe
      (lit "s.tar") (λ below. below-src (lit "s.tar") below refl)

extracts :
    (extract_source_archive nothing_fails
      (formats (lit "pkg/a/b"))
      (lit "s.tar")
      (lit "src")
      (lit "pkg")
      files).0
    ≡ ok tt
unfolding extract_source_archive extract_entries extract_entry extract_file create write stripped
    open_archive open_file open_tar lookup text_eq ext lit join_path clean walk reversed element
    has_prefix cut_prefix split join
extracts = refl

is_stripped : stripped (lit "pkg") (lit "pkg/a/b") ≡ renamed (lit "a/b")
unfolding stripped cut_prefix lit
is_stripped = refl

extract_source_archive-there_example :
    read
      (join_path (lit "src" ∷ lit "a/b" ∷ []))
      (extract_source_archive nothing_fails
        (formats (lit "pkg/a/b"))
        (lit "s.tar")
        (lit "src")
        (lit "pkg")
        files).1
    ≡ some (lit "x")
extract_source_archive-there_example =
    extract_source_archive-there nothing_fails (formats (lit "pkg/a/b")) (lit "s.tar") (lit "src")
      (lit "pkg") files [] [] (archived (lit "pkg/a/b")) none (lit "a/b")
      (unfold lit in ground arith) (λ path i there. unfold lookup in ground arith) nothing_below
      (opens (lit "pkg/a/b")) safe refl is_stripped tt extracts
