-- ===== src/Build/Registry/Archive/Extracted.antt =====
-- What the extraction of an archive puts in place.
use credential_helper.Base.{
  ℕ, ◌≡◌, ◌≢◌, ◌≤◌, refl, sym, ap, subst, ◌∙◌, Option, none, some, List, [], ◌∷◌, ◌++◌, All, arith,
  inl, inr, Option-cases,
}
use credential_helper.Text.{Text}
use credential_helper.Text.Path.{join_path}
use credential_helper.Dict.{lookup}
use credential_helper.Errors.{Error, ok, failure, Result-cases}
use credential_helper.Build.Files.{Files, Calls, read, IsSound, mkdir}
use credential_helper.Build.Registry.Archive.{
  TarEntry, EntryKind, directory, regular, special, Stripped, invalid, passed_over, out_of_range,
  renamed, stripped, Formats, open_archive, extract_file, extract_entry, extract_entries,
  extract_source_archive,
}
use credential_helper.Build.Registry.Archive.Confined.{
  IsBelow, IsConfined, join_path-IsBelow, mkdir-IsConfined,
}
use credential_helper.Build.Registry.Archive.Apart.{IsApart, Holds}
use credential_helper.Build.Registry.Archive.Kept.{AreSafe}
use credential_helper.Build.Registry.Archive.Kept.{extract_entry-IsConfined, start-IsConfined}
use credential_helper.Build.Registry.Archive.Written.{
  extract_file-IsApart, extract_file-other, extract_file-Holds,
}

-- no entry is extracted under that path
abbrev pub AreElsewhere : Text → Text → Text → List TarEntry → Type 0
AreElsewhere dst strip_prefix path entries =
    All
      (λ e.
        (name : Text)
        → stripped strip_prefix e.name ≡ renamed name
        → path ≢ join_path (dst ∷ name ∷ []))
      entries

module _ (calls : Calls) (dst strip_prefix : Text) (before : Files) where
  mkdir-Holds :
      (at path content : Text) (n : ℕ) (files : Files)
      → Holds before.next n path content files
      → Holds before.next n path content (mkdir calls at files).1
  mkdir-Holds at path content n files h = record {
    above = h.above;
    named = ground (arith, h.named);
    filled = ground (arith, h.filled);
  }

  mkdir-IsApart :
      (at : Text) (files : Files)
      → IsApart before.next files
      → IsApart before.next (mkdir calls at files).1
  mkdir-IsApart at files h = record {
    sound = λ p i there. ground (arith, there, h.sound p i);
    apart = λ p q i above at_p at_q. ground (arith, above, at_p, at_q, h.apart p q i);
  }

  -- What holds before an entry holds after it, if it holds after a folder is made, and after a
  -- file is extracted.
  extract_entry-cases :
      (P : Files → Type 0) (entry : TarEntry) (files : Files)
      → P files
      → ((at : Text) → P (mkdir calls at files).1)
      → ((name : Text)
          → stripped strip_prefix entry.name ≡ renamed name
          → P (extract_file calls (join_path (dst ∷ name ∷ [])) entry files).1)
      → P (extract_entry calls dst strip_prefix entry files).1
  unfolding extract_entry
  extract_entry-cases P entry files same made written =
      go (stripped strip_prefix entry.name) entry.kind refl
    where
      go :
          (s : Stripped) (kind : EntryKind)
          → stripped strip_prefix entry.name ≡ s
          → P
              (elim s as (λ _. Option Error × Files) [
                | invalid ↦ (some (failure "invalid file path in archive"), files)
                | passed_over ↦ (none, files)
                | out_of_range ↦ (some (failure "slice bounds out of range"), files)
                | renamed name ↦ elim kind as (λ _. Option Error × Files) [
                  | directory ↦ (none, (mkdir calls (join_path (dst ∷ name ∷ [])) files).1)
                  | special ↦ (some (failure "unsupported file type"), files)
                  | regular ↦ extract_file calls (join_path (dst ∷ name ∷ [])) entry files
                ]
              ]).1
      go invalid kind is = same
      go passed_over kind is = same
      go out_of_range kind is = same
      go (renamed name) directory is = made (join_path (dst ∷ name ∷ []))
      go (renamed name) special is = same
      go (renamed name) regular is = written name is

  module _ (filled : dst ≢ []) where
    extract_entry-IsApart :
        (entry : TarEntry) (files : Files)
        → before.next ≤ files.next
        → IsApart before.next files
        → IsApart before.next (extract_entry calls dst strip_prefix entry files).1
    extract_entry-IsApart entry files grows h =
        extract_entry-cases (IsApart before.next) entry files h (λ at. mkdir-IsApart at files h)
          (λ name is.
            extract_file-IsApart calls before.next (join_path (dst ∷ name ∷ [])) entry files grows
              h)

    extract_entry-other :
        (path content : Text) (n : ℕ) (entry : TarEntry) (files : Files)
        → ((name : Text)
            → stripped strip_prefix entry.name ≡ renamed name
            → path ≢ join_path (dst ∷ name ∷ []))
        → IsApart before.next files
        → Holds before.next n path content files
        → Holds before.next n path content (extract_entry calls dst strip_prefix entry files).1
    extract_entry-other path content n entry files elsewhere h holds =
        extract_entry-cases (Holds before.next n path content) entry files holds
          (λ at. mkdir-Holds at path content n files holds)
          (λ name is.
            extract_file-other calls before.next (join_path (dst ∷ name ∷ [])) entry files path
              content n (elsewhere name is) h holds)

    extract_entries-other :
        (path content : Text) (n : ℕ) (entries : List TarEntry) (ends : Option Error)
        (files : Files)
        → AreElsewhere dst strip_prefix path entries
        → AreSafe strip_prefix entries
        → IsConfined dst before files
        → IsApart before.next files
        → Holds before.next n path content files
        → Holds before.next n path content
            (extract_entries calls dst strip_prefix entries ends files).1
    unfolding extract_entries
    extract_entries-other path content n [] none files elsewhere safe c h holds = holds
    extract_entries-other path content n [] (some e) files elsewhere safe c h holds = holds
    extract_entries-other path content n (entry ∷ entries) ends files (elsewhere, elsewheres)
          (safe, safes) c h holds =
        let files' = (extract_entry calls dst strip_prefix entry files).1 in
        let holds' = extract_entry-other path content n entry files elsewhere h holds in
        elim (Option-cases (extract_entry calls dst strip_prefix entry files).0) [
          | inr (e, stops) ↦ subst (Holds before.next n path content) (ground (arith, stops)) holds'
          | inl goes_on ↦ subst (Holds before.next n path content) (ground (arith, goes_on)) (
              extract_entries-other path content n entries ends files' elsewheres safes
                (extract_entry-IsConfined calls dst before strip_prefix filled entry files safe c)
                (extract_entry-IsApart entry files c.grows h) holds')
        ]

    extract_entries-there :
        (earlier later : List TarEntry) (entry : TarEntry) (name : Text) (ends : Option Error)
        (files : Files)
        → entry.kind ≡ regular
        → stripped strip_prefix entry.name ≡ renamed name
        → AreElsewhere dst strip_prefix (join_path (dst ∷ name ∷ [])) later
        → AreSafe strip_prefix (earlier ++ entry ∷ later)
        → IsConfined dst before files
        → IsApart before.next files
        → (extract_entries calls dst strip_prefix (earlier ++ entry ∷ later) ends files).0 ≡ ok tt
        → read
            (join_path (dst ∷ name ∷ []))
            (extract_entries calls dst strip_prefix (earlier ++ entry ∷ later) ends files).1
          ≡ some entry.content
    unfolding extract_entries
    extract_entries-there [] later entry name ends files is_file is elsewhere (safe, safes) c h
          good =
        let path = join_path (dst ∷ name ∷ []) in
        let files' = (extract_entry calls dst strip_prefix entry files).1 in
        elim (Option-cases (extract_entry calls dst strip_prefix entry files).0) [
          | inr (e, stops) ↦ absurd (ground (arith, stops))
          | inl goes_on ↦
              let same : extract_entry calls dst strip_prefix entry files
                  ≡ extract_file calls path entry files =
                unfold extract_entry in ground (arith, is_file, is) in
              let (n, holds) =
                extract_file-Holds calls dst before path entry files
                  (join_path-IsBelow dst name filled (safe name is)) c
                  (ap (λ r. r.0) (sym same) ∙ goes_on) in
              let last =
                extract_entries-other path entry.content n later ends files' elsewhere safes
                  (extract_entry-IsConfined calls dst before strip_prefix filled entry files safe c)
                  (extract_entry-IsApart entry files c.grows h)
                  (subst (Holds before.next n path entry.content) (ap (λ r. r.1) (sym same))
                    holds) in
              ground (arith, goes_on, last.named, last.filled)
        ]
    extract_entries-there (first ∷ earlier) later entry name ends files is_file is elsewhere
          (safe, safes) c h good =
        let files' = (extract_entry calls dst strip_prefix first files).1 in
        elim (Option-cases (extract_entry calls dst strip_prefix first files).0) [
          | inr (e, stops) ↦ absurd (ground (arith, stops))
          | inl goes_on ↦ ground (
            arith,
            goes_on,
            extract_entries-there earlier later entry name ends files' is_file is elsewhere safes
                (extract_entry-IsConfined calls dst before strip_prefix filled first files safe c)
                (extract_entry-IsApart first files c.grows h) (ground (arith, goes_on)),
          )
        ]

-- After an extraction that ends well, each regular file of the archive reads as its content, at its
-- name below the destination, if no later entry is extracted under that path, the destination has a
-- name and nothing below it yet, each name stands for a file, and no entry has an element `..` in
-- the name that it is extracted under.
pub extract_source_archive-there :
    (calls : Calls) (formats : Formats) (archive dst strip_prefix : Text) (files : Files)
    (earlier later : List TarEntry) (entry : TarEntry) (ends : Option Error) (name : Text)
    → dst ≢ []
    → IsSound files
    → ((path : Text) → IsBelow dst path → lookup path files.names ≡ none)
    → open_archive calls formats archive files
      ≡ ok (record { entries = earlier ++ entry ∷ later; ends = ends })
    → AreSafe strip_prefix (earlier ++ entry ∷ later)
    → entry.kind ≡ regular
    → stripped strip_prefix entry.name ≡ renamed name
    → AreElsewhere dst strip_prefix (join_path (dst ∷ name ∷ [])) later
    → (extract_source_archive calls formats archive dst strip_prefix files).0 ≡ ok tt
    → read
        (join_path (dst ∷ name ∷ []))
        (extract_source_archive calls formats archive dst strip_prefix files).1
      ≡ some entry.content
unfolding extract_source_archive
extract_source_archive-there calls formats archive dst strip_prefix files earlier later entry ends
      name filled sound empty opens safe is_file is elsewhere good =
    let files' = (mkdir calls dst files).1 in
    elim (Result-cases (mkdir calls dst files).0) [
      | inr (e, failed) ↦ absurd (ground (arith, opens, failed))
      | inl (done, made) ↦ ground (
        arith,
        opens,
        made,
        extract_entries-there calls dst strip_prefix files filled earlier later entry name ends
            files' is_file is elsewhere safe
            (mkdir-IsConfined calls dst files dst files (start-IsConfined calls dst files empty))
            (mkdir-IsApart calls dst strip_prefix files dst files (start-IsApart files sound))
            (ground (arith, opens, made)),
      )
    ]
  where
    start-IsApart : (now : Files) → IsSound now → IsApart now.next now
    start-IsApart now h = record {
      sound = h;
      apart = λ p q i above at_p at_q. ground (arith, above, at_p, h p i);
    }
