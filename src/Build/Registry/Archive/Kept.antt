-- ===== src/Build/Registry/Archive/Kept.antt =====
-- What the extraction of an archive leaves as it was.
use credential_helper.Base.{
  ◌≡◌, ◌≢◌, refl, subst, Option, none, some, List, [], ◌∷◌, arith, All, inl, inr, Option-cases,
}
use credential_helper.Text.{Text}
use credential_helper.Text.Path.{join_path}
use credential_helper.Dict.{lookup}
use credential_helper.Errors.{Error, ok, failure, Result-cases}
use credential_helper.Build.Files.{Files, Calls, read, IsSound, mkdir}
use credential_helper.Build.Registry.Archive.{
  TarEntry, EntryKind, directory, regular, special, Stripped, renamed, invalid, passed_over,
  out_of_range, stripped, extract_file, extract_entry, extract_entries, extract_source_archive,
  Formats, Tar, open_archive,
}
use credential_helper.Build.Registry.Archive.Confined.{
  IsBelow, HasNoUps, IsConfined, join_path-IsBelow, extract_file-IsConfined, mkdir-IsConfined,
}

-- the names that the entries are extracted under
abbrev pub AreSafe : Text → List TarEntry → Type 0
AreSafe strip_prefix entries =
    All (λ e. (name : Text) → stripped strip_prefix e.name ≡ renamed name → HasNoUps name) entries

module _ (calls : Calls) (dst : Text) (before : Files) where
  module _ (strip_prefix : Text) (filled : dst ≢ []) where
    pub extract_entry-IsConfined :
        (entry : TarEntry) (files : Files)
        → ((name : Text) → stripped strip_prefix entry.name ≡ renamed name → HasNoUps name)
        → IsConfined dst before files
        → IsConfined dst before (extract_entry calls dst strip_prefix entry files).1
    unfolding extract_entry
    extract_entry-IsConfined entry files safe h =
        go (stripped strip_prefix entry.name) entry.kind refl
      where
        go :
            (s : Stripped) (kind : EntryKind)
            → stripped strip_prefix entry.name ≡ s
            → IsConfined dst before
                (elim s as (λ _. Option Error × Files) [
                  | invalid ↦ (some (failure "invalid file path in archive"), files)
                  | passed_over ↦ (none, files)
                  | out_of_range ↦ (some (failure "slice bounds out of range"), files)
                  | renamed name ↦ elim kind as (λ _. Option Error × Files) [
                    | directory ↦ (none, (mkdir calls (join_path (dst ∷ name ∷ [])) files).1)
                    | special ↦ (some (failure "unsupported file type"), files)
                    | regular ↦ extract_file calls (join_path (dst ∷ name ∷ [])) entry files
                  ]
                ]).1
        go invalid kind is = h
        go passed_over kind is = h
        go out_of_range kind is = h
        go (renamed name) directory is =
            mkdir-IsConfined calls dst before (join_path (dst ∷ name ∷ [])) files h
        go (renamed name) special is = h
        go (renamed name) regular is =
            extract_file-IsConfined calls dst before (join_path (dst ∷ name ∷ [])) entry files
              (join_path-IsBelow dst name filled (safe name is)) h

    extract_entries-IsConfined :
        (entries : List TarEntry) (ends : Option Error) (files : Files)
        → AreSafe strip_prefix entries
        → IsConfined dst before files
        → IsConfined dst before (extract_entries calls dst strip_prefix entries ends files).1
    unfolding extract_entries
    extract_entries-IsConfined [] none files safe h = h
    extract_entries-IsConfined [] (some e) files safe h = h
    extract_entries-IsConfined (entry ∷ entries) ends files (safe, safes) h =
        let files' = (extract_entry calls dst strip_prefix entry files).1 in
        let h' = extract_entry-IsConfined entry files safe h in
        elim (Option-cases (extract_entry calls dst strip_prefix entry files).0) [
          | inr (e, stops) ↦ subst (IsConfined dst before) (ground (arith, stops)) h'
          | inl goes_on ↦
              subst (IsConfined dst before) (ground (arith, goes_on))
                (extract_entries-IsConfined entries ends files' safes h')
        ]

pub start-IsConfined :
    (calls : Calls) (dst : Text) (files : Files)
    → ((path : Text) → IsBelow dst path → lookup path files.names ≡ none)
    → IsConfined dst files files
start-IsConfined calls dst files empty = record {
  grows = omega arith;
  outside = λ path out. refl;
  inside = λ path i below there. ground (arith, empty path below, there);
  contents = λ i old. refl;
}

IsConfined-read :
    (dst path : Text) (before after : Files)
    → IsSound before
    → IsConfined dst before after
    → ¬ IsBelow dst path
    → read path after ≡ read path before
IsConfined-read dst path before after sound h out = elim (Option-cases (lookup path before.names)) [
  | inl missing ↦ ground (arith, missing, h.outside path out)
  | inr (i, there) ↦ ground (arith, there, h.outside path out, h.contents i (sound path i there))
]

-- Whether it ends well or not, the extraction of an archive leaves what is read of every path that
-- is not below its destination, if the destination has a name and nothing below it yet, each name
-- stands for a file, and no entry of the archive has an element `..` in the name that it is
-- extracted under.
pub extract_source_archive-read :
    (calls : Calls) (formats : Formats) (archive dst strip_prefix : Text) (files : Files)
    (tar : Tar)
    → dst ≢ []
    → IsSound files
    → ((path : Text) → IsBelow dst path → lookup path files.names ≡ none)
    → open_archive calls formats archive files ≡ ok tar
    → AreSafe strip_prefix tar.entries
    → (path : Text) → ¬ IsBelow dst path
    → read path (extract_source_archive calls formats archive dst strip_prefix files).1
      ≡ read path files
unfolding extract_source_archive
extract_source_archive-read calls formats archive dst strip_prefix files tar filled sound empty
      opens safe path out =
    let start = start-IsConfined calls dst files empty in
    let files' = (mkdir calls dst files).1 in
    let made = mkdir-IsConfined calls dst files dst files start in
    elim (Result-cases (mkdir calls dst files).0) [
      | inr (e, failed) ↦
          ground (arith, opens, failed, IsConfined-read dst path files files' sound made out)
      | inl (done, made') ↦ ground (
        arith,
        opens,
        made',
        IsConfined-read dst path files
            (extract_entries calls dst strip_prefix tar.entries tar.ends files').1 sound
            (extract_entries-IsConfined calls dst files strip_prefix filled tar.entries tar.ends
              files' safe made)
            out,
      )
    ]
