-- ===== src/Build/Registry/Archive/Written.antt =====
-- What the extraction of one file does to it and to the others.
use credential_helper.Base.{ℕ, ◌≡◌, ◌≢◌, ◌≤◌, refl, sym, subst, none, arith, inl, inr, Option-cases}
use credential_helper.Text.{Text}
use credential_helper.Errors.{ok, Result-cases}
use credential_helper.Build.Files.{Files, Calls, create, write, set_contents}
use credential_helper.Build.Registry.Archive.{TarEntry, extract_file}
use credential_helper.Build.Registry.Archive.Confined.{IsBelow, IsConfined, create-above}
use credential_helper.Build.Registry.Archive.Apart.{
  IsApart, Holds, create-IsApart, create-Holds, create-differs, create-named,
}

set_contents-IsApart :
    (base i : ℕ) (content : Text) (files : Files)
    → IsApart base files
    → IsApart base (set_contents i content files)
set_contents-IsApart base i content files h = record { sound = h.sound; apart = h.apart }

set_contents-Holds :
    (base n i : ℕ) (content other kept : Text) (files : Files)
    → Holds base n other kept files
    → n ≢ i
    → Holds base n other kept (set_contents i content files)
set_contents-Holds base n i content other kept files holds differs = record {
  above = holds.above;
  named = holds.named;
  filled = ground (arith, differs, holds.filled);
}

-- How a file is extracted: it is not created, or something is written to it, which is its content
-- if the loop goes on.
data IsExtracted (calls : Calls) (path : Text) (entry : TarEntry) (files : Files) : Type 0 where
  not_created :
      (extract_file calls path entry files).1 ≡ (create calls path files).1
      → (extract_file calls path entry files).0 ≢ none
      → IsExtracted calls path entry files
  written :
      (i : ℕ) (content : Text)
      → (create calls path files).0 ≡ ok i
      → (extract_file calls path entry files).1 ≡ set_contents i content (create calls path files).1
      → ((extract_file calls path entry files).0 ≡ none → content ≡ entry.content)
      → IsExtracted calls path entry files

extract_file-IsExtracted :
    (calls : Calls) (path : Text) (entry : TarEntry) (files : Files)
    → IsExtracted calls path entry files
unfolding extract_file write
extract_file-IsExtracted calls path entry files = elim (Result-cases (create calls path files).0) [
  | inr (e, failed) ↦ not_created (ground (arith, failed)) (ground (arith, failed))
  | inl (i, made) ↦ elim (Option-cases entry.content_error) [
    | inr (e, breaks) ↦ written i entry.content made (ground (arith, made, breaks)) (λ h. refl)
    | inl reads ↦ elim (Option-cases (calls.write_error entry.content)) [
      | inl writes ↦ written i entry.content made (ground (arith, made, reads, writes)) (λ h. refl)
      | inr ((e, part), fails) ↦
          written i part made (ground (arith, made, reads, fails))
            (λ h. absurd (ground (arith, h, made, reads, fails)))
    ]
  ]
]

module _ (calls : Calls) (base : ℕ) (path : Text) (entry : TarEntry) (files : Files) where
  pub extract_file-IsApart :
      base ≤ files.next → IsApart base files → IsApart base (extract_file calls path entry files).1
  extract_file-IsApart grows h = elim (extract_file-IsExtracted calls path entry files) [
    | not_created same stops ↦
        subst (IsApart base) (sym same) (create-IsApart calls base files path grows h)
    | written i content made same is ↦
        subst (IsApart base) (sym same)
          (set_contents-IsApart base i content _ (create-IsApart calls base files path grows h))
  ]

  pub extract_file-other :
      (other kept : Text) (n : ℕ)
      → other ≢ path
      → IsApart base files
      → Holds base n other kept files
      → Holds base n other kept (extract_file calls path entry files).1
  extract_file-other other kept n differs h holds =
      let holds' = create-Holds calls base files path other kept n differs h holds in
      elim (extract_file-IsExtracted calls path entry files) [
        | not_created same stops ↦ subst (Holds base n other kept) (sym same) holds'
        | written i content made same is ↦ subst (Holds base n other kept) (sym same) (
            set_contents-Holds base n i content other kept _ holds'
              (create-differs calls base files path other kept n differs h holds made))
      ]

pub extract_file-Holds :
    (calls : Calls) (dst : Text) (before : Files) (path : Text) (entry : TarEntry) (files : Files)
    → IsBelow dst path
    → IsConfined dst before files
    → (extract_file calls path entry files).0 ≡ none
    → (n : ℕ) × Holds before.next n path entry.content (extract_file calls path entry files).1
extract_file-Holds calls dst before path entry files below h goes =
    elim (extract_file-IsExtracted calls path entry files) [
      | not_created same stops ↦ absurd (stops goes)
      | written i content made same is ↦ (
        i,
        subst (Holds before.next i path entry.content) (sym same) (record {
          above = create-above calls dst before files path below h made;
          named = create-named calls before.next files path made;
          filled = ground (arith, is goes);
        }),
      )
    ]
