-- ===== src/Build/Platforms/Flags.antt =====
-- The values that the flags `-helper` take.
use credential_helper.Base.{
  ◌≡◌, ◌↔◌, List, [], ◌∷◌, ◌++◌, arith, Option-cases, inl, inr, sym, ap, subst, ◌∙◌,
}
use credential_helper.Text.{Text}
use credential_helper.Text.Parts.{split_first}
use credential_helper.Text.Parts.Laws.{IsFree, split_first-append, split_first_sound}
use credential_helper.Errors.{ok}
use credential_helper.Build.Platforms.{PlatformBinary, set}

-- the value `os_cpu=path`
abbrev pub flag_value : PlatformBinary → Text
flag_value bin = (bin.os ++ b'_' ∷ bin.cpu) ++ b'=' ∷ bin.path

-- The first underscore ends the system, and the first equals sign the platform.
abbrev pub IsPlain : PlatformBinary → Type 0
IsPlain bin = IsFree b'=' (bin.os ++ b'_' ∷ bin.cpu) × IsFree b'_' bin.os

set-flag_value :
    (bin : PlatformBinary) (binaries : List PlatformBinary)
    → IsPlain bin
    → set (flag_value bin) binaries ≡ ok (binaries ++ (bin ∷ []))
unfolding set
set-flag_value bin binaries (free, os_free) = ground (
  arith,
  split_first-append b'=' (bin.os ++ b'_' ∷ bin.cpu) bin.path free,
  split_first-append b'_' bin.os bin.cpu os_free,
)

-- A flag is accepted exactly if its value is `os_cpu=path` for one binary, which is added at the
-- end: the system has no underscore, and system and processor have no equals sign.
pub set-flag_value_iff :
    (value : Text) (binaries result : List PlatformBinary)
    → (set value binaries ≡ ok result) ↔ (
        (bin : PlatformBinary) × (value ≡ flag_value bin)
        × IsPlain bin
        × (result ≡ binaries ++ (bin ∷ [])))
unfolding set
set-flag_value_iff value binaries result = (
  forth,
  λ (bin, shown, plain, added).
      ap (λ v. set v binaries) shown ∙ (set-flag_value bin binaries plain ∙ ap ok (sym added)),
)
  where
    forth :
        set value binaries ≡ ok result
        → (bin : PlatformBinary) × (value ≡ flag_value bin)
          × IsPlain bin
          × (result ≡ binaries ++ (bin ∷ []))
    forth h = elim (Option-cases (split_first b'=' value)) [
      | inl missing ↦ absurd (ground (arith, missing))
      | inr ((os_cpu, path), found) ↦ elim (Option-cases (split_first b'_' os_cpu)) [
        | inl missing ↦ absurd (ground (arith, found, missing))
        | inr ((os, cpu), split) ↦
            let (whole, free) = split_first_sound b'=' value os_cpu path found in
            let (platform, os_free) = split_first_sound b'_' os_cpu os cpu split in
            (
              record { os = os; cpu = cpu; path = path },
              ground (arith, whole, platform),
              (subst (IsFree b'=') platform free, os_free),
              ground (arith, found, split),
            )
      ]
    ]
