-- ===== src/Client/Installer/Placed.antt =====
-- Where the program is after an installation.
use credential_helper.Base.{
  ◌≡◌, ◌≢◌, sym, ap, ◌∙◌, true, false, none, some, arith, Bool-cases, Option-cases, inl, inr,
}
use credential_helper.Text.{Text, text_eq_iff, text_eq_refl}
use credential_helper.Dict.{Dict, lookup, lookup-insert, lookup-removed}
use credential_helper.Errors.{ok, Result-cases}
use credential_helper.Build.Files.{Files, read, IsSound}
use credential_helper.Agent.Locate.{Machine, credential_helper_path}
use credential_helper.Client.Installer.{System, remove, hardlink_or_copy, destination, install}

-- A hard link or a copy that ends well leaves the source's content at the destination, if the two
-- names do not stand for one file.
hardlink_or_copy-ok :
    (system : System) (src dst : Text) (files : Files)
    → IsSound files
    → lookup dst files.names ≢ lookup src files.names
    → (hardlink_or_copy system src dst files).0 ≡ ok tt
    → (content : Text) × (read src files ≡ some content)
      × (read dst (hardlink_or_copy system src dst files).1 ≡ some content)
unfolding hardlink_or_copy
hardlink_or_copy-ok system src dst files sound apart good =
    elim (Option-cases (lookup src files.names)) [
      | inl missing ↦ absurd (ground (arith, missing))
      | inr (i, there) ↦ (
        files.contents i,
        ground (arith, there),
        elim (Option-cases (lookup dst files.names)) [
          | inl free ↦ ground (
            arith,
            there,
            free,
            sound src i there,
            lookup-insert dst dst i files.names,
            lookup-insert dst dst files.next files.names,
            text_eq_refl dst,
          )
          | inr (j, taken) ↦
              let differ : i ≢ j = λ e. apart (taken ∙ (ap some (sym e) ∙ sym there)) in
              ground (arith, there, taken, differ)
        ],
      )
    ]

read-none : (path : Text) (files : Files) → read path files ≡ none → lookup path files.names ≡ none
read-none path files h = ground arith

hardlink_or_copy-missing :
    (system : System) (src dst : Text) (files : Files)
    → lookup src files.names ≡ none
    → ((hardlink_or_copy system src dst files).0 ≢ ok tt)
      × ((hardlink_or_copy system src dst files).1 ≡ files)
unfolding hardlink_or_copy
hardlink_or_copy-missing system src dst files missing =
    (ground (arith, missing), ground (arith, missing))

module _ (system : System) (path : Text) (files : Files) where
  remove-other :
      (other : Text) → other ≢ path → read other (remove system path files) ≡ read other files
  remove-other other apart =
      ground (arith, lookup-removed path other files.names, text_eq_iff other path)

  remove-IsSound : IsSound files → IsSound (remove system path files)
  remove-IsSound sound other i there =
      ground (arith, there, lookup-removed path other files.names, sound other i)

  -- After the removal the name does not stand for the file of another one, if it did not before, or
  -- if the removal did not fail.
  remove-apart :
      (other : Text) {content : Text}
      → other ≢ path
      → (system.remove_fails ≡ true → lookup path files.names ≢ lookup other files.names)
      → read other files ≡ some content
      → lookup path (remove system path files).names ≢ lookup other (remove system path files).names
  remove-apart other apart unlinked there = elim (Bool-cases system.remove_fails) [
    | inl fails ↦ λ e. unlinked fails (ground (arith, fails, e))
    | inr removes ↦ λ e. ground (
      arith,
      removes,
      e,
      there,
      lookup-removed path path files.names,
      lookup-removed path other files.names,
      text_eq_refl path,
      text_eq_iff other path,
    )
  ]

module _ (m : Machine) (system : System) (env : Dict Text) where
  install-made :
      (src : Text) (files : Files)
      → m.mkdir_all (system.dir (credential_helper_path m env)) ≡ ok tt
      → (install m system env src files).1
        ≡ (hardlink_or_copy system src
            (destination m env)
            (remove system (destination m env) files)).1
  unfolding install
  install-made src files made = ground (arith, made)

  -- An installation that ends well puts the content of its source at the destination that it
  -- prints, if the source has another name and, where the removal of the destination fails, the two
  -- names do not stand for one file.
  pub install-ok :
      (src dst : Text) (files : Files)
      → IsSound files
      → src ≢ destination m env
      → (system.remove_fails ≡ true
          → lookup (destination m env) files.names ≢ lookup src files.names)
      → (install m system env src files).0 ≡ ok dst
      → (dst ≡ destination m env)
        × (content : Text) × (read src files ≡ some content)
        × (read dst (install m system env src files).1 ≡ some content)
  unfolding install
  install-ok src dst files sound apart unlinked good =
      let dst' = destination m env in
      let files' = remove system dst' files in
      elim (Result-cases (m.mkdir_all (system.dir (credential_helper_path m env)))) [
        | inr (e, failed) ↦ absurd (ground (arith, failed))
        | inl (done, made) ↦ elim (Result-cases (hardlink_or_copy system src dst' files').0) [
          | inr (e, failed) ↦ absurd (ground (arith, made, failed))
          | inl (done', placed) ↦ elim (Option-cases (read src files)) [
            | inl missing ↦
                let (fails, stays) =
                  hardlink_or_copy-missing system src dst' files'
                    (read-none src files' (remove-other system dst' files src apart ∙ missing)) in
                absurd (fails placed)
            | inr (found, there) ↦
                let (content, at_src, put) =
                  hardlink_or_copy-ok system src dst' files'
                    (remove-IsSound system dst' files sound)
                    (remove-apart system dst' files src apart unlinked there) placed in
                let at : dst ≡ dst' = ground (arith, made, placed) in
                (
                  at,
                  content,
                  sym (remove-other system dst' files src apart) ∙ at_src,
                  ap (read dst) (install-made src files made)
                      ∙ (ap (λ d. read d (hardlink_or_copy system src dst' files').1) at ∙ put),
                )
          ]
        ]
      ]

  -- The installed program cannot install itself: if the directory of the destination is made and
  -- the removal does not fail, it removes itself, and ends with an error.
  pub install_over_itself :
      (src : Text) (files : Files)
      → destination m env ≡ src
      → m.mkdir_all (system.dir (credential_helper_path m env)) ≡ ok tt
      → system.remove_fails ≡ false
      → ((dst : Text) → (install m system env src files).0 ≢ ok dst)
        × (read src (install m system env src files).1 ≡ none)
  unfolding install
  install_over_itself src files same made removes =
      let left = remove system src files in
      let gone : lookup src left.names ≡ none =
        ground (arith, removes, lookup-removed src src files.names, text_eq_refl src) in
      let (failed, stays) = hardlink_or_copy-missing system src src left gone in
      (
        λ dst good. ground (arith, made, failed, same),
        ap (read src) (install-made src files made)
            ∙ (ap (λ d. read src (hardlink_or_copy system src d (remove system d files)).1) same
                ∙ (ap (read src) stays ∙ ground (arith, gone))),
      )
