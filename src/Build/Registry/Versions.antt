-- ===== src/Build/Registry/Versions.antt =====
-- The versions that the metadata of a module lists.
use mathlib.Core.List.{Perm}
use mathlib.Core.List.Perm
use credential_helper.Base.{
  ◌≡◌, ◌≢◌, refl, subst, Option, none, some, List, [], ◌∷◌, ◌++◌, append_assoc, append-nil, arith,
  inl, inr, Bool-cases, if◌then◌else◌,
}
use credential_helper.Text.{Text, text_eq, text_eq_iff}
use credential_helper.Text.Order.{IsSorted, sort, sort-perm, sort-IsSorted}
use credential_helper.Dict.{Dict, lookup, insert, lookup-insert}
use credential_helper.Errors.{Result, ok, Result-cases, ◌>>=◌, >>=-ok}
use credential_helper.Build.Files.{Files, Calls, read_file}
use credential_helper.Build.Registry.{
  AddLocalModuleVersionReq, MetadataInfo, RegistryJson, module_metadata, add_version, add_modules,
}

-- the versions that are asked for of a module, in order
unfoldable pub requested : Text → List AddLocalModuleVersionReq → List Text
requested name [] = []
requested name (request ∷ requests) =
    let rest = requested name requests in
    if text_eq request.module_name name then request.version ∷ rest else rest

module _
    (create_module_version : AddLocalModuleVersionReq → Files → Result (Unit {0}) × Files) where
  -- the first request for a module, with the files as they are when its version was made: after it
  -- and all the requests before it
  unfoldable pub first_of :
      Text → List AddLocalModuleVersionReq → Files → Option (AddLocalModuleVersionReq × Files)
  first_of name [] files = none
  first_of name (request ∷ requests) files =
      let files' = (create_module_version request files).1 in
      let rest = first_of name requests files' in
      if text_eq request.module_name name then some (request, files') else rest

module _ (calls : Calls) (json : RegistryJson)
    (create_module_version : AddLocalModuleVersionReq → Files → Result (Unit {0}) × Files) where
  -- The metadata decodes from the template of the first request for the module, as it reads when
  -- the version of that request was made.
  abbrev pub IsTemplate : Text → List AddLocalModuleVersionReq → Files → MetadataInfo → Type 0
  IsTemplate name requests files origin =
      (request : AddLocalModuleVersionReq) × (now : Files) × (first_of create_module_version name
          requests files
        ≡ some (request, now))
      × (template : Text) × (read_file calls request.metadata_template_path now ≡ ok template)
      × (json.decode_metadata template ≡ ok origin)

-- The list has the items of the other one.
abbrev Holds : MetadataInfo → List Text → Type 0
Holds metadata versions = Perm metadata.versions versions

abbrev with_version : AddLocalModuleVersionReq → MetadataInfo → MetadataInfo
with_version request metadata = record metadata {
  versions = sort (metadata.versions ++ (request.version ∷ []));
}

with_version-Holds :
    (request : AddLocalModuleVersionReq) (origin : MetadataInfo) (metadata : MetadataInfo)
    (more : List Text)
    → Holds metadata ((with_version request origin).versions ++ more)
    → Holds metadata (origin.versions ++ request.version ∷ more)
with_version-Holds request origin metadata more h = Perm.trans h (
    subst (Perm ((with_version request origin).versions ++ more))
      (append_assoc origin.versions (request.version ∷ []) more)
      (Perm.append_right more (sort-perm (origin.versions ++ (request.version ∷ [])))))

module _ (calls : Calls) (json : RegistryJson)
    (create_module_version : AddLocalModuleVersionReq → Files → Result (Unit {0}) × Files) where
  abbrev end_of :
      List AddLocalModuleVersionReq → Dict MetadataInfo → Files → Result (Dict MetadataInfo)
  end_of requests modules files =
      (add_modules calls json create_module_version requests modules files).0

  add_modules-step :
      (request : AddLocalModuleVersionReq) (requests : List AddLocalModuleVersionReq)
      (modules after : Dict MetadataInfo) (files : Files)
      → end_of (request ∷ requests) modules files ≡ ok after
      → let files' = (create_module_version request files).1 in
        (metadata : MetadataInfo) × (module_metadata calls json request modules files'
          ≡ ok metadata)
        × (end_of requests
              (insert request.module_name (with_version request metadata) modules)
              files'
            ≡ ok after)
  unfolding add_modules add_version
  add_modules-step request requests modules after files good =
      let (created, files') = create_module_version request files in
      elim (Result-cases created) [
        | inr (e, failed) ↦ absurd (ground (arith, failed))
        | inl (done, made) ↦
            elim (Result-cases (module_metadata calls json request modules files')) [
              | inr (e, failed) ↦ absurd (ground (arith, made, failed))
              | inl (metadata, has) ↦ (metadata, has, ground (arith, made, has))
            ]
      ]

  -- a module that has metadata already
  add_modules-known :
      (name : Text) (requests : List AddLocalModuleVersionReq) (modules after : Dict MetadataInfo)
      (files : Files) (origin : MetadataInfo)
      → end_of requests modules files ≡ ok after
      → lookup name modules ≡ some origin
      → (metadata : MetadataInfo) × (lookup name after ≡ some metadata)
        × Holds metadata (origin.versions ++ requested name requests)
        × (IsSorted origin.versions → IsSorted metadata.versions)
  unfolding requested
  add_modules-known name [] modules after files origin good known =
      (origin, unfold add_modules in ground (arith, known), rw append-nil Perm.rfl, λ h. h)
  add_modules-known name (request ∷ requests) modules after files origin good known =
      let files' = (create_module_version request files).1 in
      let (metadata, has, rest) = add_modules-step request requests modules after files good in
      elim (Bool-cases (text_eq request.module_name name)) [
        | inr differs ↦ rw differs (
            add_modules-known name requests _ after files' origin rest (
              ground (
                arith,
                known,
                differs,
                lookup-insert request.module_name name (with_version request metadata) modules,
              )))
        | inl same ↦
            let is : metadata ≡ origin =
              unfold module_metadata in
              ground (arith, has, known, text_eq_iff request.module_name name) in
            let (last, there, holds, sorted) =
              add_modules-known name requests _ after files' (with_version request origin) rest (
                ground (
                  arith,
                  is,
                  same,
                  lookup-insert request.module_name name (with_version request metadata) modules,
                )) in
            rw same (
              last,
              there,
              with_version-Holds request origin last (requested name requests) holds,
              λ _. sorted (sort-IsSorted (origin.versions ++ (request.version ∷ []))),
            )
      ]

  add_modules-new :
      (name : Text) (requests : List AddLocalModuleVersionReq) (modules after : Dict MetadataInfo)
      (files : Files)
      → end_of requests modules files ≡ ok after
      → lookup name modules ≡ none
      → requested name requests ≢ []
      → (origin : MetadataInfo) × IsTemplate calls json create_module_version name requests files
          origin
        × (metadata : MetadataInfo) × (lookup name after ≡ some metadata)
        × Holds metadata (origin.versions ++ requested name requests)
        × IsSorted metadata.versions
  unfolding requested first_of
  add_modules-new name [] modules after files good new asked = absurd (asked refl)
  add_modules-new name (request ∷ requests) modules after files good new asked =
      let files' = (create_module_version request files).1 in
      let (metadata, has, rest) = add_modules-step request requests modules after files good in
      let modules' = insert request.module_name (with_version request metadata) modules in
      elim (Bool-cases (text_eq request.module_name name)) [
        | inr differs ↦
            rw (differs, first_of)
              (add_modules-new name requests modules' after files' rest
                (ground (
                  arith,
                  new,
                  differs,
                  lookup-insert request.module_name name (with_version request metadata) modules,
                ))
                (ground (arith, asked, differs)))
        | inl same ↦
            let decodes : (read_file calls request.metadata_template_path files'
                  >>= json.decode_metadata)
                ≡ ok metadata =
              unfold module_metadata in
              ground (arith, has, new, text_eq_iff request.module_name name) in
            let (template, reads, is) =
              >>=-ok (read_file calls request.metadata_template_path files') json.decode_metadata
                decodes in
            let (last, there, holds, sorted) =
              add_modules-known name requests modules' after files' (with_version request metadata)
                rest
                (ground (
                  arith,
                  same,
                  lookup-insert request.module_name name (with_version request metadata) modules,
                )) in
            rw same (
              metadata,
              (request, files', ground (arith, same), template, reads, is),
              last,
              there,
              with_version-Holds request metadata last (requested name requests) holds,
              sorted (sort-IsSorted (metadata.versions ++ (request.version ∷ []))),
            )
      ]

-- Where the first loop of `main` ends well, the metadata of every module that is asked for lists,
-- sorted, all versions that are asked for and those of the template of the first request for it,
-- as that template reads when the version of that request was made.
pub add_modules-IsSorted :
    (calls : Calls) (json : RegistryJson)
    (create_module_version : AddLocalModuleVersionReq → Files → Result (Unit {0}) × Files)
    (requests : List AddLocalModuleVersionReq) (files : Files) (modules : Dict MetadataInfo)
    (name : Text)
    → (add_modules calls json create_module_version requests [] files).0 ≡ ok modules
    → requested name requests ≢ []
    → (origin : MetadataInfo) × IsTemplate calls json create_module_version name requests files
        origin
      × (metadata : MetadataInfo) × (lookup name modules ≡ some metadata)
      × Perm metadata.versions (origin.versions ++ requested name requests)
      × IsSorted metadata.versions
add_modules-IsSorted calls json create_module_version requests files modules name good asked =
    add_modules-new calls json create_module_version name requests [] modules files good
      (unfold lookup in refl) asked
