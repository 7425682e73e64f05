-- ===== src/Authenticate/Oci/Repository/Layout.antt =====
-- The paths from which a repository is derived, and the repository in them.
use credential_helper.Base.{
  ◌≡◌, refl, ap, sym, subst, ◌∙◌, true, false, some, List, [], ◌∷◌, ◌++◌, arith, inl, inr,
  Bool-cases, Option-cases,
}
use credential_helper.Text.{Text, lit, text_eq, text_eq_iff}
use credential_helper.Text.Affix.{
  has_prefix, has_suffix, trim_prefix, trim_suffix, trim_prefix_split, trim_suffix_split,
  trim_suffix-append,
}
use credential_helper.Text.Parts.{split, join, join-split}
use credential_helper.Errors.{ok, Result-cases}
use credential_helper.Url.{Url, ParseUrl}
use credential_helper.Authenticate.Oci.Repository.{
  Derived, last_two, endpoint_suffix, derive_repository, derive_endpoint, derive_path, by_suffix,
}

append_assoc : (a b c : Text) → ((a ++ b) ++ c) ≡ (a ++ (b ++ c))
append_assoc [] b c = refl
append_assoc (x ∷ a) b c = ap (λ t. x ∷ t) (append_assoc a b c)

-- The parts before the last two stay as they are.
join-last_two :
    (parts : List Text) (a b : Text)
    → last_two parts ≡ some (a, b)
    → (before : Text) × (join b'/' parts ≡ before ++ b'/' ∷ (a ++ b'/' ∷ b))
unfolding join last_two
join-last_two [] a b h = absurd (ground arith)
join-last_two (x ∷ []) a b h = absurd (ground arith)
join-last_two (x ∷ y ∷ []) a b h = absurd (ground arith)
join-last_two (x ∷ y ∷ z ∷ []) a b h = (x, ground arith)
join-last_two (x ∷ y ∷ z ∷ w ∷ parts) a b h =
    let (before, e) = join-last_two (y ∷ z ∷ w ∷ parts) a b h in
    (x ++ b'/' ∷ before, ap (λ t. x ++ b'/' ∷ t) e ∙ sym (append_assoc x (b'/' ∷ before) _))

-- The ends of the paths of the registry's interface.
pub data Tail : Text → Type 0 where
  tags : Tail (lit "/tags/list")
  blob : (digest : Text) → Tail (lit "/blobs/" ++ digest)
  manifest : (reference : Text) → Tail (lit "/manifests/" ++ reference)

-- A repository was cut out of an endpoint.
abbrev Cut : Text → Derived → Type 0
Cut endpoint d = (tail : Text) × Tail tail × (endpoint ≡ d.repository ++ tail)

ends_so :
    (endpoint a b : Text)
    → last_two (split b'/' endpoint) ≡ some (a, b)
    → (before : Text) × (endpoint ≡ before ++ b'/' ∷ (a ++ b'/' ∷ b))
ends_so endpoint a b h =
    let (before, e) = join-last_two (split b'/' endpoint) a b h in
    (before, sym (join-split b'/' endpoint) ∙ e)

lit_blobs : (b : Text) → (b'/' ∷ (lit "blobs" ++ b'/' ∷ b)) ≡ lit "/blobs/" ++ b
unfolding lit
lit_blobs b = refl

lit_manifests : (b : Text) → (b'/' ∷ (lit "manifests" ++ b'/' ∷ b)) ≡ lit "/manifests/" ++ b
unfolding lit
lit_manifests b = refl

endpoint_suffix-Tail :
    (endpoint a b suffix : Text)
    → last_two (split b'/' endpoint) ≡ some (a, b)
    → endpoint_suffix (a, b) ≡ some suffix
    → Tail suffix × ((before : Text) × (endpoint ≡ before ++ suffix))
unfolding endpoint_suffix
endpoint_suffix-Tail endpoint a b suffix h e =
    let (before, ends) = ends_so endpoint a b h in
    elim (Bool-cases (text_eq a (lit "blobs"))) [
      | inl is_blob ↦
          let s : lit "/blobs/" ++ b ≡ suffix = ground arith in
          subst (λ t. Tail t × ((x : Text) × (endpoint ≡ x ++ t))) s
            (
              blob b,
              (
                before,
                ends
                    ∙ ap (λ t. before ++ b'/' ∷ (t ++ b'/' ∷ b))
                        ((text_eq_iff a (lit "blobs")).0 is_blob)
                    ∙ ap (λ t. before ++ t) (lit_blobs b),
              ),
            )
      | inr no_blob ↦ elim (Bool-cases (text_eq a (lit "manifests"))) [
        | inl is_manifest ↦
            let s : lit "/manifests/" ++ b ≡ suffix = ground arith in
            subst (λ t. Tail t × ((x : Text) × (endpoint ≡ x ++ t))) s
              (
                manifest b,
                (
                  before,
                  ends
                      ∙ ap (λ t. before ++ b'/' ∷ (t ++ b'/' ∷ b))
                          ((text_eq_iff a (lit "manifests")).0 is_manifest)
                      ∙ ap (λ t. before ++ t) (lit_manifests b),
                ),
              )
        | inr no_manifest ↦ absurd (ground arith)
      ]
    ]

derive_endpoint-Cut :
    (host endpoint : Text) (d : Derived)
    → derive_endpoint host endpoint ≡ d
    → d.ignore ≡ false
    → (d.registry ≡ host) × Cut endpoint d
unfolding derive_endpoint by_suffix
derive_endpoint-Cut host endpoint d h used =
    elim (Bool-cases (has_suffix endpoint (lit "/tags/list"))) [
      | inl is_tags ↦
          let same : d.repository ≡ trim_suffix endpoint (lit "/tags/list") = ground arith in
          (
            ground arith,
            (
              lit "/tags/list",
              tags,
              trim_suffix_split endpoint (lit "/tags/list") is_tags
                  ∙ ap (λ t. t ++ lit "/tags/list") (sym same),
            ),
          )
      | inr no_tags ↦ elim (Option-cases (last_two (split b'/' endpoint))) [
        | inl short ↦ absurd (ground arith)
        | inr ((a, b), found) ↦ elim (Option-cases (endpoint_suffix (a, b))) [
          | inl unknown ↦ absurd (ground arith)
          | inr (suffix, known) ↦
              let (tail, (before, ends)) = endpoint_suffix-Tail endpoint a b suffix found known in
              let cut : trim_suffix endpoint suffix ≡ before =
                ap (λ t. trim_suffix t suffix) ends ∙ trim_suffix-append before suffix in
              let same : d.repository ≡ trim_suffix endpoint suffix = ground arith in
              (ground arith, (suffix, tail, ends ∙ ap (λ t. t ++ suffix) (sym (same ∙ cut))))
        ]
      ]
    ]

behind_prefix : (s p r : Text) → has_prefix s p ≡ true → trim_prefix s p ≡ r → s ≡ p ++ r
behind_prefix s p r h e = trim_prefix_split s p h ∙ ap (λ t. p ++ t) e

-- A repository that is not ignored comes from an https URL with the registry as its host, whose
-- path is "/v2/", the repository, and one of the ends "/tags/list", "/blobs/" with a digest and
-- "/manifests/" with a reference.
pub derive_repository-Tail :
    (parse_url : ParseUrl) (uri : Text) (d : Derived)
    → derive_repository parse_url uri ≡ ok d
    → d.ignore ≡ false
    → (u : Url) × (parse_url uri ≡ ok u)
      × (u.scheme ≡ lit "https")
      × (d.registry ≡ u.host)
      × ((tail : Text) × Tail tail × (u.path ≡ lit "/v2/" ++ (d.repository ++ tail)))
unfolding derive_repository derive_path
derive_repository-Tail parse_url uri d h used = elim (Result-cases (parse_url uri)) [
  | inr (e, bad) ↦ absurd (ground arith)
  | inl (u, good) ↦
      let endpoint = trim_prefix u.path (lit "/v2/") in
      let prefixed : has_prefix u.path (lit "/v2/") ≡ true = ground arith in
      let made : derive_endpoint u.host endpoint ≡ d = ground arith in
      let (registry, (tail, known, ends)) = derive_endpoint-Cut u.host endpoint d made used in
      (
        u,
        good,
        ground (arith, text_eq_iff u.scheme (lit "https")),
        registry,
        (tail, known, behind_prefix u.path (lit "/v2/") (d.repository ++ tail) prefixed ends),
      )
]
