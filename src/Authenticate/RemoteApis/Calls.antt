-- ===== src/Authenticate/RemoteApis/Calls.antt =====
-- The calls of BuildBuddy that the helper of authenticate/remoteapis/remoteapis.go knows, described
-- by the parts of their URLs.
use mathlib.Core.Bool.{Bool-set}
use mathlib.Core.List.{Mem, mem-cons_self, mem-cons_of_mem, not-mem-nil, forall_mem-cons}
use credential_helper.Base.{
  ◌≡◌, ◌↔◌, ◌⊎◌, refl, sym, ap, subst, ◌∙◌, true, ◌||◌, inl, inr, some, List, [], ◌∷◌, ◌++◌, map,
  arith, Bool-cases,
}
use credential_helper.Text.{Text, lit, text_eq, text_eq_iff, text_eq_refl}
use credential_helper.Text.Affix.{
  cut_prefix, has_suffix, trim_suffix, cut_prefix_sound, cut_prefix-append, has_suffix-append,
  trim_suffix_split,
}
use credential_helper.Url.{Url}
use credential_helper.Authenticate.RemoteApis.{services, is_service, is_buildbuddy}

abbrev of_package : Text → List Text → List Text
of_package prefix names = map (λ name. prefix ++ name) names

-- The services that a build calls, by their packages.
unfoldable pub rpc_names : List Text
rpc_names =
    of_package (lit "google.bytestream.") (lit "ByteStream" ∷ [])
    ++ (of_package (lit "google.devtools.build.v1.") (lit "PublishBuildEvent" ∷ [])
        ++ (of_package (lit "build.bazel.remote.asset.v1.") (lit "Fetch" ∷ lit "Push" ∷ [])
            ++ of_package (lit "build.bazel.remote.execution.v2.") (
                lit "ActionCache"
                ∷ lit "Capabilities"
                ∷ lit "ContentAddressableStorage"
                ∷ lit "Execution"
                ∷ [])))

-- a call of one of these services on a host below buildbuddy.io
pub record IsBuildbuddyCall (u : Url) : Type 0 where
  pub scheme : (u.scheme ≡ lit "https") ⊎ ((u.scheme ≡ lit "grpc") ⊎ (u.scheme ≡ lit "grpcs"))
  pub rpc_name : Text
  pub path : u.path ≡ b'/' ∷ rpc_name
  pub service : Mem rpc_name rpc_names
  pub subdomain : Text
  pub host : u.host ≡ subdomain ++ lit ".buildbuddy.io"

-- the same by the tests of `Get`
pub record Passes (u : Url) : Type 0 where
  pub scheme :
      (text_eq u.scheme (lit "https")
        || text_eq u.scheme (lit "grpc")
        || text_eq u.scheme (lit "grpcs"))
      ≡ true
  pub rpc_name : Text
  pub path : cut_prefix u.path (b'/' ∷ []) ≡ some rpc_name
  pub service : is_service services rpc_name ≡ true
  pub host : is_buildbuddy u.host ≡ true

schemes_iff :
    (s : Text)
    → ((text_eq s (lit "https") || text_eq s (lit "grpc") || text_eq s (lit "grpcs")) ≡ true)
      ↔ ((s ≡ lit "https") ⊎ ((s ≡ lit "grpc") ⊎ (s ≡ lit "grpcs")))
schemes_iff s = (
  λ h. elim (Bool-cases (text_eq s (lit "https"))) [
    | inl https ↦ inl ((text_eq_iff s (lit "https")).0 https)
    | inr other ↦ elim (Bool-cases (text_eq s (lit "grpc"))) [
      | inl grpc ↦ inr (inl ((text_eq_iff s (lit "grpc")).0 grpc))
      | inr another ↦ inr (inr ((text_eq_iff s (lit "grpcs")).0 (ground arith)))
    ]
  ],
  λ h. elim h [
    | inl https ↦ ground (arith, (text_eq_iff s (lit "https")).1 https)
    | inr (inl grpc) ↦ ground (arith, (text_eq_iff s (lit "grpc")).1 grpc)
    | inr (inr grpcs) ↦ ground (arith, (text_eq_iff s (lit "grpcs")).1 grpcs)
  ],
)

is_service-Mem : (ss : List Text) (name : Text) → is_service ss name ≡ true → Mem name ss
unfolding is_service
is_service-Mem [] name h = absurd (ground arith)
is_service-Mem (s ∷ ss) name h = elim (Bool-cases (text_eq name s)) [
  | inl same ↦ subst (λ n. Mem n (s ∷ ss)) (sym ((text_eq_iff name s).0 same)) mem-cons_self
  | inr other ↦ mem-cons_of_mem s (is_service-Mem ss name (ground arith))
]

Mem-is_service : (ss : List Text) (name : Text) → Mem name ss → is_service ss name ≡ true
unfolding is_service
Mem-is_service [] name m = absurd (not-mem-nil m)
Mem-is_service (s ∷ ss) name m =
    (forall_mem-cons {p = λ name. is_service (s ∷ ss) name ≡ true} (λ name. Bool-set _ _)).1
      (ground (arith, text_eq_refl s), λ other there. ground (arith, Mem-is_service ss other there))
      name m

rpc_names_lem : rpc_names ≡ services
unfolding rpc_names lit
rpc_names_lem = refl

has_suffix_sound : (s t : Text) → has_suffix s t ≡ true → (before : Text) × (s ≡ before ++ t)
has_suffix_sound s t h = (trim_suffix s t, trim_suffix_split s t h)

is_buildbuddy_sound :
    (host : Text) → is_buildbuddy host ≡ true → (sub : Text) × (host ≡ sub ++ lit ".buildbuddy.io")
unfolding is_buildbuddy
is_buildbuddy_sound host h = elim (Bool-cases (text_eq host (lit "remote.buildbuddy.io"))) [
  | inl same ↦
      (lit "remote", (text_eq_iff host (lit "remote.buildbuddy.io")).0 same ∙ (unfold lit in refl))
  | inr other ↦ has_suffix_sound host (lit ".buildbuddy.io") (ground arith)
]

pub Passes-IsBuildbuddyCall : (u : Url) → Passes u → IsBuildbuddyCall u
Passes-IsBuildbuddyCall u p =
    let (sub, ends) = is_buildbuddy_sound u.host p.host in
    record {
      scheme = (schemes_iff u.scheme).0 p.scheme;
      rpc_name = p.rpc_name;
      path = cut_prefix_sound u.path (b'/' ∷ []) p.path;
      service = rw rpc_names_lem (is_service-Mem services p.rpc_name p.service);
      subdomain = sub;
      host = ends;
    }

pub IsBuildbuddyCall-Passes : (u : Url) → IsBuildbuddyCall u → Passes u
unfolding is_buildbuddy
IsBuildbuddyCall-Passes u c = record {
  scheme = (schemes_iff u.scheme).1 c.scheme;
  rpc_name = c.rpc_name;
  path = ap (λ p. cut_prefix p (b'/' ∷ [])) c.path ∙ cut_prefix-append (b'/' ∷ []) c.rpc_name;
  service = Mem-is_service services c.rpc_name (subst (Mem c.rpc_name) rpc_names_lem c.service);
  host = ground (arith, c.host, has_suffix-append c.subdomain (lit ".buildbuddy.io"));
}
