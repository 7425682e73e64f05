-- ===== src/Authenticate/Instructions/Chains.antt =====
-- The instructions of the helpers with a lookup chain. The chain of the configuration that a helper
-- has for a host is an argument.
use credential_helper.Base.{ℕ, List, [], ◌∷◌, ◌++◌, if◌then◌else◌}
use credential_helper.Text.{Text, lit, text_eq}
use credential_helper.Text.Affix.{has_prefix}
use credential_helper.Text.Parts.{newlines}
use credential_helper.Errors.{Error, Result, ok, err}
use credential_helper.Url.{ParseUrl}
use credential_helper.Authenticate.S3.Region.{
  S3Provider, unknown, aws, cloudflare_r2, provider_from_host, binding_access_key_id,
  binding_secret_access_key, binding_session_token, binding_region, binding_cloudflare_api_token,
}
use credential_helper.Authenticate.Oci.AuthConfig.{
  binding_username, binding_password, binding_auth, binding_identity_token, binding_registry_token,
}
use credential_helper.Lookup.Source.{Secrets}
use credential_helper.Lookup.Chain.{SourceJson, Config, setup_instructions}

-- `strings.Join(instructions, "\n\n")`
paragraphs : List Text → Text
paragraphs [] = []
paragraphs (text ∷ []) = text
paragraphs (text ∷ next ∷ rest) = text ++ lit "\n\n" ++ paragraphs (next ∷ rest)

-- the host of a URL; one that does not parse is as an empty one
abbrev host_of : ParseUrl → Text → Text
host_of parse_url uri = elim (parse_url uri) [ ok u ↦ u.host | err e ↦ [] ]

abbrev s3_service : S3Provider → Text
s3_service aws = lit "AWS S3 object"
s3_service cloudflare_r2 = lit "Cloudflare R2 object"
s3_service unknown = lit "S3-compatible object store object"

-- the bindings of the lookup chain, and what they mean
abbrev s3_bindings : S3Provider → List (Text × Text)
s3_bindings provider =
    (binding_access_key_id, lit "AWS Access Key ID")
    ∷ (binding_secret_access_key, lit "AWS Secret Access Key")
    ∷ (binding_session_token, lit "AWS Session Token")
    ∷ (binding_region, lit "AWS Region")
    ∷ elim provider [
      | cloudflare_r2 ↦
          (
            binding_cloudflare_api_token,
            lit "Cloudflare API Token - can optionally be used to derive the "
                ++ lit "secret access key",
          )
          ∷ []
      | _ ↦ []
    ]

abbrev oci_service : Text → Text
oci_service host =
    if text_eq host (lit "ghcr.io")
    then lit "GitHub Container Registry image"
    else lit "container image"

abbrev oci_bindings : List (Text × Text)
oci_bindings =
    (binding_username, lit "Username")
    ∷ (binding_password, lit "Password")
    ∷ (binding_auth, lit "username:password encoded as base64")
    ∷ (binding_identity_token, lit "used for OAuth")
    ∷ (
      binding_registry_token,
      lit "immediately usable token for the registry - no exchange necessary",
    )
    ∷ []

-- `show` is the text of an error.
module _ {Raw : Type 0} (json : SourceJson Raw) (world : Secrets) (quote : Text → Text)
    (google_instructions : Text) (failed_line : ℕ → Error → Text) (show : Error → Text) where
  -- the parts that a lookup chain has for its bindings, or the error of the configuration
  chain_instructions : Result (Config Raw) → List (Text × Text) → List Text
  chain_instructions (err e) bindings =
      (lit "due to a configuration parsing issue, no further setup instructions are "
        ++ lit "available: "
        ++ show e)
      ∷ []
  chain_instructions (ok chain) [] = []
  chain_instructions (ok chain) ((binding, meaning) ∷ rest) =
      setup_instructions json world quote google_instructions failed_line chain binding meaning
      ∷ chain_instructions (ok chain) rest

  unfoldable pub github_instructions : Result (Config Raw) → Text → Text
  unfolding chain_instructions paragraphs
  github_instructions chain uri =
      let chain_text = paragraphs (
        chain_instructions chain (
          (lit "default", lit "secret sent to GitHub as a bearer token in the Authorization header")
          ∷ [])) in
      newlines (
        (uri ++ lit " is a GitHub url.")
        ∷ []
        ∷ (lit "The credential helper can be used to download any assets GitHub hosts, "
            ++ lit "including:")
        ∷ []
        ∷ lit "  - the git protocol via https"
        ∷ lit "  - raw code files (raw.githubusercontent.com/<org>/<repo>/<commit>/<file>)"
        ∷ lit "  - patches (github.com/<org>/<repo>/<commit>.patch)"
        ∷ lit "  - source tarballs (github.com/<org>/<repo>/archive/refs/tags/v1.2.3.tar.gz)"
        ∷ lit "  - release assets (github.com/<org>/<repo>/releases/download/v1.2.3/<file>)"
        ∷ lit "  - container images from ghcr.io (doc)"
        ∷ lit "  ... and more."
        ∷ []
        ∷ (lit "With credentials, you are also less likely to be blocked by GitHub rate "
            ++ lit "limits, even when accessing public repositories.")
        ∷ []
        ∷ lit "Authentication Methods:"
        ∷ []
        ∷ lit "  Option 1: Using the GitHub CLI as a regular user (Recommended)"
        ∷ lit "    1. Install the GitHub CLI (gh): https://github.com/cli/cli#installation"
        ∷ lit "    2. Login via:"
        ∷ lit "      $ gh auth login"
        ∷ lit "    3. Follow the browser prompts to authenticate"
        ∷ []
        ∷ (lit "  Option 2: Authentication using a GitHub App, GitHub Actions Token or "
            ++ lit "Personal Access Token (PAT)")
        ∷ lit "    1. Setup your authentication method of choice"
        ∷ (lit "    2. Set the required environment variable (GH_TOKEN or GITHUB_TOKEN) when "
            ++ lit "running Bazel (or other tools that access credential helpers)")
        ∷ (lit "    3. Alternatively, add the secret to the system keyring under the "
            ++ lit "gh:github.com key")
        ∷ []
        ∷ chain_text
        ∷ [])

  abbrev rbe_system_instructions : Text → Text
  rbe_system_instructions uri =
      if has_prefix uri (lit "https://remote.buildbuddy.io/")
      then (lit "For BuildBuddy, visit https://app.buildbuddy.io/docs/setup/ and copy the "
          ++ lit "secret after \"x-buildbuddy-api-key=\". Use the header_name "
          ++ lit "\"x-buildbuddy-api-key\" in the configuration.")
      else (lit "Cannot infer RBE provider based on uri. Skipping provider-specific setup "
          ++ lit "instructions.")

  unfoldable pub remoteapis_instructions : ParseUrl → (Text → Result (Config Raw)) → Text → Text
  unfolding chain_instructions paragraphs
  remoteapis_instructions parse_url chain_for uri =
      let chain_text = paragraphs (
        chain_instructions (chain_for (host_of parse_url uri)) (
          (
            lit "default",
            lit "secret sent to remote APIs as an authentication token or basic auth "
                ++ lit "credentials",
          )
          ∷ [])) in
      newlines (
        (uri
          ++ lit " refers to a remote build execution (RBE) system (a gRPC endpoint used for "
          ++ lit "remote execution, remote caching, or related purposes).")
        ∷ rbe_system_instructions uri
        ∷ []
        ∷ chain_text
        ∷ [])

  unfoldable pub s3_instructions : ParseUrl → (Text → Result (Config Raw)) → Text → Text
  unfolding chain_instructions paragraphs
  s3_instructions parse_url chain_for uri =
      let host = host_of parse_url uri in
      let chain_text =
        paragraphs (chain_instructions (chain_for host) (s3_bindings (provider_from_host host))) in
      newlines (
        (uri ++ lit " is a " ++ s3_service (provider_from_host host) ++ lit ".")
        ∷ []
        ∷ (lit "The credential helper can be used to download objects from S3 (or "
            ++ lit "S3-compatible object store) buckets.")
        ∷ []
        ∷ lit "IAM Setup:"
        ∷ []
        ∷ (lit "  In order to access data from a bucket, you need an AWS user- or service "
            ++ lit "account with read access to the objects you want to access (s3:GetObject).")
        ∷ (lit "  Refer to the AWS documentation for more information: "
            ++ lit "https://docs.aws.amazon.com/AmazonS3/latest/userguide/security-iam.html")
        ∷ []
        ∷ lit "Authentication Methods:"
        ∷ []
        ∷ (lit "  Option 1: Using the AWS CLI and Single Sign On (SSO) as a regular user "
            ++ lit "(Recommended)")
        ∷ (lit "    1. Install the AWS CLI: "
            ++ lit "https://docs.aws.amazon.com/cli/latest/userguide/getting-started-install.html")
        ∷ (lit "    2. Follow the documentation for using aws configure sso and aws sso login "
            ++ lit "to sign in: "
            ++ lit "https://docs.aws.amazon.com/signin/latest/userguide/command-line-sign-in.html")
        ∷ lit "    3. Follow the browser prompts to authenticate"
        ∷ []
        ∷ lit "  Option 2: Authenticate with other methods:"
        ∷ (lit "    AWS has a lot of ways to authenticate and the credential helper uses the "
            ++ lit "official SDK.")
        ∷ (lit "    If you have more complex requirements, follow the AWS documentation to "
            ++ lit "setup your method of choice:")
        ∷ []
        ∷ lit "      https://docs.aws.amazon.com/sdkref/latest/guide/access.html"
        ∷ []
        ∷ (lit "    This may require you to set environment variables when using Bazel (or "
            ++ lit "other tools).")
        ∷ []
        ∷ chain_text
        ∷ [])

  unfoldable pub oci_instructions : ParseUrl → (Text → Result (Config Raw)) → Text → Text
  unfolding chain_instructions paragraphs
  oci_instructions parse_url chain_for uri =
      let host = host_of parse_url uri in
      let chain_text = paragraphs (chain_instructions (chain_for host) oci_bindings) in
      newlines (
        (uri ++ lit " is a " ++ oci_service host ++ lit ".")
        ∷ []
        ∷ (lit "The credential helper can be used to download container images from OCI "
            ++ lit "registries.")
        ∷ []
        ∷ lit "Default flow:"
        ∷ []
        ∷ lit "  If no custom logic exists to obtain tokens for a specific registry,"
        ∷ (lit "  the helper parses your docker config (~/.docker/config.json) to obtain "
            ++ lit "credentials for registries.")
        ∷ (lit "  This allows you to use any registry that can be used via docker pull, "
            ++ lit "simply by configuring it in advance with docker login")
        ∷ []
        ∷ lit "Custom implementations:"
        ∷ []
        ∷ (lit "  For selected registries, the credential helper implements custom logic for "
            ++ lit "obtaining tokens.")
        ∷ []
        ∷ lit "  - GitHub packages / ghcr.io"
        ∷ []
        ∷ (lit "    For the GitHub container registry, the credential helper uses the same "
            ++ lit "token flow that is also used for the GitHub api.")
        ∷ (lit "    You can use a different token for ghcr.io by setting the $GHCR_TOKEN "
            ++ lit "environment variable.")
        ∷ []
        ∷ chain_text
        ∷ [])
