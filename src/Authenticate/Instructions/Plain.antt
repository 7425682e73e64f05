-- ===== src/Authenticate/Instructions/Plain.antt =====
-- The instructions of the helpers without a lookup chain.
use credential_helper.Base.{[], ◌∷◌, ◌++◌}
use credential_helper.Text.{Text, lit}
use credential_helper.Text.Parts.{newlines}

abbrev pub gcs_instructions : Text → Text
gcs_instructions uri = newlines (
    (uri ++ lit " is a Google Cloud Storage (GCS) url.")
    ∷ []
    ∷ lit "IAM Setup:"
    ∷ []
    ∷ (lit "  In order to access data from a bucket, you need a Google Cloud user- or "
        ++ lit "service account with read access to the objects you want to access "
        ++ lit "(storage.objects.get).")
    ∷ (lit "  No other permissions are needed. Refer to Google's documentation for more "
        ++ lit "information: "
        ++ lit "https://cloud.google.com/storage/docs/access-control/iam-permissions")
    ∷ []
    ∷ lit "Authentication Methods:"
    ∷ []
    ∷ lit "  Option 1: Using gcloud CLI as a regular user (Recommended)"
    ∷ lit "    1. Install the Google Cloud SDK: https://cloud.google.com/sdk/docs/install"
    ∷ lit "    2. Run:"
    ∷ lit "      $ gcloud auth application-default login"
    ∷ lit "    3. Follow the browser prompts to authenticate"
    ∷ []
    ∷ (lit "  Option 2: Using a Service Account Key, OpenID Connect or other "
        ++ lit "authentication mechanisms")
    ∷ (lit "    1. Follow Google's documentation for choosing and setting up your method "
        ++ lit "of choice: https://cloud.google.com/docs/authentication")
    ∷ (lit "    2. Ensure your method of choice sets the Application Default Credentials "
        ++ lit "(ADC) environment variable (GOOGLE_APPLICATION_CREDENTIALS): "
        ++ lit "https://cloud.google.com/docs/authentication/provide-credentials-adc")
    ∷ (lit "    3. Alternatively, check that the credentials file is in a well-known "
        ++ lit "location ($HOME/.config/gcloud/application_default_credentials.json)")
    ∷ [])

abbrev pub gar_instructions : Text → Text
gar_instructions uri = newlines (
    (uri ++ lit " is a Google Artifact Registry URL.")
    ∷ []
    ∷ lit "IAM Setup:"
    ∷ []
    ∷ (lit "  In order to access packages from a registry, you need a Google Cloud user- "
        ++ lit "or service account with read access to the repos you want to access (e.g IAM "
        ++ lit "role with read access roles/artifactregistry.reader).")
    ∷ (lit "  No other permissions are needed. Refer to Google's documentation for more "
        ++ lit "information: "
        ++ lit "https://cloud.google.com/storage/docs/access-control/iam-permissions")
    ∷ []
    ∷ lit "Authentication Methods:"
    ∷ []
    ∷ lit "  Option 1: Using gcloud CLI as a regular user (Recommended)"
    ∷ lit "    1. Install the Google Cloud SDK: https://cloud.google.com/sdk/docs/install"
    ∷ lit "    2. Run:"
    ∷ lit "      $ gcloud auth application-default login"
    ∷ lit "    3. Follow the browser prompts to authenticate"
    ∷ []
    ∷ (lit "  Option 2: Using a Service Account Key, OpenID Connect or other "
        ++ lit "authentication mechanisms")
    ∷ (lit "    1. Follow Google's documentation for choosing and setting up your method "
        ++ lit "of choice: https://cloud.google.com/docs/authentication")
    ∷ (lit "    2. Ensure your method of choice sets the Application Default Credentials "
        ++ lit "(ADC) environment variable (GOOGLE_APPLICATION_CREDENTIALS): "
        ++ lit "https://cloud.google.com/docs/authentication/provide-credentials-adc")
    ∷ (lit "    3. Alternatively, check that the credentials file is in a well-known "
        ++ lit "location ($HOME/.config/gcloud/application_default_credentials.json)")
    ∷ [])

abbrev pub az_storage_instructions : Text → Text
az_storage_instructions uri = newlines (
    (uri ++ lit " is a Azure Storage URL.")
    ∷ []
    ∷ lit "IAM Setup:"
    ∷ []
    ∷ lit "To access blob data, a user must have the following role assignments:"
    ∷ (lit "- A data access role, such as Storage Blob Data Reader or Storage Blob Data "
        ++ lit "Contributor")
    ∷ lit "- The Azure Resource Manager Reader role, at a minimum."
    ∷ []
    ∷ (lit "The following example assigns the Storage Blob Data Reader role to a user by "
        ++ lit "specifying the object ID.")
    ∷ (lit "In this example, the role assignment is scoped to the level of the storage "
        ++ lit "account.")
    ∷ []
    ∷ lit "az role assignment create \\"
    ∷ lit "   --role \"Storage Blob Data Reader\" \\"
    ∷ lit "\t--assignee-object-id \"aaaaaaaa-0000-1111-2222-bbbbbbbbbbbb\" \\"
    ∷ lit "\t--assignee-principal-type \"User\" \\"
    ∷ (lit "\t--scope "
        ++ lit
            "\"/subscriptions/<subscription-id>/resourceGroups/<resource-group-name>/providers/Microsoft.Storage/storageAccounts/<storage-account-name>\"")
    ∷ []
    ∷ (lit "Refer to Azure's documentation for more information about RBAC: "
        ++ lit "https://learn.microsoft.com/en-us/azure/role-based-access-control/")
    ∷ []
    ∷ lit "Authentication Methods:"
    ∷ []
    ∷ lit "There are several methods that you can use to authenticate with Azure."
    ∷ []
    ∷ (lit "You can refer to Azure's documentation: "
        ++ lit
            "https://learn.microsoft.com/en-us/cli/azure/authenticate-azure-cli?view=azure-cli-latest")
    ∷ [])
