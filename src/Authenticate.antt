-- ===== src/Authenticate.antt =====
-- The helpers of the folder `authenticate`: each chooses a cache key and fetches credentials.
pub mod Token
pub mod Null
pub mod Gcs
pub mod Gar
pub mod AzStorage
pub mod GitHub
pub mod S3
pub mod RemoteApis
pub mod Oci
pub mod Instructions
pub mod PathToHeader
