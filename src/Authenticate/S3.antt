-- ===== src/Authenticate/S3.antt =====
-- authenticate/s3/s3.go
pub mod Region
pub mod Get
pub mod Hosts
