-- ===== src/Repository.antt =====
-- internal/helm/repository: Helm chart repositories over HTTP and OCI.
pub mod Sorting
pub mod Versions
pub mod Index
pub mod Urls
pub mod Http
pub mod Oci
