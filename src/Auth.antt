-- ===== src/Auth.antt =====
-- Credentials: internal/helm/getter/getter.go and internal/helm/registry. The libraries that parse
-- URLs, certificates and Docker configurations are parameters.
pub mod Verifier
pub mod Types
pub mod Getter
pub mod Registry
