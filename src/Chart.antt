-- ===== src/Chart.antt =====
-- internal/helm/chart: references to charts, and the builders that turn them into packages.
pub mod Reference
pub mod Options
pub mod Host
pub mod Metadata
pub mod Errors
pub mod Packages
pub mod Remote
pub mod Dependencies
pub mod Local
