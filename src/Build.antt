-- ===== src/Build.antt =====
-- internal/build: the index of resources, and the build of a HelmRelease from it.
pub mod Objects
pub mod Index
pub mod Kustomize
pub mod Values
pub mod Credentials
pub mod Repositories
pub mod FromRepository
pub mod Render
pub mod Renderers
pub mod Release
