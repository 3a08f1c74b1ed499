-- ===== src/Tests.antt =====
-- The theorems at concrete inputs, with small libraries in the place of those that the code calls.
mod Instances
mod Host
mod Charts
mod Dependencies
mod Patterns
mod Loads
mod Kustomized
mod Files
mod Caches
mod Choices
mod Builds
mod Http
