-- ===== src/Build/Credentials/Oidc.antt =====
-- When a login by the cloud's own credentials may fail (internal/build/helm.go, `oidcAuth`).
use flux_build.Base.{◌≡◌, ◌⊎◌, ◌↔◌, true, arith}
use flux_build.Base.Results.{err}
use flux_build.Base.Text.{Text, codes, text_eq, text_iff, trim_prefix}
use flux_build.Build.Credentials.{
  CloudLibrary, auth_optional, cloud_credentials, is_skippable, oidc_auth,
}

module _ (cloud : CloudLibrary) where
  -- Those that have cloud credentials.
  abbrev pub IsCloud : Text → Type 0
  IsCloud p = (p ≡ codes "aws") ⊎ ((p ≡ codes "azure") ⊎ (p ≡ codes "gcp"))

  cloud-optional :
      (p u msg : Text)
      → (cloud_credentials cloud p u ≡ err (auth_optional msg))
        ↔ ((cloud.credentials p u ≡ err msg) × (is_skippable msg ≡ true))
  unfolding cloud_credentials
  cloud-optional p u msg = ground arith

  -- A login is reported as optional exactly if the provider is one of the three clouds, the rest of
  -- the URL is a reference, and the cloud's credentials failed with a text that may be skipped.
  pub oidc_auth-optional :
      (url provider msg : Text)
      → (oidc_auth cloud url provider ≡ err (auth_optional msg)) ↔ (
          IsCloud provider
          × ((cloud.is_reference (trim_prefix url (codes "oci://")) ≡ true)
              × ((cloud.credentials provider (trim_prefix url (codes "oci://")) ≡ err msg)
                  × (is_skippable msg ≡ true))))
  unfolding oidc_auth
  oidc_auth-optional url p msg =
      let u = trim_prefix url (codes "oci://") in
      ground (
        arith,
        text_iff p (codes "aws"),
        text_iff p (codes "azure"),
        text_iff p (codes "gcp"),
        cloud-optional p u msg,
        cloud-optional (codes "aws") u msg,
        cloud-optional (codes "azure") u msg,
        cloud-optional (codes "gcp") u msg,
      )
