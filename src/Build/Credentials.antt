-- ===== src/Build/Credentials.antt =====
-- internal/build/helm.go: where the credentials for a repository come from (`oidcAuth`,
-- `isSkippableCloudRegistryAuthErr`, `makeLoginOption`, `getHelmRepositorySecret`,
-- `clientOptionsFromSecret`).
pub mod Oidc
use flux_build.Base.{
  Bool, true, false, ◌||◌, Option, none, some, List, [], ◌∷◌, ◌==◌, if◌then◌else◌,
}
use flux_build.Base.Dict.{lookup}
use flux_build.Base.Results.{Result, ok, err, ◌>>=◌, map_err}
use flux_build.Base.Text.{Text, codes, text_eq, is_empty, contains_text, trim_prefix}
use flux_build.Auth.Getter.{TlsLibrary, client_options_from_secret, tls_client_config_from_secret}
use flux_build.Auth.Registry.{auth_adapt_helper, keychain_adapt_helper}
use flux_build.Auth.Types.{
  Secret, UrlLibrary, TlsConfig, ClientOption, AuthError, Keychain, Authenticator, LoginOption,
}
use flux_build.Build.Index.{ResourceIndex}
use flux_build.Build.Objects.{
  Ref, ref_eq, HelmRepository, Object, secret, KubeLibrary, BuildError, marshal_failed,
  decode_failed, no_secret, not_a_secret, bad_secret, no_login,
}

-- `go-containerregistry`'s `name.ParseReference`, and `GetArtifactRegistryCredentials` of
-- fluxcd/pkg, for a provider and an URL: an authenticator, or the text of the error
pub record CloudLibrary : Type 0 where
  pub is_reference : Text → Bool
  pub credentials : Text → Text → Result Text Authenticator

-- The errors of `oidcAuth`; `auth_optional` is one that `errRegistryAuthOptional` is joined to.
pub data OidcError : Type 0 where
  not_a_reference : Text → OidcError
  unsupported_provider : Text → OidcError
  auth_optional : Text → OidcError
  auth_failed : Text → OidcError

-- `isSkippableCloudRegistryAuthErr`, on the error's text
unfoldable pub is_skippable : Text → Bool
is_skippable msg =
    contains_text msg (codes "AWS_REGION environment variable is not set")
    || contains_text msg (codes "could not find default credentials")
    || contains_text msg (codes "DefaultAzureCredential authentication failed")

module _ (cloud : CloudLibrary) where
  cloud_credentials : Text → Text → Result OidcError (Option Authenticator)
  cloud_credentials provider u = elim (cloud.credentials provider u) [
    | ok a ↦ ok (some a)
    | err msg ↦ if is_skippable msg then err (auth_optional msg) else err (auth_failed msg)
  ]

  -- `oidcAuth`
  unfoldable pub oidc_auth : Text → Text → Result OidcError (Option Authenticator)
  unfolding cloud_credentials
  oidc_auth url provider =
      let u = trim_prefix url (codes "oci://") in
      if cloud.is_reference u
      then (if provider == codes "aws"
          then cloud_credentials (codes "aws") u
          else if provider == codes "azure"
          then cloud_credentials (codes "azure") u
          else if provider == codes "gcp"
          then cloud_credentials (codes "gcp") u
          else if is_empty provider
          then ok none
          else err (unsupported_provider provider))
      else err (not_a_reference u)

-- `makeLoginOption`: `none` is a nil option
unfoldable pub make_login_option :
    (urls : UrlLibrary) (resolve : Keychain → Text → Option Authenticator)
    → Option Authenticator
    → Option Keychain
    → Text
    → Result AuthError (Option LoginOption)
make_login_option urls resolve (some a) keychain registry_url = auth_adapt_helper a
make_login_option urls resolve none (some k) registry_url =
    keychain_adapt_helper urls resolve k registry_url
make_login_option urls resolve none none registry_url = ok none

module _ (lib : KubeLibrary) where
  open lib use {Resource, Values, Patch, as_yaml, decode}

  -- The type assertion `obj.(*corev1.Secret)`; it panics on another object.
  as_secret : Object Values Patch → Result BuildError (Option Secret)
  as_secret (secret s) = ok (some s)
  as_secret _ = err not_a_secret

  secret_of : Resource → Result BuildError (Option Secret)
  unfolding as_secret
  secret_of res = elim (as_yaml res) [
    | none ↦ err marshal_failed
    | some raw ↦ elim (decode raw) [ none ↦ err decode_failed | some o ↦ as_secret o ]
  ]

  secret_at : ResourceIndex lib → Ref → Result BuildError (Option Secret)
  unfolding secret_of
  secret_at db r = elim (lookup r db) [ none ↦ err (no_secret r) | some res ↦ secret_of res ]

  -- `getHelmRepositorySecret`: `none` is a nil secret
  unfoldable pub get_helm_repository_secret :
      HelmRepository → ResourceIndex lib → Result BuildError (Option Secret)
  unfolding secret_at
  get_helm_repository_secret repo db = elim repo.secret_ref [
    | none ↦ ok none
    | some name ↦
        secret_at db
          (record { group = []; kind = codes "Secret"; name = name; namespace = repo.namespace })
  ]

-- `clientOptionsFromSecret`
unfoldable pub client_options :
    (tls : TlsLibrary) (urls : UrlLibrary)
    → Secret
    → Text
    → Result BuildError (List ClientOption × Option TlsConfig)
client_options tls urls s normalized_url = do
  opts ← map_err (λ _. bad_secret) (client_options_from_secret s)
  config ← map_err (λ _. bad_secret) (tls_client_config_from_secret tls urls s normalized_url)
  ok (opts, config)
