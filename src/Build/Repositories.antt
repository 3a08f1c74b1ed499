-- ===== src/Build/Repositories.antt =====
-- internal/build/helm.go: the part of `buildFromHelmRepository` that makes the client of a
-- repository which is not in the cache of repositories. `NewChartRepository` and
-- `NewOCIChartRepository` of internal/helm/repository are in it by what they check and store.
use flux_build.Base.{
  Bool, true, false, not, ◌&&◌, Option, none, some, List, [], ◌∷◌, ◌++◌, ◌==◌, if◌then◌else◌,
}
use flux_build.Base.Results.{Result, ok, err, ◌>>=◌, map_err}
use flux_build.Base.Text.{Text, codes, text_eq}
use flux_build.Auth.Getter.{TlsLibrary}
use flux_build.Auth.Registry.{DockerLibrary, login_option_from_secret, client_generator}
use flux_build.Auth.Types.{
  Secret, Url, UrlLibrary, TlsConfig, ClientOption, with_url, with_timeout,
  with_pass_credentials_all, with_registry_client, Keychain, Authenticator, LoginOption,
}
use flux_build.Build.Credentials.{
  CloudLibrary, OidcError, auth_optional, oidc_auth, make_login_option, get_helm_repository_secret,
  client_options,
}
use flux_build.Build.Index.{ResourceIndex}
use flux_build.Build.Objects.{
  HelmRepository, KubeLibrary, BuildError, bad_url, bad_secret, no_credentials, no_login,
  invalid_oci_url, no_client, no_getter, login_failed,
}

-- A chart repository as it comes from its constructor.
pub record HttpRepository : Type 0 where
  pub url : Text
  pub path : Text
  pub options : List ClientOption
  pub tls_config : Option TlsConfig

pub record OciRepository : Type 0 where
  pub url : Url
  pub options : List ClientOption
  pub credentials_file : Option Text  -- of the registry client
  pub logged_in : Option LoginOption

pub data Downloader : Type 0 where
  http : HttpRepository → Downloader
  oci : OciRepository → Downloader

-- What this part of the code calls in other packages: `has_scheme` says for which URL schemes the
-- getters have one, `is_oci` is Helm's test of a URL, `login` is the registry's answer, and
-- `create_temp` and `new_client` make the registry client.
pub record HelmLibrary : Type 1 where
  pub kube : KubeLibrary
  pub urls : UrlLibrary
  pub docker : DockerLibrary
  pub tls : TlsLibrary
  pub cloud : CloudLibrary
  pub resolve : Keychain → Text → Option Authenticator
  pub has_scheme : Text → Bool
  pub is_oci : Text → Bool
  pub login : Text → LoginOption → Bool
  pub temp_dir : Text
  pub create_temp : Option Text
  pub new_client : Option Text → Bool

-- What the secret or the cloud provider contributes
pub record Credentials : Type 0 where
  pub options : List ClientOption
  pub tls_config : Option TlsConfig
  pub authenticator : Option Authenticator
  pub keychain : Option Keychain

abbrev no_auth : Credentials
no_auth = record { options = []; tls_config = none; authenticator = none; keychain = none }

module _ (lib : HelmLibrary) where
  from_secret : Text → Secret → Result BuildError Credentials
  from_secret url s = do
    (opts, config) ← client_options lib.tls lib.urls s url
    keychain ← map_err (λ _. bad_secret) (login_option_from_secret lib.docker lib.urls url s)
    ok (record {
      options = opts;
      tls_config = config;
      authenticator = none;
      keychain = some keychain;
    })

  after_oidc : Text → Result OidcError (Option Authenticator) → Result BuildError Credentials
  after_oidc provider (ok auth) = ok (record no_auth { authenticator = auth })
  after_oidc provider (err (auth_optional _)) = ok no_auth
  after_oidc provider (err _) = err (no_credentials provider)

  from_provider : HelmRepository → Bool → Result BuildError Credentials
  unfolding after_oidc
  from_provider repo uncached =
      if not (repo.provider == codes "generic") && (repo.type == codes "oci" && uncached)
      then after_oidc repo.provider (oidc_auth lib.cloud repo.url repo.provider)
      else ok no_auth

  unfoldable pub credentials_for :
      Text → HelmRepository → ResourceIndex lib.kube → Bool → Result BuildError Credentials
  unfolding from_secret from_provider
  credentials_for url repo db uncached = do
    found ← get_helm_repository_secret lib.kube repo db
    elim found [ some s ↦ from_secret url s | none ↦ from_provider repo uncached ]

  -- The parts that both constructors share: the URL parses, and there is a getter for its scheme.
  getter_for : Text → Result BuildError Url
  getter_for url = elim (lib.urls.parse url) [
    | none ↦ err (bad_url url)
    | some u ↦ if lib.has_scheme u.scheme then ok u else err (no_getter u.scheme)
  ]

  unfoldable pub is_some {ℓ} : {A : Type ℓ} → Option A → Bool
  is_some none = false
  is_some (some _) = true

  -- `Login`, if there is something to log in with
  logged_in : OciRepository → Option LoginOption → Result BuildError Downloader
  logged_in r none = ok (oci r)
  logged_in r (some login) =
      if lib.login r.url.host login
      then ok (oci (record r { logged_in = some login }))
      else err login_failed

  new_oci : Text → List ClientOption → Option LoginOption → Result BuildError Downloader
  unfolding getter_for logged_in is_some
  new_oci url opts login = if not (lib.is_oci url) then err (invalid_oci_url url) else do
    file ←
        map_err (λ _. no_client) (client_generator lib.create_temp lib.new_client (is_some login)).0
    u ← getter_for url
    logged_in
        (record {
          url = u;
          options = opts ++ (with_registry_client file ∷ []);
          credentials_file = file;
          logged_in = none;
        })
        login

  new_http : Text → List ClientOption → Option TlsConfig → Result BuildError Downloader
  unfolding getter_for
  new_http url opts config = do
    _ ← getter_for url
    ok (http (record { url = url; path = lib.temp_dir; options = opts; tls_config = config }))

  login_option_if : Bool → Credentials → Text → Result BuildError (Option LoginOption)
  login_option_if true c url =
      map_err (λ _. no_login)
        (make_login_option lib.urls lib.resolve c.authenticator c.keychain url)
  login_option_if false c url = ok none

  -- The block under `if chartRepo == nil`
  unfoldable pub new_repository :
      Text → HelmRepository → ResourceIndex lib.kube → Bool → Result BuildError Downloader
  unfolding credentials_for login_option_if new_oci new_http
  new_repository url repo db uncached = do
    c ← credentials_for url repo db uncached
    let opts =
        (with_url url ∷ with_timeout 60 ∷ with_pass_credentials_all repo.pass_credentials ∷ [])
        ++ c.options
    login ← login_option_if uncached c url
    if repo.type == codes "oci" then new_oci url opts login else new_http url opts c.tls_config
