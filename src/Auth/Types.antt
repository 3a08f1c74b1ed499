-- ===== src/Auth/Types.antt =====
-- The values that internal/helm/getter, internal/helm/registry and internal/oci pass around: the
-- fields that they read of a Kubernetes secret, client options, and registry credentials.
use flux_build.Base.{ℕ, Bool, Option, none, some, List, []}
use flux_build.Base.Dict.{Dict, lookup}
use flux_build.Base.Text.{Text, text_eq}

pub record Secret : Type 0 where
  pub name : Text
  pub is_docker_config : Bool  -- Type == corev1.SecretTypeDockerConfigJson
  pub entries : Dict Text Text  -- Data
  pub string_data : Dict Text Text

-- `secret.Data[k]`: the empty slice for a key that is not there
unfoldable pub data_at : Secret → Text → Text
data_at s k = elim (lookup k s.entries) [ none ↦ [] | some v ↦ v ]

pub record Url : Type 0 where
  pub scheme : Text
  pub host : Text
  pub hostname : Text
  pub path : Text
  pub raw_path : Text

-- `net/url`: `url.Parse`, and `URL.String`
pub record UrlLibrary : Type 0 where
  pub parse : Text → Option Url
  pub show : Url → Text

pub record TlsConfig : Type 0 where
  pub certificates : List Text
  pub root_cas : Option Text
  pub server_name : Text

pub data ClientOption : Type 0 where
  with_url : Text → ClientOption
  with_timeout : ℕ → ClientOption
  with_pass_credentials_all : Bool → ClientOption
  with_basic_auth : Text → Text → ClientOption
  with_registry_client : Option Text → ClientOption  -- the client's credentials file

pub data AuthError : Type 0 where
  half_credentials : Text → AuthError
  half_key_pair : Text → AuthError
  bad_key_pair : AuthError
  no_system_pool : AuthError
  bad_ca : AuthError
  bad_url : Text → AuthError
  bad_docker_config : Text → AuthError
  no_auth_config : Text → AuthError
  no_auth_for_host : Text → Text → AuthError
  unexpected_server : Text → AuthError
  unresolved : Text → AuthError
  no_authorization : AuthError
  half_auth_data : AuthError
  no_credentials_file : AuthError
  no_client : AuthError

-- authn.AuthConfig
pub record AuthConfig : Type 0 where
  pub username : Text
  pub password : Text
  pub server_address : Text

-- registry/auth.go, `helper`; the error field is never set.
pub record Helper : Type 0 where
  pub registry : Text
  pub username : Text
  pub password : Text

-- `oci.Anonymous`, and a keychain made from a helper
pub data Keychain : Type 0 where
  anonymous : Keychain
  from_helper : Helper → Keychain

-- authn.Authenticator: what its `Authorization` returns
pub record Authenticator : Type 0 where
  pub authorization : Option AuthConfig

-- registry.LoginOptBasicAuth
pub record LoginOption : Type 0 where
  pub username : Text
  pub password : Text
