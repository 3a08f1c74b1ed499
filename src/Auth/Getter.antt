-- ===== src/Auth/Getter.antt =====
-- internal/helm/getter/getter.go: client options and the TLS configuration from a secret.
use flux_build.Base.{
  ◌≡◌, ◌↔◌, true, not, ◌&&◌, ◌||◌, Option, none, some, List, [], ◌∷◌, arith, if◌then◌else◌,
}
use flux_build.Base.Results.{Result, ok, err, ◌>>=◌}
use flux_build.Base.Text.{Text, codes, is_empty}
use flux_build.Auth.Types.{
  Secret, data_at, UrlLibrary, TlsConfig, ClientOption, with_basic_auth, AuthError,
  half_credentials, half_key_pair, bad_key_pair, no_system_pool, bad_ca, bad_url,
}

-- `BasicAuthFromSecret`
unfoldable pub basic_auth_from_secret : Secret → Result AuthError (Option ClientOption)
basic_auth_from_secret s =
    let username = data_at s (codes "username") in
    let password = data_at s (codes "password") in
    if is_empty username && is_empty password
    then ok none
    else if is_empty username || is_empty password
    then err (half_credentials s.name)
    else ok (some (with_basic_auth username password))

-- `ClientOptionsFromSecret`
unfoldable pub client_options_from_secret : Secret → Result AuthError (List ClientOption)
client_options_from_secret s = do
  basic_auth ← basic_auth_from_secret s
  elim basic_auth [ none ↦ ok [] | some o ↦ ok (o ∷ []) ]

-- `crypto/tls` and `crypto/x509`: `X509KeyPair`, `SystemCertPool`, `AppendCertsFromPEM`
pub record TlsLibrary : Type 0 where
  pub key_pair : Text → Text → Option Text
  pub system_pool : Option Text
  pub append_certs : Text → Text → Option Text

module _ (tls : TlsLibrary) (urls : UrlLibrary) where
  certificates_of : Text → Text → Result AuthError (List Text)
  certificates_of cert key =
      if not (is_empty cert) && not (is_empty key)
      then (elim (tls.key_pair cert key) [ none ↦ err bad_key_pair | some c ↦ ok (c ∷ []) ])
      else ok []

  pool_with : Text → Option Text → Result AuthError (Option Text)
  pool_with ca none = err no_system_pool
  pool_with ca (some pool) = elim (tls.append_certs pool ca) [
    | none ↦ err bad_ca
    | some p ↦ ok (some p)
  ]

  root_cas_of : Text → Result AuthError (Option Text)
  unfolding pool_with
  root_cas_of ca = if is_empty ca then ok none else pool_with ca tls.system_pool

  pub server_name_of : Text → Result AuthError Text
  server_name_of repository_url = elim (urls.parse repository_url) [
    | none ↦ err (bad_url repository_url)
    | some u ↦ ok u.hostname
  ]

  -- `TLSClientConfigFromSecret`
  unfoldable pub tls_client_config_from_secret : Secret → Text → Result AuthError (Option TlsConfig)
  unfolding certificates_of root_cas_of server_name_of
  tls_client_config_from_secret s repository_url =
      let cert = data_at s (codes "certFile") in
      let key = data_at s (codes "keyFile") in
      let ca = data_at s (codes "caFile") in
      if is_empty cert && (is_empty key && is_empty ca)
      then ok none
      else if (not (is_empty cert) && is_empty key) || (not (is_empty key) && is_empty cert)
      then err (half_key_pair s.name)
      else do
        certificates ← certificates_of cert key
        root_cas ← root_cas_of ca
        server_name ← server_name_of repository_url
        ok (
            some (record {
              certificates = certificates;
              root_cas = root_cas;
              server_name = server_name;
            }))

  -- A configuration that is made names the repository's host, has a certificate exactly when the
  -- secret has one, and then the secret has a key too, and has roots exactly when the secret has a
  -- CA.
  tls_client_config-parts :
      (s : Secret) (repository_url : Text) (c : TlsConfig)
      → tls_client_config_from_secret s repository_url ≡ ok (some c)
      → (server_name_of repository_url ≡ ok c.server_name)
        × (is_empty c.certificates ≡ is_empty (data_at s (codes "certFile")))
        × (is_empty (data_at s (codes "keyFile")) ≡ is_empty (data_at s (codes "certFile")))
        × ((c.root_cas ≡ none) ↔ (is_empty (data_at s (codes "caFile")) ≡ true))
  unfolding tls_client_config_from_secret
  tls_client_config-parts s u c h = ground arith
