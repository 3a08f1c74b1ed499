-- ===== src/Auth/Registry.antt =====
-- internal/helm/registry/auth.go and client.go: credentials for an OCI registry.
use flux_build.Base.{
  ◌≡◌, ◌≢◌, Bool, true, false, not, ◌&&◌, ◌||◌, Option, none, some, List, [], ◌∷◌, arith, ◌==◌,
  if◌then◌else◌,
}
use flux_build.Base.Dict.{lookup}
use flux_build.Base.Results.{Result, ok, err, ◌>>=◌, >>=-eq-ok}
use flux_build.Base.Text.{Text, codes, is_empty, text_eq, text_iff}
use flux_build.Auth.Types.{
  Secret, data_at, Url, UrlLibrary, AuthError, half_credentials, bad_url, bad_docker_config,
  no_auth_config, no_auth_for_host, unexpected_server, unresolved, no_authorization, half_auth_data,
  no_credentials_file, no_client, AuthConfig, Helper, Keychain, anonymous, from_helper,
  Authenticator, LoginOption,
}

-- `helper.Get`
unfoldable pub helper_get : Helper → Text → Result AuthError (Text × Text)
helper_get h server_url =
    if not (server_url == h.registry)
    then err (unexpected_server server_url)
    else ok (h.username, h.password)

-- `github.com/docker/cli`: `config.LoadFromReader`, `GetAuthConfig`, `ConvertToHostname`
pub record DockerLibrary : Type 1 where
  pub Config : Type 0
  pub load : Text → Option Config
  pub get_auth_config : Config → Text → Option AuthConfig
  pub convert_to_hostname : Text → Text

-- `StringData` goes before `Data`.
unfoldable pub field_of : Secret → Text → Text
field_of s k = elim (lookup k s.string_data) [ some v ↦ v | none ↦ data_at s k ]

module _ (docker : DockerLibrary) (urls : UrlLibrary) where
  docker_config : Secret → Result AuthError docker.Config
  docker_config s = elim (docker.load (data_at s (codes ".dockerconfigjson"))) [
    | none ↦ err (bad_docker_config s.name)
    | some c ↦ ok c
  ]

  auth_config : Secret → docker.Config → Text → Result AuthError AuthConfig
  auth_config s c host = elim (docker.get_auth_config c host) [
    | none ↦ err (no_auth_config s.name)
    | some a ↦ ok a
  ]

  docker_credentials : Secret → Text → Result AuthError (Text × Text)
  unfolding docker_config auth_config
  docker_credentials s host = do
    config ← docker_config s
    auth ← auth_config s config host
    if not (docker.convert_to_hostname auth.server_address == host)
        then err (no_auth_for_host host s.name)
        else ok (auth.username, auth.password)

  keychain_of : Secret → Text → Text × Text → Result AuthError Keychain
  keychain_of s host (username, password) =
      if is_empty username && is_empty password
      then ok anonymous
      else if is_empty username || is_empty password
      then err (half_credentials s.name)
      else ok (from_helper (record { registry = host; username = username; password = password }))

  parsed : Text → Result AuthError Url
  parsed url = elim (urls.parse url) [ none ↦ err (bad_url url) | some u ↦ ok u ]

  -- `LoginOptionFromSecret`
  unfoldable pub login_option_from_secret : Text → Secret → Result AuthError Keychain
  unfolding docker_credentials keychain_of parsed
  login_option_from_secret registry_url s = do
    url ← parsed registry_url
    credentials ←
        if s.is_docker_config
        then docker_credentials s url.host
        else ok (field_of s (codes "username"), field_of s (codes "password"))
    keychain_of s url.host credentials

  keychain_of-from_helper :
      (s : Secret) (host username password : Text) (h : Helper)
      → keychain_of s host (username, password) ≡ ok (from_helper h)
      → (h.registry ≡ host) × (h.username ≢ []) × (h.password ≢ [])
  unfolding keychain_of
  keychain_of-from_helper s host [] [] h e = cc
  keychain_of-from_helper s host [] (c ∷ p) h e = cc
  keychain_of-from_helper s host (b ∷ n) [] h e = cc
  keychain_of-from_helper s host (b ∷ n) (c ∷ p) h e = ground arith

  parsed-eq-ok : (url : Text) (u : Url) → parsed url ≡ ok u → urls.parse url ≡ some u
  unfolding parsed
  parsed-eq-ok url u h = ground arith

  -- Credentials that come from a secret are given out for the repository's host and for no other,
  -- and are never half empty.
  pub login_option-only_host :
      (registry_url server : Text) (s : Secret) (h : Helper) (username password : Text)
      → login_option_from_secret registry_url s ≡ ok (from_helper h)
      → helper_get h server ≡ ok (username, password)
      → (u : Url) × (urls.parse registry_url ≡ some u)
        × (server ≡ u.host)
        × (username ≢ [])
        × (password ≢ [])
  unfolding login_option_from_secret helper_get
  login_option-only_host r server s h n p made got =
      let (u, found, rest) = >>=-eq-ok (parsed r) _ made in
      let (c, _, kept) =
        >>=-eq-ok
          (if s.is_docker_config
            then docker_credentials s u.host
            else ok (field_of s (codes "username"), field_of s (codes "password")))
          (keychain_of s u.host) rest in
      let made_of = keychain_of-from_helper s u.host c.0 c.1 h kept in
      (
        u,
        parsed-eq-ok r u found,
        ground (arith, text_iff server h.registry),
        ground arith,
        ground arith,
      )

-- `AuthAdaptHelper`: `none` is a nil option
unfoldable pub auth_adapt_helper : Authenticator → Result AuthError (Option LoginOption)
auth_adapt_helper a = elim a.authorization [
  | none ↦ err no_authorization
  | some c ↦
      if is_empty c.username && is_empty c.password
      then ok none
      else if is_empty c.username || is_empty c.password
      then err half_auth_data
      else ok (some (record { username = c.username; password = c.password }))
]

-- `KeychainAdaptHelper`. `resolve` is the `Resolve` method of keychains, of go-containerregistry.
unfoldable pub keychain_adapt_helper :
    (urls : UrlLibrary) (resolve : Keychain → Text → Option Authenticator)
    → Keychain
    → Text
    → Result AuthError (Option LoginOption)
keychain_adapt_helper urls resolve k registry_url = elim (urls.parse registry_url) [
  | none ↦ err (bad_url registry_url)
  | some u ↦ elim (resolve k u.host) [
    | none ↦ err (unresolved registry_url)
    | some a ↦ auth_adapt_helper a
  ]
]

-- `ClientGenerator`: the client's credentials file, if it has one. `create_temp` makes the file,
-- `new_client` says whether the library makes a client with it; a file that is not used is removed.
unfoldable pub client_generator :
    (create_temp : Option Text) (new_client : Option Text → Bool)
    → Bool
    → Result AuthError (Option Text) × List Text
client_generator create_temp new_client true = elim create_temp [
  | none ↦ (err no_credentials_file, [])
  | some file ↦ if new_client (some file) then (ok (some file), []) else (err no_client, file ∷ [])
]
client_generator create_temp new_client false =
    if new_client none then (ok none, []) else (err no_client, [])
