-- ===== src/Tests/Choices.antt =====
-- Names, versions, index files and credentials at concrete inputs.
use flux_build.Auth.Registry.{field_of}
use flux_build.Base.{
  All, arith, ℕ, ◌≡◌, ◌≢◌, ◌↔◌, inl, refl, true, false, none, some, List, [], ◌∷◌, nat_eq,
}
use flux_build.Base.Dict.{lookup}
use flux_build.Base.Results.{ok, err}
use flux_build.Base.Text.{Text, codes, text_eq, has_prefix, trim_prefix}
use flux_build.Auth.Getter.{tls_client_config_from_secret}
use flux_build.Auth.Registry.{login_option_from_secret, login_option-only_host, helper_get}
use flux_build.Auth.Types.{Secret, data_at, Helper, from_helper, Url, TlsConfig}
use flux_build.Auth.Verifier.{
  CosignLibrary, VerifierOption, with_public_key, with_remote_options, CheckOptions, apply_options,
  new_cosign_verifier, new_cosign_verifier_iff, LastKey, HasNoKey, Trusts, client_of, no_options,
}
use flux_build.Build.Credentials.{oidc_auth, auth_optional, is_skippable}
use flux_build.Build.Credentials.Oidc.{IsCloud, oidc_auth-optional}
use flux_build.Chart.Reference.{RemoteReference, matches_name, with_escaped_name}
use flux_build.Chart.Reference.Escaped.{IsInSegment, unescape, unescape-with_escaped_name}
use flux_build.Chart.Reference.Names.{Name, matches_name_iff}
use flux_build.Repository.Index.{Entry, nil, entry, no_metadata, prune, kept, prune-kept}
use flux_build.Repository.Oci.{
  OciLibrary, OciChartRepository, verify_oci_chart, Accepted, verify_oci_chart_iff,
}
use flux_build.Repository.Sorting.{insertion_sort}
use flux_build.Repository.Versions.{ChartVersion, choose_version}
use flux_build.Repository.Versions.Latest.{IsChoice, choose_version-IsChoice}
use flux_build.Tests.Instances.{urls, docker, tls, cloud, semver}

matches_name_iff_example : (matches_name (codes "org/podinfo") ≡ true) ↔ Name (codes "org/podinfo")
matches_name_iff_example = matches_name_iff (codes "org/podinfo")

abbrev podinfo : Text → ℕ → ChartVersion
podinfo version created = record {
  name = codes "podinfo";
  version = version;
  api_version = codes "v1";
  urls = [];
  created = created;
}

abbrev versions : List ChartVersion
versions = podinfo (codes "1") 5 ∷ podinfo (codes "3") 2 ∷ podinfo (codes "3") 4 ∷ []

choose_version-IsChoice_example :
    IsChoice semver versions (codes "*") (choose_version semver insertion_sort versions (codes "*"))
choose_version-IsChoice_example = choose_version-IsChoice semver insertion_sort versions (codes "*")

abbrev entries : List Entry
entries = nil ∷ entry (podinfo (codes "1") 5) ∷ no_metadata ∷ []

prune-kept_example :
    prune (λ cv. some cv) (codes "podinfo") 3 entries
    ≡ kept (λ cv. some cv) (codes "podinfo") entries
prune-kept_example = prune-kept (λ cv. some cv) (codes "podinfo") entries

abbrev tls_secret : Secret
tls_secret = record {
  name = codes "tls";
  is_docker_config = false;
  entries = (codes "certFile", codes "c") ∷ (codes "keyFile", codes "k") ∷ [];
  string_data = [];
}

abbrev tls_config : TlsConfig
tls_config = record {
  certificates = codes "ck" ∷ [];
  root_cas = none;
  server_name = codes "charts";
}

tls_config_made :
    tls_client_config_from_secret tls urls tls_secret (codes "https://charts")
    ≡ ok (some tls_config)
unfolding tls_client_config_from_secret data_at lookup text_eq has_prefix trim_prefix
tls_config_made = refl

abbrev login_secret : Secret
login_secret = record {
  name = codes "login";
  is_docker_config = false;
  entries = (codes "username", codes "u") ∷ (codes "password", codes "p") ∷ [];
  string_data = [];
}

abbrev login_helper : Helper
login_helper = record { registry = codes "charts"; username = codes "u"; password = codes "p" }

login_made :
    login_option_from_secret docker urls (codes "https://charts") login_secret
    ≡ ok (from_helper login_helper)
unfolding login_option_from_secret data_at lookup has_prefix field_of text_eq trim_prefix
login_made = refl

login_got : helper_get login_helper (codes "charts") ≡ ok (codes "u", codes "p")
unfolding helper_get text_eq
login_got = refl

login_option-only_host_example :
    (u : Url) × (urls.parse (codes "https://charts") ≡ some u)
    × (codes "charts" ≡ u.host)
    × (codes "u" ≢ [])
    × (codes "p" ≢ [])
login_option-only_host_example =
    login_option-only_host docker urls (codes "https://charts") (codes "charts") login_secret
      login_helper (codes "u") (codes "p") login_made login_got

abbrev image : Text
image = codes "oci://registry/podinfo"

oidc_auth-optional_example :
    (oidc_auth cloud image (codes "aws")
      ≡ err (auth_optional (codes "could not find default credentials")))
    ↔ (IsCloud cloud (codes "aws")
        × ((cloud.is_reference (trim_prefix image (codes "oci://")) ≡ true)
            × ((cloud.credentials (codes "aws") (trim_prefix image (codes "oci://"))
                  ≡ err (codes "could not find default credentials"))
                × (is_skippable (codes "could not find default credentials") ≡ true))))
oidc_auth-optional_example =
    oidc_auth-optional cloud image (codes "aws") (codes "could not find default credentials")

abbrev oci_lib : OciLibrary
oci_lib = record {
  urls = urls;
  tags = λ ref. some (codes "1" ∷ codes "2" ∷ []);
  login = λ host opts. true;
  logout = λ host. true;
  get = λ url opts config. some (codes "chart");
  can_remove = λ path. true;
  parse_reference = λ t. some t;
}

abbrev signed : OciChartRepository
signed = record {
  url = record {
    scheme = codes "oci";
    host = codes "registry";
    hostname = codes "registry";
    path = [];
    raw_path = [];
  };
  options = [];
  tls_config = none;
  credentials_file = [];
  verifiers = (λ ref. ok false) ∷ (λ ref. ok true) ∷ [];
}

abbrev signed_chart : ChartVersion
signed_chart = record (podinfo (codes "1") 0) { urls = codes "oci://registry/podinfo:1" ∷ [] }

verify_oci_chart_iff_example : (verify_oci_chart oci_lib signed signed_chart ≡ ok tt) ↔ (
    (url : Text) × (more : List Text) × (ref : Text) × (signed_chart.urls ≡ url ∷ more)
    × (oci_lib.parse_reference (trim_prefix url (codes "oci://")) ≡ some ref)
    × Accepted oci_lib ref signed.verifiers)
verify_oci_chart_iff_example = verify_oci_chart_iff oci_lib signed signed_chart

abbrev slashed : RemoteReference
slashed = record { name = codes "a/b"; version = codes "1" }

unescape-with_escaped_name_example :
    All IsInSegment (with_escaped_name slashed).name
    × (unescape (with_escaped_name slashed).name ≡ some (codes "a/b"))
    × ((with_escaped_name slashed).version ≡ codes "1")
unescape-with_escaped_name_example =
    unescape-with_escaped_name slashed (omega arith, (omega arith, (omega arith, tt)))

abbrev cosign : CosignLibrary
cosign = record {
  RemoteOption = ℕ;
  ClientOptions = List ℕ;
  PublicKey = Text;
  SigVerifier = Text;
  Certificates = Text;
  RekorClient = Text;
  Reference = Text;
  Signature = Text;
  client_options = some [];
  with_remote = λ client remote. remote;
  unmarshal_key = λ key. some key;
  load_verifier = λ key. some key;
  roots = some (codes "roots");
  intermediates = some (codes "certs");
  rekor = none;
}

abbrev verifier_options : List (VerifierOption cosign)
verifier_options = with_public_key (codes "key") ∷ with_remote_options (some (1 ∷ [])) ∷ []

abbrev keyed_options : CheckOptions cosign
keyed_options = record {
  client = 1 ∷ [];
  sig_verifier = some (codes "key");
  root_certs = none;
  intermediate_certs = none;
  rekor_client = none;
}

last_key : LastKey cosign verifier_options (codes "key")
unfolding LastKey HasNoKey
last_key = inl ([], with_remote_options (some (1 ∷ [])) ∷ [], refl, tt)

new_cosign_verifier_iff_example :
    (new_cosign_verifier cosign verifier_options ≡ ok keyed_options) ↔ (
      Trusts cosign (codes "key") keyed_options
      × (keyed_options.client
          ≡ client_of cosign (apply_options cosign verifier_options (no_options cosign)).remote []))
new_cosign_verifier_iff_example =
    new_cosign_verifier_iff cosign verifier_options (codes "key") [] keyed_options last_key refl
