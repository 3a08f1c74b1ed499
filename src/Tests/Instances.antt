-- ===== src/Tests/Instances.antt =====
-- Small libraries for the tests: URLs of one scheme, versions of one digit, resources with a text.
use flux_build.Base.{
  ℕ, ◌-◌, ◌≡◌, ◌↔◌, true, false, ◌&&◌, Option, none, some, List, [], ◌∷◌, ◌++◌, arith, ◌==◌, nat_eq,
  if◌then◌else◌, ltb, leb,
}
use flux_build.Base.Dict.{Dict, lookup}
use flux_build.Build.Objects.{helm_release, helm_repository}
use flux_build.Base.Results.{ok, err}
use flux_build.Base.Text.{Text, codes, text_eq, has_prefix, trim_prefix, is_empty}
use flux_build.Auth.Getter.{TlsLibrary}
use flux_build.Auth.Registry.{DockerLibrary}
use flux_build.Auth.Types.{UrlLibrary}
use flux_build.Build.Credentials.{CloudLibrary}
use flux_build.Build.FromRepository.{ChartStore, Builder}
use flux_build.Build.Objects.{
  Meta, ValuesReference, HelmRelease, HelmRepository, ChartTemplate, config_map, KubeLibrary,
}
use flux_build.Build.Release.{OutputLibrary}
use flux_build.Build.Render.{HelmOptions, RenderLibrary}
use flux_build.Build.Repositories.{HelmLibrary}
use flux_build.Repository.Http.{File, HttpLibrary}
use flux_build.Chart.Reference.{empty_build}
use flux_build.Repository.Versions.{Semver}

abbrev pub urls : UrlLibrary
urls = record {
  parse = λ s.
      if has_prefix s (codes "https://")
      then some (record {
        scheme = codes "https";
        host = trim_prefix s (codes "https://");
        hostname = trim_prefix s (codes "https://");
        path = [];
        raw_path = [];
      })
      else none;
  show = λ u. u.scheme ++ (codes "://" ++ (u.host ++ u.path));
}

abbrev pub docker : DockerLibrary
docker = record {
  Config = Text;
  load = λ t. some t;
  get_auth_config =
      λ c host. some (record { username = codes "u"; password = codes "p"; server_address = host });
  convert_to_hostname = λ t. t;
}

abbrev pub tls : TlsLibrary
tls = record {
  key_pair = λ cert key. some (cert ++ key);
  system_pool = some [];
  append_certs = λ pool ca. some (pool ++ ca);
}

abbrev pub cloud : CloudLibrary
cloud = record {
  is_reference = λ t. true;
  credentials = λ provider u. err (codes "could not find default credentials");
}

-- Versions are one digit each; a constraint is a least version.
abbrev digit : Text → Option ℕ
digit (d ∷ []) = if leb b'0' d && leb d b'9' then some (d - b'0') else none
digit _ = none

abbrev at_least : Text → Option ℕ
at_least t = if t == codes "*" then some 0 else digit t

pub equal_lem : (v w : ℕ) → ((v == w) ≡ true) ↔ ((ltb v w ≡ false) × (ltb w v ≡ false))
equal_lem v w = ground arith

pub asymmetric_lem : (v w : ℕ) → ltb v w ≡ true → ltb w v ≡ false
asymmetric_lem v w h = ground arith

pub less-trans_lem : (u v w : ℕ) → ltb u v ≡ false → ltb v w ≡ false → ltb u w ≡ false
less-trans_lem u v w h k = ground arith

abbrev pub semver : Semver
semver = record {
  Version = ℕ;
  Constraint = ℕ;
  parse_version = digit;
  new_constraint = at_least;
  check = λ c v. leb c v;
  original = λ v. v ∷ [];
  equal = λ v w. v == w;
  less_than = λ v w. ltb v w;
  equal_iff = equal_lem;
  asymmetric = asymmetric_lem;
  less-trans = less-trans_lem;
}

pub record Resource : Type 0 where
  pub meta : Meta
  pub text : Text

abbrev pub chart_template : ChartTemplate
chart_template = record {
  chart = codes "podinfo";
  version = codes "1";
  source_api_version = codes "source.toolkit.fluxcd.io/v1beta2";
  source_kind = codes "HelmRepository";
  source_name = codes "repo";
  source_namespace = codes "default";
  values_files = [];
}

abbrev pub repository : HelmRepository
repository = record {
  name = codes "repo";
  namespace = codes "default";
  url = codes "https://charts";
  type = codes "default";
  provider = codes "generic";
  pass_credentials = false;
  secret_ref = none;
}

abbrev pub values_from : ValuesReference
values_from = record {
  kind = codes "ConfigMap";
  name = codes "values";
  values_key = codes "values.yaml";
  target_path = [];
  optional = false;
}

abbrev pub podinfo_release : HelmRelease (List Text) Text
podinfo_release = record {
  name = codes "release";
  namespace = codes "default";
  release_name = codes "release";
  release_namespace = codes "default";
  chart = some chart_template;
  has_chart_ref = false;
  values_from = values_from ∷ [];
  values = codes "b: 2" ∷ [];
  install = record {
    skip_crds = false;
    crds = [];
    disable_hooks = false;
    disable_open_api_validation = false;
    disable_schema_validation = false;
    timeout = 300;
  };
  post_renderers = [];
}

-- Values are the texts that were merged, in order.
abbrev pub kube : KubeLibrary
kube = record {
  Resource = Resource;
  Values = List Text;
  Patch = Text;
  get_meta = λ r. if is_empty r.meta.name then none else some r.meta;
  set_gvk = λ r g. record r {
    meta = record {
      api_version = g.version;
      kind = g.kind;
      name = r.meta.name;
      namespace = r.meta.namespace;
    };
  };
  as_yaml = λ r. some r.text;
  decode = λ t.
      if t == codes "release"
      then some (helm_release podinfo_release)
      else if t == codes "repository"
      then some (helm_repository repository)
      else some (config_map ((codes "values.yaml", t) ∷ []));
  group_of_api_version = λ t. t;
  no_values = [];
  read_values = λ t. some (t ∷ []);
  parse_into = λ t vs. some (vs ++ (t ∷ []));
  parse_into_string = λ t vs. some (vs ++ (t ∷ []));
  merge_maps = λ xs ys. xs ++ ys;
}

abbrev pub helm : HelmLibrary
helm = record {
  kube = kube;
  urls = urls;
  docker = docker;
  tls = tls;
  cloud = cloud;
  resolve = λ k host. none;
  has_scheme = λ s. s == codes "https";
  is_oci = λ u. has_prefix u (codes "oci://");
  login = λ host o. true;
  temp_dir = codes "/tmp";
  create_temp = some (codes "/tmp/credentials");
  new_client = λ f. true;
}

abbrev pub store : ChartStore
store = record {
  State = ℕ;
  Key = ℕ;
  get_or_lock = λ repo ref n. (ok (codes "/tmp/chart.tgz", n), n);
  set_unlock = λ key n. ok n;
}

abbrev pub builder : Builder
builder = record {
  World = ℕ;
  missing = λ w path. true;
  build = λ repo ref path opts w. (ok (record empty_build { name = ref.name; path = path }), w);
}

abbrev pub config : Resource
config = record {
  meta = record {
    api_version = codes "v1";
    kind = codes "ConfigMap";
    name = codes "values";
    namespace = codes "default";
  };
  text = codes "a: 1";
}

abbrev pub release_resource : Resource
release_resource = record config { text = codes "release" }

abbrev pub repository_resource : Resource
repository_resource = record config { text = codes "repository" }

abbrev pub out : OutputLibrary
out = record {
  ResMap = List (Text × Text);
  eval_env = λ t. some t;
  can_make_dir = true;
  can_write = λ name. true;
  kustomize = λ files. some files;
}

abbrev pub renders : RenderLibrary (List Text) Text
renders = record {
  Chart = Text;
  load = λ path. some path;
  run = λ action c values. some (record { manifest = c; hooks = codes "job" ∷ [] });
}

abbrev pub options : HelmOptions
options = record { api_versions = []; kube_version = none; include_helm_hooks = true }

-- One temporary file at most
unfoldable pub temp_file : Dict Text File → Option Text
temp_file disk = elim (lookup (codes "/tmp/index") disk) [
  | none ↦ some (codes "/tmp/index")
  | some _ ↦ none
]

abbrev pub http_lib : HttpLibrary
http_lib = record {
  urls = urls;
  create_temp = temp_file;
  can_read = λ path. true;
  can_close = λ path. true;
  can_remove = λ path. true;
  get = λ url opts config. some (codes "index");
  resolve_reference = λ base ref. some ref;
  validate = λ cv. some cv;
  unmarshal = λ t. some (record { api_version = codes "v1"; entries = [] });
  sort_entries = λ i. i;
  from_reader = λ a t. some t;
}

pub temp_file-new :
    (disk : Dict Text File) (name : Text) → temp_file disk ≡ some name → lookup name disk ≡ none
unfolding temp_file
temp_file-new disk name e = ground arith
