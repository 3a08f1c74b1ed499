-- ===== src/Build/Objects.antt =====
-- The Kubernetes objects of internal/build, with the fields that it reads, and the libraries that
-- it takes them from: kustomize's resources, the decoder, and Helm's values.
use flux_build.Base.{◌≡◌, ◌↔◌, ℕ, Bool, true, Option, List, Eq, ◌==◌, ◌&&◌, arith}
use flux_build.Base.Dict.{Dict}
use flux_build.Base.Text.{Text, text_eq, text_iff}
use flux_build.Auth.Types.{Secret}

-- index.go, `ref`, with its embedded `schema.GroupKind`
pub record Ref : Type 0 where
  pub group : Text
  pub kind : Text
  pub name : Text
  pub namespace : Text

unfoldable pub ref_beq : Ref → Ref → Bool
ref_beq a b =
    a.group == b.group && (a.kind == b.kind && (a.name == b.name && a.namespace == b.namespace))

pub ref_beq_iff : (a b : Ref) → (ref_beq a b ≡ true) ↔ (a ≡ b)
unfolding ref_beq
ref_beq_iff a b = ground (
  arith,
  text_iff a.group b.group,
  text_iff a.kind b.kind,
  text_iff a.name b.name,
  text_iff a.namespace b.namespace,
)

-- Shut in proofs, which go by `ref_iff`.
instance unfoldable pub ref_eq : Eq Ref
ref_eq = record { beq = ref_beq; beq_iff = ref_beq_iff }

pub ref_iff : (a b : Ref) → ((a == b) ≡ true) ↔ (a ≡ b)
ref_iff = ref_eq.beq_iff

pub record Gvk : Type 0 where
  pub group : Text
  pub version : Text
  pub kind : Text

-- What `GetMeta` reads.
pub record Meta : Type 0 where
  pub api_version : Text
  pub kind : Text
  pub name : Text
  pub namespace : Text

-- `values_key` is what `GetValuesKey` returns.
pub record ValuesReference : Type 0 where
  pub kind : Text
  pub name : Text
  pub values_key : Text
  pub target_path : Text
  pub optional : Bool

pub record ChartTemplate : Type 0 where
  pub chart : Text
  pub version : Text
  pub source_api_version : Text
  pub source_kind : Text
  pub source_name : Text
  pub source_namespace : Text
  pub values_files : List Text

pub record Install : Type 0 where
  pub skip_crds : Bool
  pub crds : Text
  pub disable_hooks : Bool
  pub disable_open_api_validation : Bool
  pub disable_schema_validation : Bool
  pub timeout : ℕ

-- `release_name`, `release_namespace`, `values` and `install` are what the getters of that name
-- return, `timeout` what `GetTimeout` returns for the install; a post renderer is there with its kustomize patch, if it has one.
pub record HelmRelease (V P : Type 0) : Type 0 where
  pub name : Text
  pub namespace : Text
  pub release_name : Text
  pub release_namespace : Text
  pub chart : Option ChartTemplate
  pub has_chart_ref : Bool
  pub values_from : List ValuesReference
  pub values : V
  pub install : Install
  pub post_renderers : List (Option P)

pub record HelmRepository : Type 0 where
  pub name : Text
  pub namespace : Text
  pub url : Text
  pub type : Text
  pub provider : Text
  pub pass_credentials : Bool
  pub secret_ref : Option Text

pub data Object (V P : Type 0) : Type 0 where
  helm_release : HelmRelease V P → Object V P
  helm_repository : HelmRepository → Object V P
  config_map : Dict Text Text → Object V P
  secret : Secret → Object V P
  other : Object V P

-- `resource.Resource` of kustomize with `DeepCopy`, `SetGvk`, `AsYAML` and `GetMeta`; the decoder
-- of the API machinery; `chartutil.Values` of Helm, with `ReadValues`, `strvals.ParseInto`,
-- `strvals.ParseIntoString`, and `transform.MergeMaps` of fluxcd/pkg. `Patch` is a kustomize patch
-- of a HelmRelease.
pub record KubeLibrary : Type 1 where
  pub Resource : Type 0
  pub Values : Type 0
  pub Patch : Type 0
  pub get_meta : Resource → Option Meta
  pub set_gvk : Resource → Gvk → Resource
  pub as_yaml : Resource → Option Text
  pub decode : Text → Option (Object Values Patch)
  pub group_of_api_version : Text → Text
  pub no_values : Values
  pub read_values : Text → Option Values
  pub parse_into : Text → Values → Option Values
  pub parse_into_string : Text → Values → Option Values
  pub merge_maps : Values → Values → Values

pub data BuildError : Type 0 where
  no_meta : BuildError
  marshal_failed : BuildError
  env_failed : BuildError
  decode_failed : BuildError
  wrong_type : BuildError
  chart_ref_unsupported : Text → Text → BuildError
  no_chart : Text → Text → BuildError
  no_source : Ref → BuildError
  unsupported_repository : BuildError
  no_values_found : Text → Text → BuildError
  missing_key : Text → Text → BuildError
  unsupported_kind : Text → BuildError
  unreadable_values : Text → BuildError
  unmergeable_value : Text → Text → BuildError
  no_secret : Ref → BuildError
  not_a_secret : BuildError
  bad_url : Text → BuildError
  cache_failed : BuildError
  bad_secret : BuildError
  no_credentials : Text → BuildError
  no_login : BuildError
  invalid_oci_url : Text → BuildError
  no_client : BuildError
  no_getter : Text → BuildError
  login_failed : BuildError
  chart_failed : BuildError
  load_failed : BuildError
  invalid_crds_policy : Text → BuildError
  render_failed : BuildError
  file_failed : BuildError
  kustomize_failed : BuildError
  panicked : BuildError
