-- ===== src/Repository/Oci.antt =====
-- internal/helm/repository/oci_chart_repository.go: `OCIChartRepository`. Its options are those of
-- `NewOCIChartRepository`; a verifier is a function.
use flux_build.Base.{
  ◌≡◌, ◌↔◌, Bool, true, false, Option, none, some, List, [], ◌∷◌, ◌++◌, arith, if◌then◌else◌, inl,
  inr,
}
use flux_build.Base.{refl, Option-cases}
use flux_build.Base.Paths.{join_path}
use flux_build.Base.Results.{Result, ok, err, Result-cases}
use flux_build.Base.Text.{Text, codes, is_empty, trim_prefix}
use flux_build.Auth.Types.{Url, UrlLibrary, ClientOption, TlsConfig, LoginOption}
use flux_build.Repository.Sorting.{Sorter}
use flux_build.Repository.Versions.{Semver, ChartVersion, VersionError, last_matching}

-- `Verifier` of internal/oci: whether the reference is signed, or an error
abbrev pub Verifier : Type 0
Verifier = Text → Result Text Bool

pub record OciChartRepository : Type 0 where
  pub url : Url
  pub options : List ClientOption
  pub tls_config : Option TlsConfig
  pub credentials_file : Text
  pub verifiers : List Verifier

pub data OciError : Type 0 where
  no_tags : Text → OciError
  tags_failed : Text → OciError
  no_version : VersionError → OciError
  no_urls : Text → OciError
  bad_url : Text → OciError
  get_failed : Text → OciError
  login_failed logout_failed remove_failed no_verifiers : OciError
  bad_reference : Text → OciError
  verify_failed : Text → Text → OciError
  no_signature : Text → OciError

-- The registry client, the getter, and `name.ParseReference` of go-containerregistry, which returns
-- the reference's name
pub record OciLibrary : Type 0 where
  pub urls : UrlLibrary
  pub tags : Text → Option (List Text)
  pub login : Text → List LoginOption → Bool
  pub logout : Text → Bool
  pub get : Text → List ClientOption → Option TlsConfig → Option Text
  pub can_remove : Text → Bool
  pub parse_reference : Text → Option Text

abbrev oci_prefix : Text
oci_prefix = codes "oci://"

module _ (lib : OciLibrary) where
  open lib use {urls, can_remove, parse_reference}

  -- `getTags`
  unfoldable pub get_tags : Text → Result OciError (List Text)
  get_tags ref = elim (lib.tags (trim_prefix ref oci_prefix)) [
    | none ↦ err (tags_failed ref)
    | some [] ↦ err (no_tags ref)
    | some (t ∷ ts) ↦ ok (t ∷ ts)
  ]

  version_at : Text → Text → Text → ChartVersion
  version_at chart_url name tag = record {
    name = name;
    version = tag;
    api_version = [];
    urls = (chart_url ++ (b':' ∷ tag)) ∷ [];
    created = 0;
  }

  module _ (semver : Semver) (sorter : Sorter (semver.Version × Text)) where
    find_tag : Text → Text → Text → Result OciError ChartVersion
    unfolding get_tags version_at
    find_tag chart_url name ver = elim (get_tags chart_url) [
      | err _ ↦ err (tags_failed name)
      | ok cvs ↦ elim (last_matching semver sorter cvs ver) [
        | err e ↦ err (no_version e)
        | ok tag ↦ ok (version_at chart_url name tag)
      ]
    ]

    -- `GetChartVersion`: a concrete version is taken as it is, without a look at the tags.
    unfoldable pub oci_chart_version :
        OciChartRepository → Text → Text → Result OciError ChartVersion
    unfolding find_tag
    oci_chart_version r name ver =
        let chart_url = urls.show (record r.url { path = join_path r.url.path name }) in
        elim (semver.parse_version ver) [
          | some _ ↦ ok (version_at chart_url name ver)
          | none ↦ find_tag chart_url name ver
        ]

  -- `DownloadChart`
  unfoldable pub download_oci_chart : OciChartRepository → ChartVersion → Result OciError Text
  download_oci_chart r chart = elim chart.urls [
    | [] ↦ err (no_urls chart.name)
    | ref ∷ _ ↦ elim (urls.parse ref) [
      | none ↦ err (bad_url ref)
      | some u ↦ elim (lib.get (trim_prefix (urls.show u) oci_prefix) r.options r.tls_config) [
        | none ↦ err (get_failed ref)
        | some b ↦ ok b
      ]
    ]
  ]

  -- `Login`, `Logout`
  unfoldable pub oci_login : OciChartRepository → List LoginOption → Result OciError (Unit {0})
  oci_login r opts = if lib.login r.url.host opts then ok tt else err login_failed

  unfoldable pub oci_logout : OciChartRepository → Result OciError (Unit {0})
  oci_logout r = if lib.logout r.url.host then ok tt else err logout_failed

  -- `Clear`: the repository after it; the file is removed if `can_remove` says so
  unfoldable pub oci_clear : OciChartRepository → Result OciError OciChartRepository
  oci_clear r =
      if is_empty r.credentials_file
      then ok (record r { credentials_file = [] })
      else if can_remove r.credentials_file
      then ok (record r { credentials_file = [] })
      else err remove_failed

  -- The loop of `VerifyChart`
  verify_with : Text → Text → List Verifier → Result OciError (Unit {0})
  verify_with url ref [] = err (no_signature ref)
  verify_with url ref (v ∷ more) =
      let rest = verify_with url ref more in
      elim (v ref) [ err e ↦ err (verify_failed url e) | ok true ↦ ok tt | ok false ↦ rest ]

  -- `VerifyChart`
  unfoldable pub verify_oci_chart : OciChartRepository → ChartVersion → Result OciError (Unit {0})
  unfolding verify_with
  verify_oci_chart r chart = if is_empty r.verifiers then err no_verifiers else (elim chart.urls [
    | [] ↦ err (no_urls chart.name)
    | url ∷ _ ↦ elim (parse_reference (trim_prefix url oci_prefix)) [
      | none ↦ err (bad_reference url)
      | some ref ↦ verify_with url ref r.verifiers
    ]
  ])

  -- Some verifier accepts the reference, and those before it neither accept it nor fail.
  pub data Accepted (ref : Text) : List Verifier → Type 0 where
    first : (v : Verifier) {more : List Verifier} → v ref ≡ ok true → Accepted ref (v ∷ more)
    later :
        (v : Verifier) {more : List Verifier}
        → v ref ≡ ok false
        → Accepted ref more
        → Accepted ref (v ∷ more)

  Accepted-verified :
      (url ref : Text) (vs : List Verifier) → Accepted ref vs → verify_with url ref vs ≡ ok tt
  unfolding verify_with
  Accepted-verified url ref [] a = elim a [ ]
  Accepted-verified url ref (_ ∷ vs) (first v e) = ground arith
  Accepted-verified url ref (_ ∷ vs) (later v e a) = ground (arith, Accepted-verified url ref vs a)

  verified-Accepted :
      (url ref : Text) (vs : List Verifier) → verify_with url ref vs ≡ ok tt → Accepted ref vs
  unfolding verify_with
  verified-Accepted url ref [] e = cc
  verified-Accepted url ref (v ∷ vs) e = elim (Result-cases (v ref)) [
    | inr (x, f) ↦ absurd (ground arith)
    | inl (true, f) ↦ first v f
    | inl (false, f) ↦ later v f (verified-Accepted url ref vs (ground arith))
  ]

  Accepted-not-empty : (ref : Text) (vs : List Verifier) → Accepted ref vs → is_empty vs ≡ false
  Accepted-not-empty ref [] a = elim a [ ]
  Accepted-not-empty ref (v ∷ vs) a = refl

  abbrev IsVerified : OciChartRepository → List Text → Type 0
  IsVerified r us =
      (url : Text) × (more : List Text) × (ref : Text) × (us ≡ url ∷ more)
      × (parse_reference (trim_prefix url (codes "oci://")) ≡ some ref)
      × Accepted ref r.verifiers

  verify_oci_chart-IsVerified :
      (r : OciChartRepository) (chart : ChartVersion) (us : List Text)
      → chart.urls ≡ us
      → verify_oci_chart r chart ≡ ok tt
      → IsVerified r us
  unfolding verify_oci_chart
  verify_oci_chart-IsVerified r chart [] u e = absurd (ground arith)
  verify_oci_chart-IsVerified r chart (url ∷ more) u e =
      elim (Option-cases (parse_reference (trim_prefix url oci_prefix))) [
        | inl p ↦ absurd (ground arith)
        | inr (ref, p) ↦
            (url, more, ref, refl, p, verified-Accepted url ref r.verifiers (ground arith))
      ]

  -- A chart is verified exactly if its first URL is a reference that some verifier accepts, where
  -- every verifier before that one has neither accepted it nor failed.
  pub verify_oci_chart_iff :
      (r : OciChartRepository) (chart : ChartVersion)
      → (verify_oci_chart r chart ≡ ok tt) ↔ (
          (url : Text) × (more : List Text) × (ref : Text) × (chart.urls ≡ url ∷ more)
          × (parse_reference (trim_prefix url (codes "oci://")) ≡ some ref)
          × Accepted ref r.verifiers)
  unfolding verify_oci_chart
  verify_oci_chart_iff r chart = (
    λ e. verify_oci_chart-IsVerified r chart chart.urls refl e,
    λ (url, more, ref, u, p, a).
        ground
          (arith, Accepted-verified url ref r.verifiers a, Accepted-not-empty ref r.verifiers a),
  )
