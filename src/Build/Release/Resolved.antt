-- ===== src/Build/Release/Resolved.antt =====
-- internal/build/helm.go, `Build`: the release, the chart and the repository that a resource stands for,
-- and the files that kustomize is run on.
use flux_build.Base.{
  ℕ, suc, Bool, true, false, Option, some, List, [], ◌∷◌, ◌++◌, ◌≡◌, ◌≢◌, refl, inl, inr, arith,
  Option-cases, List-cases,
}
use flux_build.Base.Dict.{lookup}
use flux_build.Base.Results.{ok, Result-cases}
use flux_build.Base.Text.{Text, codes, text_eq}
use flux_build.Build.FromRepository.{ChartStore, Builder}
use flux_build.Build.Index.{ResourceIndex}
use flux_build.Build.Objects.{
  Ref, ref_eq, ChartTemplate, HelmRelease, HelmRepository, Object, helm_release, helm_repository,
  config_map, secret, other,
}
use flux_build.Build.Release.{
  OutputLibrary, release_gvk, repository_gvk, decimal, hook_files, manifest_files, as_release,
  release_of, chart_of, source_ref, source_of, get_repository, resolve,
}
use flux_build.Build.Render.{HelmOptions, RenderLibrary, Rendered}
use flux_build.Build.Repositories.{Downloader, HelmLibrary}
use flux_build.MemCache.{Cache}

-- The hooks' files, numbered from a number on: one for each hook, in their order
pub data AreHookFiles : ℕ → List Text → List (Text × Text) → Type 0 where
  no_hooks : {i : ℕ} → AreHookFiles i [] []
  one_hook :
      {i : ℕ} {hook name : Text} {hooks : List Text} {files : List (Text × Text)}
      → name ≡ codes "hook_" ++ decimal i ++ codes ".yaml"
      → AreHookFiles (suc i) hooks files
      → AreHookFiles i (hook ∷ hooks) ((name, hook) ∷ files)

-- The files of a rendered release: its manifest, and behind it the hooks where they are included
pub record AreManifests (include_hooks : Bool) (r : Rendered) (files : List (Text × Text))
    : Type 0 where
  pub hooks : List (Text × Text)
  pub split : files ≡ (codes "manifest.yaml", r.manifest) ∷ hooks
  pub left_out : include_hooks ≡ false → hooks ≡ []
  pub included : include_hooks ≡ true → AreHookFiles 0 r.hooks hooks

hook_files-AreHookFiles : (i : ℕ) (hooks : List Text) → AreHookFiles i hooks (hook_files i hooks)
unfolding hook_files
hook_files-AreHookFiles i [] = AreHookFiles.no_hooks
hook_files-AreHookFiles i (h ∷ hooks) =
    AreHookFiles.one_hook refl (hook_files-AreHookFiles (suc i) hooks)

pub manifest_files-AreManifests :
    (include_hooks : Bool) (r : Rendered)
    → AreManifests include_hooks r (manifest_files include_hooks r)
unfolding manifest_files
manifest_files-AreManifests true r = record {
  hooks = hook_files 0 r.hooks;
  split = refl;
  left_out = λ e. ground arith;
  included = λ e. hook_files-AreHookFiles 0 r.hooks;
}
manifest_files-AreManifests false r = record {
  hooks = [];
  split = refl;
  left_out = λ e. refl;
  included = λ e. absurd (ground arith);
}

module _ (lib : HelmLibrary) (store : ChartStore) (builder : Builder)
    (others : Cache Text (Option Downloader) → Cache Text (Option Downloader)) (out : OutputLibrary)
    (renders : RenderLibrary lib.kube.Values lib.kube.Patch) (opts : HelmOptions) where
  open lib.kube use {Resource, Values, Patch, set_gvk, as_yaml, decode}

  -- The resource is read as a HelmRelease with the environment put in; its source is looked up under
  -- the group of the sources, its kind and its name, in its own namespace or, if it names none, in
  -- that of the release; and what is found is read as a HelmRepository.
  pub record IsResolved (r : Resource) (db : ResourceIndex lib.kube) (hr : HelmRelease Values Patch)
      (c : ChartTemplate) (repo : HelmRepository) : Type 0 where
    pub raw : Text
    pub substituted : Text
    pub key : Ref
    pub source : Resource
    pub source_yaml : Text
    pub is_written : as_yaml (set_gvk r release_gvk) ≡ some raw
    pub is_substituted : out.eval_env raw ≡ some substituted
    pub is_release : decode substituted ≡ some (helm_release hr)
    pub has_chart : hr.chart ≡ some c
    pub group : key.group ≡ codes "source.toolkit.fluxcd.io"
    pub kind : key.kind ≡ c.source_kind
    pub name : key.name ≡ c.source_name
    pub own_namespace : c.source_namespace ≢ [] → key.namespace ≡ c.source_namespace
    pub release_namespace : c.source_namespace ≡ [] → key.namespace ≡ hr.namespace
    pub found : lookup key db ≡ some source
    pub source_written : as_yaml (set_gvk source repository_gvk) ≡ some source_yaml
    pub is_repository : decode source_yaml ≡ some (helm_repository repo)

  as_release-eq-ok :
      (o : Object Values Patch) (hr : HelmRelease Values Patch)
      → as_release lib store builder others out renders opts o ≡ ok hr
      → o ≡ helm_release hr
  unfolding as_release
  as_release-eq-ok (helm_release x) hr h = ground arith
  as_release-eq-ok (helm_repository x) hr h = cc
  as_release-eq-ok (config_map x) hr h = cc
  as_release-eq-ok (secret x) hr h = cc
  as_release-eq-ok other hr h = cc

  release_of-eq-ok :
      (r : Resource) (hr : HelmRelease Values Patch)
      → release_of lib store builder others out renders opts r ≡ ok hr
      → (raw substituted : Text) × (as_yaml (set_gvk r release_gvk) ≡ some raw)
        × (out.eval_env raw ≡ some substituted)
        × (decode substituted ≡ some (helm_release hr))
  unfolding release_of
  release_of-eq-ok r hr h = elim (Option-cases (as_yaml (set_gvk r release_gvk))) [
    | inl unwritten ↦ absurd (ground arith)
    | inr (raw, is) ↦ elim (Option-cases (out.eval_env raw)) [
      | inl bad ↦ absurd (ground arith)
      | inr (text, substituted) ↦ elim (Option-cases (decode text)) [
        | inl bad ↦ absurd (ground arith)
        | inr (o, decoded) ↦
            let same = as_release-eq-ok o hr (ground arith) in
            (raw, text, is, substituted, ground arith)
      ]
    ]
  ]

  get_repository-eq-ok :
      (r : Resource) (o : Object Values Patch)
      → get_repository lib store builder others out renders opts r ≡ ok o
      → (yaml : Text) × (as_yaml (set_gvk r repository_gvk) ≡ some yaml) × (decode yaml ≡ some o)
  unfolding get_repository
  get_repository-eq-ok r o h = elim (Option-cases (as_yaml (set_gvk r repository_gvk))) [
    | inl unwritten ↦ absurd (ground arith)
    | inr (raw, is) ↦ elim (Option-cases (decode raw)) [
      | inl bad ↦ absurd (ground arith)
      | inr (o', decoded) ↦ (raw, is, ground arith)
    ]
  ]

  pub resolve-IsResolved :
      (r : Resource) (db : ResourceIndex lib.kube) (hr : HelmRelease Values Patch)
      (c : ChartTemplate) (repo : HelmRepository)
      → resolve lib store builder others out renders opts r db ≡ ok (hr, (c, helm_repository repo))
      → IsResolved r db hr c repo
  unfolding resolve chart_of source_ref source_of
  resolve-IsResolved r db hr c repo h =
      elim (Result-cases (release_of lib store builder others out renders opts r)) [
        | inr (e, bad) ↦ absurd (ground arith)
        | inl (hr', released) ↦ elim (Option-cases hr'.chart) [
          | inl none_there ↦ absurd (ground arith)
          | inr (c', charted) ↦
              let key = source_ref lib store builder others out renders opts hr' c' in
              elim (Option-cases (lookup key db)) [
                | inl absent ↦ absurd (ground arith)
                | inr (source, found) ↦
                    elim (Result-cases
                      (get_repository lib store builder others out renders opts source)) [
                        | inr (e, bad) ↦ absurd (ground arith)
                        | inl (o, got) ↦
                            let same : hr' ≡ hr = ground arith in
                            let same_chart : c' ≡ c = ground arith in
                            let same_object : o ≡ helm_repository repo = ground arith in
                            let (raw, text, is, substituted, decoded) =
                              release_of-eq-ok r hr' released in
                            let (yaml, written, read) = get_repository-eq-ok source o got in
                            record {
                              raw = raw;
                              substituted = text;
                              key = key;
                              source = source;
                              source_yaml = yaml;
                              is_written = is;
                              is_substituted = substituted;
                              is_release = ground arith;
                              has_chart = ground arith;
                              group = refl;
                              kind = ground arith;
                              name = ground arith;
                              own_namespace = λ given. elim (List-cases c'.source_namespace) [
                                | inl empty ↦ absurd (given (ground arith))
                                | inr (b, bs, is) ↦ ground arith
                              ];
                              release_namespace = λ empty. ground arith;
                              found = found;
                              source_written = written;
                              is_repository = ground arith;
                            }
                      ]
              ]
        ]
      ]
