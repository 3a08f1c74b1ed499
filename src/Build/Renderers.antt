-- ===== src/Build/Renderers.antt =====
-- internal/helm/postrenderer/post_renderer_namespace.go and post_renderer_origin_labels.go: the renderers
-- that put a namespace and the labels of the release's origin on what Helm rendered.
use flux_build.Base.{
  Bool, true, false, Option, none, some, List, [], ◌∷◌, ◌≡◌, refl, inl, inr, arith, All, Bool-cases,
  Option-cases, if◌then◌else◌,
}
use flux_build.Base.Text.{Text, codes, is_empty}

-- kustomize's resources: read from YAML, changed, and written
pub record ResourceLibrary : Type 1 where
  pub Resource : Type 0
  pub read : Text → Option (List Resource)
  pub write : List Resource → Option Text
  pub get_namespace : Resource → Text
  pub set_namespace : Text → Resource → Option Resource
  pub set_label : Text → Text → Resource → Option Resource

-- `NewPostRendererNamespace`, for the namespace of the release
unfoldable pub renderer_namespace : Text → Text
renderer_namespace ns = if is_empty ns then codes "default" else ns

-- `originLabels`; Go goes through a map in any order, which is `swapped` or not.
unfoldable pub origin_labels_of : Bool → Text → Text → List (Text × Text)
origin_labels_of false name namespace =
    (codes "helm.toolkit.fluxcd.io/name", name)
    ∷ (codes "helm.toolkit.fluxcd.io/namespace", namespace)
    ∷ []
origin_labels_of true name namespace =
    (codes "helm.toolkit.fluxcd.io/namespace", namespace)
    ∷ (codes "helm.toolkit.fluxcd.io/name", name)
    ∷ []

module _ (lib : ResourceLibrary) where
  open lib use {Resource}

  -- Every resource changed in turn: the first failure ends it.
  unfoldable pub change_all : (Resource → Option Resource) → List Resource → Option (List Resource)
  change_all f [] = some []
  change_all f (r ∷ rs) = elim (f r) [
    | none ↦ none
    | some r' ↦ elim (change_all f rs) [ none ↦ none | some rs' ↦ some (r' ∷ rs') ]
  ]

  unfoldable pub put_namespace : Text → Resource → Option Resource
  put_namespace ns r = if is_empty (lib.get_namespace r) then lib.set_namespace ns r else some r

  unfoldable pub put_labels : List (Text × Text) → Resource → Option Resource
  put_labels [] r = some r
  put_labels ((key, value) ∷ labels) r = elim (lib.set_label key value r) [
    | none ↦ none
    | some r' ↦ put_labels labels r'
  ]

  -- `Run` of a renderer that changes every resource
  unfoldable pub run_on_all : (Resource → Option Resource) → Text → Option Text
  unfolding change_all
  run_on_all f manifests = elim (lib.read manifests) [
    | none ↦ none
    | some resources ↦ elim (change_all f resources) [
      | none ↦ none
      | some changed ↦ lib.write changed
    ]
  ]

  unfoldable pub run_namespace : Text → Text → Option Text
  unfolding run_on_all put_namespace renderer_namespace
  run_namespace release_namespace manifests =
      run_on_all (put_namespace (renderer_namespace release_namespace)) manifests

  unfoldable pub run_origin_labels : Bool → Text → Text → Text → Option Text
  unfolding run_on_all put_labels origin_labels_of
  run_origin_labels swapped name namespace manifests =
      run_on_all (put_labels (origin_labels_of swapped name namespace)) manifests

  change_all-All :
      (P : Resource → Type 0) (f : Resource → Option Resource) (rs changed : List Resource)
      → ((r r' : Resource) → f r ≡ some r' → P r')
      → change_all f rs ≡ some changed
      → All P changed
  unfolding change_all
  change_all-All P f [] changed each h = let e : changed ≡ [] = ground arith in rw e tt
  change_all-All P f (r ∷ rs) changed each h = elim (Option-cases (f r)) [
    | inl failed ↦ absurd (ground arith)
    | inr (r', is) ↦ elim (Option-cases (change_all f rs)) [
      | inl failed ↦ absurd (ground arith)
      | inr (rs', went) ↦
          let e : changed ≡ r' ∷ rs' = ground arith in
          rw e (each r r' is, change_all-All P f rs rs' each went)
    ]
  ]

  -- If setting a namespace sets it, the renderer writes resources that all have a namespace.
  run_namespace-All :
      (release_namespace manifests written : Text)
      → ((ns : Text) (r r' : Resource)
          → lib.set_namespace ns r ≡ some r'
          → lib.get_namespace r' ≡ ns)
      → run_namespace release_namespace manifests ≡ some written
      → (resources : List Resource) × (lib.write resources ≡ some written)
        × All (λ r. is_empty (lib.get_namespace r) ≡ false) resources
  unfolding run_namespace run_on_all put_namespace renderer_namespace
  run_namespace-All release_namespace manifests written sets h =
      let ns = renderer_namespace release_namespace in
      let named : is_empty ns ≡ false = elim (Bool-cases (is_empty release_namespace)) [
        | inl empty ↦ rw empty refl
        | inr given ↦ rw given given
      ] in
      elim (Option-cases (lib.read manifests)) [
        | inl unread ↦ absurd (ground arith)
        | inr (resources, is) ↦ elim (Option-cases (change_all (put_namespace ns) resources)) [
          | inl failed ↦ absurd (ground arith)
          | inr (changed, went) ↦ (
            changed,
            ground arith,
            change_all-All (λ r. is_empty (lib.get_namespace r) ≡ false) (put_namespace ns)
                resources changed
                (λ r r' put. elim (Bool-cases (is_empty (lib.get_namespace r))) [
                  | inl empty ↦
                      let e : lib.get_namespace r' ≡ ns = sets ns r r' (ground arith) in rw e named
                  | inr has ↦ ground arith
                ])
                went,
          )
        ]
      ]
