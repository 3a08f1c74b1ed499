-- ===== src/Build/Index.antt =====
-- internal/build/index.go: `ResourceIndex` and `Push`.
use flux_build.Base.{
  ◌≡◌, refl, inl, inr, Option-cases, Option, none, some, List, [], ◌∷◌, arith, ◌==◌, if◌then◌else◌,
}
use flux_build.Base.Dict.{Dict, lookup, insert, lookup-insert}
use flux_build.Build.Objects.{Ref, ref_eq, Meta, KubeLibrary, BuildError, no_meta}

module _ (lib : KubeLibrary) where
  open lib use {Resource, get_meta, group_of_api_version}

  abbrev pub ResourceIndex : Type 0
  ResourceIndex = Dict Ref Resource

  -- The key of a resource: its group and kind, its name and its namespace
  unfoldable pub ref_of : Meta → Ref
  ref_of m = record {
    group = group_of_api_version m.api_version;
    kind = m.kind;
    name = m.name;
    namespace = m.namespace;
  }

  -- `Push`: the index after it, and the error, if one ended it
  unfoldable pub push : ResourceIndex → List Resource → ResourceIndex × Option BuildError
  unfolding ref_of
  push index [] = (index, none)
  push index (res ∷ more) = elim (get_meta res) [
    | none ↦ (index, some no_meta)
    | some m ↦ push (insert (ref_of m) res index) more
  ]

  -- The last of the resources that has a key, before the first one without metadata
  abbrev pub last_with : Ref → Option Resource → List Resource → Option Resource
  last_with r found [] = found
  last_with r found (res ∷ more) = elim (get_meta res) [
    | none ↦ found
    | some m ↦ last_with r (if ref_of m == r then some res else found) more
  ]

  -- Whether or not it fails, `Push` leaves under each key the last resource with that key among
  -- those before the first one whose metadata cannot be read, and what was there before if there is
  -- none.
  lookup-push :
      (r : Ref) (index : ResourceIndex) (resources : List Resource)
      → lookup r (push index resources).0 ≡ last_with r (lookup r index) resources
  unfolding push
  lookup-push r index [] = refl
  lookup-push r index (res ∷ more) = elim (Option-cases (get_meta res)) [
    | inl e ↦ ground arith
    | inr (m, e) ↦ ground (
      arith,
      lookup-push r (insert (ref_of m) res index) more,
      lookup-insert r (ref_of m) res index,
    )
  ]
