-- ===== src/Build/Values/Order.antt =====
-- `composeValues` of internal/build/helm.go as a fold over the references that reads the index it
-- was given: the changes that it makes to the resources on the way do not show.
use mathlib.Core.Path.{subst}
use flux_build.Base.{
  ◌≡◌, refl, sym, ◌∙◌, Bool-cases, beq_refl, ◌⊎◌, inl, inr, none, some, List, [], ◌∷◌, arith, ◌==◌,
  if◌then◌else◌, Option-cases,
}
use flux_build.Base.Dict.{lookup, insert, lookup-insert}
use flux_build.Base.Results.{Result, ok, err, ◌>>=◌, Result-cases}
use flux_build.Build.Index.{ResourceIndex}
use flux_build.Build.Objects.{
  Ref, ref_eq, ref_iff, Gvk, ValuesReference, HelmRelease, KubeLibrary, BuildError, no_values_found,
}
use flux_build.Build.Values.{
  merge_entry, values_ref, core_gvk, entry_text, visit_reference, merge_reference, compose_from,
  compose_values,
}

module _ (lib : KubeLibrary)
    (set_gvk_idem : (r : KubeLibrary.Resource lib) (g : Gvk)
      → KubeLibrary.set_gvk lib (KubeLibrary.set_gvk lib r g) g ≡ KubeLibrary.set_gvk lib r g) where
  open lib use {Resource, Values, Patch, set_gvk, no_values, merge_maps}

  -- The effect of one reference, read from an index that does not change
  pub read_reference :
      ResourceIndex lib
      → HelmRelease Values Patch
      → Values
      → ValuesReference
      → Result BuildError Values
  read_reference db hr result v = elim (lookup (values_ref lib hr v) db) [
    | none ↦ if v.optional then ok result else err (no_values_found v.kind v.name)
    | some res ↦ entry_text lib v (set_gvk res (core_gvk lib v.kind)) >>= λ text.
        merge_entry lib result v text
  ]

  pub merged_from :
      ResourceIndex lib
      → HelmRelease Values Patch
      → Values
      → List ValuesReference
      → Result BuildError Values
  merged_from db hr result [] = ok result
  merged_from db hr result (v ∷ more) =
      read_reference db hr result v >>= λ merged. merged_from db hr merged more

  abbrev Touched : ResourceIndex lib → ResourceIndex lib → Ref → Type 0
  Touched db db' r =
      (lookup r db' ≡ lookup r db)
      ⊎ ((res : Resource) × (lookup r db ≡ some res)
          × (lookup r db' ≡ some (set_gvk res (core_gvk lib r.kind))))

  module _ (hr : HelmRelease Values Patch) (v : ValuesReference) (result : Values) where
    abbrev at : Ref
    at = values_ref lib hr v

    abbrev marked : Resource → Resource
    marked res = set_gvk res (core_gvk lib v.kind)

    abbrev read : Resource → Result BuildError Values
    read res = entry_text lib v res >>= λ text. merge_entry lib result v text

    merge_reference_lem :
        (res : Resource) (db : ResourceIndex lib)
        → merge_reference lib hr v result res db ≡ (read (marked res), insert at (marked res) db)
    unfolding merge_reference
    merge_reference_lem res db = elim (Result-cases (entry_text lib v (marked res))) [
      | inl (t, e) ↦ ground arith
      | inr (x, e) ↦ ground arith
    ]

    visit_missing :
        (db : ResourceIndex lib)
        → lookup at db ≡ none
        → visit_reference lib hr v result db
          ≡ (if v.optional then ok result else err (no_values_found v.kind v.name), db)
    unfolding visit_reference
    visit_missing db h = ground arith

    visit_found :
        (res : Resource) (db : ResourceIndex lib)
        → lookup at db ≡ some res
        → visit_reference lib hr v result db ≡ (read (marked res), insert at (marked res) db)
    unfolding visit_reference
    visit_found res db h = ground (arith, merge_reference_lem res db)

    read_missing :
        (db : ResourceIndex lib)
        → lookup at db ≡ none
        → read_reference db hr result v
          ≡ (if v.optional then ok result else err (no_values_found v.kind v.name))
    unfolding read_reference
    read_missing db h = ground arith

    read_found :
        (res : Resource) (db : ResourceIndex lib)
        → lookup at db ≡ some res
        → read_reference db hr result v ≡ read (marked res)
    unfolding read_reference
    read_found res db h = ground arith

  module _ (hr : HelmRelease Values Patch) (db : ResourceIndex lib) where
    insert-Touched :
        (v : ValuesReference) (res : Resource) (db' : ResourceIndex lib)
        → ((r : Ref) → Touched db db' r)
        → lookup (values_ref lib hr v) db ≡ some res
        → (r : Ref)
        → Touched db (insert (values_ref lib hr v) (set_gvk res (core_gvk lib v.kind)) db') r
    unfolding values_ref
    insert-Touched v res db' touched h r = elim (Bool-cases (values_ref lib hr v == r)) [
      | inl same ↦
          subst (Touched db (insert (values_ref lib hr v) (set_gvk res (core_gvk lib v.kind)) db'))
            ((ref_iff (values_ref lib hr v) r).0 same)
            (inr (
              res,
              h,
              rw (
                lookup-insert (values_ref lib hr v) (values_ref lib hr v)
                    (set_gvk res (core_gvk lib v.kind)) db',
                beq_refl (values_ref lib hr v),
              ),
            ))
      | inr other ↦
          rw (lookup-insert r (values_ref lib hr v) (set_gvk res (core_gvk lib v.kind)) db', other)
            (touched r)
    ]

    visit_lem :
        (v : ValuesReference) (result : Values) (db' : ResourceIndex lib)
        → ((r : Ref) → Touched db db' r)
        → ((visit_reference lib hr v result db').0 ≡ read_reference db hr result v)
          × ((r : Ref) → Touched db (visit_reference lib hr v result db').1 r)
    unfolding values_ref
    visit_lem v result db' touched = elim (touched (values_ref lib hr v)) [
      | inl e ↦ elim (Option-cases (lookup (values_ref lib hr v) db)) [
        | inl missing ↦
            rw (visit_missing hr v result db' (e ∙ missing))
              (sym (read_missing hr v result db missing), touched)
        | inr (res, found) ↦
            rw (visit_found hr v result res db' (e ∙ found))
              (sym (read_found hr v result res db found), insert-Touched v res db' touched found)
      ]
      | inr (res, found, found') ↦
          rw
            (
              visit_found hr v result (set_gvk res (core_gvk lib v.kind)) db' found',
              set_gvk_idem res (core_gvk lib v.kind),
            )
            (sym (read_found hr v result res db found), insert-Touched v res db' touched found)
    ]

    compose_from-merged :
        (vs : List ValuesReference) (result : Values) (db' : ResourceIndex lib)
        → ((r : Ref) → Touched db db' r)
        → (compose_from lib hr result vs db').0 ≡ merged_from db hr result vs
    unfolding compose_from merged_from
    compose_from-merged [] result db' touched = refl
    compose_from-merged (v ∷ vs) result db' touched =
        let (same, touched') = visit_lem v result db' touched in
        elim (Result-cases (read_reference db hr result v)) [
          | inl (m, e) ↦
              ground
                (arith, compose_from-merged vs m (visit_reference lib hr v result db').1 touched')
          | inr (x, e) ↦ ground arith
        ]

  -- `composeValues` returns what a fold over the references in their order returns, the release's
  -- own values merged in last, where every reference is read from the index as it was given:
  -- marking a resource with the kind of a reference does not change what a later one reads, if
  -- `SetGvk` is idempotent.
  pub compose_values-merged :
      (hr : HelmRelease Values Patch) (db : ResourceIndex lib)
      → (compose_values lib hr db).0
        ≡ (merged_from db hr no_values hr.values_from >>= λ m. ok (merge_maps m hr.values))
  unfolding compose_values
  compose_values-merged hr db =
      let same = compose_from-merged hr db hr.values_from no_values db (λ r. inl refl) in
      elim (Result-cases (merged_from db hr no_values hr.values_from)) [
        | inl (m, e) ↦ ground arith
        | inr (x, e) ↦ ground arith
      ]
