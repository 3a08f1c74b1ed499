-- ===== src/Build/Values.antt =====
-- internal/build/helm.go, `composeValues`: the values of a release, merged from the objects that
-- `spec.valuesFrom` names and from the release itself.
pub mod Order
use flux_build.Base.{
  Bool, true, false, ◌&&◌, ◌||◌, Option, none, some, List, [], ◌∷◌, ◌++◌, ◌==◌, if◌then◌else◌,
}
use flux_build.Base.Dict.{lookup, insert}
use flux_build.Base.Exec.{Exec, pure, fail, lift, ◌>>=◌}
use flux_build.Base.Results.{Result, ok, err}
use flux_build.Base.Text.{Text, codes, is_empty, text_eq, has_prefix, has_suffix, trim}
use flux_build.Auth.Types.{Secret}
use flux_build.Build.Index.{ResourceIndex}
use flux_build.Build.Objects.{
  Ref, ref_eq, Gvk, ValuesReference, HelmRelease, Object, config_map, secret, KubeLibrary,
  BuildError, marshal_failed, decode_failed, no_values_found, missing_key, unsupported_kind,
  unreadable_values, unmergeable_value,
}

-- The data of a secret goes before its string data.
unfoldable pub secret_entry : Secret → Text → Option Text
secret_entry s k = elim (lookup k s.entries) [ some v ↦ some v | none ↦ lookup k s.string_data ]

abbrev or_missing : ValuesReference → Option Text → Result BuildError Text
or_missing v none = err (missing_key v.values_key v.kind)
or_missing v (some t) = ok t

-- The text under the reference's key
unfoldable pub values_data : {V P : Type 0} → ValuesReference → Object V P → Result BuildError Text
unfolding secret_entry
values_data v (config_map entries) = or_missing v (lookup v.values_key entries)
values_data v (secret s) = or_missing v (secret_entry s v.values_key)
values_data v _ = err (unsupported_kind v.kind)

abbrev pub single_quote : Text
single_quote = codes "'"

abbrev pub double_quote : Text
double_quote = codes "\""

unfoldable pub is_quoted : Text → Bool
is_quoted s =
    (has_prefix s single_quote && has_suffix s single_quote)
    || (has_prefix s double_quote && has_suffix s double_quote)

module _ (lib : KubeLibrary) where
  open lib use {
    Resource, Values, Patch, set_gvk, as_yaml, decode, no_values, read_values, parse_into,
    parse_into_string, merge_maps,
  }

  or_unreadable : Text → Option Values → Result BuildError Values
  or_unreadable key none = err (unreadable_values key)
  or_unreadable key (some values) = ok values

  or_unmergeable : ValuesReference → Option Values → Result BuildError Values
  or_unmergeable v none = err (unmergeable_value v.values_key v.target_path)
  or_unmergeable v (some values) = ok values

  -- The `switch` on the target path: with none, the text is YAML that is merged in; else it is set
  -- at the path, as a string if it is quoted.
  unfoldable pub merge_entry : Values → ValuesReference → Text → Result BuildError Values
  unfolding or_unreadable or_unmergeable is_quoted
  merge_entry result v text =
      if is_empty v.target_path
      then (elim (or_unreadable v.values_key (read_values text)) [
        | err e ↦ err e
        | ok values ↦ ok (merge_maps result values)
      ])
      else if is_quoted text
      then or_unmergeable v (
          parse_into_string (v.target_path ++ codes "=" ++ trim text (single_quote ++ double_quote))
            result)
      else or_unmergeable v (parse_into (v.target_path ++ codes "=" ++ text) result)

  unfoldable pub values_ref : HelmRelease Values Patch → ValuesReference → Ref
  values_ref hr v = record { group = []; kind = v.kind; name = v.name; namespace = hr.namespace }

  abbrev pub core_gvk : Text → Gvk
  core_gvk kind = record { group = []; version = codes "v1"; kind = kind }

  -- The text of a reference, from the resource that it names
  unfoldable pub entry_text : ValuesReference → Resource → Result BuildError Text
  unfolding values_data
  entry_text v res = elim (as_yaml res) [
    | none ↦ err marshal_failed
    | some raw ↦ elim (decode raw) [ none ↦ err decode_failed | some o ↦ values_data v o ]
  ]

  -- One round of the loop over a resource that was found. `SetGvk` changes the resource of the
  -- index in place, and stays done if a later part fails.
  merge_reference :
      HelmRelease Values Patch
      → ValuesReference
      → Values
      → Resource
      → Exec (ResourceIndex lib) BuildError Values
  merge_reference hr v result res db =
      let changed = set_gvk res (core_gvk v.kind) in
      let db' = insert (values_ref hr v) changed db in
      elim (entry_text v changed) [
        | err e ↦ (err e, db')
        | ok text ↦ (merge_entry result v text, db')
      ]

  -- The body of the loop
  visit_reference :
      HelmRelease Values Patch
      → ValuesReference
      → Values
      → Exec (ResourceIndex lib) BuildError Values
  unfolding merge_reference
  visit_reference hr v result db = elim (lookup (values_ref hr v) db) [
    | none ↦ (if v.optional then ok result else err (no_values_found v.kind v.name), db)
    | some res ↦ merge_reference hr v result res db
  ]

  unfoldable pub compose_from :
      HelmRelease Values Patch
      → Values
      → List ValuesReference
      → Exec (ResourceIndex lib) BuildError Values
  unfolding visit_reference
  compose_from hr result [] = pure result
  compose_from hr result (v ∷ more) = do
    merged ← visit_reference hr v result
    compose_from hr merged more

  -- `composeValues`
  unfoldable pub compose_values :
      HelmRelease Values Patch → Exec (ResourceIndex lib) BuildError Values
  compose_values hr = do
    result ← compose_from hr no_values hr.values_from
    pure (merge_maps result hr.values)
