-- ===== src/Chart/Metadata/Values.antt =====
-- internal/helm/chart/metadata.go, `OverwriteChartDefaultValues`: what is replaced.
use flux_build.Base.{
  Option, none, some, List, [], ◌∷◌, ◌++◌, map, ◌==◌, ◌≡◌, ◌≢◌, ◌∙◌, ap, sym, refl, inl, inr, arith,
  All, Bool-cases, Option-cases,
}
use flux_build.Base.Results.{ok, Result-cases}
use flux_build.Base.Text.{Text, text_eq, text_iff}
use flux_build.Chart.Host.{ChartFile, Chart, Host}
use flux_build.Chart.Metadata.{
  encoded, same_data, replace_file, replace_first, first_values, overwrite_default_values,
  values_file,
}

module _ {V : Type 0} (host : Host V) where
  replace_first-split :
      (text : Text) (fs : List ChartFile) (f : ChartFile)
      → first_values host fs ≡ some f
      → (before after : List ChartFile) × (fs ≡ before ++ (f ∷ after))
        × (replace_first host text fs ≡ before ++ (record f { content = text } ∷ after))
        × (f.name ≡ values_file)
        × All (λ g. g.name ≢ values_file) before
  unfolding first_values replace_first
  replace_first-split text [] f h = cc
  replace_first-split text (g ∷ gs) f h = elim (Bool-cases (g.name == values_file)) [
    | inl t ↦
        let e : g ≡ f = ground arith in
        (
          [],
          gs,
          ap (λ x. x ∷ gs) e,
          rw t (ap {A = ChartFile} {B = List ChartFile} (λ x. record x { content = text } ∷ gs) e),
          ap (λ x. x.name) (sym e) ∙ (text_iff g.name values_file).0 t,
          tt,
        )
    | inr other ↦
        let (before, after, split, replaced, named, apart) =
          replace_first-split text gs f (ground arith) in
        (
          g ∷ before,
          after,
          ap (λ x. g ∷ x) split,
          rw other (ap (λ x. g ∷ x) replaced),
          named,
          (λ same. ground (arith, text_iff g.name values_file), apart),
        )
  ]

  -- A file of the chart after the change: a values file has the new text, any other file is as it was.
  unfoldable pub IsReplaced : Text → ChartFile → ChartFile → Type 0
  IsReplaced text f f' =
      (f'.name ≡ f.name)
      × (f.name ≡ values_file → f'.content ≡ text)
      × (f.name ≢ values_file → f' ≡ f)

  unfoldable pub AreReplaced : Text → List ChartFile → List ChartFile → Type 0
  AreReplaced text [] [] = Unit
  AreReplaced text (f ∷ fs) (f' ∷ fs') = IsReplaced text f f' × AreReplaced text fs fs'
  AreReplaced text [] (_ ∷ _) = ⊥
  AreReplaced text (_ ∷ _) [] = ⊥

  AreReplaced-replace_file :
      (text : Text) (fs : List ChartFile) → AreReplaced text fs (map (replace_file host text) fs)
  unfolding replace_file AreReplaced IsReplaced
  AreReplaced-replace_file text [] = tt
  AreReplaced-replace_file text (f ∷ fs) = (
    elim (Bool-cases (f.name == values_file)) [
      | inl t ↦
          rw t (refl, λ named. refl, λ other. absurd (other ((text_iff f.name values_file).0 t)))
      | inr other ↦
          rw other
            (refl, λ named. absurd (ground (arith, text_iff f.name values_file)), λ different. refl)
    ],
    AreReplaced-replace_file text fs,
  )

  -- If the chart is changed then by values that can be written down: they become the chart's; of its
  -- raw files the first values file gets their text and nothing else changes; of its files every
  -- values file gets it and the others stay as they are, each in its place; and its metadata, its
  -- lock and its dependencies do not change.
  pub overwrite_default_values-replaced :
      (c : Chart V) (vals : Option V) {c' : Chart V}
      → overwrite_default_values host c vals ≡ ok (some c')
      → (v : V) × (text : Text) × (f : ChartFile) × (before after : List ChartFile) × (vals
          ≡ some v)
        × (encoded host v ≡ ok text)
        × (c'.values ≡ v)
        × (c'.metadata ≡ c.metadata)
        × (c'.lock ≡ c.lock)
        × (c'.dependencies ≡ c.dependencies)
        × (c.raw ≡ before ++ (f ∷ after))
        × (c'.raw ≡ before ++ (record f { content = text } ∷ after))
        × (f.name ≡ values_file)
        × All (λ g. g.name ≢ values_file) before
        × AreReplaced text c.files c'.files
  unfolding overwrite_default_values
  overwrite_default_values-replaced c none h = cc
  overwrite_default_values-replaced c (some v) {c'} h = elim (Result-cases (encoded host v)) [
    | inr (e, refused) ↦ ground arith
    | inl (text, written) ↦ elim (Option-cases (first_values host c.raw)) [
      | inl no_file ↦ ground arith
      | inr (f, first) ↦ elim (Bool-cases (same_data host v f.content text)) [
        | inl same ↦ ground arith
        | inr different ↦
            let raw : c'.raw ≡ replace_first host text c.raw = ground arith in
            let files : c'.files ≡ map (replace_file host text) c.files = ground arith in
            let (before, after, split, replaced, named, apart) =
              replace_first-split text c.raw f first in
            (
              v,
              text,
              f,
              before,
              after,
              refl,
              written,
              ground arith,
              ground arith,
              ground arith,
              ground arith,
              split,
              raw ∙ replaced,
              named,
              apart,
              rw files (AreReplaced-replace_file text c.files),
            )
      ]
    ]
  ]
