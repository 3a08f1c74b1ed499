-- ===== src/Chart/Options.antt =====
-- internal/helm/chart/builder.go, `BuildOptions.GetValuesFiles`.
use flux_build.Base.{List, [], ◌∷◌, ◌==◌, if◌then◌else◌}
use flux_build.Base.Paths.{clean}
use flux_build.Base.Text.{Text, codes, text_eq}
use flux_build.Chart.Reference.{BuildOptions}

only_default : List Text → List Text
only_default (f ∷ []) = if clean f == clean (codes "values.yaml") then [] else f ∷ []
only_default files = files

-- `GetValuesFiles`: none, if they are the default one only
unfoldable pub get_values_files : BuildOptions → List Text
unfolding only_default
get_values_files o = only_default o.values_files
