-- ===== src/Chart/Remote/Erased.antt =====
-- internal/helm/chart/builder_remote.go: a chart that is packaged again with no values files.
use flux_build.Base.{true, some, [], map, ◌≡◌, arith, Option}
use flux_build.Base.Text.{Text, text_eq}
use flux_build.Chart.Host.{ChartFile, Chart, Host}
use flux_build.Chart.Metadata.{
  encoded, same_data, replace_file, replace_first, first_values, overwrite_default_values,
}
use flux_build.Chart.Packages.{merge_chart_values}
use flux_build.Chart.Options.{get_values_files}
use flux_build.Chart.Reference.{BuildOptions, Build}
use flux_build.Chart.Remote.{packaged_answer, package_again}

module _ {V : Type 0} (host : Host V) (set_metadata : Text → Text → Option Text) where
  -- The chart with an empty values file
  unfoldable pub erased : Chart V → Text → Chart V
  erased c version = record c {
    metadata = record c.metadata { version = version };
    raw = replace_first host [] c.raw;
    files = map (replace_file host []) c.files;
    values = host.no_values;
  }

  -- A downloaded chart with a values file that is packaged again with no values files named (for
  -- version metadata alone) is packaged with its default values erased.
  pub package_again-erased :
      (res : Text) (b : Build) (p : Text) (o : BuildOptions) (w : host.World) (c : Chart V)
      (f : ChartFile)
      → host.is_no_values host.no_values ≡ true
      → host.load_archive res ≡ some c
      → first_values host c.raw ≡ some f
      → o.values_files ≡ []
      → package_again host set_metadata res b p o w
        ≡ packaged_answer host set_metadata
            (erased c b.version)
            (record b { values_files = [] })
            p
            w
  unfolding package_again erased merge_chart_values overwrite_default_values encoded same_data
      get_values_files
  package_again-erased res b p o w c f empty loaded first no_files = ground arith
