-- ===== src/Tests/Charts.antt =====
-- The chart builders at concrete inputs.
use flux_build.Chart.Metadata.{with_api_version}
use flux_build.Base.Text.{join}
use flux_build.Chart.Metadata.{read_entry}
use flux_build.Chart.Metadata.{load_from_archive}
use flux_build.Chart.Reference.{matches_name}
use flux_build.Chart.Reference.{validate_remote}
use flux_build.Chart.Reference.{validate}
use flux_build.Base.{
  List, ◌++◌, ◌≢◌, ℕ, true, false, none, some, [], ◌∷◌, nat_eq, ◌≡◌, ◌≢◌, ◌↔◌, refl, arith, All,
}
use flux_build.Base.Paths.{clean, is_abs}
use flux_build.Base.Results.{ok}
use flux_build.Base.Text.{Text, codes, text_eq, text_iff, split, has_prefix}
use flux_build.Chart.Host.{Metadata, ChartFile}
use flux_build.Chart.Metadata.{
  read_archive, overwrite_default_values, encoded, first_values, values_file,
}
use flux_build.Chart.Metadata.Inside.{Admissible, content_headers, read_archive-Admissible}
use flux_build.Chart.Metadata.Values.{AreReplaced, overwrite_default_values-replaced}
use flux_build.Chart.Packages.{validate_package_and_write_to_path}
use flux_build.Chart.Packages.Atomic.{Written, validate_package_and_write-Written}
use flux_build.Chart.Reference.{Reference, remote_ref, Build}
use flux_build.Chart.Remote
use flux_build.Chart.Remote.{generate_build_result, package_again, packaged_answer}
use flux_build.Chart.Remote.Cached.{Matches, generate_build_result-cached_iff}
use flux_build.Chart.Remote.Erased.{erased, package_again-erased}
use flux_build.Chart.Remote.Served.{IsServed, build-IsServed}
use flux_build.Tests.Host.{
  no_files, options, podinfo_build, Files, put, podinfo, podinfo_chart, podinfo_header,
  podinfo_archive, files, content_of, file_laws, path_laws, podinfo_version, downloader,
  set_metadata,
}

abbrev chart_files : Files
chart_files = put (codes "/cached") (codes "chart") no_files

podinfo_read : read_archive files none podinfo_archive ≡ ok (some podinfo)
unfolding read_archive read_entry is_abs join split text_eq clean has_prefix with_api_version
podinfo_read = refl

read_archive-Admissible_example : All Admissible (podinfo_header ∷ [])
unfolding content_headers
read_archive-Admissible_example = read_archive-Admissible files none podinfo_archive podinfo_read

replaced :
    overwrite_default_values files podinfo_chart (some 2)
    ≡ ok (
        some (record podinfo_chart {
          raw = record { name = values_file; content = 2 ∷ [] } ∷ [];
          values = 2;
        }))
unfolding overwrite_default_values text_eq
replaced = refl

overwrite_default_values-replaced_example :
    (v : ℕ) × (text : Text) × (f : ChartFile) × (before after : List ChartFile) × (some 2 ≡ some v)
    × (encoded files v ≡ ok text)
    × (2 ≡ v)
    × (podinfo ≡ podinfo)
    × (podinfo_chart.lock ≡ podinfo_chart.lock)
    × (podinfo_chart.dependencies ≡ podinfo_chart.dependencies)
    × (podinfo_chart.raw ≡ before ++ (f ∷ after))
    × (record { name = values_file; content = 2 ∷ [] } ∷ []
        ≡ before ++ (record f { content = text } ∷ after))
    × (f.name ≡ values_file)
    × All {A = ChartFile} (λ g. g.name ≢ values_file) before
    × AreReplaced files text podinfo_chart.files []
overwrite_default_values-replaced_example =
    overwrite_default_values-replaced files podinfo_chart (some 2) replaced

generate_build_result-cached_iff_example :
    ((b : Build) × (generate_build_result files set_metadata chart_files podinfo_version
          (record options { cached_chart = codes "/cached" })
        ≡ ok (b, true))
      × (b.path ≡ codes "/cached"))
    ↔ ((false ≡ false)
        × (false ≡ false)
        × (m : Metadata) × Matches files set_metadata chart_files podinfo_version
            (record options { cached_chart = codes "/cached" })
            m)
generate_build_result-cached_iff_example =
    generate_build_result-cached_iff files set_metadata chart_files podinfo_version
      (record options { cached_chart = codes "/cached" })

remote_built :
    (Remote.build files set_metadata downloader
      (remote_ref (record { name = codes "podinfo"; version = codes "1" }))
      (codes "/out")
      options
      no_files).0
    ≡ (some podinfo_build, none)
unfolding Remote.build validate validate_remote matches_name generate_build_result
    Remote.literal_answer validate_package_and_write_to_path load_from_archive text_eq read_entry
    is_abs join split clean has_prefix with_api_version
remote_built = refl

abbrev podinfo_reference : Reference
podinfo_reference = remote_ref (record { name = codes "podinfo"; version = codes "1" })

build-IsServed_example :
    IsServed files set_metadata downloader content_of
      (λ c. codes "chart")
      (codes "/out")
      path_laws
      podinfo_reference
      options
      no_files
      (Remote.build files set_metadata downloader podinfo_reference
        (codes "/out")
        options
        no_files).1
      podinfo_build
build-IsServed_example =
    build-IsServed files set_metadata downloader content_of (λ c. codes "chart") (codes "/out")
      path_laws podinfo_reference options no_files podinfo_build remote_built

first_podinfo :
    first_values files podinfo_chart.raw ≡ some (record { name = values_file; content = codes "x" })
unfolding first_values text_eq
first_podinfo = refl

package_again-erased_example :
    package_again files set_metadata (codes "chart") podinfo_build (codes "/out") options no_files
    ≡ packaged_answer files set_metadata
        (erased files set_metadata podinfo_chart (codes "1"))
        podinfo_build
        (codes "/out")
        no_files
unfolding text_eq
package_again-erased_example =
    package_again-erased files set_metadata (codes "chart") podinfo_build (codes "/out") options
      no_files podinfo_chart (record { name = values_file; content = codes "x" }) refl refl
      first_podinfo refl

other_than_temp : (name : Text) → some (codes "/tmp/chart") ≡ some name → codes "/out" ≢ name
other_than_temp name created same = ground (arith, text_iff (codes "/out") (codes "/tmp/chart"))

validate_package_and_write-Written_example :
    Written files content_of file_laws
      (codes "/out")
      (codes "chart")
      (validate_package_and_write_to_path files (codes "chart") (codes "/out") no_files).0
      no_files
      (validate_package_and_write_to_path files (codes "chart") (codes "/out") no_files).1
validate_package_and_write-Written_example =
    validate_package_and_write-Written files content_of file_laws (codes "chart") (codes "/out")
      no_files other_than_temp
