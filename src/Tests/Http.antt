-- ===== src/Tests/Http.antt =====
-- A chart repository over HTTP whose index is downloaded, loaded and digested.
use flux_build.Base.{some, ◌≡◌, refl, none, [], ◌∷◌}
use flux_build.Base.Dict.{lookup, insert}
use flux_build.Base.Results.{ok}
use flux_build.Base.Text.{codes, text_eq, has_prefix, trim_prefix}
use flux_build.Repository.Http.{
  digest, File, take, max_index_size, State, new_repository, has_index, strategically_load_index,
  has_file, cache_index, load_from_path, download_index, index_from_file,
}
use flux_build.Repository.Index.{index_from_bytes}
use flux_build.Base.Paths.{join_path}
use flux_build.Repository.Http.Fresh.{
  run, IsFresh, loads_strategically, digests, run_all, run_all-IsFresh,
}
use flux_build.Tests.Instances.{http_lib, temp_file, temp_file-new}

abbrev charts : State
charts = record { repo = new_repository (codes "https://charts") [] [] none; disk = [] }

charts-IsFresh : IsFresh http_lib temp_file-new charts
unfolding new_repository lookup
charts-IsFresh a d e = cc

abbrev digested : State
digested =
    run_all http_lib temp_file-new (loads_strategically ∷ digests (codes "sha256") ∷ []) charts

digested_known : lookup (codes "sha256") digested.repo.digests ≡ some (codes "index")
unfolding run_all run digest strategically_load_index has_index new_repository has_file cache_index
    load_from_path download_index index_from_file index_from_bytes lookup insert text_eq has_prefix
    trim_prefix temp_file join_path take
digested_known = refl

run_all-IsFresh_example :
    (f : File) × (lookup digested.repo.path digested.disk ≡ some f)
    × (http_lib.from_reader (codes "sha256") (take max_index_size f.content) ≡ some (codes "index"))
run_all-IsFresh_example =
    run_all-IsFresh http_lib temp_file-new (loads_strategically ∷ digests (codes "sha256") ∷ [])
      charts charts-IsFresh (codes "sha256") (codes "index") digested_known

charts_load : (strategically_load_index http_lib charts).0 ≡ ok tt
unfolding strategically_load_index has_index new_repository has_file cache_index load_from_path
    download_index index_from_file index_from_bytes lookup insert text_eq has_prefix trim_prefix
    temp_file join_path
charts_load = refl
