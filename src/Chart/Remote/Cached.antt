-- ===== src/Chart/Remote/Cached.antt =====
-- internal/helm/chart/builder_remote.go: when the cached chart is served.
use flux_build.Base.{Bool, true, false, Option, ◌≡◌, refl, inl, inr, arith, Bool-cases, ◌↔◌}
use flux_build.Base.Results.{ok, Result-cases}
use flux_build.Base.Text.{Text, text_eq, text_iff, is_empty}
use flux_build.Chart.Host.{Metadata, Host}
use flux_build.Chart.Metadata.{load_from_archive}
use flux_build.Chart.Options.{get_values_files}
use flux_build.Chart.Reference.{BuildOptions, Build, empty_build}
use flux_build.Chart.Remote.{build_version, is_cached, generate_build_result, requires_packaging}
use flux_build.Repository.Versions.{ChartVersion}

module _ {V : Type 0} (host : Host V) (set_metadata : Text → Text → Option Text) where
  -- The metadata of a cached chart that may be served for a version
  unfoldable pub Matches : host.World → ChartVersion → BuildOptions → Metadata → Type 0
  Matches w cv o m =
      (load_from_archive host w o.cached_chart ≡ ok m)
      × (host.is_valid m ≡ true)
      × (m.name ≡ cv.name)
      × (build_version host set_metadata cv o ≡ ok m.version)

  pub is_cached_iff :
      (w : host.World) (b : Build) (o : BuildOptions)
      → (is_cached host set_metadata w b o ≡ true) ↔ (
          (is_empty o.cached_chart ≡ false)
          × (o.force ≡ false)
          × (m : Metadata) × (load_from_archive host w o.cached_chart ≡ ok m)
          × (host.is_valid m ≡ true)
          × (m.name ≡ b.name)
          × (m.version ≡ b.version))
  unfolding is_cached
  is_cached_iff w b o = elim (Result-cases (load_from_archive host w o.cached_chart)) [
    | inl (m, loaded) ↦ (
      λ h. (
        ground arith,
        ground arith,
        m,
        loaded,
        ground arith,
        ground (arith, text_iff b.name m.name),
        ground (arith, text_iff b.version m.version),
      ),
      λ (asked, not_forced, m', loaded', valid, same_name, same_version).
          let same : m' ≡ m = cc in
          ground (arith, text_iff b.name m.name, text_iff b.version m.version),
    )
    | inr (e, refused) ↦ (
      λ h. ground arith,
      λ (asked, not_forced, m', loaded', valid, same_name, same_version). ground arith,
    )
  ]

  -- A build is served from the cached chart exactly if one is given and no rebuild is forced, its
  -- archive loads, its metadata is valid, and it has the name of the version that was resolved and
  -- the version that the build would get; its path is then that of the cached chart.
  pub generate_build_result-cached_iff :
      (w : host.World) (cv : ChartVersion) (o : BuildOptions)
      → ((b : Build) × (generate_build_result host set_metadata w cv o ≡ ok (b, true))
          × (b.path ≡ o.cached_chart))
        ↔ ((is_empty o.cached_chart ≡ false)
            × (o.force ≡ false)
            × (m : Metadata) × Matches w cv o m)
  unfolding generate_build_result Matches
  generate_build_result-cached_iff w cv o =
      elim (Result-cases (build_version host set_metadata cv o)) [
        | inl (version, patched) ↦
            let b : Build = record empty_build { name = cv.name; version = version } in
            elim (Bool-cases (is_cached host set_metadata w b o)) [
              | inl cached ↦
                  let (asked, not_forced, m, loaded, valid, same_name, same_version) =
                    (is_cached_iff w b o).0 cached in
                  (
                    λ h.
                        (asked, not_forced, m, (loaded, valid, same_name, rw same_version patched)),
                    λ h. (
                      record b {
                        path = o.cached_chart;
                        values_files = get_values_files o;
                        packaged = requires_packaging o;
                      },
                      ground arith,
                      refl,
                    ),
                  )
              | inr not_cached ↦ (
                λ (b', made, path). ground arith,
                λ (asked, not_forced, m, (loaded, valid, same_name, same_version)).
                    let same : m.version ≡ version = ground arith in
                    let cached =
                      (is_cached_iff w b o).1
                        (asked, not_forced, m, loaded, valid, same_name, same) in
                    ground arith,
              )
            ]
        | inr (e, refused) ↦ (
          λ (b, made, path). ground arith,
          λ (asked, not_forced, m, (loaded, valid, same_name, same_version)). ground arith,
        )
      ]

  pub cached-path :
      (w : host.World) (cv : ChartVersion) (o : BuildOptions) (b : Build)
      → generate_build_result host set_metadata w cv o ≡ ok (b, true)
      → b.path ≡ o.cached_chart
  unfolding generate_build_result
  cached-path w cv o b h = elim (Result-cases (build_version host set_metadata cv o)) [
    | inr (e, refused) ↦ ground arith
    | inl (version, patched) ↦
        elim (Bool-cases (
          is_cached host set_metadata w (record empty_build { name = cv.name; version = version })
            o)) [ inl t ↦ ground arith | inr f ↦ ground arith ]
  ]

  pub begun :
      (w : host.World) (cv : ChartVersion) (o : BuildOptions) (b : Build) (cached : Bool)
      → generate_build_result host set_metadata w cv o ≡ ok (b, cached)
      → (b.name ≡ cv.name) × (build_version host set_metadata cv o ≡ ok b.version)
  unfolding generate_build_result
  begun w cv o b cached h = elim (Result-cases (build_version host set_metadata cv o)) [
    | inr (e, refused) ↦ ground arith
    | inl (version, patched) ↦
        elim (Bool-cases (
          is_cached host set_metadata w (record empty_build { name = cv.name; version = version })
            o)) [ inl t ↦ (ground arith, ground arith) | inr f ↦ (ground arith, ground arith) ]
  ]
