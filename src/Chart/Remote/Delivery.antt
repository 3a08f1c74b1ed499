-- ===== src/Chart/Remote/Delivery.antt =====
-- internal/helm/chart/builder_remote.go: where a downloaded chart goes.
use flux_build.Base.{
  Option, none, some, true, false, refl, ◌≡◌, inl, inr, arith, Bool-cases, Option-cases,
}
use flux_build.Base.Results.{Result-cases}
use flux_build.Base.Text.{Text, text_eq}
use flux_build.Chart.Host.{Chart, Host}
use flux_build.Chart.Metadata.{overwrite_default_values}
use flux_build.Chart.Metadata.Values.{overwrite_default_values-replaced}
use flux_build.Chart.Packages.Stored.{PathLaws, packaged-stored, validated-stored}
use flux_build.Chart.Options.{get_values_files}
use flux_build.Chart.Packages.{
  merge_chart_values, validate_package_and_write_to_path, package_to_path,
}
use flux_build.Chart.Reference.{BuildOptions, Build}
use flux_build.Chart.Remote.{
  packaged_answer, package_again, literal_answer, requires_packaging, deliver,
}

module _ {V : Type 0} (host : Host V) (set_metadata : Text → Text → Option Text) where
  -- The build that comes back is the one that was begun, at the path that was asked for.
  abbrev At : Text → Build → Build → Type 0
  At p b b' = (b'.path ≡ p) × (b'.name ≡ b.name) × (b'.version ≡ b.version)

  packaged-path :
      (c : Chart V) (b : Build) (p : Text) (w : host.World) {b' : Build}
      → (packaged_answer host set_metadata c b p w).0 ≡ (some b', none)
      → At p b b'
  unfolding packaged_answer
  packaged-path c b p w h = elim (Result-cases (package_to_path host c p w).0) [
    | inl (u, saved) ↦ (ground arith, ground arith, ground arith)
    | inr (e, failed) ↦ ground arith
  ]

  renamed : Chart V → Build → Chart V
  renamed c b = record c { metadata = record c.metadata { version = b.version } }

  again-path :
      (res : Text) (b : Build) (p : Text) (o : BuildOptions) (w : host.World) {b' : Build}
      → (package_again host set_metadata res b p o w).0 ≡ (some b', none)
      → At p b b'
  unfolding package_again renamed
  again-path res b p o w {b'} h = elim (Option-cases (host.load_archive res)) [
    | inl none_loaded ↦ ground arith
    | inr (loaded, e) ↦
        let c = renamed loaded b in
        elim (Result-cases (merge_chart_values host c host.no_values o.values_files)) [
          | inr (failure, not_merged) ↦ ground arith
          | inl (merged, e') ↦ elim (Result-cases (overwrite_default_values host c (some merged))) [
            | inr (failure, not_written) ↦ ground arith
            | inl (written, e'') ↦ elim (Option-cases written) [
              | inl same ↦ packaged-path c b p w {b' = b'} (ground arith)
              | inr (c', changed) ↦
                  packaged-path c' (record b { values_files = get_values_files o }) p w {b' = b'}
                    (ground arith)
            ]
          ]
        ]
  ]

  pub deliver-path :
      (res : Text) (b : Build) (p : Text) (o : BuildOptions) (w : host.World) {b' : Build}
      → (deliver host set_metadata (some res) b p o w).0 ≡ (some b', none)
      → At p b b'
  unfolding deliver literal_answer
  deliver-path res b p o w {b'} h = elim (Bool-cases (requires_packaging o)) [
    | inl again ↦ again-path res b p o w {b' = b'} (ground arith)
    | inr literal ↦ elim (Result-cases (validate_package_and_write_to_path host res p w).0) [
      | inl (u, written) ↦ (ground arith, ground arith, ground arith)
      | inr (e, failed) ↦ ground arith
    ]
  ]

  -- What is at the path when a download was delivered there: the download itself, or where the chart is
  -- to be packaged again, the archive of a chart with the metadata of the one that was downloaded but
  -- for its version.
  module _ (content : host.World → Text → Option Text) (archive_of : Chart V → Text) where
    pub data IsDelivered (res : Text) (o : BuildOptions) (p version : Text) (w : host.World)
        : Type 0 where
      literal :
          requires_packaging o ≡ false → content w p ≡ some res → IsDelivered res o p version w
      again :
          (loaded c : Chart V)
          → requires_packaging o ≡ true
          → host.load_archive res ≡ some loaded
          → c.metadata ≡ record loaded.metadata { version = version }
          → content w p ≡ some (archive_of c)
          → IsDelivered res o p version w

    module _ (p : Text) (laws : PathLaws host content archive_of p) where
      packaged-stored_at :
          (c : Chart V) (b : Build) (w : host.World) {b' : Build}
          → (packaged_answer host set_metadata c b p w).0 ≡ (some b', none)
          → content (packaged_answer host set_metadata c b p w).1 p ≡ some (archive_of c)
      unfolding packaged_answer
      packaged-stored_at c b w h = elim (Result-cases (package_to_path host c p w).0) [
        | inl (u, saved) ↦ packaged-stored host content archive_of p laws c w saved
        | inr (e, failed) ↦ absurd (ground arith)
      ]

      again-IsDelivered :
          (res : Text) (b : Build) (o : BuildOptions) (w : host.World) {b' : Build}
          → requires_packaging o ≡ true
          → (package_again host set_metadata res b p o w).0 ≡ (some b', none)
          → IsDelivered res o p b.version (package_again host set_metadata res b p o w).1
      unfolding package_again renamed
      again-IsDelivered res b o w {b'} asked h = elim (Option-cases (host.load_archive res)) [
        | inl none_loaded ↦ absurd (ground arith)
        | inr (loaded, e) ↦
            let c = renamed loaded b in
            elim (Result-cases (merge_chart_values host c host.no_values o.values_files)) [
              | inr (failure, not_merged) ↦ absurd (ground arith)
              | inl (merged, e') ↦
                  elim (Result-cases (overwrite_default_values host c (some merged))) [
                    | inr (failure, not_written) ↦ absurd (ground arith)
                    | inl (written, e'') ↦ elim (Option-cases written) [
                      | inl same ↦
                          let there = packaged-stored_at c b w {b' = b'} (ground arith) in
                          let final : (package_again host set_metadata res b p o w).1
                              ≡ (packaged_answer host set_metadata c b p w).1 =
                            ground arith in
                          IsDelivered.again loaded c asked e refl (rw final there)
                      | inr (c', changed) ↦
                          let b1 = record b { values_files = get_values_files o } in
                          let there = packaged-stored_at c' b1 w {b' = b'} (ground arith) in
                          let final : (package_again host set_metadata res b p o w).1
                              ≡ (packaged_answer host set_metadata c' b1 p w).1 =
                            ground arith in
                          let same : c'.metadata ≡ c.metadata =
                            (overwrite_default_values-replaced host c (some merged) {c' = c'}
                              (ground arith)).8 in
                          IsDelivered.again loaded c' asked e same (rw final there)
                    ]
                  ]
            ]
      ]

      pub deliver-IsDelivered :
          (res : Text) (b : Build) (o : BuildOptions) (w : host.World) {b' : Build}
          → (deliver host set_metadata (some res) b p o w).0 ≡ (some b', none)
          → IsDelivered res o p b.version (deliver host set_metadata (some res) b p o w).1
      unfolding deliver literal_answer
      deliver-IsDelivered res b o w {b'} h = elim (Bool-cases (requires_packaging o)) [
        | inl asked ↦ rw asked (again-IsDelivered res b o w {b' = b'} asked (ground arith))
        | inr not_asked ↦ elim (Result-cases (validate_package_and_write_to_path host res p w).0) [
          | inl (u, written) ↦ rw not_asked (
              IsDelivered.literal not_asked
                (validated-stored host content archive_of p laws res w written))
          | inr (e, failed) ↦ absurd (ground arith)
        ]
      ]
