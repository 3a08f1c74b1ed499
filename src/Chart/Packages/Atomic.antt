-- ===== src/Chart/Packages/Atomic.antt =====
-- internal/helm/chart/builder_remote.go and builder.go: a package is at its path as a whole or not
-- at all, for a file system that does what the calls of `os` promise.
use flux_build.Base.{
  true, ◌&&◌, Option, none, some, ◌≡◌, ◌≢◌, ◌∙◌, ◌⊎◌, inl, inr, arith, Bool-cases, Option-cases,
  refl,
}
use flux_build.Base.Paths.{base}
use flux_build.Base.Results.{Result, ok, err, Result-cases}
use flux_build.Base.Text.{Text, codes}
use flux_build.Chart.Errors.{BuildError, chart_pull, bad_metadata, failed}
use flux_build.Chart.Host.{Host}
use flux_build.Chart.Metadata.{load_from_archive}
use flux_build.Chart.Packages.{check_and_rename, validate_package_and_write_to_path}

-- What a file system promises, for the contents of its files
pub record FileLaws {V : Type 0} (host : Host V) (content : host.World → Text → Option Text)
    : Type 0 where
  pub create-other :
      (pattern : Text) (w : host.World) (name path : Text)
      → (host.create_temp pattern w).0 ≡ some name
      → path ≢ name
      → content (host.create_temp pattern w).1 path ≡ content w path
  pub create-failed :
      (pattern : Text) (w : host.World) (path : Text)
      → (host.create_temp pattern w).0 ≡ none
      → content (host.create_temp pattern w).1 path ≡ content w path
  pub write-written :
      (name bytes : Text) (w : host.World)
      → (host.write name bytes w).0 ≡ true
      → content (host.write name bytes w).1 name ≡ some bytes
  pub write-other :
      (name bytes : Text) (w : host.World) (path : Text)
      → path ≢ name
      → content (host.write name bytes w).1 path ≡ content w path
  pub rename-moved :
      (from to : Text) (w : host.World)
      → (host.rename from to w).0 ≡ true
      → content (host.rename from to w).1 to ≡ content w from
  pub remove-other :
      (name : Text) (w : host.World) (path : Text)
      → path ≢ name
      → content (host.remove name w) path ≡ content w path

module _ {V : Type 0} (host : Host V) (content : host.World → Text → Option Text)
    (laws : FileLaws host content) where
  -- Either there is no error and the path has the new content; or there is one, and the path has the
  -- content that it had, unless it is the last step that failed, the rename.
  unfoldable pub Written :
      Text → Text → Result BuildError (Unit {0}) → host.World → host.World → Type 0
  Written out bytes r w w' =
      ((r ≡ ok tt) × (content w' out ≡ some bytes))
      ⊎ ((e : BuildError) × (r ≡ err e)
          × ((content w' out ≡ content w out) ⊎ (e ≡ failed chart_pull (codes "rename"))))

  check_and_rename-Written :
      (temp out bytes : Text) (w : host.World)
      → content w temp ≡ some bytes
      → Written out bytes
          (check_and_rename host temp out w).0
          w
          (check_and_rename host temp out w).1
  unfolding check_and_rename Written
  check_and_rename-Written temp out bytes w stored =
      elim (Result-cases (load_from_archive host w temp)) [
        | inr (e, bad) ↦ inr (
          record { reason = chart_pull; cause = bad_metadata e },
          ground arith,
          inl (ground arith),
        )
        | inl (m, loaded) ↦ elim (Bool-cases (host.is_valid m)) [
          | inr invalid ↦
              inr (failed chart_pull (codes "invalid metadata"), ground arith, inl (ground arith))
          | inl valid ↦ elim (Bool-cases (host.rename temp out w).0) [
            | inl moved ↦ inl (ground arith, ground (arith, laws.rename-moved temp out w moved))
            | inr stuck ↦ inr (failed chart_pull (codes "rename"), ground arith, inr refl)
          ]
        ]
      ]

  -- A package that is validated and written without an error is at its path as a whole; with an error
  -- the path has the content that it had, unless the error is that of the rename, which comes last. The
  -- temporary file is taken to have another path, and the calls to keep `FileLaws`.
  pub validate_package_and_write-Written :
      (bytes out : Text) (w : host.World)
      → ((name : Text) → (host.create_temp (base out) w).0 ≡ some name → out ≢ name)
      → Written out bytes
          (validate_package_and_write_to_path host bytes out w).0
          w
          (validate_package_and_write_to_path host bytes out w).1
  unfolding validate_package_and_write_to_path Written
  validate_package_and_write-Written bytes out w apart =
      elim (Option-cases (host.create_temp (base out) w).0) [
        | inl not_created ↦ inr (
          failed chart_pull (codes "create"),
          ground arith,
          inl (ground (arith, laws.create-failed (base out) w out not_created)),
        )
        | inr (name, created) ↦
            let other = apart name created in
            let w1 = (host.create_temp (base out) w).1 in
            let w2 = (host.write name bytes w1).1 in
            let before : content w2 out ≡ content w out =
              laws.write-other name bytes w1 out other
              ∙ laws.create-other (base out) w name out created other in
            elim (Bool-cases ((host.write name bytes w1).0 && host.close w2 name)) [
              | inr not_written ↦ inr (
                failed chart_pull (codes "write"),
                ground arith,
                inl (ground (arith, laws.remove-other name w2 out other, before)),
              )
              | inl written ↦
                  let checked = check_and_rename host name out w2 in
                  let stored = laws.write-written name bytes w1 (ground arith) in
                  let removed = laws.remove-other name checked.1 out other in
                  elim (check_and_rename-Written name out bytes w2 stored) [
                    | inl (good, new) ↦ inl (ground arith, ground (arith, removed, new))
                    | inr (e, bad, inl old) ↦
                        inr (e, ground arith, inl (ground (arith, removed, old, before)))
                    | inr (e, bad, inr last) ↦ inr (e, ground arith, inr last)
                  ]
            ]
      ]
