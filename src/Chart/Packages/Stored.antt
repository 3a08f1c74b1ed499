-- ===== src/Chart/Packages/Stored.antt =====
-- internal/helm/chart/builder_remote.go, builder_local.go and builder.go: what is at the path that a
-- package is written, packaged or copied to.
use flux_build.Base.{true, Option, some, ◌≡◌, ◌≢◌, ◌∙◌, inl, inr, arith, Bool-cases, Option-cases}
use flux_build.Base.Paths.{base}
use flux_build.Base.Results.{ok, Result-cases}
use flux_build.Base.Text.{Text, codes}
use flux_build.Chart.Host.{Chart, Host}
use flux_build.Chart.Packages.{
  validate_package_and_write_to_path, save_to, package_to_path, closing, copy_into,
  copy_file_to_path,
}
use flux_build.Chart.Packages.Atomic.{FileLaws, Written, validate_package_and_write-Written}

-- What the calls promise for the path of a package: `save` leaves the archive of the chart, a copy that
-- succeeds the content of its source, and neither closing a file nor creating another or removing what is
-- temporary changes what is at the path.
pub record PathLaws {V : Type 0} (host : Host V) (content : host.World → Text → Option Text)
    (archive_of : Chart V → Text) (p : Text) : Type 0 where
  pub files : FileLaws host content
  pub temp-apart :
      (pattern name : Text) (w : host.World) → (host.create_temp pattern w).0 ≡ some name → p ≢ name
  pub save-written :
      (c : Chart V) (dir name : Text) (w : host.World)
      → (host.save c dir w).0 ≡ some name
      → content (host.save c dir w).1 name ≡ some (archive_of c)
  pub temp_dir-apart :
      (pattern dir : Text) (w w' : host.World)
      → (host.mkdir_temp pattern w).0 ≡ some dir
      → content (host.remove_all dir w') p ≡ content w' p
  pub create-other :
      (file path : Text) (w : host.World)
      → path ≢ file
      → content (host.create_file file w).1 path ≡ content w path
  pub transfer-copied :
      (from to : Text) (w : host.World)
      → (host.transfer from to w).0 ≡ true
      → content (host.transfer from to w).1 to ≡ content w from
  pub close-same :
      (file path : Text) (w : host.World) → content (host.close_file file w).1 path ≡ content w path

module _ {V : Type 0} (host : Host V) (content : host.World → Text → Option Text)
    (archive_of : Chart V → Text) (p : Text) (laws : PathLaws host content archive_of p) where
  pub validated-stored :
      (bytes : Text) (w : host.World)
      → (validate_package_and_write_to_path host bytes p w).0 ≡ ok tt
      → content (validate_package_and_write_to_path host bytes p w).1 p ≡ some bytes
  unfolding Written
  validated-stored bytes w h =
      elim (validate_package_and_write-Written host content laws.files bytes p w
        (λ name. laws.temp-apart (base p) name w)) [
          | inl (good, stored) ↦ stored
          | inr (e, bad, rest) ↦ absurd (ground arith)
        ]

  save_to-stored :
      (c : Chart V) (dir : Text) (w : host.World)
      → (save_to host c dir p w).0 ≡ ok tt
      → content (save_to host c dir p w).1 p ≡ some (archive_of c)
  unfolding save_to
  save_to-stored c dir w h = elim (Option-cases (host.save c dir w).0) [
    | inl not_saved ↦ absurd (ground arith)
    | inr (name, saved) ↦
        let w1 = (host.save c dir w).1 in
        elim (Bool-cases (host.rename name p w1).0) [
          | inr stuck ↦ absurd (ground arith)
          | inl moved ↦
              let there = laws.files.rename-moved name p w1 moved in
              let written = laws.save-written c dir name w saved in ground (arith, there, written)
        ]
  ]

  pub packaged-stored :
      (c : Chart V) (w : host.World)
      → (package_to_path host c p w).0 ≡ ok tt
      → content (package_to_path host c p w).1 p ≡ some (archive_of c)
  unfolding package_to_path
  packaged-stored c w h = elim (Option-cases (host.mkdir_temp (codes "chart-build-*") w).0) [
    | inl not_made ↦ absurd (ground arith)
    | inr (dir, made) ↦
        let w1 = (host.mkdir_temp (codes "chart-build-*") w).1 in
        let w2 = (save_to host c dir p w1).1 in
        let stored = save_to-stored c dir w1 (ground arith) in
        let kept = laws.temp_dir-apart (codes "chart-build-*") dir w w2 made in
        ground (arith, kept, stored)
  ]

  copy_into-stored :
      (from : Text) (w : host.World)
      → (copy_into host from p w).0 ≡ ok tt
      → content (copy_into host from p w).1 p ≡ content w from
  unfolding copy_into closing
  copy_into-stored from w h = elim (Bool-cases (host.open_file w from)) [
    | inr unopened ↦ absurd (ground arith)
    | inl opened ↦
        let w1 = (host.transfer from p w).1 in
        elim (Bool-cases (host.transfer from p w).0) [
          | inr broken ↦ absurd (ground arith)
          | inl done ↦
              let copied = laws.transfer-copied from p w done in
              let closed = laws.close-same from p w1 in rw opened (closed ∙ copied)
        ]
  ]

  pub copied-stored :
      (from : Text) (w : host.World)
      → from ≢ p
      → (copy_file_to_path host from p w).0 ≡ ok tt
      → content (copy_file_to_path host from p w).1 p ≡ content w from
  unfolding copy_file_to_path closing
  copied-stored from w other h = elim (Bool-cases (host.create_file p w).0) [
    | inr not_created ↦ absurd (ground arith)
    | inl created ↦
        let w1 = (host.create_file p w).1 in
        let w2 = (copy_into host from p w1).1 in
        elim (Result-cases (copy_into host from p w1).0) [
          | inr (e, bad) ↦ absurd (ground arith)
          | inl (u, good) ↦
              let copied = copy_into-stored from w1 good in
              let closed = laws.close-same p p w2 in
              let before = laws.create-other p from w other in rw created (closed ∙ copied ∙ before)
        ]
  ]
