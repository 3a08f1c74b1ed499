-- ===== src/Chart/Remote/Served.antt =====
-- internal/helm/chart/builder_remote.go: what a remote build that returns no error has done.
use flux_build.Base.{
  Bool, true, false, Option, none, some, ◌≡◌, refl, ◌⊎◌, inl, inr, arith, ◌∙◌, Bool-cases,
  Option-cases, if◌then◌else◌, ap, sym, subst,
}
use flux_build.Base.Exec.{>>=-eq-ok}
use flux_build.Base.Results.{ok, Result-cases}
use flux_build.Base.Text.{Text, text_eq}
use flux_build.Chart.Host.{Metadata, Chart, Host}
use flux_build.Chart.Packages.Stored.{PathLaws}
use flux_build.Chart.Reference.{
  Reference, local_ref, remote_ref, RemoteReference, validate, BuildOptions, Build,
}
use flux_build.Chart.Remote.{
  Downloader, build_version, generate_build_result, resolve, verify, download,
  download_from_repository, deliver, build,
}
use flux_build.Repository.Versions.{ChartVersion}
use flux_build.Chart.Remote.Cached.{Matches, generate_build_result-cached_iff, cached-path, begun}
use flux_build.Chart.Remote.Delivery.{IsDelivered, deliver-path, deliver-IsDelivered}

module _ {V : Type 0} (host : Host V) (set_metadata : Text → Text → Option Text) where
  module _ (remote : Downloader host.World) (content : host.World → Text → Option Text)
      (archive_of : Chart V → Text) (p : Text) (laws : PathLaws host content archive_of p) where
    -- The world once the chart was resolved, and verified if that is asked for
    unfoldable pub checked_world :
        RemoteReference → ChartVersion → BuildOptions → host.World → host.World
    checked_world r version o w =
        let w1 = (remote.get_chart_version r.name r.version w).1 in
        if o.verify then (remote.verify_chart version w1).1 else w1

    -- What a build without an error has come from
    pub record IsServed (ref : Reference) (o : BuildOptions) (w final : host.World) (b : Build)
        : Type 0 where
      pub remote_reference : RemoteReference
      pub version : ChartVersion
      pub is_remote : ref ≡ remote_ref remote_reference
      pub is_valid : validate ref ≡ ok tt
      pub found :
          (remote.get_chart_version remote_reference.name remote_reference.version w).0 ≡ ok version
      pub verified :
          o.verify ≡ true
          → (remote.verify_chart version
              (remote.get_chart_version remote_reference.name remote_reference.version w).1).0
            ≡ true
      pub name : b.name ≡ version.name
      pub patched : build_version host set_metadata version o ≡ ok b.version
      pub placed :
          ((b.path ≡ p)
            × (bytes : Text) × ((remote.download_chart version
                  (checked_world remote_reference version o w)).0
                ≡ some bytes)
            × IsDelivered host set_metadata content archive_of bytes o p b.version final)
          ⊎ ((b.path ≡ o.cached_chart)
              × (o.force ≡ false)
              × (m : Metadata) × Matches host set_metadata
                  (checked_world remote_reference version o w)
                  version
                  o
                  m)

    verify-world :
        (r : RemoteReference) (cv : ChartVersion) (o : BuildOptions) (w : host.World)
        → (verify host set_metadata remote cv o (resolve host set_metadata remote r w).1).1
          ≡ checked_world r cv o w
    unfolding verify resolve checked_world
    verify-world r cv o w = elim (Bool-cases o.verify) [
      | inl asked ↦ rw asked refl
      | inr unasked ↦ rw unasked refl
    ]

    after : RemoteReference → host.World → host.World
    after r w = (remote.get_chart_version r.name r.version w).1

    resolve-found :
        (r : RemoteReference) (w : host.World) {cv : ChartVersion}
        → (resolve host set_metadata remote r w).0 ≡ ok cv
        → (remote.get_chart_version r.name r.version w).0 ≡ ok cv
    unfolding resolve
    resolve-found r w {cv} h = elim (Result-cases (remote.get_chart_version r.name r.version w).0) [
      | inl (cv', found) ↦ ground arith
      | inr (e, missing) ↦ ground arith
    ]

    verify-good :
        (cv : ChartVersion) (o : BuildOptions) (w : host.World) {u : Unit {0}}
        → (verify host set_metadata remote cv o w).0 ≡ ok u
        → o.verify ≡ true
        → (remote.verify_chart cv w).0 ≡ true
    unfolding verify
    verify-good cv o w h asked = ground arith

    download-some :
        (cv : ChartVersion) (b : Build) (w : host.World) {res : Option Text} {b' : Build}
        → (download host set_metadata remote cv b w).0 ≡ ok (res, b')
        → (bytes : Text) × (res ≡ some bytes)
          × (b' ≡ b)
          × ((remote.download_chart cv w).0 ≡ some bytes)
    unfolding download
    download-some cv b w h = elim (Option-cases (remote.download_chart cv w).0) [
      | inl nothing ↦ ground arith
      | inr (bytes, got) ↦ (bytes, ground arith, ground arith, got)
    ]

    downloaded-parts :
        (r : RemoteReference) (o : BuildOptions) (w : host.World) {res : Option Text} {b : Build}
        → (download_from_repository host set_metadata remote r o w).0 ≡ ok (res, b)
        → (cv : ChartVersion) × (cached : Bool) × ((remote.get_chart_version r.name r.version w).0
            ≡ ok cv)
          × (o.verify ≡ true → (remote.verify_chart cv (after r w)).0 ≡ true)
          × (generate_build_result host set_metadata (checked_world r cv o w) cv o ≡ ok (b, cached))
          × (((cached ≡ true) × (res ≡ none))
              ⊎ ((bytes : Text) × (res ≡ some bytes)
                  × ((remote.download_chart cv (checked_world r cv o w)).0 ≡ some bytes)))
    unfolding download_from_repository resolve after
    downloaded-parts r o w {res} {b} h =
        let (cv, resolved, h1) = >>=-eq-ok (resolve host set_metadata remote r) _ w h in
        let w1 = (resolve host set_metadata remote r w).1 in
        let (u, verified, h2) = >>=-eq-ok (verify host set_metadata remote cv o) _ w1 h1 in
        let w2 = (verify host set_metadata remote cv o w1).1 in
        let ((b', cached), made, h3) =
          >>=-eq-ok (λ w. (generate_build_result host set_metadata w cv o, w)) _ w2 h2 in
        let found = resolve-found r w resolved in
        let good = verify-good cv o w1 verified in
        let at : w2 ≡ checked_world r cv o w = verify-world r cv o w in
        elim (Bool-cases cached) [
          | inl t ↦
              let made0 : generate_build_result host set_metadata w2 cv o ≡ ok (b, cached) =
                ground arith in
              (
                cv,
                cached,
                found,
                good,
                ap (λ x. generate_build_result host set_metadata x cv o) (sym at) ∙ made0,
                inl (t, ground arith),
              )
          | inr f ↦
              let (bytes, some_bytes, same, got) =
                download-some cv b' w2 {res = res} {b' = b} (ground arith) in
              let made' : generate_build_result host set_metadata w2 cv o ≡ ok (b, cached) =
                ground arith in
              (
                cv,
                cached,
                found,
                good,
                ap (λ x. generate_build_result host set_metadata x cv o) (sym at) ∙ made',
                inr (bytes, some_bytes, ap (λ x. (remote.download_chart cv x).0) (sym at) ∙ got),
              )
        ]

    -- A build that returns no error is for a valid remote reference; its name and version are those
    -- that the repository resolved, with the version metadata of the options; with `verify` set
    -- that version has been verified; and either its path is the one that was asked for, and there is
    -- what was then downloaded, or where it is to be packaged again the archive of a chart with the
    -- metadata of the downloaded one but for the version; or it is the cached chart, which matches, where
    -- no rebuild is forced.
    -- The calls are taken to keep `PathLaws`.
    pub build-IsServed :
        (ref : Reference) (o : BuildOptions) (w : host.World) (b : Build)
        → (build host set_metadata remote ref p o w).0 ≡ (some b, none)
        → IsServed ref o w (build host set_metadata remote ref p o w).1 b
    unfolding build
    build-IsServed (local_ref r) o w b h = cc
    build-IsServed (remote_ref r) o w b h = elim (Result-cases (validate (remote_ref r))) [
      | inr (e, invalid) ↦ ground arith
      | inl (tt, valid) ↦
          elim (Result-cases (download_from_repository host set_metadata remote r o w).0) [
            | inr (e, failed) ↦ ground arith
            | inl ((res, b'), downloaded) ↦
                let (cv, cached, found, verified, made, from) = downloaded-parts r o w downloaded in
                let w2 = checked_world r cv o w in
                let (name, patched) = begun host set_metadata w2 cv o b' cached made in
                let w' = (download_from_repository host set_metadata remote r o w).1 in
                elim from [
                  | inl (t, nothing) ↦
                      let same : b' ≡ b = ground arith in
                      let hit : generate_build_result host set_metadata w2 cv o ≡ ok (b, true) =
                        ground arith in
                      let (asked, not_forced, m, matches) =
                        (generate_build_result-cached_iff host set_metadata w2 cv o).0
                          (b, hit, cached-path host set_metadata w2 cv o b hit) in
                      record {
                        remote_reference = r;
                        version = cv;
                        is_remote = refl;
                        is_valid = ground arith;
                        found = found;
                        verified = unfold after in verified;
                        name = ground arith;
                        patched = ground arith;
                        placed =
                            inr
                              (cached-path host set_metadata w2 cv o b hit, not_forced, m, matches);
                      }
                  | inr (bytes, got, got_bytes) ↦
                      let (path, name', version') =
                        deliver-path host set_metadata bytes b' p o w' {b' = b} (ground arith) in
                      let final : (build host set_metadata remote (remote_ref r) p o w).1
                          ≡ (deliver host set_metadata (some bytes) b' p o w').1 =
                        ground arith in
                      let there =
                        deliver-IsDelivered host set_metadata content archive_of p laws bytes b' o
                          w' {b' = b} (ground arith) in
                      let there' =
                        subst
                          (λ v.
                            IsDelivered host set_metadata content archive_of bytes o p v
                              (deliver host set_metadata (some bytes) b' p o w').1)
                          (sym version') there in
                      record {
                        remote_reference = r;
                        version = cv;
                        is_remote = refl;
                        is_valid = ground arith;
                        found = found;
                        verified = unfold after in verified;
                        name = name' ∙ name;
                        patched = ground arith;
                        placed = inl (path, bytes, got_bytes, rw final there');
                      }
                ]
          ]
    ]
