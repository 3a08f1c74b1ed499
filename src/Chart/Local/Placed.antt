-- ===== src/Chart/Local/Placed.antt =====
-- internal/helm/chart/builder_local.go: what a local build that returns no error has done.
use flux_build.Base.{
  Bool, true, false, Option, none, some, ◌≡◌, ◌≢◌, refl, ◌∙◌, ◌⊎◌, inl, inr, arith, Bool-cases,
  Option-cases, ap, sym, subst, ℕ,
}
use flux_build.Base.Results.{ok, Result-cases}
use flux_build.Base.Text.{Text}
use flux_build.Chart.Host.{Metadata, Chart, Host}
use flux_build.Chart.Metadata.{load_from_archive, load_metadata, overwrite_default_values}
use flux_build.Chart.Metadata.Values.{overwrite_default_values-replaced}
use flux_build.Chart.Packages.Stored.{PathLaws, packaged-stored, copied-stored}
use flux_build.Chart.Packages.{package_to_path, path_is_dir, copy_file_to_path}
use flux_build.Chart.Reference.{
  LocalReference, Reference, local_ref, remote_ref, validate, BuildOptions, Build,
}
use flux_build.Chart.Remote.{is_cached}
use flux_build.Chart.Remote.Cached.{is_cached_iff}
use flux_build.Chart.Local.{
  DependencyBuilder, merged_values, metadata_at, local_version, begin_build,
  local_requires_packaging, prepare, package_local, with_dependencies, copy_local, build_anew,
  build_at, build,
}

module _ {V : Type 0} (host : Host V) (set_metadata : Text → Text → Option Text) where
  -- The build has the name, the version and the path that are expected.
  abbrev At : Text → Build → Build → Type 0
  At p b b' = (b'.path ≡ p) × (b'.name ≡ b.name) × (b'.version ≡ b.version)

  package_local-At :
      (c : Chart V) (b : Build) (p : Text) (w : host.World) (b' : Build)
      → (package_local host set_metadata c b p w).0 ≡ (some b', none)
      → At p b b'
  unfolding package_local
  package_local-At c b p w b' h = elim (Result-cases (package_to_path host c p w).0) [
    | inl (u, saved) ↦ (ground arith, ground arith, ground arith)
    | inr (e, failed) ↦ ground arith
  ]

  begin_build-parts :
      (w : host.World) (path : Text) (o : BuildOptions) (b : Build)
      → begin_build host set_metadata w path o ≡ ok b
      → (m : Metadata) × (load_metadata host w path ≡ ok m)
        × (host.is_valid m ≡ true)
        × (b.name ≡ m.name)
        × (local_version host set_metadata m o ≡ ok b.version)
  unfolding begin_build metadata_at
  begin_build-parts w path o b h = elim (Result-cases (load_metadata host w path)) [
    | inr (e, bad) ↦ ground arith
    | inl (m, loaded) ↦ elim (Bool-cases (host.is_valid m)) [
      | inr invalid ↦ ground arith
      | inl valid ↦ elim (Result-cases (local_version host set_metadata m o)) [
        | inr (e, refused) ↦ ground arith
        | inl (v, patched) ↦ (m, loaded, valid, ground arith, ground arith)
      ]
    ]
  ]

  renamed : Chart V → Build → Chart V
  renamed c b = record c { metadata = record c.metadata { version = b.version } }

  prepare-parts :
      (w : host.World) (r : LocalReference) (b : Build) (o : BuildOptions) (c : Chart V)
      (b' : Build)
      → prepare host set_metadata w r b o ≡ ok (c, b')
      → (b'.name ≡ b.name)
        × (b'.version ≡ b.version)
        × (loaded : Chart V) × (host.load_path w r.work_dir r.path ≡ some loaded)
        × (c.metadata ≡ record loaded.metadata { version = b.version })
  unfolding prepare renamed
  prepare-parts w r b o c b' h = elim (Result-cases (merged_values host set_metadata w r o)) [
    | inr (e, refused) ↦ ground arith
    | inl (merged, read) ↦ elim (Option-cases (host.load_path w r.work_dir r.path)) [
      | inl not_loaded ↦ ground arith
      | inr (loaded, got) ↦
          elim (Result-cases (overwrite_default_values host (renamed loaded b) merged)) [
            | inr (e, refused) ↦ ground arith
            | inl (written, done) ↦ elim (Option-cases written) [
              | inl same ↦
                  let is : c ≡ renamed loaded b = ground arith in
                  (ground arith, ground arith, loaded, got, ap (λ x. x.metadata) is)
              | inr (c', changed) ↦
                  let is : c ≡ c' = ground arith in
                  let kept : c'.metadata ≡ (renamed loaded b).metadata =
                    (overwrite_default_values-replaced host (renamed loaded b) merged {c' = c'}
                      (ground arith)).8 in
                  (ground arith, ground arith, loaded, got, ap (λ x. x.metadata) is ∙ kept)
            ]
          ]
    ]
  ]

  with_dependencies-At :
      (dm : Option (DependencyBuilder V host.World)) (ref : Reference) (is_dir : Bool) (c : Chart V)
      (b : Build) (p : Text) (w : host.World) (b' : Build)
      → (with_dependencies host set_metadata dm ref is_dir c b p w).0 ≡ (some b', none)
      → At p b b'
  unfolding with_dependencies
  with_dependencies-At dm ref false c b p w b' h = package_local-At c b p w b' h
  with_dependencies-At dm ref true c b p w b' h = elim (Option-cases dm) [
    | inl no_manager ↦ ground arith
    | inr (resolve, manager) ↦ elim (Result-cases (resolve ref c w).0.0) [
      | inr (e, failed) ↦ ground arith
      | inl (n, resolved) ↦
          package_local-At (resolve ref c w).0.1 (record b { resolved_dependencies = n }) p
            (resolve ref c w).1 b' (ground arith)
    ]
  ]

  module _ (dm : Option (DependencyBuilder V host.World)) where
    build_anew-At :
        (r : LocalReference) (path : Text) (b : Build) (p : Text) (o : BuildOptions)
        (w : host.World) (b' : Build)
        → (build_anew host set_metadata dm r path b p o w).0 ≡ (some b', none)
        → At p b b'
    unfolding build_anew local_requires_packaging copy_local with_dependencies
    build_anew-At r path b p o w b' h =
        elim (Bool-cases (local_requires_packaging host set_metadata w path o)) [
          | inr literal ↦ elim (Result-cases (copy_file_to_path host path p w).0) [
            | inl (u, copied) ↦ (ground arith, ground arith, ground arith)
            | inr (e, failed) ↦ ground arith
          ]
          | inl again ↦ elim (Result-cases (prepare host set_metadata w r b o)) [
            | inr (e, refused) ↦ ground arith
            | inl ((c, b1), prepared) ↦
                let (name, version, prepared_from, got, same) =
                  prepare-parts w r b o c b1 prepared in
                let (path_at, name', version') =
                  with_dependencies-At dm (local_ref r) (path_is_dir host w path) c b1 p w b'
                    (ground arith) in
                (path_at, name' ∙ name, version' ∙ version)
          ]
        ]

    module _ (content : host.World → Text → Option Text) (archive_of : Chart V → Text) where
      -- What is at the path of a local build: for a file without version metadata and values files what
      -- was at the chart's path; otherwise the archive of a chart that has the metadata of the loaded one
      -- but for the version, for a directory with what the dependency manager has made of it.
      pub data IsStored (r : LocalReference) (path : Text) (o : BuildOptions) (w final : host.World)
          (p version : Text) : Type 0 where
        copied :
            local_requires_packaging host set_metadata w path o ≡ false
            → content final p ≡ content w path
            → IsStored r path o w final p version
        packaged_file :
            (loaded c : Chart V)
            → local_requires_packaging host set_metadata w path o ≡ true
            → path_is_dir host w path ≡ false
            → host.load_path w r.work_dir r.path ≡ some loaded
            → c.metadata ≡ record loaded.metadata { version = version }
            → content final p ≡ some (archive_of c)
            → IsStored r path o w final p version
        packaged_directory :
            (loaded c c' : Chart V) (n : ℕ) (resolve : DependencyBuilder V host.World)
            → path_is_dir host w path ≡ true
            → host.load_path w r.work_dir r.path ≡ some loaded
            → c.metadata ≡ record loaded.metadata { version = version }
            → dm ≡ some resolve
            → (resolve (local_ref r) c w).0 ≡ (ok n, c')
            → content final p ≡ some (archive_of c')
            → IsStored r path o w final p version

      module _ (p : Text) (laws : PathLaws host content archive_of p) where
        package_local-stored :
            (c : Chart V) (b : Build) (w : host.World) (b' : Build)
            → (package_local host set_metadata c b p w).0 ≡ (some b', none)
            → content (package_local host set_metadata c b p w).1 p ≡ some (archive_of c)
        unfolding package_local
        package_local-stored c b w b' h = elim (Result-cases (package_to_path host c p w).0) [
          | inl (u, saved) ↦ packaged-stored host content archive_of p laws c w saved
          | inr (e, failed) ↦ absurd (ground arith)
        ]

        with_dependencies-IsStored :
            (r : LocalReference) (path : Text) (o : BuildOptions) (is_dir : Bool)
            (loaded c : Chart V) (b : Build) (version : Text) (w : host.World) (b' : Build)
            → local_requires_packaging host set_metadata w path o ≡ true
            → path_is_dir host w path ≡ is_dir
            → host.load_path w r.work_dir r.path ≡ some loaded
            → c.metadata ≡ record loaded.metadata { version = version }
            → (with_dependencies host set_metadata dm (local_ref r) is_dir c b p w).0
              ≡ (some b', none)
            → IsStored r path o w
                (with_dependencies host set_metadata dm (local_ref r) is_dir c b p w).1
                p
                version
        unfolding with_dependencies
        with_dependencies-IsStored r path o false loaded c b version w b' again not_dir got same h =
            IsStored.packaged_file loaded c again not_dir got same (package_local-stored c b w b' h)
        with_dependencies-IsStored r path o true loaded c b version w b' again is_dir got same h =
            elim (Option-cases dm) [
              | inl no_manager ↦ absurd (ground arith)
              | inr (resolve, manager) ↦
                  let answer = resolve (local_ref r) c w in
                  elim (Result-cases answer.0.0) [
                    | inr (e, failed) ↦ absurd (ground arith)
                    | inl (n, resolved) ↦
                        let b1 = record b { resolved_dependencies = n } in
                        let there = package_local-stored answer.0.1 b1 answer.1 b' (ground arith) in
                        let final : (with_dependencies host set_metadata dm (local_ref r) true c b p
                              w).1
                            ≡ (package_local host set_metadata answer.0.1 b1 p answer.1).1 =
                          ground arith in
                        IsStored.packaged_directory loaded c answer.0.1 n resolve is_dir got same
                          manager (ap (λ x. (x, answer.0.1)) resolved)
                          (ap (λ x. content x p) final ∙ there)
                  ]
            ]

        build_anew-IsStored :
            (r : LocalReference) (path : Text) (b : Build) (o : BuildOptions) (w : host.World)
            (b' : Build)
            → path ≢ p
            → (build_anew host set_metadata dm r path b p o w).0 ≡ (some b', none)
            → IsStored r path o w (build_anew host set_metadata dm r path b p o w).1 p b.version
        unfolding build_anew copy_local
        build_anew-IsStored r path b o w b' apart h =
            elim (Bool-cases (local_requires_packaging host set_metadata w path o)) [
              | inr literal ↦ elim (Result-cases (copy_file_to_path host path p w).0) [
                | inl (u, done) ↦
                    let final : (build_anew host set_metadata dm r path b p o w).1
                        ≡ (copy_file_to_path host path p w).1 =
                      ground arith in
                    IsStored.copied literal (
                      ap (λ x. content x p) final
                      ∙ copied-stored host content archive_of p laws path w apart done)
                | inr (e, failed) ↦ absurd (ground arith)
              ]
              | inl again ↦ elim (Result-cases (prepare host set_metadata w r b o)) [
                | inr (e, refused) ↦ absurd (ground arith)
                | inl ((c, b1), prepared) ↦
                    let (name, version, loaded, got, same) = prepare-parts w r b o c b1 prepared in
                    let is_dir = path_is_dir host w path in
                    let there =
                      with_dependencies-IsStored r path o is_dir loaded c b1 b.version w b' again
                        refl got same (ground arith) in
                    let final : (build_anew host set_metadata dm r path b p o w).1
                        ≡ (with_dependencies host set_metadata dm (local_ref r) is_dir c b1 p w).1 =
                      ground arith in
                    subst (λ x. IsStored r path o w x p b.version) (sym final) there
              ]
            ]

        -- What a build without an error has come from
        pub record IsPlaced (ref : Reference) (o : BuildOptions) (w final : host.World) (b : Build)
            : Type 0 where
          pub local_reference : LocalReference
          pub chart_path : Text
          pub metadata : Metadata
          pub is_local : ref ≡ local_ref local_reference
          pub is_valid : validate ref ≡ ok tt
          pub is_joined :
              host.secure_join w local_reference.work_dir local_reference.path ≡ some chart_path
          pub loaded : load_metadata host w chart_path ≡ ok metadata
          pub metadata_is_valid : host.is_valid metadata ≡ true
          pub name : b.name ≡ metadata.name
          pub version : local_version host set_metadata metadata o ≡ ok b.version
          pub placed :
              ((b.path ≡ p) × IsStored local_reference chart_path o w final p b.version)
              ⊎ ((b.path ≡ o.cached_chart)
                  × (o.force ≡ false)
                  × (cached : Metadata) × (load_from_archive host w o.cached_chart ≡ ok cached)
                  × (host.is_valid cached ≡ true)
                  × (cached.name ≡ b.name)
                  × (cached.version ≡ b.version))

        -- A build that returns no error is for a valid local reference, whose path was joined securely
        -- to the working directory; its name and version are those of the metadata found there, which
        -- are valid, with the version metadata of the options; and either its path is the one that was
        -- asked for, and there is a copy of the chart, or, for a
        -- directory, with version metadata or with values files, the archive of a chart with the
        -- metadata that was loaded but for the version, for a directory as the dependency manager
        -- returned it; or it is the cached chart, which has valid metadata with the name and the
        -- version of the build, where no rebuild is forced.
        -- The chart's own path is taken to be another one, and the calls to keep `PathLaws`.
        pub build-IsPlaced :
            (ref : Reference) (o : BuildOptions) (w : host.World) (b : Build)
            → ((r : LocalReference)
                → ref ≡ local_ref r
                → host.secure_join w r.work_dir r.path ≢ some p)
            → (build host set_metadata dm ref p o w).0 ≡ (some b, none)
            → IsPlaced ref o w (build host set_metadata dm ref p o w).1 b
        unfolding build build_at
        build-IsPlaced (remote_ref r) o w b apart h = cc
        build-IsPlaced (local_ref r) o w b apart h = elim (Result-cases (validate (local_ref r))) [
          | inr (e, invalid) ↦ absurd (ground arith)
          | inl (tt, valid) ↦ elim (Option-cases (host.secure_join w r.work_dir r.path)) [
            | inl outside ↦ absurd (ground arith)
            | inr (path, joined) ↦ elim (Result-cases (begin_build host set_metadata w path o)) [
              | inr (e, bad) ↦ absurd (ground arith)
              | inl (b0, begun) ↦
                  let (m, loaded, good, name, version) = begin_build-parts w path o b0 begun in
                  let at : (build host set_metadata dm (local_ref r) p o w).0
                      ≡ (build_at host set_metadata dm r path p o w).0 =
                    ground arith in
                  elim (Bool-cases (is_cached host set_metadata w b0 o)) [
                    | inl cached ↦
                        let (asked, not_forced, m', got, valid', name', version') =
                          (is_cached_iff host set_metadata w b0 o).0 cached in
                        record {
                          local_reference = r;
                          chart_path = path;
                          metadata = m;
                          is_local = refl;
                          is_valid = valid;
                          is_joined = joined;
                          loaded = loaded;
                          metadata_is_valid = good;
                          name = ground arith;
                          version = ground arith;
                          placed = inr (
                            ground arith,
                            not_forced,
                            m',
                            got,
                            valid',
                            ground arith,
                            ground arith,
                          );
                        }
                    | inr not_cached ↦
                        let (at, name', version') =
                          build_anew-At r path b0 p o w b (ground arith) in
                        let other : path ≢ p = λ same. apart r refl (joined ∙ ap some same) in
                        let there = build_anew-IsStored r path b0 o w b other (ground arith) in
                        let final : (build host set_metadata dm (local_ref r) p o w).1
                            ≡ (build_anew host set_metadata dm r path b0 p o w).1 =
                          ground arith in
                        let there' =
                          subst
                            (λ v.
                              IsStored r path o w
                                (build_anew host set_metadata dm r path b0 p o w).1 p v)
                            (sym version') there in
                        record {
                          local_reference = r;
                          chart_path = path;
                          metadata = m;
                          is_local = refl;
                          is_valid = valid;
                          is_joined = joined;
                          loaded = loaded;
                          metadata_is_valid = good;
                          name = name' ∙ name;
                          version = ground arith;
                          placed = inl (
                            at,
                            subst (λ x. IsStored r path o w x p b.version) (sym final) there',
                          );
                        }
                  ]
            ]
          ]
        ]
