-- ===== src/Build/Kustomize/Made.antt =====
-- internal/build/kustomize.go, `Kustomize`: what it leaves behind.
use flux_build.Base.{
  Bool, true, false, none, some, ◌||◌, ◌≡◌, ◌≢◌, inl, inr, arith, Bool-cases, Option-cases, ◌==◌,
}
use flux_build.Base.Paths.{join_path}
use flux_build.Base.Results.{err, Result-cases}
use flux_build.Base.Text.{Text, codes, text_eq, text_iff}
use flux_build.Build.Kustomize.{
  cannot_stat, default_name, KustomizeHost, attempt, detect_resources, found_resources, encoded,
  create_kustomization, run_kustomizer, with_kustomization, build_other, kustomize,
}

module _ (host : KustomizeHost) where
  -- What the calls promise for the paths that something is at: writing a file changes that at its path
  -- only, kustomize changes it nowhere, and a file that is removed is gone, as removing a file that was just
  -- written works, and no other.
  pub record IsOrderly : Type 0 where
    pub write-other :
        (file content path : Text) (w : host.World)
        → path ≢ file
        → host.stat (host.write_file file content w).1 path ≡ host.stat w path
    pub run-same :
        (dir path : Text) (w : host.World) → host.stat (host.run dir w).1 path ≡ host.stat w path
    pub remove-gone : (file : Text) (w : host.World) → host.stat (host.remove file w) file ≡ none
    pub remove-other :
        (file path : Text) (w : host.World)
        → path ≢ file
        → host.stat (host.remove file w) path ≡ host.stat w path

  module _ (orderly : IsOrderly) where
    create-other :
        (dir path : Text) (single_file : Bool) (w : host.World)
        → path ≢ join_path dir default_name
        → host.stat (create_kustomization host dir single_file w).1 path ≡ host.stat w path
    unfolding create_kustomization found_resources encoded attempt
    create-other dir path single_file w other =
        elim (Result-cases (detect_resources host.parses single_file (host.entries w dir))) [
          | inr (e, failed) ↦ ground arith
          | inl (paths, found) ↦ elim (Option-cases (host.marshal paths)) [
            | inl bad ↦ ground arith
            | inr (content, is) ↦
                let same = orderly.write-other (join_path dir default_name) content path w other in
                ground (arith, same)
          ]
        ]

    made-other :
        (dir path : Text) (w : host.World)
        → path ≢ join_path dir default_name
        → host.stat (with_kustomization host (join_path dir default_name) dir false w).1 path
          ≡ host.stat w path
    unfolding with_kustomization run_kustomizer
    made-other dir path w other =
        let made = create_kustomization host dir false w in
        let before = create-other dir path false w other in
        elim (Result-cases made.0) [
          | inr (e, failed) ↦
              let gone = orderly.remove-other (join_path dir default_name) path made.1 other in
              ground (arith, gone, before)
          | inl (u, went) ↦
              let after = (host.run dir made.1).1 in
              let gone = orderly.remove-other (join_path dir default_name) path after other in
              let ran = orderly.run-same dir path made.1 in ground (arith, gone, ran, before)
        ]

    made-gone :
        (dir : Text) (w : host.World)
        → host.stat
            (with_kustomization host (join_path dir default_name) dir false w).1
            (join_path dir default_name)
          ≡ none
    unfolding with_kustomization
    made-gone dir w = orderly.remove-gone (join_path dir default_name) _

    pub kustomize-tidy :
        (dir path : Text) (w : host.World)
        → host.stat w dir ≡ some true
        → (dir == codes "/dev/stdin" || dir == codes "-") ≡ false
        → host.stat (kustomize host dir w).1 path ≡ host.stat w path
    unfolding kustomize build_other run_kustomizer
    kustomize-tidy dir path w is_dir named =
        elim (Option-cases (host.stat w (join_path dir default_name))) [
          | inr (there, has) ↦ let ran = orderly.run-same dir path w in ground (arith, ran)
          | inl lacks ↦ elim (Bool-cases (path == join_path dir default_name)) [
            | inl t ↦
                let e : path ≡ join_path dir default_name = (text_iff _ _).0 t in
                let gone = made-gone dir w in rw e (ground (arith, gone))
            | inr f ↦
                let other : path ≢ join_path dir default_name =
                  λ e. ground (arith, (text_iff path (join_path dir default_name)).1 e) in
                let same = made-other dir path w other in ground (arith, same)
          ]
        ]

  -- The path `-` is not read from the standard input, unless there is a file or a directory with that
  -- name: Kustomize fails and does nothing.
  kustomize-dash :
      (w : host.World)
      → host.stat w (join_path (codes "-") default_name) ≡ none
      → host.stat w (codes "-") ≡ none
      → kustomize host (codes "-") w ≡ (err cannot_stat, w)
  unfolding kustomize build_other
  kustomize-dash w lacks absent = ground arith
