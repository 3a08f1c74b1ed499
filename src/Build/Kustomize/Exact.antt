-- ===== src/Build/Kustomize/Exact.antt =====
-- internal/build/kustomize.go, `detectResources`: everything that is to be a resource is found.
use flux_build.Base.{
  Bool, some, List, [], ◌∷◌, ◌++◌, ◌≡◌, ◌↔◌, inl, inr, arith, Bool-cases, Memᴰ-nil,
}
use flux_build.Base.Results.{ok, Result-cases}
use flux_build.Base.Text.{Text}
use flux_build.Build.Kustomize.{
  Entries, done, file_entry, dir_entry, broken_entry, has_kustomization, under, detect_file, detect,
  detect_resources,
}
use flux_build.Build.Kustomize.Detected.{IsResource, detect-found, detect-stays}
use mathlib.Core.List.{Memᴰ}
use mathlib.Core.List.Memᴰ

module _ (parses : Text → Bool) (single_file : Bool) where
  last-Memᴰ : {x y : Text} (xs : List Text) → x ≡ y → Memᴰ x (xs ++ (y ∷ []))
  last-Memᴰ xs e = Memᴰ.append_right xs (Memᴰ.head e)

  detect-finds :
      (prefix path : Text) (entries : Entries) (paths found : List Text)
      → detect parses single_file prefix entries paths ≡ ok found
      → IsResource parses prefix entries path
      → Memᴰ path found
  unfolding detect detect_file
  detect-finds prefix path done paths found h is = elim is [ ]
  detect-finds prefix path (broken_entry name exists rest) paths found h is = elim is [ ]
  detect-finds prefix path (file_entry name exists (some content) rest) paths found h
        (IsResource.this_file good same) =
      let went : detect_file parses single_file (under prefix name) (some content) paths
          ≡ ok (paths ++ (under prefix name ∷ [])) =
        ground arith in
      detect-stays parses single_file prefix path rest (paths ++ (under prefix name ∷ [])) found
        (ground arith) (last-Memᴰ paths same)
  detect-finds prefix path (file_entry name exists content rest) paths found h
        (IsResource.after_file later) =
      elim (Result-cases (detect_file parses single_file (under prefix name) content paths)) [
        | inr (e, failed) ↦ absurd (ground arith)
        | inl (so_far, went) ↦ detect-finds prefix path rest so_far found (ground arith) later
      ]
  detect-finds prefix path (dir_entry name below rest) paths found h
        (IsResource.this_dir has same) =
      detect-stays parses single_file prefix path rest (paths ++ (under prefix name ∷ [])) found
        (ground arith) (last-Memᴰ paths same)
  detect-finds prefix path (dir_entry name below rest) paths found h
        (IsResource.inside lacks deeper) =
      elim (Result-cases (detect parses single_file (under prefix name) below paths)) [
        | inr (e, failed) ↦ absurd (ground arith)
        | inl (so_far, went) ↦
            detect-stays parses single_file prefix path rest so_far found (ground arith)
              (detect-finds (under prefix name) path below paths so_far went deeper)
      ]
  detect-finds prefix path (dir_entry name below rest) paths found h (IsResource.after_dir later) =
      elim (Bool-cases (has_kustomization below)) [
        | inl has ↦
            detect-finds prefix path rest (paths ++ (under prefix name ∷ [])) found (ground arith)
              later
        | inr lacks ↦
            elim (Result-cases (detect parses single_file (under prefix name) below paths)) [
              | inr (e, failed) ↦ absurd (ground arith)
              | inl (so_far, went) ↦ detect-finds prefix path rest so_far found (ground arith) later
            ]
      ]

  -- Where no error occurs, the resources of a kustomization that is made are the files that hold
  -- resources and the directories with a kustomization of their own, but for what is below those.
  pub detect_resources_iff :
      (entries : Entries) (found : List Text) (path : Text)
      → detect_resources parses single_file entries ≡ ok found
      → Memᴰ path found ↔ IsResource parses [] entries path
  unfolding detect_resources
  detect_resources_iff entries found path h = (
    λ m. elim (detect-found parses single_file [] path entries [] found h m) [
      | inl none ↦ absurd (Memᴰ-nil none)
      | inr is ↦ is
    ],
    detect-finds [] path entries [] found h,
  )
