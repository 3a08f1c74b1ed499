-- ===== src/Build/Kustomize/Detected.antt =====
-- internal/build/kustomize.go, `detectResources`: what becomes a resource of the kustomization.
use flux_build.Base.{
  Bool, true, false, Option, none, some, List, [], ◌∷◌, ◌++◌, ◌≡◌, ◌⊎◌, inl, inr, arith, Bool-cases,
  Memᴰ-nil, Memᴰ-cases,
}
use flux_build.Base.Results.{ok, Result-cases}
use flux_build.Base.Text.{Text}
use flux_build.Build.Kustomize.{
  Entries, done, file_entry, dir_entry, broken_entry, has_kustomization, under, detect_file, detect,
}
use mathlib.Core.List.{Memᴰ}
use mathlib.Core.List.Memᴰ

-- A path is a resource: a file that holds resources, or a directory with a kustomization of its own;
-- nothing below such a directory is one.
pub data IsResource (parses : Text → Bool) : Text → Entries → Text → Type 0 where
  this_file :
      {prefix name content path : Text} {exists : Bool} {rest : Entries}
      → parses content ≡ true
      → path ≡ under prefix name
      → IsResource parses prefix (file_entry name exists (some content) rest) path
  this_dir :
      {prefix name path : Text} {below rest : Entries}
      → has_kustomization below ≡ true
      → path ≡ under prefix name
      → IsResource parses prefix (dir_entry name below rest) path
  inside :
      {prefix name path : Text} {below rest : Entries}
      → has_kustomization below ≡ false
      → IsResource parses (under prefix name) below path
      → IsResource parses prefix (dir_entry name below rest) path
  after_file :
      {prefix name path : Text} {exists : Bool} {content : Option Text} {rest : Entries}
      → IsResource parses prefix rest path
      → IsResource parses prefix (file_entry name exists content rest) path
  after_dir :
      {prefix name path : Text} {below rest : Entries}
      → IsResource parses prefix rest path
      → IsResource parses prefix (dir_entry name below rest) path

module _ (parses : Text → Bool) (single_file : Bool) where
  Memᴰ-last : {x y : Text} (xs : List Text) → Memᴰ x (xs ++ (y ∷ [])) → Memᴰ x xs ⊎ (x ≡ y)
  Memᴰ-last xs m = elim (Memᴰ.append_cases xs m) [
    | inl before ↦ inl before
    | inr last ↦ elim (Memᴰ-cases last) [ inl e ↦ inr e | inr more ↦ absurd (Memᴰ-nil more) ]
  ]

  detect_file-found :
      (name prefix path : Text) (exists : Bool) (content : Option Text) (rest : Entries)
      (paths found : List Text)
      → detect_file parses single_file (under prefix name) content paths ≡ ok found
      → Memᴰ path found
      → Memᴰ path paths ⊎ IsResource parses prefix (file_entry name exists content rest) path
  unfolding detect_file
  detect_file-found name prefix path exists none rest paths found h m = absurd (ground arith)
  detect_file-found name prefix path exists (some content) rest paths found h m =
      elim (Bool-cases (parses content)) [
        | inl good ↦
            let e : found ≡ paths ++ (under prefix name ∷ []) = ground arith in
            elim (Memᴰ-last paths (rw e at m)) [
              | inl before ↦ inl before
              | inr same ↦ inr (IsResource.this_file good same)
            ]
        | inr bad ↦ elim (Bool-cases single_file) [
          | inl single ↦ absurd (ground arith)
          | inr many ↦ let e : found ≡ paths = ground arith in inl (rw e at m)
        ]
      ]

  -- What is found was there, or is a resource.
  pub detect-found :
      (prefix path : Text) (entries : Entries) (paths found : List Text)
      → detect parses single_file prefix entries paths ≡ ok found
      → Memᴰ path found
      → Memᴰ path paths ⊎ IsResource parses prefix entries path
  unfolding detect
  detect-found prefix path done paths found h m =
      let e : found ≡ paths = ground arith in inl (rw e at m)
  detect-found prefix path (file_entry name exists content rest) paths found h m =
      elim (Result-cases (detect_file parses single_file (under prefix name) content paths)) [
        | inr (e, failed) ↦ absurd (ground arith)
        | inl (so_far, went) ↦ elim (detect-found prefix path rest so_far found (ground arith) m) [
          | inl before ↦
              detect_file-found name prefix path exists content rest paths so_far went before
          | inr later ↦ inr (IsResource.after_file later)
        ]
      ]
  detect-found prefix path (dir_entry name below rest) paths found h m =
      elim (Bool-cases (has_kustomization below)) [
        | inl has ↦
            elim (detect-found prefix path rest (paths ++ (under prefix name ∷ [])) found
              (ground arith) m) [
                | inl before ↦ elim (Memᴰ-last paths before) [
                  | inl older ↦ inl older
                  | inr same ↦ inr (IsResource.this_dir has same)
                ]
                | inr later ↦ inr (IsResource.after_dir later)
              ]
        | inr lacks ↦
            elim (Result-cases (detect parses single_file (under prefix name) below paths)) [
              | inr (e, failed) ↦ absurd (ground arith)
              | inl (so_far, went) ↦
                  elim (detect-found prefix path rest so_far found (ground arith) m) [
                    | inr later ↦ inr (IsResource.after_dir later)
                    | inl before ↦
                        elim (detect-found (under prefix name) path below paths so_far went
                          before) [
                            | inl older ↦ inl older
                            | inr deeper ↦ inr (IsResource.inside lacks deeper)
                          ]
                  ]
            ]
      ]
  detect-found prefix path (broken_entry name exists rest) paths found h m = absurd (ground arith)

  detect_file-stays :
      (at path : Text) (content : Option Text) (paths found : List Text)
      → detect_file parses single_file at content paths ≡ ok found
      → Memᴰ path paths
      → Memᴰ path found
  unfolding detect_file
  detect_file-stays at path none paths found h m = absurd (ground arith)
  detect_file-stays at path (some content) paths found h m = elim (Bool-cases (parses content)) [
    | inl good ↦
        let e : found ≡ paths ++ (at ∷ []) = ground arith in rw e (Memᴰ.append_left (at ∷ []) m)
    | inr bad ↦ elim (Bool-cases single_file) [
      | inl single ↦ absurd (ground arith)
      | inr many ↦ let e : found ≡ paths = ground arith in rw e m
    ]
  ]

  pub detect-stays :
      (prefix path : Text) (entries : Entries) (paths found : List Text)
      → detect parses single_file prefix entries paths ≡ ok found
      → Memᴰ path paths
      → Memᴰ path found
  unfolding detect
  detect-stays prefix path done paths found h m = let e : found ≡ paths = ground arith in rw e m
  detect-stays prefix path (file_entry name exists content rest) paths found h m =
      elim (Result-cases (detect_file parses single_file (under prefix name) content paths)) [
        | inr (e, failed) ↦ absurd (ground arith)
        | inl (so_far, went) ↦
            detect-stays prefix path rest so_far found (ground arith)
              (detect_file-stays (under prefix name) path content paths so_far went m)
      ]
  detect-stays prefix path (dir_entry name below rest) paths found h m =
      elim (Bool-cases (has_kustomization below)) [
        | inl has ↦
            detect-stays prefix path rest (paths ++ (under prefix name ∷ [])) found (ground arith)
              (Memᴰ.append_left _ m)
        | inr lacks ↦
            elim (Result-cases (detect parses single_file (under prefix name) below paths)) [
              | inr (e, failed) ↦ absurd (ground arith)
              | inl (so_far, went) ↦
                  detect-stays prefix path rest so_far found (ground arith)
                    (detect-stays (under prefix name) path below paths so_far went m)
            ]
      ]
  detect-stays prefix path (broken_entry name exists rest) paths found h m = absurd (ground arith)
