-- ===== src/Tests/Kustomized.antt =====
-- A directory built with kustomize.
use flux_build.Base.{
  Option, Bool, true, false, none, some, List, [], ◌∷◌, ◌==◌, nat_eq, ◌||◌, ◌≡◌, ◌↔◌, refl, arith,
  beq_refl, if◌then◌else◌,
}
use flux_build.Base.Results.{ok}
use flux_build.Base.Text.{Text, codes, text_eq, text_iff}
use flux_build.Build.Kustomize.{
  Entries, done, file_entry, dir_entry, KustomizeHost, detect_resources, kustomize,
}
use flux_build.Build.Kustomize.Detected.{IsResource}
use flux_build.Build.Kustomize.Exact.{detect_resources_iff}
use flux_build.Build.Kustomize.Made.{IsOrderly, kustomize-tidy}
use mathlib.Core.List.{Memᴰ}

abbrev entries : Entries
entries = dir_entry (codes "base") (file_entry (codes "Kustomization") true none done) (
    file_entry (codes "notes") true (some (codes "?"))
      (file_entry (codes "app") true (some (codes "kind")) done))

abbrev parses : Text → Bool
parses content = content == codes "kind"

abbrev found : List Text
found = codes "base" ∷ codes "app" ∷ []

detected : detect_resources parses false entries ≡ ok found
unfolding detect_resources
detected = refl

detect_resources_iff_example : Memᴰ (codes "app") found ↔ IsResource parses [] entries (codes "app")
detect_resources_iff_example =
    detect_resources_iff parses false entries found (codes "app") detected

-- The world is what is at each path.
abbrev host : KustomizeHost
host = record {
  World = Text → Option Bool;
  ResMap = Bool;
  stat = λ w path. w path;
  entries = λ w path. entries;
  parses = parses;
  marshal = λ paths. some (codes "list");
  mkdir_temp = λ w. (none, w);
  open_new = λ path w. (true, w);
  copy_stdin = λ path w. (true, w);
  abs = λ w path. some path;
  make_symlink = λ target path w. (true, w);
  write_file = λ file content w. (true, λ path. if path == file then some false else w path);
  remove = λ file w path. if path == file then none else w path;
  remove_all = λ path w. w;
  run = λ path w. (some true, w);
}

abbrev directory : Text → Option Bool
directory path = if path == codes "d" then some true else none

plain : ((codes "d" == codes "/dev/stdin") || (codes "d" == codes "-")) ≡ false
unfolding text_eq
plain = refl

is_directory : host.stat directory (codes "d") ≡ some true
unfolding text_eq
is_directory = refl

host-IsOrderly : IsOrderly host
host-IsOrderly = record {
  write-other = λ file content path w other.
      let differ : (path == file) ≡ false = ground (arith, text_iff path file) in rw differ refl;
  run-same = λ dir path w. refl;
  remove-gone = λ file w. rw (beq_refl file) refl;
  remove-other = λ file path w other.
      let differ : (path == file) ≡ false = ground (arith, text_iff path file) in rw differ refl;
}

kustomize-tidy_example :
    host.stat (kustomize host (codes "d") directory).1 (codes "d/kustomization.yaml")
    ≡ host.stat directory (codes "d/kustomization.yaml")
kustomize-tidy_example =
    kustomize-tidy host host-IsOrderly (codes "d") (codes "d/kustomization.yaml") directory
      is_directory plain
