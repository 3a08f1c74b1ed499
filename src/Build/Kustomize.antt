-- ===== src/Build/Kustomize.antt =====
-- internal/build/kustomize.go: a path built with kustomize, with a kustomization file made where there is
-- none.
pub mod Detected
pub mod Exact
pub mod Made
use flux_build.Base.{
  Bool, true, false, not, ◌&&◌, ◌||◌, Option, none, some, List, [], ◌∷◌, ◌++◌, any, ◌==◌,
  if◌then◌else◌,
}
use flux_build.Base.Exec.{Exec, ◌>>=◌}
use flux_build.Base.Paths.{base, join_path}
use flux_build.Base.Results.{Result, ok, err}
use flux_build.Base.Text.{Text, codes, text_eq, is_empty}

pub data KustomizeError : Type 0 where
  cannot_stat no_temp_dir no_stdin_file cannot_copy_stdin no_abs_path cannot_link : KustomizeError
  walk_failed cannot_read bad_resource : Text → KustomizeError
  cannot_encode cannot_write run_failed : KustomizeError

-- What `Walk` finds in a directory, in its order: what is no directory, with what is read of it; directories;
-- and what `Walk` has an error for, which has no information or is a directory that cannot be listed. The
-- Boolean is whether something is there when links are followed, as `Exists` does.
pub data Entries : Type 0 where
  done : Entries
  file_entry : Text → Bool → Option Text → Entries → Entries
  dir_entry : Text → Entries → Entries → Entries
  broken_entry : Text → Bool → Entries → Entries

abbrev pub default_name : Text
default_name = codes "kustomization.yaml"

-- `konfig.RecognizedKustomizationFileNames`
abbrev recognized_names : List Text
recognized_names = default_name ∷ codes "kustomization.yml" ∷ codes "Kustomization" ∷ []

unfoldable pub is_recognized : Text → Bool
unfolding text_eq
is_recognized name = any (λ other. name == other) recognized_names

-- Whether a directory has one of kustomize's files
unfoldable pub has_kustomization : Entries → Bool
unfolding is_recognized
has_kustomization done = false
has_kustomization (file_entry name exists content rest) =
    (is_recognized name && exists) || has_kustomization rest
has_kustomization (dir_entry name below rest) = is_recognized name || has_kustomization rest
has_kustomization (broken_entry name exists rest) =
    (is_recognized name && exists) || has_kustomization rest

-- The path relative to the base
unfoldable pub under : Text → Text → Text
under prefix name = if is_empty prefix then name else prefix ++ (b'/' ∷ name)

module _ (parses : Text → Bool) (single_file : Bool) where
  -- The walk's function on a file; `parses` is whether `SliceFromBytes` has no error.
  unfoldable pub detect_file : Text → Option Text → List Text → Result KustomizeError (List Text)
  detect_file path none paths = err (cannot_read path)
  detect_file path (some content) paths =
      if parses content
      then ok (paths ++ (path ∷ []))
      else if single_file
      then err (bad_resource path)
      else ok paths

  -- `detectResources`, below a directory
  unfoldable pub detect : Text → Entries → List Text → Result KustomizeError (List Text)
  unfolding detect_file has_kustomization under
  detect prefix done paths = ok paths
  detect prefix (file_entry name exists content rest) paths =
      elim (detect_file (under prefix name) content paths) [
        | err e ↦ err e
        | ok paths' ↦ detect prefix rest paths'
      ]
  detect prefix (dir_entry name below rest) paths =
      let listed = detect prefix rest (paths ++ (under prefix name ∷ [])) in
      if has_kustomization below then listed else elim (detect (under prefix name) below paths) [
        | err e ↦ err e
        | ok paths' ↦ detect prefix rest paths'
      ]
  detect prefix (broken_entry name exists rest) paths = err (walk_failed (under prefix name))

  unfoldable pub detect_resources : Entries → Result KustomizeError (List Text)
  unfolding detect
  detect_resources entries = detect [] entries []

-- The operating system, YAML and kustomize; `stat` says whether it is a directory.
pub record KustomizeHost : Type 1 where
  pub World : Type 0
  pub ResMap : Type 0
  pub stat : World → Text → Option Bool
  pub entries : World → Text → Entries
  pub parses : Text → Bool
  pub marshal : List Text → Option Text
  pub mkdir_temp : World → Option Text × World
  pub open_new : Text → World → Bool × World
  pub copy_stdin : Text → World → Bool × World
  pub abs : World → Text → Option Text
  pub make_symlink : Text → Text → World → Bool × World
  pub write_file : Text → Text → World → Bool × World
  pub remove : Text → World → World
  pub remove_all : Text → World → World
  pub run : Text → World → Option ResMap × World

module _ (host : KustomizeHost) where
  abbrev pub Task : Type 0 → Type 0
  Task A = Exec host.World KustomizeError A

  -- A call that says whether it worked
  unfoldable pub attempt : (host.World → Bool × host.World) → KustomizeError → Task (Unit {0})
  attempt f e w = let (good, w') = f w in (if good then ok tt else err e, w')

  unfoldable pub new_temp_dir : Task Text
  new_temp_dir w =
      let (dir, w') = host.mkdir_temp w in (elim dir [ none ↦ err no_temp_dir | some d ↦ ok d ], w')

  unfoldable pub full_path : Text → Task Text
  full_path path w = (elim (host.abs w path) [ none ↦ err no_abs_path | some p ↦ ok p ], w)

  -- `createKustomization`
  unfoldable pub found_resources : Text → Bool → Task (List Text)
  unfolding detect_resources
  found_resources path single_file w =
      (detect_resources host.parses single_file (host.entries w path), w)

  unfoldable pub encoded : List Text → Task Text
  encoded paths w =
      (elim (host.marshal paths) [ none ↦ err cannot_encode | some content ↦ ok content ], w)

  unfoldable pub create_kustomization : Text → Bool → Task (Unit {0})
  unfolding found_resources encoded attempt
  create_kustomization path single_file = do
    paths ← found_resources path single_file
    content ← encoded paths
    attempt (host.write_file (join_path path default_name) content) cannot_write

  -- The build itself, under the mutex of the package
  unfoldable pub run_kustomizer : Text → Task host.ResMap
  run_kustomizer path w =
      let (built, w') = host.run path w in
      (elim built [ none ↦ err run_failed | some m ↦ ok m ], w')

  -- With a kustomization made at `path`; `kfile` is removed when all is done.
  unfoldable pub with_kustomization : Text → Text → Bool → Task host.ResMap
  unfolding create_kustomization run_kustomizer
  with_kustomization kfile path single_file w =
      let both : Task host.ResMap = (do
        _ ← create_kustomization path single_file
        run_kustomizer path) in
      let (r, w') = both w in (r, host.remove kfile w')

  unfoldable pub fill_from_stdin : Text → Task (Unit {0})
  unfolding attempt
  fill_from_stdin dir = do
    _ ← attempt (host.open_new (join_path dir (codes "stdin.yaml"))) no_stdin_file
    attempt (host.copy_stdin (join_path dir (codes "stdin.yaml"))) cannot_copy_stdin

  unfoldable pub fill_from_file : Text → Text → Task (Unit {0})
  unfolding attempt full_path
  fill_from_file path dir = do
    target ← full_path path
    attempt (host.make_symlink target (join_path dir (base path))) cannot_link

  -- A single file, in a directory of its own: that is removed at the end if it was filled.
  unfoldable pub in_temp_dir : Text → (Text → Task (Unit {0})) → Task host.ResMap
  unfolding new_temp_dir with_kustomization
  in_temp_dir kfile fill = do
    dir ← new_temp_dir
    _ ← fill dir
    λ w. let (r, w') = with_kustomization kfile dir true w in (r, host.remove_all dir w')

  -- The case where there is no kustomization file, for what `os.Stat` says of the path
  unfoldable pub build_other : Text → Option Bool → Task host.ResMap
  unfolding in_temp_dir fill_from_stdin fill_from_file with_kustomization text_eq
  build_other path none w = (err cannot_stat, w)
  build_other path (some is_dir) w =
      let kfile = join_path path default_name in
      if path == codes "/dev/stdin" || path == codes "-"
      then in_temp_dir kfile fill_from_stdin w
      else if not is_dir
      then in_temp_dir kfile (fill_from_file path) w
      else with_kustomization kfile path false w

  -- `Kustomize`
  unfoldable pub kustomize : Text → Task host.ResMap
  unfolding build_other run_kustomizer
  kustomize path w = elim (host.stat w (join_path path default_name)) [
    | some _ ↦ run_kustomizer path w
    | none ↦ build_other path (host.stat w path) w
  ]
