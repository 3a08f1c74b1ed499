-- ===== src/Chart/Dependencies.antt =====
-- internal/helm/chart/dependency_manager.go: the dependencies that a chart lacks, and where they come
-- from.
pub mod Missing
pub mod Resolved
pub mod Fetch
pub mod Group
use flux_build.Base.{
  ℕ, Bool, true, false, not, ◌&&◌, ◌||◌, Option, none, some, List, [], ◌∷◌, ◌==◌, nat_eq,
  if◌then◌else◌, any, length, map,
}
use flux_build.Base.Dict.{Dict, lookup, insert}
use flux_build.Base.Exec.{Exec, pure, fail, lift, ◌>>=◌}
use flux_build.Base.Paths.{join_path}
use flux_build.Base.Results.{Result, ok, err, map_err}
use flux_build.Base.Text.{Text, codes, text_eq, is_empty, has_prefix}
use flux_build.Auth.Types.{UrlLibrary}
use flux_build.Chart.Host.{Dependency, Metadata, Chart, Host, missing, stat_failed, found}
use flux_build.Chart.Reference.{LocalReference, Reference, local_ref, remote_ref}
use flux_build.Chart.Remote.{Downloader}
use flux_build.Repository.Urls.{UrlError, normalize_url, validate_dep_url}

pub data DependencyError : Type 0 where
  no_local_reference bad_local_url outside no_chart stat_error : DependencyError
  not_local bad_constraint load_failed bad_version no_valid_version : Text → DependencyError
  bad_url : UrlError → DependencyError
  no_repository callback_failed no_version download_failed : Text → DependencyError
  nil_downloader : DependencyError  -- a call of a method of nil, which panics

-- The name under which a dependency is asked for
unfoldable pub key_of : Dependency → Text
key_of dep = if is_empty dep.alias then dep.name else dep.alias

-- `isLocalDep`
unfoldable pub is_local_dep : Dependency → Bool
is_local_dep dep = is_empty dep.repository || has_prefix dep.repository (codes "file://")

unfoldable pub has_name : Text → List Metadata → Bool
has_name name current = any (λ m. m.name == name) current

unfoldable pub missing_from :
    List Metadata → Dict Text Dependency → List Dependency → Dict Text Dependency
missing_from current so_far [] = so_far
missing_from current so_far (dep ∷ deps) =
    missing_from current
      (if has_name (key_of dep) current then so_far else insert (key_of dep) dep so_far) deps

-- `collectMissing`
unfoldable pub collect_missing : List Metadata → List Dependency → Dict Text Dependency
unfolding missing_from has_name key_of
collect_missing current reqs =
    if length current == length reqs then [] else missing_from current [] reqs

-- A dependency manager: a downloader may be nil. `concurrent` is 0 for any number that is not positive.
pub record DependencyManager (W : Type 0) : Type 0 where
  pub downloaders : Dict Text (Option (Downloader W))
  pub get_chart_downloader : Option (Text → W → Option (Downloader W) × W)
  pub concurrent : ℕ

pub data DependencyManagerOption (W : Type 0) : Type 0 where
  with_repositories : Dict Text (Option (Downloader W)) → DependencyManagerOption W
  with_downloader_callback : (Text → W → Option (Downloader W) × W) → DependencyManagerOption W
  with_concurrent : ℕ → DependencyManagerOption W

-- What the manager and the builders change
pub record Session (W : Type 0) : Type 0 where
  pub manager : DependencyManager W
  pub world : W

unfoldable pub dependency_url : UrlLibrary → Text → Result DependencyError Text
dependency_url urls url = elim (normalize_url urls url) [
  | err e ↦ err (bad_url e)
  | ok n ↦ elim (validate_dep_url n) [ err e ↦ err (bad_url e) | ok _ ↦ ok n ]
]

module _ {W : Type 0} where
  apply : DependencyManagerOption W → DependencyManager W → DependencyManager W
  apply (with_repositories ds) dm = record dm { downloaders = ds }
  apply (with_downloader_callback f) dm = record dm { get_chart_downloader = some f }
  apply (with_concurrent n) dm = record dm { concurrent = n }

  apply_all : List (DependencyManagerOption W) → DependencyManager W → DependencyManager W
  unfolding apply
  apply_all [] dm = dm
  apply_all (o ∷ os) dm = apply_all os (apply o dm)

  -- `NewDependencyManager`
  unfoldable pub new_dependency_manager : List (DependencyManagerOption W) → DependencyManager W
  unfolding apply_all
  new_dependency_manager os =
      apply_all os (record { downloaders = []; get_chart_downloader = none; concurrent = 0 })

  -- `Clear`: whether all downloaders could be cleared; nil ones are passed over.
  unfoldable pub clear_all : Dict Text (Option (Downloader W)) → W → Bool × W
  clear_all [] w = (true, w)
  clear_all ((url, none) ∷ ds) w = clear_all ds w
  clear_all ((url, some d) ∷ ds) w =
      let (good, w') = d.clear w in let (rest, w'') = clear_all ds w' in (good && rest, w'')

  unfoldable pub clear : (Session W) → Bool × (Session W)
  unfolding clear_all
  clear s =
      let (good, w) = clear_all s.manager.downloaders s.world in (good, record s { world = w })

  unfoldable pub put : Text → Option (Downloader W) → (Session W) → (Session W)
  put url d s = record s {
    manager = record s.manager { downloaders = insert url d s.manager.downloaders };
  }

  -- The downloader of a URL that has none yet: what the callback returns goes into the map, nil on
  -- an error too.
  unfoldable pub call_back : Text → Exec (Session W) DependencyError (Option (Downloader W))
  unfolding put
  call_back url s = elim s.manager.get_chart_downloader [
    | none ↦ (err (no_repository url), s)
    | some f ↦
        let (d, w) = f url s.world in
        (
          elim d [ none ↦ err (callback_failed url) | some repo ↦ ok (some repo) ],
          put url d (record s { world = w }),
        )
  ]

  unfoldable pub downloader_of : Text → Exec (Session W) DependencyError (Option (Downloader W))
  unfolding call_back
  downloader_of url s = elim (lookup url s.manager.downloaders) [
    | some d ↦ (ok d, s)
    | none ↦ call_back url s
  ]

  -- `resolveRepository`
  unfoldable pub resolve_repository :
      UrlLibrary → Text → Exec (Session W) DependencyError (Option (Downloader W))
  unfolding downloader_of dependency_url
  resolve_repository urls url = do n ← lift (dependency_url urls url); downloader_of n
