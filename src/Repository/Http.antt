-- ===== src/Repository/Http.antt =====
-- internal/helm/repository/chart_repository.go: `ChartRepository` and the files that it keeps. A
-- method that takes the lock is one atomic function.
pub mod Fresh
use flux_build.Base.{
  ℕ, zero, suc, Bool, true, false, not, Option, none, some, List, [], ◌∷◌, length, ltb, ◌==◌, Eq,
  if◌then◌else◌,
}
use flux_build.Base.Dict.{Dict, lookup, insert, erase}
use flux_build.Base.Exec.{Exec, pure, fail, lift, ◌>>=◌, ◌>>◌}
use flux_build.Base.Paths.{join_path}
use flux_build.Base.Results.{Result, ok, err, map_err}
use flux_build.Base.Text.{Text, codes, text_eq, is_empty}
use flux_build.Auth.Types.{Url, UrlLibrary, ClientOption, TlsConfig}
use flux_build.Repository.Index.{
  IndexFile, IndexError, Entry, nil, no_metadata, entry, index_from_bytes,
}
use flux_build.Repository.Sorting.{Sorter}
use flux_build.Repository.Versions.{Semver, ChartVersion, VersionError, get_chart_version}

pub record File : Type 0 where
  pub is_regular : Bool
  pub content : Text

pub record ChartRepository : Type 0 where
  pub url : Text
  pub path : Text
  pub index : Option IndexFile
  pub options : List ClientOption
  pub tls_config : Option TlsConfig
  pub cached : Bool
  pub digests : Dict Text Text

-- The repository and the file system
pub record State : Type 0 where
  pub repo : ChartRepository
  pub disk : Dict Text File

pub data HttpError : Type 0 where
  no_such_file not_regular too_large unreadable : HttpError
  bad_index : IndexError → HttpError
  no_cache_path no_temp_file close_failed remove_failed not_implemented : HttpError
  bad_repository_url : Text → HttpError
  get_failed : Text → HttpError
  no_urls : Text → HttpError
  bad_reference : Text → HttpError

-- The `ErrExternal` and `ErrReference` of errors.go
pub data FetchError : Type 0 where
  external : HttpError → FetchError
  reference : VersionError → FetchError

-- What the repository uses of Go, of its HTTP client and of Helm. `create_temp` is the name of a new
-- file, `can_read`, `can_close` and `can_remove` are the answers of the system, `get` that of the
-- server, and `from_reader` the digest by an algorithm.
pub record HttpLibrary : Type 0 where
  pub urls : UrlLibrary
  pub create_temp : Dict Text File → Option Text
  pub can_read : Text → Bool
  pub can_close : Text → Bool
  pub can_remove : Text → Bool
  pub get : Text → List ClientOption → Option TlsConfig → Option Text
  pub resolve_reference : Text → Text → Option Text
  pub validate : ChartVersion → Option ChartVersion
  pub unmarshal : Text → Option IndexFile
  pub sort_entries : IndexFile → IndexFile
  pub from_reader : Text → Text → Option Text

-- `helm.MaxIndexSize`, `50 << 20`
abbrev pub max_index_size : ℕ
max_index_size = 52428800

-- `io.LimitReader`
unfoldable pub take {ℓ} : {A : Type ℓ} → ℕ → List A → List A
take zero xs = []
take (suc n) [] = []
take (suc n) (x ∷ xs) = x ∷ take n xs

abbrev write : Text → File → State → State
write name f s = record s { disk = insert name f s.disk }

abbrev remove_file : Text → State → State
remove_file name s = record s { disk = erase name s.disk }

-- `NewChartRepository`, once the URL parsed and has a getter
unfoldable pub new_repository : Text → Text → List ClientOption → Option TlsConfig → ChartRepository
new_repository url path options tls_config = record {
  url = url;
  path = path;
  index = none;
  options = options;
  tls_config = tls_config;
  cached = false;
  digests = [];
}

module _ (lib : HttpLibrary) where
  open lib use {
    urls, create_temp, can_read, can_close, can_remove, get, resolve_reference, from_reader,
  }

  -- The checks of `IndexFromFile` on a file that is there
  index_of_file : Text → File → Result HttpError IndexFile
  index_of_file path f =
      if not f.is_regular
      then err not_regular
      else if ltb max_index_size (length f.content)
      then err too_large
      else if not (can_read path)
      then err unreadable
      else map_err bad_index
          (index_from_bytes lib.validate lib.unmarshal lib.sort_entries f.content)

  -- `IndexFromFile`
  unfoldable pub index_from_file : Text → Dict Text File → Result HttpError IndexFile
  unfolding index_of_file
  index_from_file path disk = elim (lookup path disk) [
    | none ↦ err no_such_file
    | some f ↦ index_of_file path f
  ]

  -- `HasIndex`, `HasFile`
  unfoldable pub has_index : State → Bool
  has_index s = elim s.repo.index [ none ↦ false | some _ ↦ true ]

  unfoldable pub has_file : State → Bool
  has_file s =
      if is_empty s.repo.path
      then false
      else (elim (lookup s.repo.path s.disk) [ none ↦ false | some f ↦ f.is_regular ])

  -- `invalidate`, `Invalidate`
  unfoldable pub invalidate : State → State
  invalidate s = record s { repo = record s.repo { digests = [] } }

  -- `DownloadIndex`: what it writes
  unfoldable pub download_index : ChartRepository → Result HttpError Text
  download_index r = elim (urls.parse r.url) [
    | none ↦ err (bad_repository_url r.url)
    | some u ↦
        let at = urls.show (record u {
          raw_path = join_path u.raw_path (codes "index.yaml");
          path = join_path u.path (codes "index.yaml");
        }) in
        elim (get at r.options r.tls_config) [ none ↦ err (get_failed at) | some text ↦ ok text ]
  ]

  -- The critical section of `CacheIndex`
  adopt : Text → State → State
  adopt name s = record s {
    repo = record s.repo { path = name; index = none; cached = true; digests = [] };
  }

  -- `CacheIndex`, from the name of the temporary file on
  cache_at : Text → Exec State HttpError (Unit {0})
  unfolding adopt
  cache_at name s = elim (download_index s.repo) [
    | err e ↦ (err e, remove_file name (write name (record { is_regular = true; content = [] }) s))
    | ok text ↦
        let written = write name (record { is_regular = true; content = text }) s in
        if can_close name
        then (ok tt, adopt name written)
        else (err close_failed, remove_file name written)
  ]

  unfoldable pub cache_index : Exec State HttpError (Unit {0})
  unfolding cache_at
  cache_index s = elim (create_temp s.disk) [
    | none ↦ (err no_temp_file, s)
    | some name ↦ cache_at name s
  ]

  -- `LoadFromPath`
  unfoldable pub load_from_path : Exec State HttpError (Unit {0})
  load_from_path s =
      if is_empty s.repo.path
      then (err no_cache_path, s)
      else (elim (index_from_file s.repo.path s.disk) [
        | err e ↦ (err e, s)
        | ok i ↦ (ok tt, record s { repo = record s.repo { index = some i } })
      ])

  -- `StrategicallyLoadIndex`
  unfoldable pub strategically_load_index : Exec State HttpError (Unit {0})
  strategically_load_index s =
      if has_index s
      then (ok tt, s)
      else if has_file s
      then load_from_path s
      else (cache_index >> load_from_path) s

  -- `Digest`: the empty text where there is none
  digest_of : Text → Dict Text Text → Text
  digest_of a digests = elim (lookup a digests) [ none ↦ [] | some d ↦ d ]

  read_digest : Text → State → Option Text
  read_digest a s = elim (lookup s.repo.path s.disk) [
    | none ↦ none
    | some f ↦ if can_read s.repo.path then from_reader a (take max_index_size f.content) else none
  ]

  with_digest : Text → State → State
  unfolding read_digest
  with_digest a s = elim (lookup a s.repo.digests) [
    | some _ ↦ s
    | none ↦ elim (read_digest a s) [
      | none ↦ s
      | some d ↦ record s { repo = record s.repo { digests = insert a d s.repo.digests } }
    ]
  ]

  unfoldable pub digest : Text → State → Text × State
  unfolding with_digest digest_of
  digest a s =
      if has_file s then (digest_of a (with_digest a s).repo.digests, with_digest a s) else ([], s)

  -- `Clear`: if the file cannot be removed, only the index is gone.
  unfoldable pub clear : Exec State HttpError (Unit {0})
  clear s =
      let emptied = record s { repo = record s.repo { index = none } } in
      if s.repo.cached
      then (if can_remove s.repo.path
          then (
            ok tt,
            record (remove_file s.repo.path emptied) {
              repo = record emptied.repo { path = []; cached = false; digests = [] };
            },
          )
          else (err remove_failed, emptied))
      else (ok tt, invalidate emptied)

  -- `DownloadChart`
  unfoldable pub download_chart : ChartRepository → ChartVersion → Result HttpError Text
  download_chart r chart = elim chart.urls [
    | [] ↦ err (no_urls chart.name)
    | ref ∷ _ ↦ elim (resolve_reference r.url ref) [
      | none ↦ err (bad_reference ref)
      | some at ↦ elim (get at r.options r.tls_config) [
        | none ↦ err (get_failed at)
        | some b ↦ ok b
      ]
    ]
  ]

  -- `VerifyChart`
  unfoldable pub verify_chart : ChartVersion → Result HttpError (Unit {0})
  verify_chart chart = err not_implemented

-- The versions of the entries; an index that was loaded has no other entries.
unfoldable pub versions_of : List Entry → List ChartVersion
versions_of [] = []
versions_of (nil ∷ es) = versions_of es
versions_of (no_metadata ∷ es) = versions_of es
versions_of (entry cv ∷ es) = cv ∷ versions_of es

unfoldable pub entries_of : Dict Text (List Entry) → Dict Text (List ChartVersion)
unfolding versions_of
entries_of [] = []
entries_of ((name, es) ∷ more) = (name, versions_of es) ∷ entries_of more

-- `GetChartVersion`
unfoldable pub find_chart_version :
    (http : HttpLibrary) (lib : Semver) (sorter : Sorter (lib.Version × ChartVersion))
    → (name ver : Text) → Exec State FetchError ChartVersion
find_chart_version http lib sorter name ver s =
    let (r, s') = strategically_load_index http s in
    elim r [
      | err e ↦ (err (external e), s')
      | ok _ ↦ (
        map_err reference (
            get_chart_version lib sorter
              (elim s'.repo.index [ none ↦ none | some i ↦ some (entries_of i.entries) ]) name ver),
        s',
      )
    ]
