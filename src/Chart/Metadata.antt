-- ===== src/Chart/Metadata.antt =====
-- internal/helm/chart/metadata.go: the metadata of a chart, from a directory or an archive, and the
-- values that replace those of the chart.
pub mod Inside
pub mod Values
use flux_build.Base.{
  ℕ, Bool, true, false, not, ◌&&◌, ◌||◌, Option, none, some, List, [], ◌∷◌, ◌++◌, map, ◌==◌, Eq,
  nat_eq, if◌then◌else◌, length, any, ltb, leb,
}
use flux_build.Base.Paths.{is_abs, clean, join_path}
use flux_build.Base.Results.{Result, ok, err, ◌>>=◌}
use flux_build.Base.Text.{Text, codes, text_eq, is_empty, has_prefix, split, join}
use flux_build.Chart.Host.{
  Metadata, ChartFile, Chart, EntryKind, directory, extension_header, content, Header, Archive, end,
  broken, next, Stat, missing, stat_failed, found, Read, no_file, read_failed, contents, Host,
}

pub data MetadataError : Type 0 where
  no_archive archive_is_dir archive_too_large unreadable not_gzip broken_archive : MetadataError
  absolute_path outside_base parent_path drive_path : Text → MetadataError
  file_too_large bad_yaml : Text → MetadataError
  no_chart_file requirements_is_dir no_values_file encode_failed : MetadataError

abbrev pub chart_file : Text
chart_file = codes "Chart.yaml"

abbrev pub requirements_file : Text
requirements_file = codes "requirements.yaml"

abbrev pub values_file : Text
values_file = codes "values.yaml"

-- `MaxChartSize` and `MaxChartFileSize` of internal/helm: `10 << 20` and `5 << 20`
abbrev pub max_chart_size : ℕ
max_chart_size = 10485760

abbrev pub max_chart_file_size : ℕ
max_chart_file_size = 5242880

abbrev pub no_metadata : Metadata
no_metadata = record { name = []; version = []; api_version = []; dependencies = [] }

unfoldable pub with_api_version : Metadata → Metadata
with_api_version m = if is_empty m.api_version then record m { api_version = codes "v1" } else m

-- The pattern `^[a-zA-Z]:/`
unfoldable pub is_drive_path : Text → Bool
is_drive_path (c ∷ d ∷ e ∷ _) =
    ((leb b'a' c && leb c b'z') || (leb b'A' c && leb c b'Z')) && (d == b':' && e == b'/')
is_drive_path _ = false

-- The delimiter of an entry's name
unfoldable pub delimiter_of : Text → ℕ
delimiter_of name = if any (λ b. b == 92) name then 92 else b'/'

abbrev tail {ℓ} : {A : Type ℓ} → List A → List A
tail [] = []
tail (x ∷ xs) = xs

unfoldable pub replace_all : ℕ → ℕ → Text → Text
replace_all from to s = map (λ b. if b == from then to else b) s

-- The name of an entry below its first part, with slashes
unfoldable pub name_below : Text → Text
unfolding delimiter_of replace_all
name_below name = let d = delimiter_of name in replace_all d b'/' (join d (tail (split d name)))

-- The checks of a name
unfoldable pub checked_name : Text → Result MetadataError (Unit {0})
unfolding name_below is_drive_path
checked_name name =
    let n = clean (name_below name) in
    if is_abs (name_below name)
    then err (absolute_path name)
    else if n == codes "."
    then err (outside_base name)
    else if has_prefix n (codes "..")
    then err (parent_path name)
    else if is_drive_path n
    then err (drive_path name)
    else ok tt

module _ {V : Type 0} (host : Host V) where
  -- A file of the base directory that holds metadata
  unfoldable pub read_part :
      Option Metadata → Header → Option Text → Text → Result MetadataError (Option Metadata)
  read_part m h body part =
      if part == chart_file || part == requirements_file
      then (if ltb max_chart_file_size h.size then err (file_too_large h.name) else (elim body [
        | none ↦ err unreadable
        | some text ↦ elim (host.unmarshal text (elim m [ none ↦ no_metadata | some old ↦ old ])) [
          | none ↦ err (bad_yaml part)
          | some new ↦ ok (some (with_api_version new))
        ]
      ]))
      else ok m

  unfoldable pub in_base :
      Option Metadata → Header → Option Text → List Text → Result MetadataError (Option Metadata)
  unfolding read_part
  in_base m h body (base ∷ part ∷ []) = read_part m h body part
  in_base m h body _ = ok m

  -- One entry
  unfoldable pub read_entry :
      Option Metadata → Header → Option Text → Result MetadataError (Option Metadata)
  unfolding in_base checked_name
  read_entry m h body = elim h.kind [
    | directory ↦ ok m
    | extension_header ↦ ok m
    | content ↦ elim (checked_name h.name) [
      | err e ↦ err e
      | ok _ ↦ in_base m h body (split (delimiter_of h.name) h.name)
    ]
  ]

  -- The loop
  unfoldable pub read_archive : Option Metadata → Archive → Result MetadataError (Option Metadata)
  read_archive m end = ok m
  read_archive m broken = err broken_archive
  read_archive m (next h body rest) = read_entry m h body >>= λ m'. read_archive m' rest

  archive_metadata : Text → Result MetadataError Metadata
  unfolding read_archive
  archive_metadata bytes = elim (host.untar bytes) [
    | none ↦ err not_gzip
    | some archive ↦ elim (read_archive none archive) [
      | err e ↦ err e
      | ok none ↦ err no_chart_file
      | ok (some m) ↦ ok m
    ]
  ]

  open_archive : host.World → Text → Result MetadataError Metadata
  unfolding archive_metadata
  open_archive w archive = elim (host.read_file w archive) [
    | no_file ↦ err unreadable
    | read_failed ↦ err unreadable
    | contents bytes ↦ archive_metadata bytes
  ]

  -- `LoadChartMetadataFromArchive`
  unfoldable pub load_from_archive : host.World → Text → Result MetadataError Metadata
  unfolding open_archive
  load_from_archive w archive = elim (host.stat w archive) [
    | missing ↦ err no_archive
    | stat_failed ↦ err no_archive
    | found true _ size ↦ err archive_is_dir
    | found false _ size ↦
        if ltb max_chart_size size then err archive_too_large else open_archive w archive
  ]

  -- The checks of "requirements.yaml"
  checked_requirements : Stat → Result MetadataError (Unit {0})
  checked_requirements missing = ok tt
  checked_requirements stat_failed = err unreadable
  checked_requirements (found true _ size) = err requirements_is_dir
  checked_requirements (found false _ size) =
      if ltb max_chart_file_size size then err (file_too_large requirements_file) else ok tt

  with_requirements : Metadata → Read → Result MetadataError Metadata
  with_requirements m no_file = ok m
  with_requirements m read_failed = err unreadable
  with_requirements m (contents []) = ok m
  with_requirements m (contents (b ∷ s)) = elim (host.unmarshal (b ∷ s) m) [
    | none ↦ err (bad_yaml requirements_file)
    | some m' ↦ ok m'
  ]

  chart_of_dir : Read → Result MetadataError Metadata
  chart_of_dir (contents text) = elim (host.unmarshal text no_metadata) [
    | none ↦ err (bad_yaml chart_file)
    | some m ↦ ok (with_api_version m)
  ]
  chart_of_dir _ = err unreadable

  -- `LoadChartMetadataFromDir`
  unfoldable pub load_from_dir : host.World → Text → Result MetadataError Metadata
  unfolding checked_requirements with_requirements chart_of_dir
  load_from_dir w dir =
      let requirements = join_path dir requirements_file in
      do
        m ← chart_of_dir (host.read_file w (join_path dir chart_file))
        _ ← checked_requirements (host.stat w requirements)
        with_requirements m (host.read_file w requirements)

  -- `LoadChartMetadata`
  unfoldable pub load_metadata : host.World → Text → Result MetadataError Metadata
  load_metadata w path = elim (host.stat w path) [
    | missing ↦ err no_archive
    | stat_failed ↦ err no_archive
    | found true _ _ ↦ load_from_dir w path
    | found false _ _ ↦ load_from_archive w path
  ]

  -- The new text of the values file; no text for no values
  unfoldable pub encoded : V → Result MetadataError Text
  encoded values =
      if host.is_no_values values
      then ok []
      else (elim (host.encode values) [ none ↦ err encode_failed | some t ↦ ok t ])

  -- `reflect.DeepEqual` tells the nil slice of an untouched buffer from an empty one.
  unfoldable pub same_data : V → Text → Text → Bool
  same_data values old new = if host.is_no_values values then false else old == new

  unfoldable pub replace_file : Text → ChartFile → ChartFile
  replace_file text f = if f.name == values_file then record f { content = text } else f

  -- The first values file of `chart.Raw` is replaced, and all of `chart.Files`.
  unfoldable pub replace_first : Text → List ChartFile → List ChartFile
  replace_first text [] = []
  replace_first text (f ∷ fs) =
      let rest = replace_first text fs in
      if f.name == values_file then record f { content = text } ∷ fs else f ∷ rest

  unfoldable pub first_values : List ChartFile → Option ChartFile
  first_values [] = none
  first_values (f ∷ fs) =
      let rest = first_values fs in if f.name == values_file then some f else rest

  -- `OverwriteChartDefaultValues`: `none` is nil values
  unfoldable pub overwrite_default_values :
      Chart V → Option V → Result MetadataError (Option (Chart V))
  unfolding encoded same_data replace_file replace_first first_values
  overwrite_default_values c none = ok none
  overwrite_default_values c (some values) = encoded values >>= λ text. elim (first_values c.raw) [
    | none ↦ err no_values_file
    | some f ↦
        if same_data values f.content text
        then ok none
        else ok (
            some (record c {
              raw = replace_first text c.raw;
              files = map (replace_file text) c.files;
              values = values;
            }))
  ]
