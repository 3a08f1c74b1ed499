-- ===== src/Chart/Host.antt =====
-- What internal/helm/chart uses of Helm, of YAML, of the archive formats and of the file system.
use flux_build.Base.{ℕ, Bool, Option, List}
use flux_build.Base.Text.{Text}

-- chart.Dependency and chart.Metadata of Helm, with the fields that are read
pub record Dependency : Type 0 where
  pub name : Text
  pub version : Text
  pub repository : Text
  pub alias : Text

pub record Metadata : Type 0 where
  pub name : Text
  pub version : Text
  pub api_version : Text
  pub dependencies : List Dependency

pub record ChartFile : Type 0 where
  pub name : Text
  pub content : Text

-- chart.Chart of Helm: `raw` and `files` are lists of pointers to different files; of the charts
-- that it depends on the metadata is read. `lock` are the dependencies of the lock file.
pub record Chart (V : Type 0) : Type 0 where
  pub metadata : Metadata
  pub lock : Option (List Dependency)
  pub raw : List ChartFile
  pub files : List ChartFile
  pub values : V
  pub dependencies : List Metadata

-- A header of a tar archive: a directory, one of the two kinds of extension headers, or another
pub data EntryKind : Type 0 where
  directory extension_header content : EntryKind

pub record Header : Type 0 where
  pub kind : EntryKind
  pub name : Text
  pub size : ℕ

-- What the calls of `tar.Reader.Next` give: headers, each with what `io.ReadAll` reads of it, up to
-- the end of the archive or an error
pub data Archive : Type 0 where
  end broken : Archive
  next : Header → Option Text → Archive → Archive

-- `os.Stat`, and `os.ReadFile`
pub data Stat : Type 0 where
  missing stat_failed : Stat
  found : (is_dir is_regular : Bool) → (size : ℕ) → Stat

pub data Read : Type 0 where
  no_file read_failed : Read
  contents : Text → Read

-- The world is the file system and what else the calls may change. `untar` opens a gzipped archive;
-- `unmarshal` reads YAML over metadata; `is_valid` is `Metadata.Validate`; `encode` and `read_values`
-- are for values; `load_archive` and `load_path` are of package secureloader, the latter under a root;
-- `save` is `chartutil.Save` into a directory; `rename` is
-- `RenameWithFallback` of internal/fs; `secure_join` is that of filepath-securejoin; `transfer` is `ReadFrom` of
-- an open file into another.
pub record Host (V : Type 0) : Type 1 where
  pub World : Type 0
  pub stat : World → Text → Stat
  pub read_file : World → Text → Read
  pub untar : Text → Option Archive
  pub unmarshal : Text → Metadata → Option Metadata
  pub is_valid : Metadata → Bool
  pub no_values : V
  pub is_no_values : V → Bool
  pub encode : V → Option Text
  pub read_values : Text → Option V
  pub merge_maps : V → V → V
  pub load_archive : Text → Option (Chart V)
  pub load_path : World → Text → Text → Option (Chart V)
  pub secure_join : World → Text → Text → Option Text
  pub create_temp : Text → World → Option Text × World
  pub write : Text → Text → World → Bool × World
  pub close : World → Text → Bool
  pub remove : Text → World → World
  pub rename : Text → Text → World → Bool × World
  pub mkdir_temp : Text → World → Option Text × World
  pub remove_all : Text → World → World
  pub save : Chart V → Text → World → Option Text × World
  pub create_file : Text → World → Bool × World
  pub open_file : World → Text → Bool
  pub transfer : Text → Text → World → Bool × World
  pub close_file : Text → World → Bool × World
