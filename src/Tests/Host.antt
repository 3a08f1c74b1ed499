-- ===== src/Tests/Host.antt =====
-- A small file system with one chart, for the tests of the builders.
use flux_build.Base.{
  ℕ, ◌+◌, true, false, not, Option, none, some, [], ◌∷◌, ◌++◌, ◌==◌, nat_eq, arith, if◌then◌else◌,
  length, ◌≡◌, refl, inl, inr, Option-cases,
}
use flux_build.Base.Paths.{join_path}
use flux_build.Base.Results.{ok}
use flux_build.Base.Text.{Text, codes, text_eq, text_iff, is_empty}
use flux_build.Chart.Host.{
  Metadata, Chart, content, Header, Archive, end, next, missing, found, no_file, contents, Host,
}
use flux_build.Chart.Metadata.{values_file}
use flux_build.Chart.Packages.Atomic.{FileLaws}
use flux_build.Chart.Packages.Stored.{PathLaws}
use flux_build.Chart.Remote.{Downloader}
use flux_build.Chart.Reference.{BuildOptions, Build, empty_build}
use flux_build.Repository.Versions.{ChartVersion}

abbrev pub Files : Type 0
Files = Text → Option Text

abbrev pub put : Text → Text → Files → Files
put name bytes w path = if path == name then some bytes else w path

abbrev pub podinfo : Metadata
podinfo = record {
  name = codes "podinfo";
  version = codes "1";
  api_version = codes "v1";
  dependencies = [];
}

abbrev pub podinfo_chart : Chart ℕ
podinfo_chart = record {
  metadata = podinfo;
  lock = none;
  raw = record { name = values_file; content = codes "x" } ∷ [];
  files = [];
  values = 1;
  dependencies = [];
}

abbrev pub podinfo_header : Header
podinfo_header = record { kind = content; name = codes "podinfo/Chart.yaml"; size = 7 }

abbrev pub podinfo_archive : Archive
podinfo_archive = next podinfo_header (some (codes "podinfo")) end

abbrev pub files : Host ℕ
files = record {
  World = Files;
  stat = λ w p. elim (w p) [ none ↦ missing | some bytes ↦ found false true (length bytes) ];
  read_file = λ w p. elim (w p) [ none ↦ no_file | some bytes ↦ contents bytes ];
  untar = λ t. if t == codes "chart" then some podinfo_archive else none;
  unmarshal = λ t m. some (record m { name = t; version = codes "1" });
  is_valid = λ m. not (is_empty m.name);
  no_values = 0;
  is_no_values = λ v. v == 0;
  encode = λ v. some (v ∷ []);
  read_values = λ t. some (length t);
  merge_maps = λ a b. a + b;
  load_archive = λ t. if t == codes "chart" then some podinfo_chart else none;
  load_path = λ w root p. some podinfo_chart;
  secure_join = λ w root p. some (join_path root p);
  create_temp = λ pattern w. (some (codes "/tmp/chart"), put (codes "/tmp/chart") [] w);
  write = λ name bytes w. (true, put name bytes w);
  close = λ w name. true;
  remove = λ name w path. if path == name then none else w path;
  rename = λ from to w. (true, λ path. if path == to then w from else w path);
  mkdir_temp = λ pattern w. (some (codes "/tmp/dir"), w);
  remove_all = λ name w. w;
  save = λ c dir w. (some (codes "/tmp/dir/chart"), put (codes "/tmp/dir/chart") (codes "chart") w);
  create_file = λ path w. (true, put path [] w);
  open_file = λ w path. true;
  transfer = λ from to w. elim (w from) [ none ↦ (false, w) | some bytes ↦ (true, put to bytes w) ];
  close_file = λ path w. (true, w);
}

abbrev pub content_of : Files → Text → Option Text
content_of w path = w path

pub file_laws : FileLaws files content_of
file_laws = record {
  create-other =
      λ pattern w name path created other. ground (arith, text_iff path (codes "/tmp/chart"));
  create-failed = λ pattern w path failed. cc;
  write-written = λ name bytes w written. ground (arith, text_iff name name);
  write-other = λ name bytes w path other. ground (arith, text_iff path name);
  rename-moved = λ from to w moved. ground (arith, text_iff to to);
  remove-other = λ name w path other. ground (arith, text_iff path name);
}

transferred :
    (from to : Text) (w : Files)
    → (files.transfer from to w).0 ≡ true
    → content_of (files.transfer from to w).1 to ≡ content_of w from
transferred from to w copied = elim (Option-cases (w from)) [
  | inl nothing ↦ absurd (ground (arith, nothing))
  | inr (bytes, there) ↦ ground (arith, there, text_iff to to)
]

-- `/out` is none of the temporary files.
pub path_laws : PathLaws files content_of (λ c. codes "chart") (codes "/out")
path_laws = record {
  files = file_laws;
  temp-apart =
      λ pattern name w created same. ground (arith, text_iff (codes "/out") (codes "/tmp/chart"));
  save-written = λ c dir name w saved. ground (arith, text_iff (codes "/tmp/dir/chart") name);
  temp_dir-apart = λ pattern dir w w' made. refl;
  create-other = λ file path w other. ground (arith, text_iff path file);
  transfer-copied = λ from to w copied. transferred from to w copied;
  close-same = λ file path w. refl;
}

abbrev pub podinfo_version : ChartVersion
podinfo_version = record {
  name = codes "podinfo";
  version = codes "1";
  api_version = codes "v1";
  urls = [];
  created = 0;
}

abbrev pub downloader : Downloader Files
downloader = record {
  get_chart_version = λ name version w. (ok podinfo_version, w);
  verify_chart = λ cv w. (true, w);
  download_chart = λ cv w. (some (codes "chart"), w);
  clear = λ w. (true, w);
}

abbrev pub set_metadata : Text → Text → Option Text
set_metadata version metadata = some (version ++ (b'+' ∷ metadata))

abbrev pub no_files : Files
no_files path = none

abbrev pub options : BuildOptions
options = record {
  version_metadata = [];
  values_files = [];
  cached_chart = [];
  force = false;
  verify = true;
}

abbrev pub podinfo_build : Build
podinfo_build = record empty_build {
  name = codes "podinfo";
  version = codes "1";
  path = codes "/out";
}
