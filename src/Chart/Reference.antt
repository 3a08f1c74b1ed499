-- ===== src/Chart/Reference.antt =====
-- internal/helm/chart/builder.go: references, build options and the result of a build.
pub mod Names
pub mod Escaped
use flux_build.Base.{
  ℕ, zero, suc, ◌+◌, ◌-◌, ◌/◌, ◌%◌, Bool, true, false, not, ◌&&◌, ◌||◌, List, [], ◌∷◌, ◌++◌, Eq,
  ◌==◌, nat_eq, ◌↔◌, ◌≡◌, arith, if◌then◌else◌, leb, length, ltb,
}
use flux_build.Base.Text.{Text, codes, text_eq, text_iff, is_empty}
use flux_build.Base.Paths.{is_abs}
use flux_build.Base.Results.{Result, ok, err}

pub record LocalReference : Type 0 where
  pub work_dir : Text
  pub path : Text

pub record RemoteReference : Type 0 where
  pub name : Text
  pub version : Text

pub data Reference : Type 0 where
  local_ref : LocalReference → Reference
  remote_ref : RemoteReference → Reference

-- The errors of `Validate`.
pub data ReferenceError : Type 0 where
  no_work_dir no_path work_dir_not_absolute path_not_relative no_name : ReferenceError
  invalid_name : Text → ReferenceError

-- `LocalReference.Validate`
unfoldable pub validate_local : LocalReference → Result ReferenceError (Unit {0})
unfolding is_abs
validate_local r =
    if is_empty r.work_dir
    then err no_work_dir
    else if is_empty r.path
    then err no_path
    else if not (is_abs r.work_dir)
    then err work_dir_not_absolute
    else if is_abs r.path
    then err path_not_relative
    else ok tt

-- The class `[-a-z0-9]` of the pattern of chart names.
unfoldable pub is_name_byte : ℕ → Bool
is_name_byte b = b == b'-' || (leb b'a' b && leb b b'z') || (leb b'0' b && leb b b'9')

-- The pattern `^([-a-z0-9]+/?)+$` as an automaton: a slash may come only behind a byte of the class.
matches_from : Bool → Text → Bool
matches_from may_slash [] = true
matches_from may_slash (b ∷ s) =
    (is_name_byte b || (may_slash && b == b'/')) && matches_from (is_name_byte b) s

unfoldable pub matches_name : Text → Bool
unfolding matches_from is_name_byte
matches_name s = not (is_empty s) && matches_from false s

-- `RemoteReference.Validate`
unfoldable pub validate_remote : RemoteReference → Result ReferenceError (Unit {0})
validate_remote r =
    if is_empty r.name
    then err no_name
    else if not (matches_name r.name)
    then err (invalid_name r.name)
    else ok tt

unfoldable pub validate : Reference → Result ReferenceError (Unit {0})
validate (local_ref r) = validate_local r
validate (remote_ref r) = validate_remote r

-- `RemoteReference.String`: the name, a percent sign and the version
unfoldable pub to_text : RemoteReference → Text
to_text r = r.name ++ (b'%' ∷ r.version)

-- `url.PathEscape`: the bytes that a path segment may hold stay, and any other becomes `%XX`.
unfoldable pub is_path_byte : ℕ → Bool
is_path_byte b =
    (leb b'a' b && leb b b'z')
    || (leb b'A' b && leb b b'Z')
    || (leb b'0' b && leb b b'9')
    || b == b'-'
    || b == b'_'
    || b == b'.'
    || b == b'~'
    || b == b'$'
    || b == b'&'
    || b == b'+'
    || b == b':'
    || b == b'='
    || b == b'@'

unfoldable pub upper_hex : ℕ → ℕ
upper_hex d = if ltb d 10 then b'0' + d else b'A' + (d - 10)

unfoldable pub path_escape : Text → Text
unfolding is_path_byte upper_hex
path_escape [] = []
path_escape (b ∷ s) =
    (if is_path_byte b then b ∷ [] else b'%' ∷ upper_hex (b / 16) ∷ upper_hex (b % 16) ∷ [])
    ++ path_escape s

-- `RemoteReference.WithEscapedName`
unfoldable pub with_escaped_name : RemoteReference → RemoteReference
unfolding path_escape
with_escaped_name r = record r { name = path_escape r.name }

pub record BuildOptions : Type 0 where
  pub version_metadata : Text
  pub values_files : List Text
  pub cached_chart : Text
  pub force : Bool
  pub verify : Bool

pub record Build : Type 0 where
  pub name : Text
  pub version : Text
  pub path : Text
  pub values_files : List Text
  pub resolved_dependencies : ℕ
  pub packaged : Bool

abbrev pub empty_build : Build
empty_build = record {
  name = [];
  version = [];
  path = [];
  values_files = [];
  resolved_dependencies = 0;
  packaged = false;
}

-- `HasMetadata` and `Complete`, of a build that is not nil
unfoldable pub has_metadata : Build → Bool
has_metadata b = not (is_empty b.name) && not (is_empty b.version)

unfoldable pub complete : Build → Bool
unfolding has_metadata
complete b = has_metadata b && not (is_empty b.path)
